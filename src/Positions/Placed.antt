-- ===== src/Positions/Placed.antt =====
-- src/execute.c, update_positions: the matches of a state and of its parents, the submatches of each,
-- and the styles, against the length of the text.
use Prim.Native.Nat.{max}
use regex_markup.Common.{
  if◌then◌else◌, ℕ, ◌+◌, ◌-◌, ◌≤◌, ◌<◌, ◌≡◌, List, [], ◌∷◌, Bool, true, false, arith, add32, sub32,
  i32, slt32, map, minus_one, inl, inr,
}
use regex_markup.Regex.{SubmatchSpec}
use regex_markup.Match.{Frame}
use regex_markup.Match.Found.{IsOffset, AllOffsets, IsFound}
use regex_markup.Ranges.{StyleRange}
use regex_markup.Positions.{
  shifted, update_range, update_spec, update_frame, update_positions, Marks,
}

-- The difference that the callers pass: `n` characters for those from `lo` up to `hi`.
abbrev pub difference : ℕ → ℕ → ℕ → ℕ
difference n lo hi = sub32 n (sub32 hi lo)

abbrev pub WithinText : ℕ → ℕ → ℕ → Type 0
WithinText len so eo = (so ≤ eo) × (eo ≤ len)

-- Each match is in the text, and each submatch is in it or unused.
abbrev pub FramesWithin : ℕ → List Frame → Type 0
FramesWithin len [] = Unit {0}
FramesWithin len (f ∷ fs) = IsFound len f × FramesWithin len fs

abbrev pub StylesWithin : ℕ → List StyleRange → Type 0
StylesWithin len [] = Unit {0}
StylesWithin len (r ∷ rs) = WithinText len r.so r.eo × StylesWithin len rs

-- The outermost match is the whole line.
abbrev pub EndsWithText : ℕ → List Frame → Type 0
EndsWithText len [] = ⊥
EndsWithText len ([] ∷ []) = ⊥
EndsWithText len ((m ∷ ms) ∷ []) = m.eo ≡ len
EndsWithText len (f ∷ g ∷ fs) = EndsWithText len (g ∷ fs)

-- A replacement in a line of less than 2 ^ 31 characters, before and after.
pub record Fits (len n lo hi : ℕ) : Type 0 where
  pub in_order : lo ≤ hi
  pub inside : hi ≤ len
  pub small : len + n < i32

module _ (len n lo hi so : ℕ) (fits : Fits len n lo hi) (from : so ≤ lo) where
  abbrev new_len : ℕ
  new_len = len + n - (hi - lo)

  pub shifted-max :
      (pos : ℕ) → pos ≤ len → shifted pos (difference n lo hi) so ≡ max (pos + n - (hi - lo)) so
  unfolding shifted
  shifted-max pos h =
      let k : ℕ = hi - lo in
      let removed : sub32 hi lo ≡ k = omega (arith, fits.in_order, fits.inside, fits.small) in
      rw removed (moved k (omega (arith, fits.inside)))
    where
      moved :
          (k : ℕ)
          → k ≤ len
          → (if slt32 so (add32 pos (sub32 n k)) then add32 pos (sub32 n k) else so)
            ≡ max (pos + n - k) so
      moved k le = ground (arith, fits.in_order, fits.inside, fits.small)

  update_spec-Within :
      (first : Bool) (m : SubmatchSpec)
      → WithinText len m.so m.eo
      → let m' = update_spec first so (difference n lo hi) m in WithinText new_len m'.so m'.eo
  unfolding update_spec
  update_spec-Within first m h = ground (
    arith,
    shifted-max m.so (omega arith),
    shifted-max m.eo (omega arith),
    fits.in_order,
    fits.inside,
  )

  -- An unused submatch, -1, is moved as well.
  unused-Within : shifted minus_one (difference n lo hi) so ≤ new_len
  unfolding shifted
  unused-Within =
      let k : ℕ = hi - lo in
      let removed : sub32 hi lo ≡ k = omega (arith, fits.in_order, fits.inside, fits.small) in
      rw removed (below k (omega (arith, fits.inside)) (omega (arith, fits.inside)))
    where
      below :
          (k : ℕ)
          → k ≤ len
          → so + k ≤ len
          → (if slt32 so (add32 minus_one (sub32 n k)) then add32 minus_one (sub32 n k) else so)
            ≤ len + n - k
      below k le start = ground (arith, fits.in_order, fits.inside, fits.small)

  update_spec-Offset :
      (m : SubmatchSpec)
      → IsOffset len m
      → IsOffset new_len (update_spec false so (difference n lo hi) m)
  unfolding update_spec
  update_spec-Offset m (inl (a, b)) =
      inr (rw (a, b) (ground (arith, unused-Within, fits.in_order, fits.inside, fits.small)))
  update_spec-Offset m (inr within) = inr (update_spec-Within false m within)

  update_specs-Offsets :
      (ms : List SubmatchSpec)
      → AllOffsets len ms
      → AllOffsets new_len (map (update_spec false so (difference n lo hi)) ms)
  update_specs-Offsets [] h = tt
  update_specs-Offsets (m ∷ ms) (h, hs) = (update_spec-Offset m h, update_specs-Offsets ms hs)

  update_frame-IsFound :
      (root : Bool) (f : Frame)
      → IsFound len f
      → IsFound new_len (update_frame root so (difference n lo hi) f)
  unfolding update_frame
  update_frame-IsFound root [] h = absurd h
  update_frame-IsFound root (m ∷ ms) (a, b, hs) =
      let (c, d) = update_spec-Within root m (a, b) in (c, d, update_specs-Offsets ms hs)

  update_range-Within :
      (line_end : ℕ) (r : StyleRange)
      → WithinText len r.so r.eo
      → let r' = update_range line_end so (difference n lo hi) r in WithinText new_len r'.so r'.eo
  unfolding update_range
  update_range-Within line_end r h = ground (
    arith,
    shifted-max r.so (omega arith),
    shifted-max r.eo (omega arith),
    fits.in_order,
    fits.inside,
  )

  update_ranges-Within :
      (line_end : ℕ) (rs : List StyleRange)
      → StylesWithin len rs
      → StylesWithin new_len (map (update_range line_end so (difference n lo hi)) rs)
  update_ranges-Within line_end [] h = tt
  update_ranges-Within line_end (r ∷ rs) (h, hs) =
      (update_range-Within line_end r h, update_ranges-Within line_end rs hs)

  update_root-Ends :
      (m : SubmatchSpec)
      → WithinText len m.so m.eo
      → m.eo ≡ len
      → (update_spec true so (difference n lo hi) m).eo ≡ new_len
  unfolding update_spec
  update_root-Ends m h e = ground (
    arith,
    shifted-max m.so (omega arith),
    shifted-max m.eo (omega arith),
    fits.in_order,
    fits.inside,
  )

  update_frames-Ends :
      (f : Frame) (fs : List Frame) → EndsWithText new_len fs → EndsWithText new_len (f ∷ fs)
  update_frames-Ends f [] h = absurd h
  update_frames-Ends f (g ∷ fs) h = h

  -- update_positions, for a replacement of `hi - lo` characters from `lo` on by `n`, with any start
  -- up to `lo`, in a line of less than 2 ^ 31 characters with those put in: where each match, of the
  -- state and of its parents, and each style lay in the line, each submatch of a match lay in it or
  -- was unused, and the outermost match ended with the line, so it is with the new line.
  pub update_positions-Within :
      (frames : List Frame) (styles : List StyleRange)
      → FramesWithin len frames
      → EndsWithText len frames
      → StylesWithin len styles
      → let moved = update_positions so (difference n lo hi) frames styles in
        FramesWithin new_len moved.frames
        × EndsWithText new_len moved.frames
        × StylesWithin new_len moved.styles
  unfolding update_positions update_frame
  update_positions-Within [] styles h e k = absurd e
  update_positions-Within ([] ∷ []) styles h e k = absurd e
  update_positions-Within ((m ∷ ms) ∷ []) styles (h, hs) e k = (
    (update_frame-IsFound true (m ∷ ms) h, tt),
    update_root-Ends m (h.0, h.1) e,
    update_ranges-Within m.eo styles k,
  )
  update_positions-Within (f ∷ g ∷ fs) styles (h, hs) e k =
      let (hs', es, ks) = update_positions-Within (g ∷ fs) styles hs e k in
      let moved : Marks = update_positions so (difference n lo hi) (g ∷ fs) styles in
      (
        (update_frame-IsFound false f h, hs'),
        update_frames-Ends (update_frame false so (difference n lo hi) f) moved.frames es,
        ks,
      )
