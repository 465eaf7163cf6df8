-- ===== src/Positions/Parts.antt =====
-- The characters of a style: what update_positions of src/execute.c does to the ranges, with the
-- start that execute_substitution_rule passes, against what the replacement does to the text.
use regex_markup.Common.{
  ℕ, ◌+◌, ◌-◌, ◌≤◌, ◌<◌, ◌≡◌, ◌⊎◌, inl, inr, refl, ap, ap₂, ◌∙◌, List, [], ◌∷◌, map, Bool, true,
  false, Bool-cases, ◌&&◌, ◌||◌, ltb, leb, ◌==◌, if◌then◌else◌, arith, length,
}
use regex_markup.Match.{Frame}
use regex_markup.StrBuf.Splice.{splice}
use regex_markup.Ranges.{StyleRange}
use regex_markup.Positions.{update_range, update_positions}
use regex_markup.Positions.Placed.{
  difference, Fits, EndsWithText, StylesWithin, WithinText, shifted-max,
}
use regex_markup.Positions.Text.{part, part-splice_before, part-splice_behind, part-splice_around}

-- The range takes in the replacement: the replaced part lies in it, and it goes on behind the start of
-- that part, or is empty, or ends at the line's end.
abbrev pub takes_in : (lo hi line_end : ℕ) → StyleRange → Bool
takes_in lo hi line_end r =
    (leb r.so lo && leb hi r.eo) && (ltb lo r.eo || (r.so == r.eo || lo == line_end))

-- The range ends before the replaced part, is behind it, or has it within.
abbrev pub Apart : (lo hi : ℕ) → StyleRange → Type 0
Apart lo hi r =
    ((r.eo ≤ lo) × ((r.eo < lo) ⊎ (r.so < r.eo))) ⊎ ((hi ≤ r.so) ⊎ ((r.so ≤ lo) × (hi ≤ r.eo)))

abbrev pub AllApart : (lo hi : ℕ) → List StyleRange → Type 0
AllApart lo hi [] = Unit {0}
AllApart lo hi (r ∷ rs) = Apart lo hi r × AllApart lo hi rs

-- The characters of a style, and what they become.
abbrev pub styled : List ℕ → StyleRange → List ℕ
styled t r = part t r.so r.eo

abbrev pub styled_after : List ℕ → (lo hi : ℕ) → List ℕ → StyleRange → List ℕ
styled_after t lo hi ins r =
    if takes_in lo hi (length t) r
    then splice (styled t r) (lo - r.so) (hi - r.so) ins
    else styled t r

module _ (len n lo hi : ℕ) (r : StyleRange) (fits : Fits len n lo hi)
    (inside : WithinText len r.so r.eo) where
  abbrev after : StyleRange
  after = update_range len lo (difference n lo hi) r

  kept :
      takes_in lo hi len r ≡ false
      → r.eo ≤ lo
      → (r.eo < lo) ⊎ (r.so < r.eo)
      → (after.so ≡ r.so) × (after.eo ≡ r.eo)
  unfolding update_range
  kept h k l = ground (arith, fits.in_order, fits.inside)

  moved :
      takes_in lo hi len r ≡ false
      → hi ≤ r.so
      → (after.so ≡ r.so + n - (hi - lo)) × (after.eo ≡ r.eo + n - (hi - lo))
  unfolding update_range
  moved h k = ground (
    arith,
    shifted-max len n lo hi lo fits (omega arith) r.so (omega arith),
    shifted-max len n lo hi lo fits (omega arith) r.eo (omega arith),
    fits.in_order,
    fits.inside,
  )

  extended :
      takes_in lo hi len r ≡ true
      → (r.so ≤ lo) × (hi ≤ r.eo) × (after.so ≡ r.so) × (after.eo ≡ r.eo + n - (hi - lo))
  unfolding update_range
  extended h = ground (
    arith,
    shifted-max len n lo hi lo fits (omega arith) r.eo (omega arith),
    fits.in_order,
    fits.inside,
  )

part-update_range :
    (t ins : List ℕ) (lo hi : ℕ) (r : StyleRange)
    → Fits (length t) (length ins) lo hi
    → WithinText (length t) r.so r.eo
    → Apart lo hi r
    → styled (splice t lo hi ins) (update_range (length t) lo (difference (length ins) lo hi) r)
      ≡ styled_after t lo hi ins r
part-update_range t ins lo hi r fits inside apart =
    elim (Bool-cases (takes_in lo hi (length t) r)) [
      | inl around ↦
          let (a, b, s, e) = extended (length t) (length ins) lo hi r fits inside around in
          rw (around, s) (part-splice_around t ins lo hi r.so r.eo _ fits.in_order a b inside.1 e)
      | inr beside ↦ rw beside (as_before beside apart)
    ]
  where
    as_before :
        takes_in lo hi (length t) r ≡ false
        → Apart lo hi r
        → styled (splice t lo hi ins) (update_range (length t) lo (difference (length ins) lo hi) r)
          ≡ styled t r
    as_before beside (inl (h, k)) =
        let (s, e) = kept (length t) (length ins) lo hi r fits inside beside h k in
        ap₂ (part (splice t lo hi ins)) s e
        ∙ part-splice_before t ins lo hi r.so r.eo (omega (arith, fits.in_order, fits.inside))
            inside.0 h
    as_before beside (inr (inl h)) =
        let (s, e) = moved (length t) (length ins) lo hi r fits inside beside h in
        part-splice_behind t ins lo hi r.so r.eo _ _ fits.in_order fits.inside h s
          (omega (arith, s, e, inside.0, fits.in_order, fits.inside))
    as_before beside (inr (inr (h, k))) =
        let (s, e) =
          kept (length t) (length ins) lo hi r fits inside beside (ground (arith, fits.in_order))
            (inr (ground (arith, fits.in_order))) in
        ap₂ (part (splice t lo hi ins)) s e
        ∙ part-splice_before t ins lo hi r.so r.eo (omega (arith, fits.in_order, fits.inside))
            inside.0 (ground (arith, fits.in_order))

module _ (t ins : List ℕ) (lo hi : ℕ) (fits : Fits (length t) (length ins) lo hi) where
  abbrev new_text : List ℕ
  new_text = splice t lo hi ins

  abbrev diff : ℕ
  diff = difference (length ins) lo hi

  parts :
      (styles : List StyleRange)
      → StylesWithin (length t) styles
      → AllApart lo hi styles
      → map (styled new_text) (map (update_range (length t) lo diff) styles)
        ≡ map (styled_after t lo hi ins) styles
  parts [] inside apart = refl
  parts (r ∷ rs) (here, inside) (a, apart) =
      ap₂ (λ (x : List ℕ) (xs : List (List ℕ)). x ∷ xs)
        (part-update_range t ins lo hi r fits here a) (parts rs inside apart)

  -- update_positions with the start `lo`, for a replacement of the characters from `lo` up to `hi`,
  -- leaves each style with the characters that it had; a style that the replaced part lies in has the
  -- replacement in the place of that part. A replacement of nothing right in front of a style, at an empty style,
  -- or behind a style that ends with the line, becomes part of the style. No style may start or end
  -- inside the replaced part, or be empty right in front of one that is not empty. The styles lay in the
  -- line, the outermost match ended with it, and the line has less than 2 ^ 31 characters with the
  -- replacement put in.
  pub update_positions-parts :
      (frames : List Frame) (styles : List StyleRange)
      → EndsWithText (length t) frames
      → StylesWithin (length t) styles
      → AllApart lo hi styles
      → map (styled new_text) (update_positions lo diff frames styles).styles
        ≡ map (styled_after t lo hi ins) styles
  unfolding update_positions
  update_positions-parts [] styles ends inside apart = absurd ends
  update_positions-parts ([] ∷ []) styles ends inside apart = absurd ends
  update_positions-parts ((m ∷ ms) ∷ []) styles ends inside apart =
      ap (λ n. map (styled new_text) (map (update_range n lo diff) styles)) ends
      ∙ parts styles inside apart
  update_positions-parts (f ∷ g ∷ fs) styles ends inside apart =
      update_positions-parts (g ∷ fs) styles ends inside apart
