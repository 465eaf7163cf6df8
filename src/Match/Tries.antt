-- ===== src/Match/Tries.antt =====
-- What try_match of src/match.c returns for a match state that lies in the line.
use regex_markup.Common.{
  ℕ, zero, suc, ◌≤◌, ◌<◌, ◌≡◌, refl, List, [], ◌∷◌, some, true, false, not, ◌&&◌, ◌||◌, Bool-cases,
  ◌⊎◌, inl, inr, ltb, leb, ◌==◌, length, get_or, add32, sub32, minus_one, i32, arith,
}
use regex_markup.Regex.{RegexLib, SubmatchSpec, spec, xregexec_substring}
use regex_markup.Match.{
  RegexFlags, subex, Frame, whole_match, Tried, no_match, matched, dies, new_match_state, try_regex,
  try_match,
}
use regex_markup.Match.Found.{
  ReportsOffsets, Advances, IsOffset, AllOffsets, IsFound, FoundBetween, IsMatch,
  xregexec_substring-IsMatch,
}

-- A match that is made a state, in a part of the line that ends at `end`.
abbrev pub Matches : (start end len : ℕ) → Tried → Type 0
Matches start end len r =
    (frame : Frame) × (so' : ℕ) × (r ≡ matched frame so') × FoundBetween start end len frame

module _ (lib : RegexLib) (reports : ReportsOffsets lib) (text : List ℕ) (subv : Frame)
    (state : IsFound (length text) subv) (small : length text < i32) where
  whole_inside : (whole_match subv).eo ≤ length text
  whole_inside = inside subv state
    where
      inside : (f : Frame) → IsFound (length text) f → (whole_match f).eo ≤ length text
      inside [] h = absurd h
      inside (m ∷ ms) h = h.1

  -- A regular expression: nothing, or a match from the start on, which is longer than 0 for an
  -- expression that never matches the empty string. It is tried again only if it is global.
  pub try_regex-Matches :
      (re : lib.Regex) (flags : RegexFlags) (start call : ℕ)
      → start ≤ (whole_match subv).eo
      → (try_regex lib re flags text subv start call ≡ no_match)
        ⊎ ((frame : Frame) × (so' : ℕ) × (try_regex lib re flags text subv start call
              ≡ matched frame so')
            × FoundBetween start (whole_match subv).eo (length text) frame
            × (Advances lib re → (whole_match frame).so < (whole_match frame).eo)
            × ((ltb 0 call && not flags.global) ≡ false))
  unfolding try_regex new_match_state
  try_regex-Matches re flags start call le = elim (Bool-cases (ltb 0 call && not flags.global)) [
    | inl again ↦ inl (rw again refl)
    | inr tried ↦
        elim (xregexec_substring-IsMatch lib reports re text start (whole_match subv).eo le
          whole_inside small) [
            | inl nothing ↦ inl (rw (tried, nothing) refl)
            | inr (found, e, is) ↦ inr (made found e is tried)
          ]
  ]
    where
      made :
          (found : List SubmatchSpec)
          → xregexec_substring lib re text start (whole_match subv).eo ≡ some found
          → IsMatch lib reports re text start (whole_match subv).eo le whole_inside small found
          → (ltb 0 call && not flags.global) ≡ false
          → (frame : Frame) × (so' : ℕ) × (try_regex lib re flags text subv start call
              ≡ matched frame so')
            × FoundBetween start (whole_match subv).eo (length text) frame
            × (Advances lib re → (whole_match frame).so < (whole_match frame).eo)
            × ((ltb 0 call && not flags.global) ≡ false)
      made [] e is tried = absurd is.0
      made (m ∷ ms) e is tried =
          (m ∷ ms, add32 start (sub32 m.eo m.so), rw (tried, e) refl, is.0, is.1, tried)

  IsOffset-at :
      (ms : List SubmatchSpec) (i : ℕ)
      → AllOffsets (length text) ms
      → IsOffset (length text) (get_or ms i (spec 0 0))
  IsOffset-at [] i h = inr (omega arith)
  IsOffset-at (m ∷ ms) zero h = h.0
  IsOffset-at (m ∷ ms) (suc i) h = IsOffset-at ms i h.1

  all_of : (f : Frame) → IsFound (length text) f → AllOffsets (length text) f
  all_of [] h = absurd h
  all_of (m ∷ ms) h = (inr (h.0, h.1), h.2)

  -- A subexpression: nothing, the end of the program, or a match on its own at its place. It is
  -- never tried again.
  pub try_subex-Matches :
      (index start call : ℕ)
      → (try_match lib (subex index) text subv start call ≡ no_match)
        ⊎ ((try_match lib (subex index) text subv start call ≡ dies)
            ⊎ (Matches 0
                  (length text)
                  (length text)
                  (try_match lib (subex index) text subv start call)
                × (ltb 0 call ≡ false)))
  unfolding try_match new_match_state
  try_subex-Matches index start call = elim (Bool-cases (ltb 0 call)) [
    | inl again ↦ inl (rw again refl)
    | inr tried ↦ elim (Bool-cases (leb (length subv) index)) [
      | inl beyond ↦ inr (inl (rw (tried, beyond) refl))
      | inr inside ↦
          used (get_or subv index (spec 0 0)) (IsOffset-at subv index (all_of subv state)) tried
            inside refl
    ]
  ]
    where
      used :
          (s : SubmatchSpec)
          → IsOffset (length text) s
          → ltb 0 call ≡ false
          → leb (length subv) index ≡ false
          → get_or subv index (spec 0 0) ≡ s
          → (try_match lib (subex index) text subv start call ≡ no_match)
            ⊎ ((try_match lib (subex index) text subv start call ≡ dies)
                ⊎ (Matches 0
                      (length text)
                      (length text)
                      (try_match lib (subex index) text subv start call)
                    × (ltb 0 call ≡ false)))
      used s (inl (so, eo)) tried inside e =
          let unset : (s.so == minus_one || s.eo == minus_one) ≡ true = ground (arith, so) in
          inl (rw (tried, inside, e, unset) refl)
      used s (inr (in_order, within)) tried inside e =
          elim (Bool-cases (s.so == minus_one || s.eo == minus_one)) [
            | inl unset ↦ inl (rw (tried, inside, e, unset) refl)
            | inr set ↦ inr (
                inr (
                  (
                    s ∷ [],
                    s.so,
                    rw (tried, inside, e, set) refl,
                    (omega arith, in_order, within, tt),
                  ),
                  tried,
                ))
          ]
