-- ===== src/Match/Found.antt =====
-- What src/match.c finds in a line, and src/common/regex-utils.c before it, where the matches of
-- the regular expressions lie in the strings that they are looked for in.
use regex_markup.Common.{
  ℕ, zero, suc, ◌+◌, ◌-◌, ◌≤◌, ◌<◌, ◌≡◌, refl, sym, subst, ap, ◌∙◌, List, [], ◌∷◌, ◌++◌, map, none,
  some, Option-cases, Bool-cases, ◌⊎◌, inl, inr, ◌==◌, if◌then◌else◌, length, get_or, drop, set,
  minus_one, i32, arith,
}
use regex_markup.Regex.{
  RegexLib, SubmatchSpec, until_nul, cut_string, offset_by, xregexec_substring,
}
use regex_markup.Match.{whole_match}

-- An offset pair that is unused, or lies in a text.
abbrev pub IsOffset : ℕ → SubmatchSpec → Type 0
IsOffset len m = ((m.so ≡ minus_one) × (m.eo ≡ minus_one)) ⊎ ((m.so ≤ m.eo) × (m.eo ≤ len))

abbrev pub AllOffsets : ℕ → List SubmatchSpec → Type 0
AllOffsets len [] = Unit {0}
AllOffsets len (m ∷ ms) = IsOffset len m × AllOffsets len ms

-- The offsets that regexec gives: of a match within the string, and of its subexpressions.
abbrev pub IsFound : ℕ → List SubmatchSpec → Type 0
IsFound len [] = ⊥
IsFound len (m ∷ ms) = (m.so ≤ m.eo) × (m.eo ≤ len) × AllOffsets len ms

-- regexec reports offsets in the string that it was given.
pub record ReportsOffsets (lib : RegexLib) : Type 0 where
  pub within :
      (re : lib.Regex) (s : List ℕ) (found : List SubmatchSpec)
      → lib.regexec re s ≡ some found
      → IsFound (length s) found

-- The expression never matches the empty string.
pub record Advances (lib : RegexLib) (re : lib.Regex) : Type 0 where
  pub longer :
      (s : List ℕ) (found : List SubmatchSpec)
      → lib.regexec re s ≡ some found
      → (whole_match found).so < (whole_match found).eo

length-until_nul : (ys : List ℕ) (k : ℕ) → get_or ys k 0 ≡ 0 → length (until_nul ys) ≤ k
unfolding until_nul
length-until_nul [] k h = omega arith
length-until_nul (c ∷ ys) zero h = ground (arith, h)
length-until_nul (c ∷ ys) (suc k) h = ground (arith, length-until_nul ys k h)

pub get_or-drop : (ys : List ℕ) (i k : ℕ) → get_or (drop i ys) k 0 ≡ get_or ys (i + k) 0
get_or-drop ys zero k = ap (λ n. get_or ys n 0) (omega arith)
get_or-drop [] (suc i) k = refl
get_or-drop (y ∷ ys) (suc i) k =
    let later : suc i + k ≡ suc (i + k) = omega arith in
    get_or-drop ys i k ∙ ap (λ n. get_or (y ∷ ys) n 0) (sym later)

get_or-set_nul : (ys : List ℕ) (i : ℕ) → get_or (set ys i 0) i 0 ≡ 0
get_or-set_nul [] i = refl
get_or-set_nul (y ∷ ys) zero = refl
get_or-set_nul (y ∷ ys) (suc i) = get_or-set_nul ys i

pub length-cut_string :
    (text : List ℕ) (start end : ℕ) → start ≤ end → length (cut_string text start end) ≤ end - start
unfolding cut_string
length-cut_string text start end h =
    let marked : List ℕ = set (text ++ (0 ∷ [])) end 0 in
    let nul : get_or (drop start marked) (end - start) 0 ≡ 0 =
      get_or-drop marked start (end - start)
      ∙ ap (λ n. get_or marked n 0) (omega arith)
      ∙ get_or-set_nul (text ++ (0 ∷ [])) end in
    length-until_nul (drop start marked) (end - start) nul

AllOffsets-mono : (a b : ℕ) (ms : List SubmatchSpec) → AllOffsets a ms → a ≤ b → AllOffsets b ms
AllOffsets-mono a b [] h le = tt
AllOffsets-mono a b (m ∷ ms) (inl unused, hs) le = (inl unused, AllOffsets-mono a b ms hs le)
AllOffsets-mono a b (m ∷ ms) (inr within, hs) le = (inr (omega arith), AllOffsets-mono a b ms hs le)

-- An unused pair becomes an empty match in front of the start.
AllOffsets-offset_by :
    (start size len : ℕ) (ms : List SubmatchSpec)
    → AllOffsets size ms
    → 1 ≤ start
    → start + size ≤ len
    → len < i32
    → AllOffsets len (map (offset_by start) ms)
unfolding offset_by
AllOffsets-offset_by start size len [] h pos le small = tt
AllOffsets-offset_by start size len (m ∷ ms) (inl unused, hs) pos le small =
    (inr (omega arith), AllOffsets-offset_by start size len ms hs pos le small)
AllOffsets-offset_by start size len (m ∷ ms) (inr within, hs) pos le small =
    (inr (omega arith), AllOffsets-offset_by start size len ms hs pos le small)

-- A match found in a line between two offsets.
abbrev pub FoundBetween : (start end len : ℕ) → List SubmatchSpec → Type 0
FoundBetween start end len [] = ⊥
FoundBetween start end len (m ∷ ms) =
    (start ≤ m.so) × (m.so ≤ m.eo) × (m.eo ≤ end) × AllOffsets len ms

FoundBetween-offset_by :
    (start end len size : ℕ) (found : List SubmatchSpec)
    → IsFound size found
    → start + size ≤ end
    → end ≤ len
    → len < i32
    → 1 ≤ start
    → FoundBetween start end len (map (offset_by start) found)
unfolding offset_by
FoundBetween-offset_by start end len size [] h le inside small pos = absurd h
FoundBetween-offset_by start end len size (m ∷ ms) (h, k, hs) le inside small pos = (
  omega arith,
  omega arith,
  omega arith,
  AllOffsets-offset_by start size len ms hs pos (omega arith) small,
)

FoundBetween-start :
    (end len size : ℕ) (found : List SubmatchSpec)
    → IsFound size found
    → size ≤ end
    → end ≤ len
    → FoundBetween 0 end len found
FoundBetween-start end len size [] h le inside = absurd h
FoundBetween-start end len size (m ∷ ms) (h, k, hs) le inside =
    (omega arith, h, omega arith, AllOffsets-mono size len ms hs (omega arith))

abbrev IsLonger : List SubmatchSpec → Type 0
IsLonger found = (whole_match found).so < (whole_match found).eo

IsLonger-offset_by :
    (start size : ℕ) (found : List SubmatchSpec)
    → IsFound size found
    → start + size < i32
    → IsLonger found
    → IsLonger (map (offset_by start) found)
unfolding offset_by
IsLonger-offset_by start size [] h small longer = absurd h
IsLonger-offset_by start size (m ∷ ms) (h, k, hs) small longer = omega arith

module _ (lib : RegexLib) (reports : ReportsOffsets lib) (re : lib.Regex) (text : List ℕ)
    (start end : ℕ) (in_order : start ≤ end) (inside : end ≤ length text)
    (small : length text < i32) where
  -- A match between the two offsets, which is not empty if the expression never matches the empty
  -- string.
  abbrev pub IsMatch : List SubmatchSpec → Type 0
  IsMatch found =
      FoundBetween start end (length text) found
      × (Advances lib re → (whole_match found).so < (whole_match found).eo)

  moved-IsMatch :
      (pmatch : List SubmatchSpec)
      → lib.regexec re (cut_string text start end) ≡ some pmatch
      → IsMatch (if start == 0 then pmatch else map (offset_by start) pmatch)
  moved-IsMatch pmatch e =
      let size : ℕ = length (cut_string text start end) in
      let le : size ≤ end - start = length-cut_string text start end in_order in
      let found : IsFound size pmatch = reports.within re (cut_string text start end) pmatch e in
      elim (Bool-cases (start == 0)) [
        | inl first ↦
            let zero_start : start ≡ 0 = ground arith in
            rw first (
              subst (λ n. FoundBetween n end (length text) pmatch) (sym zero_start)
                  (FoundBetween-start end (length text) size pmatch found (omega arith) inside),
              λ adv. adv.longer (cut_string text start end) pmatch e,
            )
        | inr behind ↦
            let positive : 1 ≤ start = ground arith in
            rw behind (
              FoundBetween-offset_by start end (length text) size pmatch found (omega arith) inside
                  small positive,
              λ adv.
                  IsLonger-offset_by start size pmatch found (omega arith)
                    (adv.longer (cut_string text start end) pmatch e),
            )
      ]

  -- xregexec_substring finds nothing, or a match between the two offsets, which is not empty if the
  -- expression never matches the empty string. The offsets are in order and in a text of less than
  -- 2 ^ 31 characters, and regexec reports offsets in the string that it is given.
  pub xregexec_substring-IsMatch :
      (xregexec_substring lib re text start end ≡ none)
      ⊎ ((found : List SubmatchSpec) × (xregexec_substring lib re text start end ≡ some found)
          × IsMatch found)
  unfolding xregexec_substring
  xregexec_substring-IsMatch = elim (Option-cases (lib.regexec re (cut_string text start end))) [
    | inl nothing ↦ inl (rw (nothing, xregexec_substring) refl)
    | inr (pmatch, e) ↦ inr (
      if start == 0 then pmatch else map (offset_by start) pmatch,
      rw (e, xregexec_substring) refl,
      moved-IsMatch pmatch e,
    )
  ]
