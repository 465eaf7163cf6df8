-- ===== src/Expand.antt =====
-- src/match.c, expand_substitution: the loop over the replacement string.
pub mod Escaped
use regex_markup.Common.{
  ℕ, zero, suc, ◌+◌, ◌≡◌, List, [], ◌∷◌, ◌++◌, Option, none, some, Bool, true, false, not, ◌&&◌,
  ◌||◌, ◌==◌, if◌then◌else◌, length,
}
use regex_markup.Regex.{SubmatchSpec}
use regex_markup.Match.{Frame, is_digit, expand_variable}

abbrev pub backslash : ℕ
backslash = 92

-- The characters before the first `}`, and those behind it, if there is one.
unfoldable pub braced : List ℕ → Option (List ℕ × List ℕ)
braced [] = none
braced (c ∷ s) =
    let rest = braced s in
    if c == b'}'
    then some ([], s)
    else elim rest [ none ↦ none | some (name, behind) ↦ some (c ∷ name, behind) ]

unfoldable pub digits_of : List ℕ → List ℕ × List ℕ
unfolding is_digit
digits_of [] = ([], [])
digits_of (c ∷ s) =
    let (name, behind) = digits_of s in if is_digit c then (c ∷ name, behind) else ([], c ∷ s)

module _ (text : List ℕ) (outer : Frame) (subv : Frame) where
  -- Behind a `$` that is not escaped: what has been built and what of the string is left, or
  -- `none` where the `$` stands for itself.
  unfoldable pub expand_dollar : List ℕ → List ℕ → Option (List ℕ × List ℕ)
  unfolding braced digits_of expand_variable
  expand_dollar out [] = none
  expand_dollar out (c ∷ s) =
      if c == b'{'
      then (elim (braced s) [
        | none ↦ none
        | some (name, behind) ↦ elim (expand_variable text outer subv out name) [
          | none ↦ none
          | some out' ↦ some (out', behind)
        ]
      ])
      else if is_digit c
      then (elim (expand_variable text outer subv out (c ∷ (digits_of s).0)) [
        | none ↦ none
        | some out' ↦ some (out', (digits_of s).1)
      ])
      else if c == b'`' || c == 39 || c == b'&'
      then (elim (expand_variable text outer subv out (c ∷ [])) [
        | none ↦ some (out, s)
        | some out' ↦ some (out', s)
      ])
      else none

  -- The loop on fuel: a round takes at least one character.
  unfoldable pub expand_loop : ℕ → Bool → List ℕ → List ℕ → Option (List ℕ)
  unfolding expand_dollar
  expand_loop zero escaped repl out = none
  expand_loop (suc f) escaped [] out = some out
  expand_loop (suc f) escaped (c ∷ s) out =
      let escaped' = not escaped && c == backslash in
      let plain = expand_loop f escaped' s (if escaped' then out else out ++ (c ∷ [])) in
      elim (if not escaped && c == b'$' then expand_dollar out s else none) [
        | none ↦ plain
        | some (out', s') ↦ expand_loop f escaped s' out'
      ]

  unfoldable pub expand_substitution : List ℕ → Option (List ℕ)
  unfolding expand_loop
  expand_substitution repl = expand_loop (suc (length repl)) false repl []
