-- ===== src/Regex.antt =====
-- The regular expressions of the C library, which the program only calls, and what
-- src/common/regex-utils.c does around them.
use regex_markup.Common.{
  ℕ, List, [], ◌∷◌, ◌++◌, Option, none, some, map, add32, ◌==◌, if◌then◌else◌, drop, set,
}

-- `so` and `eo` of a regmatch_t or of a SubmatchSpec, as 32-bit patterns: -1 is 2 ^ 32 - 1.
pub record SubmatchSpec : Type 0 where
  pub so : ℕ
  pub eo : ℕ

abbrev pub spec : ℕ → ℕ → SubmatchSpec
spec so eo = record { so = so; eo = eo }

-- A compiled expression, and regexec on a string: the array of the whole match and of one match for
-- each of the `re_nsub` subexpressions, or `none` for REG_NOMATCH.
pub record RegexLib : Type 1 where
  pub Regex : Type 0
  pub regexec : Regex → List ℕ → Option (List SubmatchSpec)

-- A C string in an array of bytes ends at the first null byte.
unfoldable pub until_nul : List ℕ → List ℕ
until_nul [] = []
until_nul (c ∷ s) = if c == 0 then [] else c ∷ until_nul s

-- The string from `start` on while the byte at `end` is null.
unfoldable pub cut_string : List ℕ → ℕ → ℕ → List ℕ
unfolding until_nul
cut_string text start end = until_nul (drop start (set (text ++ (0 ∷ [])) end 0))

unfoldable pub offset_by : ℕ → SubmatchSpec → SubmatchSpec
offset_by start m = spec (add32 m.so start) (add32 m.eo start)

module _ (lib : RegexLib) where
  open lib use {Regex, regexec}

  -- Every offset of a match is moved by `start`, that of an unused subexpression, -1, as well.
  unfoldable pub xregexec_substring : Regex → List ℕ → ℕ → ℕ → Option (List SubmatchSpec)
  unfolding cut_string offset_by
  xregexec_substring pref string start end = elim (regexec pref (cut_string string start end)) [
    | none ↦ none
    | some pmatch ↦ some (if start == 0 then pmatch else map (offset_by start) pmatch)
  ]
