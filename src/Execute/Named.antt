-- ===== src/Execute/Named.antt =====
-- src/execute.c: rules that name only subexpressions that there are, and what try_match does for them.
use regex_markup.Common.{
  ℕ, suc, ◌≤◌, ◌≡◌, refl, sym, subst, ap, ◌∙◌, List, [], ◌∷◌, Option, none, some, Option-cases, inl,
  inr, Bool, true, false, Bool-cases, not, ◌&&◌, ◌||◌, ltb, leb, ◌==◌, if◌then◌else◌, length,
  get_or, map, minus_one, arith,
}
use regex_markup.Regex.{RegexLib, SubmatchSpec, spec, offset_by, cut_string, xregexec_substring}
use regex_markup.Match.{
  Match, RegexFlags, regex, subex, Frame, Tried, whole_match, new_match_state, tail_of, no_match,
  matched, dies, try_regex, try_match,
}
use regex_markup.Rule.{
  Rule, Rules, rule_match, rule_macro, rule_style, rule_multi, rule_action, rule_substitution,
  rule_set, end_rules, then_rule,
}

module _ {R : Type 0} (subs : R → ℕ) where
  -- The submatches of a match: those of a regular expression, or one for a subexpression.
  abbrev pub submatches : Match R → ℕ
  submatches (regex re flags) = subs re
  submatches (subex index) = 1

  -- The subexpression that a match names is one of `k`.
  abbrev pub match_exists : ℕ → Match R → Bool
  match_exists k (regex re flags) = true
  match_exists k (subex index) = ltb index k

  -- The same of the matches of a rule; `body` is of the rule's body, for a number of submatches.
  abbrev pub matches_exist : ℕ → (body : ℕ → Bool) → List (Match R) → Bool
  matches_exist k body [] = true
  matches_exist k body (match ∷ matches) =
      match_exists k match && (body (submatches match) && matches_exist k body matches)

  -- Every subexpression that a rule names is there: the match that the rule is executed on has `k`
  -- submatches, that of a regular expression has `subs`, and that of a subexpression has one.
  unfoldable mutual
    pub names_exist : ℕ → Rule R → Bool
    names_exist k (rule_match matches rule) = matches_exist k (λ n. names_exist n rule) matches
    names_exist k (rule_macro rule) = names_exist k rule
    names_exist k (rule_style style) = true
    names_exist k (rule_multi rules) = all_exist k rules
    names_exist k (rule_action action) = true
    names_exist k (rule_substitution re flags repl) = true
    names_exist k (rule_set repl) = true

    pub all_exist : ℕ → Rules R → Bool
    all_exist k end_rules = true
    all_exist k (then_rule rule rules) = names_exist k rule && all_exist k rules

-- regexec reports the match and each subexpression, used or not.
pub record ReportsSubexpressions (lib : RegexLib) (subs : lib.Regex → ℕ) : Type 0 where
  pub counted :
      (re : lib.Regex) (s : List ℕ) (found : List SubmatchSpec)
      → lib.regexec re s ≡ some found
      → length found ≡ subs re

-- A match, if there is one, has `k` submatches at least, and the program does not end.
abbrev pub Lives : ℕ → Tried → Type 0
Lives k no_match = Unit {0}
Lives k (matched frame so) = k ≤ length frame
Lives k dies = ⊥

length-offset_by :
    (start : ℕ) (ms : List SubmatchSpec) → length (map (offset_by start) ms) ≡ length ms
length-offset_by start [] = refl
length-offset_by start (m ∷ ms) = ap suc (length-offset_by start ms)

at_least :
    (m : SubmatchSpec) (found : List SubmatchSpec) → length found ≤ length (m ∷ tail_of found)
at_least m [] = omega arith
at_least m (n ∷ ns) = omega arith

module _ (lib : RegexLib) (subs : lib.Regex → ℕ) (reports : ReportsSubexpressions lib subs) where
  open lib use {Regex}

  length-xregexec_substring :
      (re : Regex) (text : List ℕ) (start end : ℕ) (found : List SubmatchSpec)
      → xregexec_substring lib re text start end ≡ some found
      → length found ≡ subs re
  unfolding xregexec_substring
  length-xregexec_substring re text start end found =
      go (lib.regexec re (cut_string text start end)) refl
    where
      moved :
          (b : Bool) (ms : List SubmatchSpec)
          → length (if b then ms else map (offset_by start) ms) ≡ length ms
      moved true ms = refl
      moved false ms = length-offset_by start ms

      go :
          (r : Option (List SubmatchSpec))
          → lib.regexec re (cut_string text start end) ≡ r
          → (elim r as (λ x. Option (List SubmatchSpec)) [
            | none ↦ none
            | some pmatch ↦ some (if start == 0 then pmatch else map (offset_by start) pmatch)
          ])
            ≡ some found
          → length found ≡ subs re
      go none e h = absurd (ground arith)
      go (some pmatch) e h =
          ap length (
            sym
              (ap (λ (o : Option (List SubmatchSpec)). elim o [ none ↦ pmatch | some ms ↦ ms ]) h))
          ∙ moved (start == 0) pmatch
          ∙ reports.counted re _ pmatch e

  try_regex-Lives :
      (re : Regex) (flags : RegexFlags) (text : List ℕ) (subv : Frame) (start call : ℕ)
      → Lives (subs re) (try_regex lib re flags text subv start call)
  unfolding try_regex new_match_state
  try_regex-Lives re flags text subv start call =
      elim (Bool-cases (ltb 0 call && not flags.global)) [
        | inl again ↦ rw again tt
        | inr tried ↦
            elim (Option-cases (xregexec_substring lib re text start (whole_match subv).eo)) [
              | inl nothing ↦ rw (tried, nothing) tt
              | inr (found, e) ↦
                  rw (tried, e)
                    (subst (λ (n : ℕ). n ≤ length (whole_match found ∷ tail_of found))
                      (length-xregexec_substring re text start (whole_match subv).eo found e)
                      (at_least (whole_match found) found))
            ]
      ]

  try_subex-Lives :
      (index k : ℕ) (text : List ℕ) (subv : Frame) (start call : ℕ)
      → ltb index k ≡ true
      → k ≤ length subv
      → Lives 1 (try_match lib (subex index) text subv start call)
  unfolding try_match new_match_state
  try_subex-Lives index k text subv start call named le =
      let s : SubmatchSpec = get_or subv index (spec 0 0) in
      let there : leb (length subv) index ≡ false = ground arith in
      elim (Bool-cases (ltb 0 call)) [
        | inl again ↦ rw again tt
        | inr first ↦ elim (Bool-cases (s.so == minus_one || s.eo == minus_one)) [
          | inl unused ↦ rw (first, there, unused) tt
          | inr used ↦ rw (first, there, used) (omega arith)
        ]
      ]

  pub try_match-Lives :
      (match : Match Regex) (k : ℕ) (text : List ℕ) (subv : Frame) (start call : ℕ)
      → match_exists subs k match ≡ true
      → k ≤ length subv
      → Lives (submatches subs match) (try_match lib match text subv start call)
  unfolding try_match
  try_match-Lives (regex re flags) k text subv start call named le =
      try_regex-Lives re flags text subv start call
  try_match-Lives (subex index) k text subv start call named le =
      try_subex-Lives index k text subv start call named le
