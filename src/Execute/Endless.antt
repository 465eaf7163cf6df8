-- ===== src/Execute/Endless.antt =====
-- A global expression that matches the empty string, in execute_match_rule of src/execute.c.
use regex_markup.Common.{
  ℕ, zero, suc, ◌≡◌, ◌<◌, refl, ap, List, [], ◌∷◌, some, Bool, true, false, ◌&&◌, ltb, wrap32, u32,
  arith, ◌+◌, add32, sub32, Bool-cases, inl, inr, ◌==◌,
}
use regex_markup.Regex.{RegexLib, spec, cut_string, offset_by, xregexec_substring}
use regex_markup.Match.{
  RegexFlags, regex, try_match, try_regex, matched, whole_match, new_match_state, Frame,
}
use regex_markup.Rule.{ActionType, action_continue, rule_match, rule_multi, end_rules}
use regex_markup.Execute.{
  State, ok, out_of_fuel, match_loop, current, Executed, match_rule_loop, execute_any_rule,
  execute_multi_rule,
}

and_false : (b : Bool) → (b && false) ≡ false
and_false true = refl
and_false false = refl

module _ (lib : RegexLib) (re : lib.Regex) (flags : RegexFlags) (always : flags.global ≡ true)
    (empty : (s : List ℕ) → lib.regexec re s ≡ some (spec 0 0 ∷ [])) where
  shift : (start : ℕ) → start < u32 → add32 0 start ≡ start
  shift start small = omega arith

  empty_found :
      (text : List ℕ) (start end : ℕ)
      → start < u32
      → xregexec_substring lib re text start end ≡ some (spec start start ∷ [])
  unfolding xregexec_substring offset_by
  empty_found text start end small =
      rw (empty (cut_string text start end), xregexec_substring)
        (elim (Bool-cases (start == 0)) [
          | inl at_start ↦ let e : start ≡ 0 = ground arith in rw (e) refl
          | inr behind ↦ rw behind (ap (λ m. some (spec m m ∷ [])) (shift start small))
        ])

  tried :
      (text : List ℕ) (subv : Frame) (so call : ℕ)
      → so < u32
      → try_match lib (regex re flags) text subv so call
        ≡ matched (spec so so ∷ []) (add32 so (sub32 so so))
  unfolding try_match try_regex new_match_state
  tried text subv so call small =
      rw (always, empty_found text so (whole_match subv).eo small)
        (rw (and_false (ltb 0 call), new_match_state) refl)

  abbrev unchanged : Executed
  unchanged st = ok (action_continue, st)

  match_loop-endless :
      (fuel so call : ℕ) (outer : ActionType) (st : State)
      → so < u32
      → match_loop lib fuel unchanged (regex re flags) so call outer st ≡ out_of_fuel
  unfolding match_loop
  match_loop-endless zero so call outer st small = refl
  match_loop-endless (suc fuel) so call outer st small =
      rw (tried st.text (current st) so call small, match_loop)
        (match_loop-endless fuel so (wrap32 (call + 1)) outer st small)

  -- A match rule with an empty block does not end, for no number of rounds, where the expression is
  -- global and matches the empty string at every place.
  pub execute_any_rule-endless :
      (fuel : ℕ) (st : State)
      → (whole_match (current st)).so < u32
      → execute_any_rule lib fuel (rule_match (regex re flags ∷ []) (rule_multi end_rules)) st
        ≡ out_of_fuel
  unfolding execute_any_rule execute_multi_rule match_rule_loop
  execute_any_rule-endless fuel st small =
      rw (match_loop-endless fuel (whole_match (current st)).so 0 action_continue st small) refl
