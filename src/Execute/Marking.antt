-- ===== src/Execute/Marking.antt =====
-- The loop of src/execute.c, execute_match_rule, over one match of a rule, where a global expression
-- never matches the empty string, and rules all of whose matches are such.
use regex_markup.Common.{
  ℕ, ◌+◌, ◌-◌, ◌<◌, ◌≤◌, ◌≡◌, refl, List, [], ◌∷◌, true, false, not, ◌&&◌, ◌⊎◌, inl, inr, ltb, ◌==◌,
  if◌then◌else◌, length, wrap32, arith, Bool-cases,
}
use regex_markup.Regex.{RegexLib}
use regex_markup.Match.{Match, regex, subex, RegexFlags, Frame, whole_match, try_match, try_regex}
use regex_markup.Match.Found.{ReportsOffsets, Advances, IsFound, FoundBetween}
use regex_markup.Match.Tries.{try_regex-Matches, try_subex-Matches}
use regex_markup.Rule.{
  ActionType, Rule, Rules, rule_match, rule_macro, rule_style, rule_multi, rule_action,
  rule_substitution, rule_set, end_rules, then_rule,
}
use regex_markup.Execute.{State, current, Executed, match_loop}
use regex_markup.Execute.Loops.{Outcome, Good, Round, match_loop-Outcome}

IsFound-FoundBetween :
    (start end len : ℕ) (frame : Frame)
    → FoundBetween start end len frame
    → end ≤ len
    → IsFound len frame
IsFound-FoundBetween start end len [] h le = h
IsFound-FoundBetween start end len (m ∷ ms) (a, b, c, hs) le = (b, omega arith, hs)

ends_within :
    (start end len : ℕ) (frame : Frame)
    → FoundBetween start end len frame
    → (start ≤ (whole_match frame).so) × ((whole_match frame).eo ≤ end)
ends_within start end len [] h = absurd h
ends_within start end len (m ∷ ms) (a, b, c, hs) = (a, c)

pub whole-IsFound :
    (len : ℕ) (frame : Frame)
    → IsFound len frame
    → ((whole_match frame).so ≤ (whole_match frame).eo) × ((whole_match frame).eo ≤ len)
whole-IsFound len [] h = absurd h
whole-IsFound len (m ∷ ms) (a, b, hs) = (a, b)

-- The first call of a match, and the later ones.
abbrev one_call : ℕ → ℕ → ℕ
one_call so call = if call == 0 then 1 else 0

one_call_falls : (call : ℕ) → call ≡ 0 → one_call 0 (wrap32 (call + 1)) < one_call 0 call
one_call_falls call first = rw first (omega arith)

module _ (lib : RegexLib) where
  -- A global expression never matches the empty string.
  abbrev pub EndsMatch : Match lib.Regex → Type 0
  EndsMatch (regex re flags) = flags.global ≡ true → Advances lib re
  EndsMatch (subex index) = Unit {0}

  abbrev pub AllEndMatch : List (Match lib.Regex) → Type 0
  AllEndMatch [] = Unit {0}
  AllEndMatch (match ∷ matches) = EndsMatch match × AllEndMatch matches

  -- Rules that replace nothing, and whose matches end.
  unfoldable mutual
    pub MarksOnly : Rule lib.Regex → Type 0
    MarksOnly (rule_match matches rule) = AllEndMatch matches × MarksOnly rule
    MarksOnly (rule_macro rule) = MarksOnly rule
    MarksOnly (rule_style style) = Unit {0}
    MarksOnly (rule_multi rules) = AllMarkOnly rules
    MarksOnly (rule_action action) = Unit {0}
    MarksOnly (rule_substitution re flags repl) = ⊥
    MarksOnly (rule_set repl) = ⊥

    pub AllMarkOnly : Rules lib.Regex → Type 0
    AllMarkOnly end_rules = Unit {0}
    AllMarkOnly (then_rule rule rules) = MarksOnly rule × AllMarkOnly rules

  module _ (reports : ReportsOffsets lib) (body : Executed) (st : State) (good : Good st)
      (body-Outcome : (st' : State) → Good st' → st'.text ≡ st.text → Outcome st' (body st'))
      (fuel : ℕ) (enough : length st.text + 2 ≤ fuel) (outer : ActionType) where
    abbrev end : ℕ
    end = (whole_match (current st)).eo

    global_loop :
        (re : lib.Regex) (flags : RegexFlags)
        → Advances lib re
        → Outcome st
            (match_loop lib fuel body (regex re flags) (whole_match (current st)).so 0 outer st)
    unfolding try_match try_regex
    global_loop re flags advances =
        let (in_order, inside) = whole-IsFound (length st.text) (current st) good.found in
        match_loop-Outcome lib body (regex re flags) st.text (current st) body-Outcome
          (λ so call. so ≤ end) (λ so call. end - so) rounds fuel (whole_match (current st)).so 0
          outer st good refl refl in_order (omega arith)
      where
        rounds :
            (so call : ℕ)
            → so ≤ end
            → Round lib body
                (regex re flags)
                st.text
                (current st)
                body-Outcome
                (λ so call. so ≤ end)
                (λ so call. end - so)
                so
                call
        rounds so call le =
            elim (try_regex-Matches lib reports st.text (current st) good.found good.small re flags
              so call le) [
                | inl nothing ↦ inl nothing
                | inr (frame, so', made, between, longer, tried) ↦
                    let inside = whole-IsFound (length st.text) (current st) good.found in
                    let (start, stop) = ends_within so end (length st.text) frame between in
                    let positive = longer advances in
                    inr (
                      inr (
                        frame,
                        so',
                        made,
                        IsFound-FoundBetween so end (length st.text) frame between inside.1,
                        stop,
                        omega (arith, start, stop, positive),
                      ))
              ]

    single_loop :
        (re : lib.Regex) (flags : RegexFlags)
        → flags.global ≡ false
        → Outcome st
            (match_loop lib fuel body (regex re flags) (whole_match (current st)).so 0 outer st)
    unfolding try_match try_regex
    single_loop re flags single =
        let (in_order, inside) = whole-IsFound (length st.text) (current st) good.found in
        match_loop-Outcome lib body (regex re flags) st.text (current st) body-Outcome
          (λ so call. (so ≤ end) ⊎ (0 < call)) one_call rounds fuel (whole_match (current st)).so 0
          outer st good refl refl (inl in_order) (omega arith)
      where
        rounds :
            (so call : ℕ)
            → (so ≤ end) ⊎ (0 < call)
            → Round lib body
                (regex re flags)
                st.text
                (current st)
                body-Outcome
                (λ so call. (so ≤ end) ⊎ (0 < call))
                one_call
                so
                call
        rounds so call (inr later) =
            let again : (ltb 0 call && not flags.global) ≡ true = ground (arith, later, single) in
            inl (rw again refl)
        rounds so call (inl le) =
            elim (try_regex-Matches lib reports st.text (current st) good.found good.small re flags
              so call le) [
                | inl nothing ↦ inl nothing
                | inr (frame, so', made, between, longer, tried) ↦
                    let inside = whole-IsFound (length st.text) (current st) good.found in
                    let first : call ≡ 0 = ground (arith, tried, single) in
                    inr (
                      inr (
                        frame,
                        so',
                        made,
                        IsFound-FoundBetween so end (length st.text) frame between inside.1,
                        inr (omega (arith, first)),
                        one_call_falls call first,
                      ))
              ]

    subex_loop :
        (index : ℕ)
        → Outcome st
            (match_loop lib fuel body (subex index) (whole_match (current st)).so 0 outer st)
    unfolding try_match try_regex
    subex_loop index =
        match_loop-Outcome lib body (subex index) st.text (current st) body-Outcome
          (λ so call. Unit {0}) one_call rounds fuel (whole_match (current st)).so 0 outer st good
          refl refl tt (omega arith)
      where
        rounds :
            (so call : ℕ)
            → Unit {0}
            → Round lib body
                (subex index)
                st.text
                (current st)
                body-Outcome
                (λ so call. Unit {0})
                one_call
                so
                call
        rounds so call i =
            elim (try_subex-Matches lib reports st.text (current st) good.found good.small index so
              call) [
                | inl nothing ↦ inl nothing
                | inr (inl dead) ↦ inr (inl dead)
                | inr (inr ((frame, so', made, between), tried)) ↦
                    let first : call ≡ 0 = ground (arith, tried) in
                    inr (
                      inr (
                        frame,
                        so',
                        made,
                        IsFound-FoundBetween 0 (length st.text) (length st.text) frame between
                            (omega arith),
                        tt,
                        one_call_falls call first,
                      ))
              ]

    pub match_loop-EndsMatch :
        (match : Match lib.Regex)
        → EndsMatch match
        → Outcome st (match_loop lib fuel body match (whole_match (current st)).so 0 outer st)
    match_loop-EndsMatch (regex re flags) ends = elim (Bool-cases flags.global) [
      | inl global ↦ global_loop re flags (ends global)
      | inr single ↦ single_loop re flags single
    ]
    match_loop-EndsMatch (subex index) ends = subex_loop index
