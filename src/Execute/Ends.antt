-- ===== src/Execute/Ends.antt =====
-- Rules of src/execute.c that match and mark, and replace nothing.
use regex_markup.Common.{
  ℕ, ◌+◌, ◌≤◌, ◌<◌, ◌≡◌, refl, sym, subst, ap, ◌∙◌, List, [], ◌∷◌, ◌⊎◌, inl, inr, length, i32,
  false, Bool-cases, arith,
}
use regex_markup.Ranges.Insert.{InOrder}
use regex_markup.Style.{Style}
use regex_markup.Regex.{RegexLib}
use regex_markup.Match.{Match, whole_match}
use regex_markup.Match.Found.{ReportsOffsets, IsFound}
use regex_markup.Rule.{
  ActionType, action_continue, action_break, action_skip, Rule, Rules, rule_match, rule_macro,
  rule_style, rule_multi, rule_action, rule_substitution, rule_set, end_rules, then_rule,
}
use regex_markup.Execute.{
  State, Result, ok, died, ◌>>=◌, current, Executed, match_loop, match_rule_loop, execute_any_rule,
  execute_multi_rule, execute_style_rule,
}
use regex_markup.Execute.Sequence.{both, multi_step}
use regex_markup.Execute.Styling.{execute_style_rule-Outcome}
use regex_markup.Execute.Loops.{Marked, Outcome, Good, Good-Marked, Marked-same, Outcome-then}
use regex_markup.Execute.Named.{names_exist, ReportsSubexpressions}
use regex_markup.Execute.Survives.{Survives, rule-Survives}
use regex_markup.Execute.Marking.{
  AllEndMatch, MarksOnly, AllMarkOnly, match_loop-EndsMatch, whole-IsFound,
}

module _ (lib : RegexLib) where
  open lib use {Regex}

  style-Outcome : (style : Style) (st : State) → Good st → Outcome st (execute_style_rule style st)
  style-Outcome style st good =
      let (st', e, f) =
        execute_style_rule-Outcome style st
          (good.ordered, (whole-IsFound (length st.text) (current st) good.found).0) in
      inr (
        action_continue,
        st',
        e,
        record { same_text = f.same_text; same_frames = f.same_frames; in_order = f.in_order },
      )

  -- One result after another, if the first one goes on.
  both-Outcome :
      (st : State) (r : Result (ActionType × State)) (rest : State → Result (ActionType × State))
      → Good st
      → Outcome st r
      → ((st' : State) → Good st' → st'.text ≡ st.text → Outcome st' (rest st'))
      → Outcome st (both r rest)
  both-Outcome st r rest good (inl e) next = inl (ap (λ q. both q rest) e)
  both-Outcome st r rest good (inr (action_continue, st', e, f)) next =
      subst (λ q. Outcome st (both q rest)) (sym e)
        (Outcome-then st st' (rest st') f (next st' (Good-Marked st st' good f) f.same_text))
  both-Outcome st r rest good (inr (action_break, st', e, f)) next =
      inr (action_break, st', ap (λ q. both q rest) e, f)
  both-Outcome st r rest good (inr (action_skip, st', e, f)) next =
      inr (action_skip, st', ap (λ q. both q rest) e, f)

  module _ (reports : ReportsOffsets lib) (fuel : ℕ) (body : Executed) (text : List ℕ)
      (enough : length text + 2 ≤ fuel)
      (body-Outcome : (st' : State) → Good st' → st'.text ≡ text → Outcome st' (body st')) where
    -- What follows a match of the rule.
    abbrev next_match : List (Match Regex) → ActionType × State → Result (ActionType × State)
    next_match matches (action, st') = elim action [
      | action_skip ↦ ok (action_skip, st')
      | action_break ↦ match_rule_loop lib fuel body matches action_break st'
      | action_continue ↦ match_rule_loop lib fuel body matches action_continue st'
    ]

    -- A match, where the ones behind it have an outcome.
    match_then-Outcome :
        (matches : List (Match Regex)) (st : State) (r : Result (ActionType × State))
        → Outcome st r
        → ((action : ActionType) (st' : State)
            → Marked st st'
            → Outcome st' (match_rule_loop lib fuel body matches action st'))
        → Outcome st (r >>= next_match matches)
    match_then-Outcome matches st r (inl e) later = inl (ap (◌>>= next_match matches) e)
    match_then-Outcome matches st r (inr (action_skip, st', e, f)) later =
        inr (action_skip, st', ap (◌>>= next_match matches) e, f)
    match_then-Outcome matches st r (inr (action_break, st', e, f)) later =
        subst (λ r. Outcome st (r >>= next_match matches)) (sym e)
          (Outcome-then st st' _ f (later action_break st' f))
    match_then-Outcome matches st r (inr (action_continue, st', e, f)) later =
        subst (λ r. Outcome st (r >>= next_match matches)) (sym e)
          (Outcome-then st st' _ f (later action_continue st' f))

    matches-Outcome :
        (matches : List (Match Regex)) (outer : ActionType) (st : State)
        → AllEndMatch lib matches
        → Good st
        → st.text ≡ text
        → Outcome st (match_rule_loop lib fuel body matches outer st)
    unfolding match_rule_loop
    matches-Outcome [] outer st ends good t = inr (outer, st, refl, Marked-same st good)
    matches-Outcome (match ∷ matches) outer st (end, ends) good t =
        match_then-Outcome matches st
          (match_loop lib fuel body match (whole_match (current st)).so 0 outer st)
          (match_loop-EndsMatch lib reports body st good (λ st' g e. body-Outcome st' g (e ∙ t))
            fuel (subst (λ (text : List ℕ). length text + 2 ≤ fuel) (sym t) enough) outer match end)
          (λ action st' f.
            matches-Outcome matches action st' ends (Good-Marked st st' good f) (f.same_text ∙ t))

  module _ (reports : ReportsOffsets lib) (text : List ℕ) (fuel : ℕ)
      (enough : length text + 2 ≤ fuel) where
    mutual
      unfolding MarksOnly AllMarkOnly execute_any_rule execute_multi_rule

      rule-Outcome :
          (rule : Rule Regex) (st : State)
          → MarksOnly lib rule
          → Good st
          → st.text ≡ text
          → Outcome st (execute_any_rule lib fuel rule st)
      rule-Outcome (rule_match matches rule) st (ends, marks) good t =
          matches-Outcome reports fuel (execute_any_rule lib fuel rule) text enough
            (λ st' g e. rule-Outcome rule st' marks g e) matches action_continue st ends good t
      rule-Outcome (rule_macro rule) st marks good t = rule-Outcome rule st marks good t
      rule-Outcome (rule_style style) st marks good t = style-Outcome style st good
      rule-Outcome (rule_multi rules) st marks good t = rules-Outcome rules st marks good t
      rule-Outcome (rule_action action) st marks good t =
          inr (action, st, refl, Marked-same st good)
      rule-Outcome (rule_substitution re flags repl) st marks good t = absurd marks
      rule-Outcome (rule_set repl) st marks good t = absurd marks

      rules-Outcome :
          (rules : Rules Regex) (st : State)
          → AllMarkOnly lib rules
          → Good st
          → st.text ≡ text
          → Outcome st (execute_multi_rule lib fuel rules st)
      rules-Outcome end_rules st marks good t = inr (action_continue, st, refl, Marked-same st good)
      rules-Outcome (then_rule rule rules) st (first, others) good t =
          subst (Outcome st) (sym (multi_step lib fuel rule rules st)) (
            both-Outcome st (execute_any_rule lib fuel rule st) (execute_multi_rule lib fuel rules)
              good (rule-Outcome rule st first good t)
              (λ st' g e. rules-Outcome rules st' others g (e ∙ t)))

  -- A rule that replaces nothing, and whose global expressions never match the empty string, ends for
  -- a line whose text is `fuel - 2` long at most: either with the message of the program, where a
  -- subexpression that the rule names is none of those that its match has, used or not, or with an
  -- action and a state whose text and matches are as they were and whose ranges are in order. The
  -- ranges were in order, the match lay in the text, and regexec reports offsets in the string that
  -- it is given, `subs` of them for an expression.
  pub execute_any_rule-Marked :
      (reports : ReportsOffsets lib) (subs : Regex → ℕ)
      → ReportsSubexpressions lib subs
      → (rule : Rule Regex) (st : State) (fuel : ℕ) → MarksOnly lib rule
      → InOrder st.styles
      → IsFound (length st.text) (current st)
      → length st.text < i32
      → length st.text + 2 ≤ fuel
      → ((execute_any_rule lib fuel rule st ≡ died)
          × (names_exist subs (length (current st)) rule ≡ false))
        ⊎ ((action : ActionType) × (st' : State) × (execute_any_rule lib fuel rule st
              ≡ ok (action, st'))
            × Marked st st')
  execute_any_rule-Marked reports subs counts rule st fuel marks ordered found small enough =
      elim (rule-Outcome reports st.text fuel enough rule st marks
        (record { ordered = ordered; found = found; small = small }) refl) [
          | inr result ↦ inr result
          | inl ended ↦ elim (Bool-cases (names_exist subs (length (current st)) rule)) [
            | inr unknown ↦ inl (ended, unknown)
            | inl named ↦ absurd (
                subst (Survives st) ended (
                  rule-Survives lib subs counts fuel rule (length (current st)) st marks named
                    (omega arith)))
          ]
        ]
