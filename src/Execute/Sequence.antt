-- ===== src/Execute/Sequence.antt =====
-- Rules in sequence, src/execute.c and new_multi_rule of src/rule.c.
use regex_markup.Common.{ℕ, ◌≡◌, refl, sym, ap, ◌∙◌, List, [], ◌∷◌, ◌++◌}
use regex_markup.Regex.{RegexLib}
use regex_markup.Rule.{
  ActionType, action_continue, action_break, action_skip, Rule, Rules, end_rules, then_rule,
  to_rules, new_multi_rule,
}
use regex_markup.Execute.{
  State, Result, ok, died, out_of_fuel, ◌>>=◌, execute_any_rule, execute_multi_rule,
}

-- What follows the first rule, where that continues.
abbrev pub continue_with :
    (ActionType × State) → (State → Result (ActionType × State)) → Result (ActionType × State)
continue_with (action_continue, st) rest = rest st
continue_with (action_break, st) rest = ok (action_break, st)
continue_with (action_skip, st) rest = ok (action_skip, st)

abbrev pub both :
    Result (ActionType × State)
    → (State → Result (ActionType × State))
    → Result (ActionType × State)
both first rest = first >>= λ done. continue_with done rest

both_continue :
    (first : Result (ActionType × State)) → both first (λ st. ok (action_continue, st)) ≡ first
both_continue (ok (action_continue, st)) = refl
both_continue (ok (action_break, st)) = refl
both_continue (ok (action_skip, st)) = refl
both_continue died = refl
both_continue out_of_fuel = refl

both_assoc :
    (first : Result (ActionType × State)) (second third : State → Result (ActionType × State))
    → both (both first second) third ≡ both first (λ st. both (second st) third)
both_assoc (ok (action_continue, st)) second third = refl
both_assoc (ok (action_break, st)) second third = refl
both_assoc (ok (action_skip, st)) second third = refl
both_assoc died second third = refl
both_assoc out_of_fuel second third = refl

module _ (lib : RegexLib) (fuel : ℕ) where
  open lib use {Regex}

  pub multi_step :
      (rule : Rule Regex) (rules : Rules Regex) (st : State)
      → execute_multi_rule lib fuel (then_rule rule rules) st
        ≡ both (execute_any_rule lib fuel rule st) (execute_multi_rule lib fuel rules)
  unfolding execute_any_rule execute_multi_rule
  multi_step rule rules st = go (execute_any_rule lib fuel rule st)
    where
      go :
          (first : Result (ActionType × State))
          → (first >>= λ (action, st'). elim action [
            | action_continue ↦ execute_multi_rule lib fuel rules st'
            | action_break ↦ ok (action_break, st')
            | action_skip ↦ ok (action_skip, st')
          ])
            ≡ both first (execute_multi_rule lib fuel rules)
      go (ok (action_continue, st')) = refl
      go (ok (action_break, st')) = refl
      go (ok (action_skip, st')) = refl
      go died = refl
      go out_of_fuel = refl

  -- A list of rules that is made a rule runs them in their order, up to the first that breaks or
  -- skips, also where the list of one rule is made that rule itself.
  pub new_multi_rule-in_order :
      (rules : List (Rule Regex)) (st : State)
      → execute_any_rule lib fuel (new_multi_rule rules) st
        ≡ execute_multi_rule lib fuel (to_rules rules) st
  unfolding new_multi_rule to_rules execute_any_rule
  new_multi_rule-in_order [] st = refl
  new_multi_rule-in_order (rule ∷ []) st =
      sym (multi_step rule end_rules st ∙ both_continue (execute_any_rule lib fuel rule st))
  new_multi_rule-in_order (rule ∷ next ∷ rules) st = refl

  -- Rules in two lists, one behind the other, run as the first list and, where no rule of it breaks
  -- or skips, the second.
  pub execute_multi_rule-append :
      (rules others : List (Rule Regex)) (st : State)
      → execute_multi_rule lib fuel (to_rules (rules ++ others)) st
        ≡ both
            (execute_multi_rule lib fuel (to_rules rules) st)
            (execute_multi_rule lib fuel (to_rules others))
  unfolding to_rules execute_multi_rule
  execute_multi_rule-append [] others st = refl
  execute_multi_rule-append (rule ∷ rules) others st =
      multi_step rule (to_rules (rules ++ others)) st
      ∙ ap (both (execute_any_rule lib fuel rule st))
          (λ i st'. execute_multi_rule-append rules others st' i)
      ∙ sym (
          both_assoc (execute_any_rule lib fuel rule st)
            (execute_multi_rule lib fuel (to_rules rules))
            (execute_multi_rule lib fuel (to_rules others)))
      ∙ ap (λ r. both r (execute_multi_rule lib fuel (to_rules others)))
          (sym (multi_step rule (to_rules rules) st))
