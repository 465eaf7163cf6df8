-- ===== src/Rule.antt =====
-- The rules of src/remark.h: what a script is parsed into.
use regex_markup.Common.{ℕ, List, [], ◌∷◌}
use regex_markup.Style.{Style}
use regex_markup.Match.{Match, RegexFlags}

pub data ActionType : Type 0 where
  action_continue action_break action_skip : ActionType

-- A macro rule refers to its macro's rule.
mutual
  pub data Rule (R : Type 0) : Type 0 where
    rule_match : List (Match R) → Rule R → Rule R
    rule_macro : Rule R → Rule R
    rule_style : Style → Rule R
    rule_multi : Rules R → Rule R
    rule_action : ActionType → Rule R
    rule_substitution : R → RegexFlags → List ℕ → Rule R
    rule_set : List ℕ → Rule R

  pub data Rules (R : Type 0) : Type 0 where
    end_rules : Rules R
    then_rule : Rule R → Rules R → Rules R

-- llist_to_array: the rules of a list.
unfoldable pub to_rules : {R : Type 0} → List (Rule R) → Rules R
to_rules [] = end_rules
to_rules (rule ∷ rules) = then_rule rule (to_rules rules)

-- A list of one rule is that rule.
unfoldable pub new_multi_rule : {R : Type 0} → List (Rule R) → Rule R
unfolding to_rules
new_multi_rule [] = rule_multi end_rules
new_multi_rule (rule ∷ []) = rule
new_multi_rule (rule ∷ next ∷ rules) = rule_multi (to_rules (rule ∷ next ∷ rules))
