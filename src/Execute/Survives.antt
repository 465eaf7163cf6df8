-- ===== src/Execute/Survives.antt =====
-- src/execute.c: rules that replace nothing and name only subexpressions that there are, and whether
-- they end the program.
use regex_markup.Common.{
  ℕ, zero, suc, ◌≤◌, ◌≡◌, refl, sym, subst, ap, ◌∙◌, List, [], ◌∷◌, Option, none, some, Bool, true,
  false, ◌&&◌, length, get_or, arith,
}
use regex_markup.Style.{Style}
use regex_markup.Ranges.{StyleRange, insert_style, new_style_range}
use regex_markup.Regex.{RegexLib}
use regex_markup.Match.{Match, Frame, Tried, whole_match, no_match, matched, dies, try_match}
use regex_markup.Rule.{
  ActionType, action_continue, action_break, action_skip, Rule, Rules, rule_match, rule_macro,
  rule_style, rule_multi, rule_action, rule_substitution, rule_set, end_rules, then_rule,
}
use regex_markup.Execute.{
  State, Result, ok, died, out_of_fuel, ◌>>=◌, current, leave, from_option, Executed, match_loop,
  match_rule_loop, execute_any_rule, execute_multi_rule, execute_style_rule,
}
use regex_markup.Execute.Sequence.{both, multi_step}
use regex_markup.Execute.Marking.{MarksOnly, AllMarkOnly}
use regex_markup.Execute.Loops.{enter, next_round, match_loop-round, round_none}
use regex_markup.Execute.Named.{
  submatches, match_exists, matches_exist, names_exist, all_exist, ReportsSubexpressions, Lives,
  try_match-Lives,
}

-- The program does not end, and the matches are those that there were if there is a result.
abbrev pub Survives : State → Result (ActionType × State) → Type 0
Survives st (ok (action, st')) = st'.frames ≡ st.frames
Survives st died = ⊥
Survives st out_of_fuel = Unit {0}

Survives-then :
    (a b : State) (r : Result (ActionType × State))
    → b.frames ≡ a.frames
    → Survives b r
    → Survives a r
Survives-then a b (ok (action, c)) e h = h ∙ e
Survives-then a b died e h = h
Survives-then a b out_of_fuel e h = tt

and_left : (a b : Bool) → a && b ≡ true → a ≡ true
and_left true b h = refl
and_left false b h = h

and_right : (a b : Bool) → a && b ≡ true → b ≡ true
and_right true b h = h
and_right false b h = absurd (ground arith)

module _ (lib : RegexLib) (subs : lib.Regex → ℕ) (reports : ReportsSubexpressions lib subs) where
  open lib use {Regex}

  module _ (body : Executed) (match : Match Regex) (k : ℕ)
      (named : match_exists subs k match ≡ true)
      (body-Survives : (st : State)
        → submatches subs match ≤ length (current st)
        → Survives st (body st)) where
    left_again :
        (frame : Frame) (st st' : State)
        → st'.frames ≡ frame ∷ st.frames
        → (leave st').frames ≡ st.frames
    left_again frame st st' e =
        ap (λ (frames : List Frame). elim frames [ [] ↦ [] | frame ∷ others ↦ others ]) e

    round-Survives :
        (f call : ℕ) (outer : ActionType) (st : State) (frame : Frame)
        (r : Result (ActionType × State))
        → Survives (enter frame st) r
        → ((so call : ℕ) (action : ActionType) (st' : State)
            → st'.frames ≡ st.frames
            → Survives st' (match_loop lib f body match so call action st'))
        → Survives st (r >>= next_round lib body match f call outer)
    round-Survives f call outer st frame died h later = h
    round-Survives f call outer st frame out_of_fuel h later = tt
    round-Survives f call outer st frame (ok (action_skip, st')) h later = left_again frame st st' h
    round-Survives f call outer st frame (ok (action_break, st')) h later =
        let left : (leave st').frames ≡ st.frames = left_again frame st st' h in
        Survives-then st (leave st') _ left (later _ _ action_break (leave st') left)
    round-Survives f call outer st frame (ok (action_continue, st')) h later =
        let left : (leave st').frames ≡ st.frames = left_again frame st st' h in
        Survives-then st (leave st') _ left (later _ _ outer (leave st') left)

    loop-Survives :
        (f so call : ℕ) (outer : ActionType) (st : State)
        → k ≤ length (current st)
        → Survives st (match_loop lib f body match so call outer st)
    unfolding match_loop
    loop-Survives zero so call outer st le = tt
    loop-Survives (suc f) so call outer st le =
        go (try_match lib match st.text (current st) so call) refl
          (try_match-Lives lib subs reports match k st.text (current st) so call named le)
          (λ so call action st' same.
            loop-Survives f so call action st'
              (subst (λ (frames : List Frame). k ≤ length (get_or frames 0 [])) (sym same) le))
      where
        go :
            (r : Tried)
            → try_match lib match st.text (current st) so call ≡ r
            → Lives (submatches subs match) (try_match lib match st.text (current st) so call)
            → ((so call : ℕ) (action : ActionType) (st' : State)
                → st'.frames ≡ st.frames
                → Survives st' (match_loop lib f body match so call action st'))
            → Survives st (match_loop lib (suc f) body match so call outer st)
        go no_match e lives later =
            subst (Survives st) (sym (round_none lib body match f so call outer st e)) refl
        go dies e lives later = absurd (subst (Lives (submatches subs match)) e lives)
        go (matched frame so') e lives later =
            subst (Survives st)
              (sym (match_loop-round lib body match f so call outer st frame so' e))
              (round-Survives f call outer st frame (body (enter frame st))
                (body-Survives (enter frame st) (subst (Lives (submatches subs match)) e lives))
                later)

  module _ (fuel : ℕ) (body : Executed) (exists : ℕ → Bool)
      (body-Survives : (n : ℕ) (st : State)
        → exists n ≡ true
        → n ≤ length (current st)
        → Survives st (body st)) where
    matches-Survives :
        (matches : List (Match Regex)) (k : ℕ) (outer : ActionType) (st : State)
        → matches_exist subs k exists matches ≡ true
        → k ≤ length (current st)
        → Survives st (match_rule_loop lib fuel body matches outer st)
    unfolding match_rule_loop
    matches-Survives [] k outer st named le = refl
    matches-Survives (match ∷ matches) k outer st named le =
        let first : match_exists subs k match ≡ true =
          and_left (match_exists subs k match) _ named in
        let others : exists (submatches subs match) && matches_exist subs k exists matches ≡ true =
          and_right (match_exists subs k match) _ named in
        go (match_loop lib fuel body match (whole_match (current st)).so 0 outer st)
          (loop-Survives body match k first
            (λ st'. body-Survives (submatches subs match) st' (and_left _ _ others)) fuel
            (whole_match (current st)).so 0 outer st le)
          (λ action st' same.
            matches-Survives matches k action st'
              (and_right (exists (submatches subs match)) _ others)
              (subst (λ (frames : List Frame). k ≤ length (get_or frames 0 [])) (sym same) le))
      where
        go :
            (r : Result (ActionType × State))
            → Survives st r
            → ((action : ActionType) (st' : State)
                → st'.frames ≡ st.frames
                → Survives st' (match_rule_loop lib fuel body matches action st'))
            → Survives st (
                r >>= λ (action, st'). elim action [
                  | action_skip ↦ ok (action_skip, st')
                  | action_break ↦ match_rule_loop lib fuel body matches action_break st'
                  | action_continue ↦ match_rule_loop lib fuel body matches action_continue st'
                ])
        go died h later = h
        go out_of_fuel h later = tt
        go (ok (action_skip, st')) h later = h
        go (ok (action_break, st')) h later = Survives-then st st' _ h (later action_break st' h)
        go (ok (action_continue, st')) h later =
            Survives-then st st' _ h (later action_continue st' h)

  style-Survives : (style : Style) (st : State) → Survives st (execute_style_rule style st)
  unfolding execute_style_rule
  style-Survives style st = go (
      insert_style st.styles
        (new_style_range style (whole_match (current st)).so (whole_match (current st)).eo))
    where
      go :
          (r : Option (List StyleRange))
          → Survives st
              (from_option r >>= λ styles. ok (action_continue, record st { styles = styles }))
      go none = tt
      go (some styles) = refl

  both-Survives :
      (st : State) (r : Result (ActionType × State)) (rest : State → Result (ActionType × State))
      → Survives st r
      → ((st' : State) → st'.frames ≡ st.frames → Survives st' (rest st'))
      → Survives st (both r rest)
  both-Survives st died rest h later = h
  both-Survives st out_of_fuel rest h later = tt
  both-Survives st (ok (action_continue, st')) rest h later =
      Survives-then st st' (rest st') h (later st' h)
  both-Survives st (ok (action_break, st')) rest h later = h
  both-Survives st (ok (action_skip, st')) rest h later = h

  module _ (fuel : ℕ) where
    mutual
      unfolding MarksOnly AllMarkOnly names_exist all_exist execute_any_rule execute_multi_rule

      -- A rule that names subexpressions that there are does not end the program.
      pub rule-Survives :
          (rule : Rule Regex) (k : ℕ) (st : State)
          → MarksOnly lib rule
          → names_exist subs k rule ≡ true
          → k ≤ length (current st)
          → Survives st (execute_any_rule lib fuel rule st)
      rule-Survives (rule_match matches rule) k st (ends, marks) named le =
          matches-Survives fuel (execute_any_rule lib fuel rule) (λ n. names_exist subs n rule)
            (λ n st' named' le'. rule-Survives rule n st' marks named' le') matches k
            action_continue st named le
      rule-Survives (rule_macro rule) k st marks named le = rule-Survives rule k st marks named le
      rule-Survives (rule_style style) k st marks named le = style-Survives style st
      rule-Survives (rule_multi rules) k st marks named le =
          rules-Survives rules k st marks named le
      rule-Survives (rule_action action) k st marks named le = refl
      rule-Survives (rule_substitution re flags repl) k st marks named le = absurd marks
      rule-Survives (rule_set repl) k st marks named le = absurd marks

      rules-Survives :
          (rules : Rules Regex) (k : ℕ) (st : State)
          → AllMarkOnly lib rules
          → all_exist subs k rules ≡ true
          → k ≤ length (current st)
          → Survives st (execute_multi_rule lib fuel rules st)
      rules-Survives end_rules k st marks named le = refl
      rules-Survives (then_rule rule rules) k st (first, others) named le =
          subst (Survives st) (sym (multi_step lib fuel rule rules st)) (
            both-Survives st (execute_any_rule lib fuel rule st) (execute_multi_rule lib fuel rules)
              (rule-Survives rule k st first (and_left (names_exist subs k rule) _ named) le)
              (λ st' same.
                rules-Survives rules k st' others (and_right (names_exist subs k rule) _ named)
                  (subst (λ (frames : List Frame). k ≤ length (get_or frames 0 [])) (sym same) le)))
