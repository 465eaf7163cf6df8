-- ===== src/Execute/Styling.antt =====
-- Blocks of styles and actions in src/execute.c: what they write over a match.
use regex_markup.Common.{
  ℕ, ◌≤◌, ◌≡◌, refl, sym, subst, ap, ◌∙◌, List, [], ◌∷◌, ◌++◌, Option, append_assoc, append-nil,
  Bool, true, false, ltb, leb, if◌then◌else◌, ◌&&◌,
}
use regex_markup.Style.{Style}
use regex_markup.Ranges.{StyleRange, new_style_range}
use regex_markup.Ranges.Covers.{covers, on_between}
use regex_markup.Ranges.Insert.{InOrder, insert_style-covers}
use regex_markup.Regex.{RegexLib}
use regex_markup.Match.{whole_match}
use regex_markup.Rule.{
  ActionType, action_continue, action_break, action_skip, Rule, Rules, rule_match, rule_macro,
  rule_style, rule_multi, rule_action, rule_substitution, rule_set, end_rules, then_rule,
}
use regex_markup.Execute.Sequence.{both, multi_step}
use regex_markup.Execute.{
  State, Result, ok, ◌>>=◌, from_option, current, execute_style_rule, execute_any_rule,
  execute_multi_rule,
}

abbrev pub then_styles : ActionType × List Style → ActionType × List Style → ActionType × List Style
then_styles (action_continue, xs) (action, ys) = (action, xs ++ ys)
then_styles (action_break, xs) others = (action_break, xs)
then_styles (action_skip, xs) others = (action_skip, xs)

module _ {R : Type 0} where
  -- Rules that neither match nor replace.
  unfoldable mutual
    pub OnlyStyles : Rule R → Type 0
    OnlyStyles (rule_match matches rule) = ⊥
    OnlyStyles (rule_macro rule) = OnlyStyles rule
    OnlyStyles (rule_style style) = Unit {0}
    OnlyStyles (rule_multi rules) = AllOnlyStyles rules
    OnlyStyles (rule_action action) = Unit {0}
    OnlyStyles (rule_substitution re flags repl) = ⊥
    OnlyStyles (rule_set repl) = ⊥

    pub AllOnlyStyles : Rules R → Type 0
    AllOnlyStyles end_rules = Unit {0}
    AllOnlyStyles (then_rule rule rules) = OnlyStyles rule × AllOnlyStyles rules

  -- The action of such a rule, and the styles up to the first break or skip.
  unfoldable mutual
    pub styling : Rule R → ActionType × List Style
    styling (rule_match matches rule) = (action_continue, [])
    styling (rule_macro rule) = styling rule
    styling (rule_style style) = (action_continue, style ∷ [])
    styling (rule_multi rules) = all_styling rules
    styling (rule_action action) = (action, [])
    styling (rule_substitution re flags repl) = (action_continue, [])
    styling (rule_set repl) = (action_continue, [])

    pub all_styling : Rules R → ActionType × List Style
    all_styling end_rules = (action_continue, [])
    all_styling (then_rule rule rules) = then_styles (styling rule) (all_styling rules)

-- The state differs in its ranges only, and at each offset of the match the styles are added.
pub record Styled (styles : List Style) (st st' : State) : Type 0 where
  pub same_text : st'.text ≡ st.text
  pub same_frames : st'.frames ≡ st.frames
  pub in_order : InOrder st'.styles
  pub on :
      (i : ℕ)
      → covers i st'.styles
        ≡ covers i st.styles
          ++ on_between i (whole_match (current st)).so (whole_match (current st)).eo styles

abbrev pub Outcome : State → ActionType × List Style → Result (ActionType × State) → Type 0
Outcome st (action, styles) result =
    (st' : State) × (result ≡ ok (action, st')) × Styled styles st st'

abbrev pub Proper : State → Type 0
Proper st = InOrder st.styles × ((whole_match (current st)).so ≤ (whole_match (current st)).eo)

on_between-append :
    (i so eo : ℕ) (xs ys : List Style)
    → on_between i so eo xs ++ on_between i so eo ys ≡ on_between i so eo (xs ++ ys)
on_between-append i so eo xs ys = go (leb so i && ltb i eo)
  where
    go :
        (b : Bool) → (if b then xs else []) ++ (if b then ys else []) ≡ (if b then xs ++ ys else [])
    go true = refl
    go false = refl

on_between-none : (i so eo : ℕ) → on_between i so eo [] ≡ []
on_between-none i so eo = go (leb so i && ltb i eo)
  where
    go : (b : Bool) → (if◌then◌else◌ {A = List Style} b [] []) ≡ []
    go true = refl
    go false = refl

Styled-same : (st : State) → Proper st → Styled [] st st
Styled-same st p = record {
  same_text = refl;
  same_frames = refl;
  in_order = p.0;
  on = λ i.
      sym (ap (covers i st.styles ++◌) (on_between-none i _ _) ∙ append-nil (covers i st.styles));
}

Styled-then :
    (xs ys : List Style) (a b c : State) → Styled xs a b → Styled ys b c → Styled (xs ++ ys) a c
Styled-then xs ys a b c f g = record {
  same_text = g.same_text ∙ f.same_text;
  same_frames = g.same_frames ∙ f.same_frames;
  in_order = g.in_order;
  on = λ i.
      g.on i
      ∙ ap
          (λ (frames : List (List _)).
            covers i b.styles
            ++ on_between i (whole_match (current (record b { frames = frames }))).so
                (whole_match (current (record b { frames = frames }))).eo ys)
          f.same_frames
      ∙ ap (◌++ on_between i (whole_match (current a)).so (whole_match (current a)).eo ys) (f.on i)
      ∙ append_assoc (covers i a.styles) _ _
      ∙ ap (covers i a.styles ++◌) (on_between-append i _ _ xs ys);
}

Proper-Styled :
    (styles : List Style) (st st' : State) → Proper st → Styled styles st st' → Proper st'
Proper-Styled styles st st' p f = (
  f.in_order,
  subst
      (λ frames.
        (whole_match (current (record st { frames = frames }))).so
        ≤ (whole_match (current (record st { frames = frames }))).eo)
      (sym f.same_frames) p.1,
)

Outcome-then :
    (st : State) (first second : ActionType × List Style) (r : Result (ActionType × State))
    (rest : State → Result (ActionType × State))
    → Proper st
    → Outcome st first r
    → ((st' : State) → Proper st' → Outcome st' second (rest st'))
    → Outcome st (then_styles first second) (both r rest)
Outcome-then st (action_continue, xs) (action, ys) r rest p (st', e, f) next =
    let (st'', e', g) = next st' (Proper-Styled xs st st' p f) in
    (st'', ap (λ q. both q rest) e ∙ e', Styled-then xs ys st st' st'' f g)
Outcome-then st (action_break, xs) second r rest p (st', e, f) next =
    (st', ap (λ q. both q rest) e, f)
Outcome-then st (action_skip, xs) second r rest p (st', e, f) next =
    (st', ap (λ q. both q rest) e, f)

pub execute_style_rule-Outcome :
    (style : Style) (st : State)
    → Proper st
    → Outcome st (action_continue, style ∷ []) (execute_style_rule style st)
unfolding execute_style_rule new_style_range
execute_style_rule-Outcome style st p =
    let m = whole_match (current st) in
    let (out, made, ordered, covered) =
      insert_style-covers st.styles (new_style_range style m.so m.eo) p.0 p.1 in
    (
      record st { styles = out },
      ap
          (λ (o : Option (List StyleRange)).
            from_option o >>= λ styles. ok (action_continue, record st { styles = styles }))
          made,
      record { same_text = refl; same_frames = refl; in_order = ordered; on = covered },
    )

module _ (lib : RegexLib) (fuel : ℕ) where
  open lib use {Regex}

  mutual
    unfolding styling all_styling OnlyStyles AllOnlyStyles execute_any_rule execute_multi_rule

    rule-Outcome :
        (rule : Rule Regex) (st : State)
        → OnlyStyles rule
        → Proper st
        → Outcome st (styling rule) (execute_any_rule lib fuel rule st)
    rule-Outcome (rule_match matches rule) st o p = absurd o
    rule-Outcome (rule_macro rule) st o p = rule-Outcome rule st o p
    rule-Outcome (rule_style style) st o p = execute_style_rule-Outcome style st p
    rule-Outcome (rule_multi rules) st o p = rules-Outcome rules st o p
    rule-Outcome (rule_action action) st o p = (st, refl, Styled-same st p)
    rule-Outcome (rule_substitution re flags repl) st o p = absurd o
    rule-Outcome (rule_set repl) st o p = absurd o

    rules-Outcome :
        (rules : Rules Regex) (st : State)
        → AllOnlyStyles rules
        → Proper st
        → Outcome st (all_styling rules) (execute_multi_rule lib fuel rules st)
    rules-Outcome end_rules st o p = (st, refl, Styled-same st p)
    rules-Outcome (then_rule rule rules) st (o, os) p =
        let (st', e, f) =
          Outcome-then st (styling rule) (all_styling rules) (execute_any_rule lib fuel rule st)
            (execute_multi_rule lib fuel rules) p (rule-Outcome rule st o p)
            (λ st' p'. rules-Outcome rules st' os p') in
        (st', multi_step lib fuel rule rules st ∙ e, f)

  -- A rule of styles, actions, macros and blocks of these ends, whatever the fuel, with the action of
  -- the first break or skip; it changes neither the text nor the matches, keeps the ranges in order,
  -- and turns on, over the match, the styles up to that action, in their order. The ranges were in
  -- order, and the match ends no earlier than it starts.
  pub execute_any_rule-Styled :
      (rule : Rule Regex) (st : State)
      → OnlyStyles rule
      → Proper st
      → (st' : State) × (execute_any_rule lib fuel rule st ≡ ok ((styling rule).0, st'))
        × Styled (styling rule).1 st st'
  execute_any_rule-Styled rule st o p = rule-Outcome rule st o p
