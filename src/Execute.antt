-- ===== src/Execute.antt =====
-- src/execute.c: a rule is executed on a match state. The buffer's text is a list of characters,
-- which the operations of the string buffer splice (StrBuf/Edits.antt). A match state and its
-- parents are a list of frames, the innermost first; what a rule changes in a parent stays.
pub mod Endless
pub mod Placed
pub mod Sequence
pub mod Styling
pub mod Loops
pub mod Marking
pub mod Named
pub mod Survives
pub mod Ends
use regex_markup.Common.{
  ℕ, zero, suc, ◌+◌, ◌≡◌, List, [], ◌∷◌, ◌++◌, Option, none, some, Bool, true, false, not, ◌&&◌,
  ◌||◌, ltb, leb, ◌==◌, if◌then◌else◌, length, get_or, add32, sub32, wrap32, minus_one,
}
use regex_markup.Style.{Style}
use regex_markup.StrBuf.Splice.{splice, from_pos, to_pos}
use regex_markup.Ranges.{StyleRange, new_style_range, insert_style}
use regex_markup.Regex.{RegexLib, SubmatchSpec, spec, xregexec_substring}
use regex_markup.Match.{
  Match, RegexFlags, Frame, whole_match, Tried, no_match, matched, dies, try_match,
}
use regex_markup.Expand.{expand_substitution}
use regex_markup.Positions.{Marks, update_positions}
use regex_markup.Rule.{
  ActionType, action_continue, action_break, action_skip, Rule, Rules, rule_match, rule_macro,
  rule_style, rule_multi, rule_action, rule_substitution, rule_set, end_rules, then_rule,
}

pub record State : Type 0 where
  pub text : List ℕ
  pub styles : List StyleRange
  pub frames : List Frame

-- A line, or one of the two strings that are put around the pieces of a line.
pub record MatchBuffer : Type 0 where
  pub text : List ℕ
  pub bufferlen : ℕ
  pub styles : List StyleRange

-- `die` ends the program; `out_of_fuel` is a loop that has used its rounds.
pub data Result {ℓ} (A : Type ℓ) : Type ℓ where
  ok : A → Result A
  died : Result A
  out_of_fuel : Result A

infixl 5 ◌>>=◌
abbrev pub ◌>>=◌ {ℓ κ} : {A : Type ℓ} {B : Type κ} → Result A → (A → Result B) → Result B
ok a >>= f = f a
died >>= f = died
out_of_fuel >>= f = out_of_fuel

abbrev pub from_option {ℓ} : {A : Type ℓ} → Option A → Result A
from_option none = out_of_fuel
from_option (some a) = ok a

abbrev pub current : State → Frame
current st = get_or st.frames 0 []

-- strbuf_replace on the text.
unfoldable pub replace_text : List ℕ → ℕ → ℕ → List ℕ → List ℕ
replace_text text sp ep repl = splice text (from_pos text sp ep) (to_pos text sp ep) repl

-- The text is replaced, and every offset into it is moved.
unfoldable pub replace_and_update : State → (sp ep : ℕ) → (from diff : ℕ) → List ℕ → State
unfolding replace_text update_positions
replace_and_update st sp ep from diff repl =
    let moved = update_positions from diff st.frames st.styles in
    record { text = replace_text st.text sp ep repl; styles = moved.styles; frames = moved.frames }

unfoldable pub execute_set_rule : List ℕ → State → Result (ActionType × State)
unfolding expand_substitution replace_and_update
execute_set_rule replacement st = do
  let m = whole_match (current st)
  repl ← from_option (expand_substitution st.text (current st) (current st) replacement)
  let diff = sub32 (length repl) (sub32 m.eo m.so)
  ok (action_continue, replace_and_update st m.so m.eo 0 diff repl)

unfoldable pub execute_style_rule : Style → State → Result (ActionType × State)
unfolding insert_style new_style_range
execute_style_rule style st = do
  let m = whole_match (current st)
  styles ← from_option (insert_style st.styles (new_style_range style m.so m.eo))
  ok (action_continue, record st { styles = styles })

-- The states of a call end when the function returns: free_match_state.
abbrev pub leave : State → State
leave st = record st { frames = (elim st.frames [ [] ↦ [] | frame ∷ others ↦ others ]) }

-- A rule, executed: the action, and the state.
abbrev pub Executed : Type 0
Executed = State → Result (ActionType × State)

module _ (lib : RegexLib) where
  open lib use {Regex}

  -- `do … while (!last && global)`, on fuel. `eo` is the end that the match had at first.
  unfoldable pub substitution_loop :
      ℕ → Regex → RegexFlags → List ℕ → (so eo : ℕ) → State → Result (ActionType × State)
  unfolding xregexec_substring expand_substitution replace_and_update
  substitution_loop zero re flags replacement so eo st = out_of_fuel
  substitution_loop (suc f) re flags replacement so eo st =
      let last = get_or st.text so 0 == 0 in
      elim (xregexec_substring lib re st.text so eo) [
        | none ↦ ok (action_continue, st)
        | some subv ↦
            from_option (expand_substitution st.text (current st) subv replacement) >>= λ repl.
            let m = whole_match subv in
            let replen = length repl in
            let st' = replace_and_update st m.so m.eo m.so (sub32 replen (sub32 m.eo m.so)) repl in
            let so' = wrap32 (so + replen + (if m.so == m.eo then 1 else 0)) in
            elim (not last && flags.global) [
              | true ↦ substitution_loop f re flags replacement so' eo st'
              | false ↦ ok (action_continue, st')
            ]
      ]

  unfoldable pub execute_substitution_rule :
      ℕ → Regex → RegexFlags → List ℕ → State → Result (ActionType × State)
  unfolding substitution_loop
  execute_substitution_rule fuel re flags replacement st =
      let m = whole_match (current st) in substitution_loop fuel re flags replacement m.so m.eo st

  -- `while ((new_ms = try_match(match, ms, &so, call++)) != NULL)`, on fuel. `none` for the action
  -- is the return of ACTION_SKIP.
  unfoldable pub match_loop :
      ℕ → Executed → Match Regex → (so call : ℕ) → ActionType → State → Result (ActionType × State)
  unfolding try_match
  match_loop zero body match so call outer_action st = out_of_fuel
  match_loop (suc f) body match so call outer_action st =
      elim (try_match lib match st.text (current st) so call) [
        | no_match ↦ ok (outer_action, st)
        | dies ↦ died
        | matched frame so' ↦ body (record st { frames = frame ∷ st.frames }) >>= λ (action, st').
            elim action [
              | action_skip ↦ ok (action_skip, leave st')
              | action_break ↦
                  match_loop f body match (whole_match (current st')).eo (wrap32 (call + 1))
                    action_break (leave st')
              | action_continue ↦
                  match_loop f body match (whole_match (current st')).eo (wrap32 (call + 1))
                    outer_action (leave st')
            ]
      ]

  -- `for (c = 0; c < cmd->match_count; c++)`
  unfoldable pub match_rule_loop :
      ℕ → Executed → List (Match Regex) → ActionType → State → Result (ActionType × State)
  unfolding match_loop
  match_rule_loop fuel body [] outer_action st = ok (outer_action, st)
  match_rule_loop fuel body (match ∷ matches) outer_action st =
      match_loop fuel body match (whole_match (current st)).so 0 outer_action st
      >>= λ (action, st'). elim action [
        | action_skip ↦ ok (action_skip, st')
        | action_break ↦ match_rule_loop fuel body matches action_break st'
        | action_continue ↦ match_rule_loop fuel body matches action_continue st'
      ]

  unfoldable mutual
    unfolding execute_style_rule execute_substitution_rule execute_set_rule match_rule_loop

    pub execute_any_rule : ℕ → Rule Regex → State → Result (ActionType × State)
    execute_any_rule fuel (rule_macro rule) st = execute_any_rule fuel rule st
    execute_any_rule fuel (rule_multi rules) st = execute_multi_rule fuel rules st
    execute_any_rule fuel (rule_style style) st = execute_style_rule style st
    execute_any_rule fuel (rule_action action) st = ok (action, st)
    execute_any_rule fuel (rule_substitution re flags repl) st =
        execute_substitution_rule fuel re flags repl st
    execute_any_rule fuel (rule_match matches rule) st =
        match_rule_loop fuel (execute_any_rule fuel rule) matches action_continue st
    execute_any_rule fuel (rule_set repl) st = execute_set_rule repl st

    pub execute_multi_rule : ℕ → Rules Regex → State → Result (ActionType × State)
    execute_multi_rule fuel end_rules st = ok (action_continue, st)
    execute_multi_rule fuel (then_rule rule rules) st =
        execute_any_rule fuel rule st >>= λ (action, st'). elim action [
          | action_continue ↦ execute_multi_rule fuel rules st'
          | action_break ↦ ok (action_break, st')
          | action_skip ↦ ok (action_skip, st')
        ]

  -- A rule on a whole line: what is left of it in the buffer, or false and a line of length 0. An
  -- assertion that fails ends the program.
  unfoldable pub execute_rule : ℕ → Rule Regex → MatchBuffer → Result (Bool × MatchBuffer)
  unfolding execute_any_rule
  execute_rule fuel rule mb =
      let start : State = record {
        text = mb.text;
        styles = mb.styles;
        frames = (spec 0 mb.bufferlen ∷ []) ∷ [];
      } in
      if length mb.text == mb.bufferlen
      then (execute_any_rule fuel rule start >>= λ (action, st). elim action [
        | action_skip ↦ ok (false, record { text = st.text; bufferlen = 0; styles = st.styles })
        | _ ↦
            let eo = (whole_match (current st)).eo in
            if length st.text == eo
            then ok (true, record { text = st.text; bufferlen = eo; styles = st.styles })
            else died
      ])
      else died
