-- ===== src/Parser/Inline.antt =====
-- src/parser.y and src/execute.c: a file that is included, and its declarations in its place.
use regex_markup.Common.{ℕ, ◌≡◌, refl, sym, ap, ◌∙◌, List, [], ◌∷◌, ◌++◌, Option}
use regex_markup.Match.{RegexFlags}
use regex_markup.Regex.{RegexLib}
use regex_markup.Rule.{ActionType, Rule, to_rules, new_multi_rule}
use regex_markup.Execute.{
  State, Result, ok, died, out_of_fuel, ◌>>=◌, execute_any_rule, execute_multi_rule,
}
use regex_markup.Execute.Sequence.{
  both, multi_step, new_multi_rule-in_order, execute_multi_rule-append,
}
use regex_markup.Lexer.{Token}
use regex_markup.Script.{Script}
use regex_markup.Parser.Syntax.{Decl, stmt_decl, include_stmt}
use regex_markup.Parser.Meaning.{decls_meaning}

module _ (lib : RegexLib) (fuel : ℕ) where
  open lib use {Regex}

  -- A list of rules as one rule in front of others runs as the rules do.
  multi_in_front :
      (rules more : List (Rule Regex)) (st : State)
      → execute_any_rule lib fuel (new_multi_rule (new_multi_rule rules ∷ more)) st
        ≡ execute_any_rule lib fuel (new_multi_rule (rules ++ more)) st
  unfolding to_rules
  multi_in_front rules more st =
      new_multi_rule-in_order lib fuel (new_multi_rule rules ∷ more) st
      ∙ multi_step lib fuel (new_multi_rule rules) (to_rules more) st
      ∙ ap (λ r. both r (execute_multi_rule lib fuel (to_rules more)))
          (new_multi_rule-in_order lib fuel rules st)
      ∙ sym (execute_multi_rule-append lib fuel rules more st)
      ∙ sym (new_multi_rule-in_order lib fuel (rules ++ more) st)

  -- What the rules of a file do to a line, and the script behind the file.
  abbrev pub run_on :
      State → List (Rule Regex) × Script Regex → Result (Result (ActionType × State) × Script Regex)
  run_on st (rules, script) = ok (execute_any_rule lib fuel (new_multi_rule rules) st, script)

  abbrev pub as_rule : List (Rule Regex) × Script Regex → Result (Rule Regex × Script Regex)
  as_rule (rules, script) = ok (new_multi_rule rules, script)

  module _ (compile : List ℕ → RegexFlags → Option Regex) (stale : List Token → ℕ)
      (include inner : List ℕ → Script Regex → Result (Rule Regex × Script Regex)) where
    -- The rules of declarations, behind others.
    abbrev pub and_then :
        List Decl → List (Rule Regex) × Script Regex → Result (List (Rule Regex) × Script Regex)
    and_then ds (rules, script) =
        decls_meaning compile stale include ds script >>= λ (more, last). ok (rules ++ more, last)

    -- An include statement, where the file is found and consists of the declarations `es`, and
    -- declarations `ds` behind it: on any line, the rules of the whole do what those of `es` and then
    -- `ds` do, and the script is left as by `es` and then `ds`, or the program ends where these end
    -- it. The included file has a function `inner` for those that it includes.
    pub include-in_place :
        (name : List ℕ) (es ds : List Decl) (script : Script Regex) (st : State)
        → include name script ≡ (decls_meaning compile stale inner es script >>= as_rule)
        → (decls_meaning compile stale include (stmt_decl (include_stmt name) ∷ ds) script
            >>= run_on st)
          ≡ (decls_meaning compile stale inner es script >>= and_then ds >>= run_on st)
    include-in_place name es ds script st file =
        ap (λ m. m >>= (λ (rule, script'). ok (rule ∷ [], script')) >>= and_then ds >>= run_on st)
          file
        ∙ included (decls_meaning compile stale inner es script)
      where
        behind :
            (rules : List (Rule Regex)) (n : Result (List (Rule Regex) × Script Regex))
            → (n >>= (λ (more, last). ok (new_multi_rule rules ∷ more, last)) >>= run_on st)
              ≡ (n >>= (λ (more, last). ok (rules ++ more, last)) >>= run_on st)
        behind rules (ok (more, last)) = ap (λ r. ok (r, last)) (multi_in_front rules more st)
        behind rules died = refl
        behind rules out_of_fuel = refl

        included :
            (m : Result (List (Rule Regex) × Script Regex))
            → (m
                >>= as_rule
                >>= (λ (rule, script'). ok (rule ∷ [], script'))
                >>= and_then ds
                >>= run_on st)
              ≡ (m >>= and_then ds >>= run_on st)
        included (ok (rules, script')) =
            behind rules (decls_meaning compile stale include ds script')
        included died = refl
        included out_of_fuel = refl
