-- ===== src/Parser.antt =====
-- src/parser.y: a script from its tokens. A semantic action runs when its rule of the grammar is
-- complete; they change the tables of styles and macros, so that what a name stands for depends on
-- what came before, in included files too. `died` is script_die and every other exit.
pub mod Syntax
pub mod Meaning
pub mod Include
pub mod Results
pub mod Items
pub mod Trees
pub mod Styles
pub mod Decls
pub mod RoundTrip
pub mod Takes
pub mod Kept
pub mod Definitions
pub mod Inline
pub mod Ends
use regex_markup.Common.{
  ℕ, zero, suc, List, [], ◌∷◌, ◌++◌, Option, none, some, Bool, true, false, if◌then◌else◌,
}
use regex_markup.Style.{Style, StyleInfo, styleinfo_style, styleinfo_pre, styleinfo_post, new_style}
use regex_markup.Match.{Match, regex, subex, RegexFlags}
use regex_markup.HMap.{HMap, strhash, hmap_new, hmap_get, hmap_contains_key, hmap_put}
use regex_markup.Script.{
  Macro, Script, get_name, define_style, define_macro, define_prepend, define_append, name_rule,
}
use regex_markup.Rule.{
  Rule, rule_match, rule_macro, rule_style, rule_action, rule_substitution, rule_set, action_skip,
  action_break, new_multi_rule,
}
use regex_markup.Execute.{Result, ok, died, out_of_fuel, ◌>>=◌}
use regex_markup.Lexer.{
  Token, brace_open, brace_close, comma, string_token, match_token, subst_token, number_token,
  macro_word, style_word, skip_word, break_word, prepend_word, append_word, include_word, set_word,
}

-- What is read from the tokens, the tokens behind it, and the script.
abbrev pub Parser : Type 0 → Type 0 → Type 0
Parser R A = List Token → Script R → Result (A × List Token × Script R)

unfoldable pub take_string : List Token → Result (List ℕ × List Token)
take_string (string_token str ∷ ts) = ok (str, ts)
take_string _ = died

unfoldable pub take_match : List Token → Result ((List ℕ × RegexFlags) × List Token)
take_match (match_token re flags ∷ ts) = ok ((re, flags), ts)
take_match _ = died

abbrev pub is_open : Token → Bool
is_open brace_open = true
is_open _ = false

abbrev pub is_close : Token → Bool
is_close brace_close = true
is_close _ = false

-- style_stmts and match_stmts, with the brace behind them.
unfoldable pub parse_stmts : {R A : Type 0} → Parser R A → (rounds : ℕ) → Parser R (List A)
parse_stmts parse zero ts script = out_of_fuel
parse_stmts parse (suc g) [] script = died
parse_stmts parse (suc g) (t ∷ ts) script = elim (is_close t) [
  | true ↦ ok ([], ts, script)
  | false ↦ parse (t ∷ ts) script >>= λ (a, ts', script').
      parse_stmts parse g ts' script' >>= λ (as', rest, last). ok (a ∷ as', rest, last)
]

module _ {R : Type 0} where
  unfoldable pub parse_style_stmt : Parser R StyleInfo
  unfolding take_string hmap_get
  parse_style_stmt [] script = died
  parse_style_stmt (string_token name ∷ ts) script = elim (get_name script.styles name) [
    | none ↦ died
    | some style ↦ ok (styleinfo_style style, ts, script)
  ]
  parse_style_stmt (prepend_word ∷ ts) script =
      take_string ts >>= λ (str, rest). ok (styleinfo_pre str, rest, script)
  parse_style_stmt (append_word ∷ ts) script =
      take_string ts >>= λ (str, rest). ok (styleinfo_post str, rest, script)
  parse_style_stmt (_ ∷ ts) script = died

  unfoldable pub parse_style_body : ℕ → Parser R (List StyleInfo)
  unfolding parse_stmts parse_style_stmt
  parse_style_body f [] script = died
  parse_style_body f (t ∷ ts) script = elim (is_open t) [
    | true ↦ parse_stmts parse_style_stmt f ts script
    | false ↦
        parse_style_stmt (t ∷ ts) script >>= λ (info, rest, script'). ok (info ∷ [], rest, script')
  ]

-- `compile` is regcomp, with REG_ICASE by the flags, and `stale` what a number that does not fit
-- leaves in yylval, by the tokens behind it. `include` is include_script.
module _ {R : Type 0} (compile : List ℕ → RegexFlags → Option R) (stale : List Token → ℕ)
    (include : List ℕ → Script R → Result (Rule R × Script R)) where
  unfoldable pub new_regex_match : List ℕ → RegexFlags → Result (Match R)
  new_regex_match respec flags = elim (compile respec flags) [
    | none ↦ died
    | some r ↦ ok (regex r flags)
  ]

  unfoldable pub new_substitution_rule : (match repl : List ℕ) → RegexFlags → Result (Rule R)
  new_substitution_rule match repl flags = elim (compile match flags) [
    | none ↦ died
    | some r ↦ ok (rule_substitution r flags repl)
  ]

  unfoldable pub match_item : Token → List Token → Result (Match R)
  unfolding new_regex_match
  match_item (match_token re flags) ts = new_regex_match re flags
  match_item (number_token (some n)) ts = ok (subex n)
  match_item (number_token none) ts = ok (subex (stale ts))
  match_item _ ts = died

  -- The items behind commas.
  unfoldable pub more_items : List Token → Result (List (Match R) × List Token)
  unfolding match_item
  more_items (comma ∷ t ∷ ts) =
      match_item t ts >>= λ m. more_items ts >>= λ (ms, rest). ok (m ∷ ms, rest)
  more_items (comma ∷ []) = died
  more_items ts = ok ([], ts)

  unfoldable pub match_body : (stmt : Parser R (Rule R)) → ℕ → Parser R (Rule R)
  unfolding parse_stmts new_multi_rule
  match_body stmt f [] script = died
  match_body stmt f (t ∷ ts) script = elim (is_open t) [
    | true ↦ parse_stmts stmt f ts script >>= λ (rules, rest, script').
        ok (new_multi_rule rules, rest, script')
    | false ↦ stmt (t ∷ ts) script
  ]

  -- A statement that starts with the token `t`.
  unfoldable pub match_decl : Parser R (Rule R) → ℕ → (t : Token) → Parser R (Rule R)
  unfolding match_item more_items match_body
  match_decl stmt f t ts script = match_item t ts >>= λ m. more_items ts >>= λ (ms, behind).
      match_body stmt f behind script >>= λ (rule, rest, script').
      ok (rule_match (m ∷ ms) rule, rest, script')

  unfoldable pub match_stmt : Parser R (Rule R) → ℕ → (t : Token) → Parser R (Rule R)
  unfolding take_string take_match name_rule new_substitution_rule match_decl
  match_stmt stmt f include_word ts script = take_string ts >>= λ (name, rest).
      include name script >>= λ (rule, script'). ok (rule, rest, script')
  match_stmt stmt f (string_token name) ts script =
      name_rule name script >>= λ rule. ok (rule, ts, script)
  match_stmt stmt f (subst_token match) ts script = take_match ts >>= λ ((repl, flags), rest).
      new_substitution_rule match repl flags >>= λ rule. ok (rule, rest, script)
  match_stmt stmt f set_word ts script =
      take_string ts >>= λ (str, rest). ok (rule_set str, rest, script)
  match_stmt stmt f skip_word ts script = ok (rule_action action_skip, ts, script)
  match_stmt stmt f break_word ts script = ok (rule_action action_break, ts, script)
  match_stmt stmt f t ts script = match_decl stmt f t ts script

  -- On fuel: a statement that stands in another has less of it.
  unfoldable pub parse_stmt : ℕ → Parser R (Rule R)
  unfolding match_stmt
  parse_stmt zero ts script = out_of_fuel
  parse_stmt (suc f) [] script = died
  parse_stmt (suc f) (t ∷ ts) script = match_stmt (parse_stmt f) f t ts script

  -- An item of the input, to the rule that it adds to those of the file.
  unfoldable pub input_item : ℕ → (t : Token) → Parser R (List (Rule R))
  unfolding take_string parse_style_body new_style define_style define_macro define_prepend
      define_append match_body parse_stmt
  input_item f style_word ts script = take_string ts >>= λ (name, behind).
      parse_style_body f behind script >>= λ (infos, rest, script').
      define_style (new_style name infos) script' >>= λ defined. ok ([], rest, defined)
  input_item f macro_word ts script = take_string ts >>= λ (name, behind).
      match_body (parse_stmt f) f behind script >>= λ (rule, rest, script').
      define_macro (record { name = name; rule = rule }) script' >>= λ defined.
      ok ([], rest, defined)
  input_item f prepend_word ts script =
      match_body (parse_stmt f) f ts script >>= λ (rule, rest, script').
      define_prepend rule script' >>= λ defined. ok ([], rest, defined)
  input_item f append_word ts script =
      match_body (parse_stmt f) f ts script >>= λ (rule, rest, script').
      define_append rule script' >>= λ defined. ok ([], rest, defined)
  input_item f t ts script =
      parse_stmt f (t ∷ ts) script >>= λ (rule, rest, script'). ok (rule ∷ [], rest, script')

  -- yyparse: the rules of a file, and the script.
  unfoldable pub parse_input : ℕ → List Token → Script R → Result (List (Rule R) × Script R)
  unfolding input_item
  parse_input zero ts script = out_of_fuel
  parse_input (suc f) [] script = ok ([], script)
  parse_input (suc f) (t ∷ ts) script = input_item (suc f) t ts script >>= λ (rules, rest, script').
      parse_input f rest script' >>= λ (more, script''). ok (rules ++ more, script'')
