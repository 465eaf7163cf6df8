-- ===== src/Parser/Meaning.antt =====
-- src/parser.y: what the trees of its grammar mean, part by part.
use regex_markup.Common.{ℕ, List, [], ◌∷◌, ◌++◌, Option, none, some}
use regex_markup.Style.{StyleInfo, styleinfo_style, styleinfo_pre, styleinfo_post, new_style}
use regex_markup.Match.{Match, subex, RegexFlags}
use regex_markup.Rule.{
  Rule, rule_match, rule_action, rule_set, action_skip, action_break, new_multi_rule,
}
use regex_markup.Execute.{Result, ok, died, ◌>>=◌}
use regex_markup.Lexer.{Token}
use regex_markup.Script.{
  Script, get_name, define_style, define_macro, define_prepend, define_append, name_rule,
}
use regex_markup.Parser.{new_regex_match, new_substitution_rule}
use regex_markup.Parser.Syntax.{
  StyleStmt, like_stmt, pre_stmt, post_stmt, Item, regex_item, number_item, Stmt, Stmts, Body,
  include_stmt, name_stmt, set_stmt, subst_stmt, skip_stmt, break_stmt, match_stmt, end_stmts,
  then_stmt, block, single, StyleBody, style_block, style_single, Decl, style_decl, macro_decl,
  prepend_decl, append_decl, stmt_decl,
}

module _ {R : Type 0} where
  abbrev pub style_stmt_info : Script R → StyleStmt → Result StyleInfo
  style_stmt_info script (like_stmt name) = elim (get_name script.styles name) [
    | none ↦ died
    | some style ↦ ok (styleinfo_style style)
  ]
  style_stmt_info script (pre_stmt str) = ok (styleinfo_pre str)
  style_stmt_info script (post_stmt str) = ok (styleinfo_post str)

  abbrev pub style_stmt_infos : Script R → List StyleStmt → Result (List StyleInfo)
  style_stmt_infos script [] = ok []
  style_stmt_infos script (st ∷ sts) = style_stmt_info script st >>= λ info.
      style_stmt_infos script sts >>= λ infos. ok (info ∷ infos)

  abbrev pub style_body_infos : Script R → StyleBody → Result (List StyleInfo)
  style_body_infos script (style_block sts) = style_stmt_infos script sts
  style_body_infos script (style_single st) = style_stmt_infos script (st ∷ [])

module _ {R : Type 0} (compile : List ℕ → RegexFlags → Option R) (stale : List Token → ℕ)
    (include : List ℕ → Script R → Result (Rule R × Script R)) where
  abbrev pub item_meaning : Item → Result (Match R)
  item_meaning (regex_item re flags) = new_regex_match compile stale include re flags
  item_meaning (number_item digits n) = ok (subex n)

  abbrev pub items_meaning : List Item → Result (List (Match R))
  items_meaning [] = ok []
  items_meaning (i ∷ is') = item_meaning i >>= λ m. items_meaning is' >>= λ ms. ok (m ∷ ms)

  abbrev mutual
    pub stmt_meaning : Stmt → Script R → Result (Rule R × Script R)
    stmt_meaning (include_stmt name) script = include name script
    stmt_meaning (name_stmt name) script = name_rule name script >>= λ rule. ok (rule, script)
    stmt_meaning (set_stmt str) script = ok (rule_set str, script)
    stmt_meaning (subst_stmt match repl flags) script =
        new_substitution_rule compile stale include match repl flags >>= λ rule. ok (rule, script)
    stmt_meaning skip_stmt script = ok (rule_action action_skip, script)
    stmt_meaning break_stmt script = ok (rule_action action_break, script)
    stmt_meaning (match_stmt i is' body) script = items_meaning (i ∷ is') >>= λ ms.
        body_meaning body script >>= λ (rule, script'). ok (rule_match ms rule, script')

    pub stmts_meaning : Stmts → Script R → Result (List (Rule R) × Script R)
    stmts_meaning end_stmts script = ok ([], script)
    stmts_meaning (then_stmt st sts) script = stmt_meaning st script >>= λ (rule, script').
        stmts_meaning sts script' >>= λ (rules, last). ok (rule ∷ rules, last)

    pub body_meaning : Body → Script R → Result (Rule R × Script R)
    body_meaning (block sts) script =
        stmts_meaning sts script >>= λ (rules, script'). ok (new_multi_rule rules, script')
    body_meaning (single st) script = stmt_meaning st script

  -- The rules that a declaration adds to those of the file.
  abbrev pub decl_meaning : Decl → Script R → Result (List (Rule R) × Script R)
  decl_meaning (style_decl name body) script = style_body_infos script body >>= λ infos.
      define_style (new_style name infos) script >>= λ defined. ok ([], defined)
  decl_meaning (macro_decl name body) script = body_meaning body script >>= λ (rule, script').
      define_macro (record { name = name; rule = rule }) script' >>= λ defined. ok ([], defined)
  decl_meaning (prepend_decl body) script = body_meaning body script >>= λ (rule, script').
      define_prepend rule script' >>= λ defined. ok ([], defined)
  decl_meaning (append_decl body) script = body_meaning body script >>= λ (rule, script').
      define_append rule script' >>= λ defined. ok ([], defined)
  decl_meaning (stmt_decl st) script =
      stmt_meaning st script >>= λ (rule, script'). ok (rule ∷ [], script')

  abbrev pub decls_meaning : List Decl → Script R → Result (List (Rule R) × Script R)
  decls_meaning [] script = ok ([], script)
  decls_meaning (d ∷ ds) script = decl_meaning d script >>= λ (rules, script').
      decls_meaning ds script' >>= λ (more, last). ok (rules ++ more, last)
