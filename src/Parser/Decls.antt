-- ===== src/Parser/Decls.antt =====
-- src/parser.y: declarations, and all of a file.
use regex_markup.Common.{ℕ, zero, suc, ◌≤◌, ◌≡◌, refl, ap, ◌∙◌, List, [], ◌∷◌, ◌++◌, Option, arith}
use regex_markup.Style.{new_style}
use regex_markup.Match.{RegexFlags}
use regex_markup.Rule.{Rule}
use regex_markup.Execute.{Result, ok, died, ◌>>=◌}
use regex_markup.Lexer.{Token}
use regex_markup.Lexer.Lexemes.{Lexeme, lexeme_tokens, script_tokens}
use regex_markup.Script.{Script, define_style, define_macro, define_prepend, define_append}
use regex_markup.Parser.{Parser, take_string, match_body, parse_stmt, input_item, parse_input}
use regex_markup.Parser.Syntax.{
  style_block, style_single, regex_item, number_item, Stmt, Body, block, single, include_stmt,
  name_stmt, set_stmt, subst_stmt, skip_stmt, break_stmt, match_stmt, Decl, style_decl, macro_decl,
  prepend_decl, append_decl, stmt_decl, stmt_text, body_text, decl_text, decls_text, body_size,
  decl_size, decls_size, BodyFits, DeclFits, DeclsFit,
}
use regex_markup.Parser.Meaning.{
  style_body_infos, stmt_meaning, body_meaning, decl_meaning, decls_meaning,
}
use regex_markup.Parser.Results.{bind_step, bind_last, bind_same}
use regex_markup.Parser.Trees.{parse_stmt-Reads, match_body-Reads}
use regex_markup.Parser.Items.{stmt_size-positive, stmts_size-positive}
use regex_markup.Parser.Styles.{parse_style_body-infos}

module _ {R : Type 0} (compile : List ℕ → RegexFlags → Option R) (stale : List Token → ℕ)
    (include : List ℕ → Script R → Result (Rule R × Script R)) where
  -- input_item on tokens that are there.
  first_item : ℕ → Parser R (List (Rule R))
  first_item f [] script = died
  first_item f (t ∷ ts) script = input_item compile stale include f t ts script

  first_item-stmt :
      (f : ℕ) (st : Stmt) (ls : List Lexeme) (script : Script R)
      → first_item f (script_tokens (stmt_text st ls)) script ≡ (
          parse_stmt compile stale include f (script_tokens (stmt_text st ls)) script
          >>= λ (rule, rest, script'). ok (rule ∷ [], rest, script'))
  unfolding first_item input_item lexeme_tokens
  first_item-stmt f (include_stmt name) ls script = refl
  first_item-stmt f (name_stmt name) ls script = refl
  first_item-stmt f (set_stmt str) ls script = refl
  first_item-stmt f (subst_stmt match repl flags) ls script = refl
  first_item-stmt f skip_stmt ls script = refl
  first_item-stmt f break_stmt ls script = refl
  first_item-stmt f (match_stmt (regex_item re flags) is' body) ls script = refl
  first_item-stmt f (match_stmt (number_item digits n) is' body) ls script = refl

  -- A body, and what is done with its rule.
  leaving : List Lexeme → List (Rule R) × Script R → Result (List (Rule R) × List Token × Script R)
  leaving ls (rules, script) = ok (rules, script_tokens ls, script)

  defining :
      (Rule R → Script R → Result (Script R))
      → Rule R × Script R
      → Result (List (Rule R) × Script R)
  defining define (rule, script) = define rule script >>= λ defined. ok ([], defined)

  first_item-body :
      (f : ℕ) (body : Body) (ls : List Lexeme) (script : Script R)
      (define : Rule R → Script R → Result (Script R))
      → body_size body ≤ f
      → BodyFits body
      → (match_body compile stale include
            (parse_stmt compile stale include f)
            f
            (script_tokens (body_text body ls))
            script
          >>= λ (rule, rest, script'). define rule script' >>= λ defined. ok ([], rest, defined))
        ≡ (body_meaning compile stale include body script >>= defining define >>= leaving ls)
  unfolding defining leaving
  first_item-body f body ls script define h fits =
      bind_step (body_meaning compile stale include body script)
        (λ (rule, script'). (rule, script_tokens ls, script')) _ _ _ _
        (match_body-Reads compile stale include f body ls h fits script)
        (λ (rule, script'). bind_same (define rule script') _ _ _ (λ defined. refl))

  first_item-meaning :
      (f : ℕ) (d : Decl) (ls : List Lexeme) (script : Script R)
      → decl_size d ≤ f
      → DeclFits d
      → first_item f (script_tokens (decl_text d ls)) script ≡ (
          decl_meaning compile stale include d script >>= λ (rules, script').
          ok (rules, script_tokens ls, script'))
  unfolding first_item input_item lexeme_tokens take_string defining leaving
  first_item-meaning f (style_decl name body) ls script h fits =
      bind_step (style_body_infos script body) (λ infos. (infos, script_tokens ls, script)) _ _ _ _
        (parse_style_body-infos f body ls script h)
        (λ infos. bind_same (define_style (new_style name infos) script) _ _ _ (λ defined. refl))
  first_item-meaning f (macro_decl name body) ls script h fits =
      first_item-body f body ls script (λ rule. define_macro (record { name = name; rule = rule }))
        h fits
  first_item-meaning f (prepend_decl body) ls script h fits =
      first_item-body f body ls script define_prepend h fits
  first_item-meaning f (append_decl body) ls script h fits =
      first_item-body f body ls script define_append h fits
  first_item-meaning f (stmt_decl st) ls script h fits =
      first_item-stmt f st ls script
      ∙ bind_step (stmt_meaning compile stale include st script)
          (λ (rule, script'). (rule, script_tokens ls, script')) _ _ _ _
          (parse_stmt-Reads compile stale include f st ls h fits script) (λ r. refl)

  -- The first item of a file, and the others.
  parse_input-stmt :
      (f : ℕ) (st : Stmt) (ls : List Lexeme) (script : Script R)
      → parse_input compile stale include (suc f) (script_tokens (stmt_text st ls)) script ≡ (
          first_item (suc f) (script_tokens (stmt_text st ls)) script >>= λ (rules, rest, script').
          parse_input compile stale include f rest script' >>= λ (more, last).
          ok (rules ++ more, last))
  unfolding first_item parse_input lexeme_tokens
  parse_input-stmt f (include_stmt name) ls script = refl
  parse_input-stmt f (name_stmt name) ls script = refl
  parse_input-stmt f (set_stmt str) ls script = refl
  parse_input-stmt f (subst_stmt match repl flags) ls script = refl
  parse_input-stmt f skip_stmt ls script = refl
  parse_input-stmt f break_stmt ls script = refl
  parse_input-stmt f (match_stmt (regex_item re flags) is' body) ls script = refl
  parse_input-stmt f (match_stmt (number_item digits n) is' body) ls script = refl

  parse_input-first :
      (f : ℕ) (d : Decl) (ls : List Lexeme) (script : Script R)
      → parse_input compile stale include (suc f) (script_tokens (decl_text d ls)) script ≡ (
          first_item (suc f) (script_tokens (decl_text d ls)) script >>= λ (rules, rest, script').
          parse_input compile stale include f rest script' >>= λ (more, last).
          ok (rules ++ more, last))
  unfolding first_item parse_input lexeme_tokens
  parse_input-first f (style_decl name body) ls script = refl
  parse_input-first f (macro_decl name body) ls script = refl
  parse_input-first f (prepend_decl body) ls script = refl
  parse_input-first f (append_decl body) ls script = refl
  parse_input-first f (stmt_decl st) ls script = parse_input-stmt f st ls script

  body_size-positive : (body : Body) → 1 ≤ body_size body
  body_size-positive (block sts) = stmts_size-positive compile stale include sts
  body_size-positive (single st) = stmt_size-positive compile stale include st

  decl_size-positive : (d : Decl) → 1 ≤ decl_size d
  decl_size-positive (style_decl name (style_block sts)) = omega arith
  decl_size-positive (style_decl name (style_single st)) = omega arith
  decl_size-positive (macro_decl name body) = body_size-positive body
  decl_size-positive (prepend_decl body) = body_size-positive body
  decl_size-positive (append_decl body) = body_size-positive body
  decl_size-positive (stmt_decl st) = stmt_size-positive compile stale include st

  -- The parser of parser.y, on the tokens of a file of declarations, gives the meaning of these in
  -- their order: each changes the tables of names as it stands, or adds a rule, and the first that
  -- is wrong ends the program. The numbers fit 32 bits, and there is a round for each part.
  pub parse_input-decls :
      (f : ℕ) (ds : List Decl) (script : Script R)
      → decls_size ds ≤ f
      → DeclsFit ds
      → parse_input compile stale include f (script_tokens (decls_text ds)) script
        ≡ decls_meaning compile stale include ds script
  unfolding parse_input
  parse_input-decls zero [] script h fits = absurd (let never : ⊥ = omega arith in never)
  parse_input-decls zero (d ∷ ds) script h fits = absurd (
      let positive : 1 ≤ decl_size d = decl_size-positive d in let never : ⊥ = omega arith in never)
  parse_input-decls (suc f) [] script h fits = refl
  parse_input-decls (suc f) (d ∷ ds) script h (fit, fits) =
      let positive : 1 ≤ decl_size d = decl_size-positive d in
      parse_input-first f d (decls_text ds) script
      ∙ bind_last (decl_meaning compile stale include d script)
          (λ (rules, script'). (rules, script_tokens (decls_text ds), script')) _ _ _
          (first_item-meaning (suc f) d (decls_text ds) script (omega arith) fit)
          (λ (rules, script').
            ap (λ p. p >>= λ (more, last). ok (rules ++ more, last))
              (parse_input-decls f ds script' (omega arith) fits))
