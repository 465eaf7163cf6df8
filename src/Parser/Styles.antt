-- ===== src/Parser/Styles.antt =====
-- src/parser.y: the statements of a style.
use regex_markup.Common.{
  ℕ, zero, suc, ◌≤◌, ◌≡◌, refl, ◌∙◌, List, [], ◌∷◌, Option, none, some, length, arith,
}
use regex_markup.Style.{Style, StyleInfo, styleinfo_style}
use regex_markup.Execute.{Result, ok, died, ◌>>=◌}
use regex_markup.Lexer.{Token}
use regex_markup.Lexer.Lexemes.{Lexeme, lexeme_tokens, script_tokens}
use regex_markup.Script.{Script, get_name}
use regex_markup.Parser.{take_string, parse_stmts, parse_style_stmt, parse_style_body}
use regex_markup.Parser.Syntax.{
  StyleStmt, like_stmt, pre_stmt, post_stmt, StyleBody, style_block, style_single, style_stmt_text,
  style_stmts_text, style_body_text, style_size,
}
use regex_markup.Parser.Meaning.{style_stmt_info, style_stmt_infos, style_body_infos}
use regex_markup.Parser.Results.{bind_step}

module _ {R : Type 0} where
  parse_style_stmt-info :
      (st : StyleStmt) (ls : List Lexeme) (script : Script R)
      → parse_style_stmt (script_tokens (style_stmt_text st ls)) script
        ≡ (style_stmt_info script st >>= λ info. ok (info, script_tokens ls, script))
  unfolding parse_style_stmt take_string lexeme_tokens
  parse_style_stmt-info (like_stmt name) ls script = found (get_name script.styles name)
    where
      with_rest : StyleInfo → Result (StyleInfo × List Token × Script R)
      with_rest info = ok (info, script_tokens ls, script)

      found :
          (o : Option Style)
          → elim o [
            | none ↦ died
            | some style ↦ ok (styleinfo_style style, script_tokens ls, script)
          ]
            ≡ ((elim o [ none ↦ died | some style ↦ ok (styleinfo_style style) ]) >>= with_rest)
      found none = refl
      found (some style) = refl
  parse_style_stmt-info (pre_stmt str) ls script = refl
  parse_style_stmt-info (post_stmt str) ls script = refl

  parse_stmts-style :
      (g : ℕ) (st : StyleStmt) (ls : List Lexeme) (script : Script R)
      → parse_stmts parse_style_stmt (suc g) (script_tokens (style_stmt_text st ls)) script ≡ (
          parse_style_stmt (script_tokens (style_stmt_text st ls)) script >>= λ (info, ts, script').
          parse_stmts parse_style_stmt g ts script' >>= λ (infos, rest, last).
          ok (info ∷ infos, rest, last))
  unfolding parse_stmts lexeme_tokens
  parse_stmts-style g (like_stmt name) ls script = refl
  parse_stmts-style g (pre_stmt str) ls script = refl
  parse_stmts-style g (post_stmt str) ls script = refl

  parse_stmts-infos :
      (g : ℕ) (sts : List StyleStmt) (ls : List Lexeme) (script : Script R)
      → suc (length sts) ≤ g
      → parse_stmts parse_style_stmt g (script_tokens (style_stmts_text sts ls)) script
        ≡ (style_stmt_infos script sts >>= λ infos. ok (infos, script_tokens ls, script))
  unfolding parse_stmts lexeme_tokens
  parse_stmts-infos zero sts ls script h = absurd (let never : ⊥ = omega arith in never)
  parse_stmts-infos (suc g) [] ls script h = refl
  parse_stmts-infos (suc g) (st ∷ sts) ls script h =
      parse_stmts-style g st (style_stmts_text sts ls) script
      ∙ bind_step (style_stmt_info script st)
          (λ info. (info, script_tokens (style_stmts_text sts ls), script)) _ _ _ _
          (parse_style_stmt-info st (style_stmts_text sts ls) script)
          (λ info.
            bind_step (style_stmt_infos script sts) (λ infos. (infos, script_tokens ls, script)) _ _
              _ _ (parse_stmts-infos g sts ls script (omega arith)) (λ r. refl))

  style_body-single :
      (f : ℕ) (st : StyleStmt) (ls : List Lexeme) (script : Script R)
      → parse_style_body f (script_tokens (style_stmt_text st ls)) script ≡ (
          parse_style_stmt (script_tokens (style_stmt_text st ls)) script
          >>= λ (info, rest, script'). ok (info ∷ [], rest, script'))
  unfolding parse_style_body lexeme_tokens
  style_body-single f (like_stmt name) ls script = refl
  style_body-single f (pre_stmt str) ls script = refl
  style_body-single f (post_stmt str) ls script = refl

  pub parse_style_body-infos :
      (f : ℕ) (body : StyleBody) (ls : List Lexeme) (script : Script R)
      → style_size body ≤ f
      → parse_style_body f (script_tokens (style_body_text body ls)) script
        ≡ (style_body_infos script body >>= λ infos. ok (infos, script_tokens ls, script))
  unfolding parse_style_body lexeme_tokens
  parse_style_body-infos f (style_block sts) ls script h = parse_stmts-infos f sts ls script h
  parse_style_body-infos f (style_single st) ls script h =
      style_body-single f st ls script
      ∙ bind_step (style_stmt_info script st) (λ info. (info, script_tokens ls, script)) _ _ _ _
          (parse_style_stmt-info st ls script) (λ r. refl)
