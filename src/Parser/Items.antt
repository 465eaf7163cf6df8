-- ===== src/Parser/Items.antt =====
-- src/parser.y: the items in front of a body, and what a statement starts with.
use regex_markup.Common.{ℕ, suc, ◌≤◌, ◌≡◌, refl, ap, ◌∙◌, List, [], ◌∷◌, Option, arith}
use regex_markup.Match.{Match, RegexFlags}
use regex_markup.IntUtil.{parse_int}
use regex_markup.Rule.{Rule}
use regex_markup.Execute.{Result, ok, ◌>>=◌}
use regex_markup.Lexer.{Token, comma, match_token, number_token}
use regex_markup.Lexer.Lexemes.{Lexeme, lexeme_tokens, script_tokens}
use regex_markup.Script.{Script}
use regex_markup.Parser.{
  Parser, parse_stmts, match_item, more_items, match_body, match_decl, match_stmt,
}
use regex_markup.Parser.Syntax.{
  Item, regex_item, number_item, Stmt, Stmts, Body, include_stmt, name_stmt, set_stmt, subst_stmt,
  skip_stmt, break_stmt, end_stmts, then_stmt, block, single, item_text, more_items_text, stmt_text,
  stmts_text, body_text, stmt_size, stmts_size, body_size, Fits, AllFit, StmtFits, StmtsFit,
  BodyFits,
}
use regex_markup.Parser.Meaning.{item_meaning, items_meaning}
use regex_markup.Parser.Syntax
use regex_markup.Parser.Results.{bind_step, bind_same}

module _ {R : Type 0} (compile : List ℕ → RegexFlags → Option R) (stale : List Token → ℕ)
    (include : List ℕ → Script R → Result (Rule R × Script R)) where
  unfoldable pub item_token : Item → Token
  item_token (regex_item re flags) = match_token re flags
  item_token (number_item digits n) = number_token (parse_int 32 digits)

  pub tokens-item :
      (i : Item) (ls : List Lexeme)
      → script_tokens (item_text i ∷ ls) ≡ (item_token i ∷ script_tokens ls)
  unfolding item_token lexeme_tokens
  tokens-item (regex_item re flags) ls = refl
  tokens-item (number_item digits n) ls = refl

  pub match_item-meaning :
      (i : Item) (ts : List Token)
      → Fits i
      → match_item compile stale include (item_token i) ts ≡ item_meaning compile stale include i
  unfolding item_token match_item
  match_item-meaning (regex_item re flags) ts fits = refl
  match_item-meaning (number_item digits n) ts fits = rw fits refl

  pub match_stmt-item :
      (i : Item) (stmt : Parser R (Rule R)) (f : ℕ) (ts : List Token) (script : Script R)
      → match_stmt compile stale include stmt f (item_token i) ts script
        ≡ match_decl compile stale include stmt f (item_token i) ts script
  unfolding item_token match_stmt
  match_stmt-item (regex_item re flags) stmt f ts script = refl
  match_stmt-item (number_item digits n) stmt f ts script = refl

  pub more_items-meaning :
      (is' : List Item) (ls : List Lexeme)
      → AllFit is'
      → more_items compile stale include (script_tokens ls) ≡ ok ([], script_tokens ls)
      → more_items compile stale include (script_tokens (more_items_text is' ls))
        ≡ (items_meaning compile stale include is' >>= λ ms. ok (ms, script_tokens ls))
  unfolding more_items lexeme_tokens
  more_items-meaning [] ls fits last = last
  more_items-meaning (i ∷ is') ls (fits, all) last =
      let behind : List Lexeme = more_items_text is' ls in
      let add : Match R → Result (List (Match R) × List Token) = λ m.
        more_items compile stale include (script_tokens behind) >>= λ (ms, rest).
        ok (m ∷ ms, rest) in
      ap (λ ts. more_items compile stale include (comma ∷ ts)) (tokens-item i behind)
      ∙ ap (λ p. p >>= add) (match_item-meaning i (script_tokens behind) fits)
      ∙ bind_same (item_meaning compile stale include i) add _ _ (λ m.
        bind_step (items_meaning compile stale include is') (λ ms. (ms, script_tokens ls)) _ _ _ _
          (more_items-meaning is' ls all last) (λ ms. refl))

  stmt_starts :
      (st : Stmt) (ls : List Lexeme)
      → more_items compile stale include (script_tokens (stmt_text st ls))
        ≡ ok ([], script_tokens (stmt_text st ls))
  unfolding more_items lexeme_tokens
  stmt_starts (include_stmt name) ls = refl
  stmt_starts (name_stmt name) ls = refl
  stmt_starts (set_stmt str) ls = refl
  stmt_starts (subst_stmt match repl flags) ls = refl
  stmt_starts skip_stmt ls = refl
  stmt_starts break_stmt ls = refl
  stmt_starts (Syntax.match_stmt (regex_item re flags) is' body) ls = refl
  stmt_starts (Syntax.match_stmt (number_item digits n) is' body) ls = refl

  pub body_starts :
      (body : Body) (ls : List Lexeme)
      → more_items compile stale include (script_tokens (body_text body ls))
        ≡ ok ([], script_tokens (body_text body ls))
  unfolding more_items lexeme_tokens
  body_starts (block sts) ls = refl
  body_starts (single st) ls = stmt_starts st ls

  -- A body that is one statement, and a statement in braces.
  pub match_body-single :
      (stmt : Parser R (Rule R)) (f : ℕ) (st : Stmt) (ls : List Lexeme) (script : Script R)
      → match_body compile stale include stmt f (script_tokens (stmt_text st ls)) script
        ≡ stmt (script_tokens (stmt_text st ls)) script
  unfolding match_body lexeme_tokens
  match_body-single stmt f (include_stmt name) ls script = refl
  match_body-single stmt f (name_stmt name) ls script = refl
  match_body-single stmt f (set_stmt str) ls script = refl
  match_body-single stmt f (subst_stmt match repl flags) ls script = refl
  match_body-single stmt f skip_stmt ls script = refl
  match_body-single stmt f break_stmt ls script = refl
  match_body-single stmt f (Syntax.match_stmt (regex_item re flags) is' body) ls script = refl
  match_body-single stmt f (Syntax.match_stmt (number_item digits n) is' body) ls script = refl

  pub parse_stmts-stmt :
      (stmt : Parser R (Rule R)) (g : ℕ) (st : Stmt) (ls : List Lexeme) (script : Script R)
      → parse_stmts stmt (suc g) (script_tokens (stmt_text st ls)) script ≡ (
          stmt (script_tokens (stmt_text st ls)) script >>= λ (rule, ts, script').
          parse_stmts stmt g ts script' >>= λ (rules, rest, last). ok (rule ∷ rules, rest, last))
  unfolding parse_stmts lexeme_tokens
  parse_stmts-stmt stmt g (include_stmt name) ls script = refl
  parse_stmts-stmt stmt g (name_stmt name) ls script = refl
  parse_stmts-stmt stmt g (set_stmt str) ls script = refl
  parse_stmts-stmt stmt g (subst_stmt match repl flags) ls script = refl
  parse_stmts-stmt stmt g skip_stmt ls script = refl
  parse_stmts-stmt stmt g break_stmt ls script = refl
  parse_stmts-stmt stmt g (Syntax.match_stmt (regex_item re flags) is' body) ls script = refl
  parse_stmts-stmt stmt g (Syntax.match_stmt (number_item digits n) is' body) ls script = refl

  pub stmt_size-positive : (st : Stmt) → 1 ≤ stmt_size st
  stmt_size-positive (include_stmt name) = omega arith
  stmt_size-positive (name_stmt name) = omega arith
  stmt_size-positive (set_stmt str) = omega arith
  stmt_size-positive (subst_stmt match repl flags) = omega arith
  stmt_size-positive skip_stmt = omega arith
  stmt_size-positive break_stmt = omega arith
  stmt_size-positive (Syntax.match_stmt i is' body) = omega arith

  pub stmts_size-positive : (sts : Stmts) → 1 ≤ stmts_size sts
  stmts_size-positive end_stmts = omega arith
  stmts_size-positive (then_stmt st sts) = omega (arith, stmt_size-positive st)
