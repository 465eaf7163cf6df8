-- ===== src/Parser/Trees.antt =====
-- src/parser.y: the parser on the tokens of a tree, against the meaning of the tree.
use regex_markup.Common.{ℕ, zero, suc, ◌≤◌, ◌≡◌, refl, sym, ap, ◌∙◌, List, ◌∷◌, Option, arith}
use regex_markup.Match.{Match, RegexFlags}
use regex_markup.Rule.{Rule, rule_match}
use regex_markup.Execute.{Result, ok, ◌>>=◌}
use regex_markup.Lexer.{Token}
use regex_markup.Lexer.Lexemes.{Lexeme, lexeme_tokens, script_tokens}
use regex_markup.Script.{Script, name_rule}
use regex_markup.Parser.{
  Parser, take_string, take_match, new_substitution_rule, parse_stmts, more_items, match_body,
  match_decl, match_stmt, parse_stmt,
}
use regex_markup.Parser.Syntax.{
  Item, regex_item, number_item, Stmt, Stmts, Body, include_stmt, name_stmt, set_stmt, subst_stmt,
  skip_stmt, break_stmt, end_stmts, then_stmt, block, single, item_text, more_items_text, stmt_text,
  stmts_text, body_text, stmt_size, stmts_size, body_size, Fits, AllFit, StmtFits, StmtsFit,
  BodyFits,
}
use regex_markup.Parser.Meaning.{
  item_meaning, items_meaning, stmt_meaning, stmts_meaning, body_meaning,
}
use regex_markup.Parser.Syntax
use regex_markup.Parser.Results.{bind_step, bind_same, bind_list, bind_kept}
use regex_markup.Parser.Items.{
  tokens-item, match_item-meaning, match_stmt-item, more_items-meaning, body_starts,
  match_body-single, parse_stmts-stmt, stmt_size-positive, stmts_size-positive,
}

module _ {R : Type 0} (compile : List ℕ → RegexFlags → Option R) (stale : List Token → ℕ)
    (include : List ℕ → Script R → Result (Rule R × Script R)) where
  -- What a parser gives for a tree in front of other lexemes.
  abbrev pub Reads :
      {A : Type 0}
      → Parser R A
      → List Lexeme
      → (Script R → Result (A × Script R))
      → List Lexeme
      → Type 0
  Reads parse text meaning ls =
      (script : Script R)
      → parse (script_tokens text) script
        ≡ (meaning script >>= λ (a, script'). ok (a, script_tokens ls, script'))

  -- A statement of items and a body, given what the parser reads for the body.
  match_case :
      (f : ℕ) (i : Item) (is' : List Item) (body : Body) (ls : List Lexeme)
      → Fits i
      → AllFit is'
      → (script : Script R)
      → match_body compile stale include
          (parse_stmt compile stale include f)
          f
          (script_tokens (body_text body ls))
          script
        ≡ (body_meaning compile stale include body script >>= λ (rule, script').
            ok (rule, script_tokens ls, script'))
      → parse_stmt compile stale include
          (suc f)
          (script_tokens (stmt_text (Syntax.match_stmt i is' body) ls))
          script
        ≡ (stmt_meaning compile stale include (Syntax.match_stmt i is' body) script
            >>= λ (rule, script'). ok (rule, script_tokens ls, script'))
  unfolding parse_stmt match_decl
  match_case f i is' body ls fits all script read =
      let rest : List Lexeme = more_items_text is' (body_text body ls) in
      let ts : List Token = script_tokens rest in
      let parse : Parser R (Rule R) = parse_stmt compile stale include f in
      let add : Match R → Result (Rule R × List Token × Script R) = λ m.
        more_items compile stale include ts >>= λ (ms, behind).
        match_body compile stale include parse f behind script >>= λ (rule, left, script').
        ok (rule_match (m ∷ ms) rule, left, script') in
      let found : List (Match R) → Result (Rule R × Script R) = λ ms.
        body_meaning compile stale include body script >>= λ (rule, script').
        ok (rule_match ms rule, script') in
      let leave : Rule R × Script R → Result (Rule R × List Token × Script R) =
        λ (rule, script'). ok (rule, script_tokens ls, script') in
      ap (λ ts'. parse_stmt compile stale include (suc f) ts' script)
        (tokens-item compile stale include i rest)
      ∙ match_stmt-item compile stale include i parse f ts script
      ∙ ap (λ p. p >>= add) (match_item-meaning compile stale include i ts fits)
      ∙ bind_same (item_meaning compile stale include i) add
          (λ m. items_meaning compile stale include is' >>= λ ms. found (m ∷ ms)) leave
          (λ m.
            bind_step (items_meaning compile stale include is')
              (λ ms. (ms, script_tokens (body_text body ls))) _ _ _ _
              (more_items-meaning compile stale include is' (body_text body ls) all
                (body_starts compile stale include body ls))
              (λ ms.
                bind_step (body_meaning compile stale include body script)
                  (λ (rule, script'). (rule, script_tokens ls, script')) _ _ _ _ read (λ r. refl)))
      ∙ ap (λ p. p >>= leave)
          (sym (
            bind_list (item_meaning compile stale include i)
              (items_meaning compile stale include is') found))

  mutual
    unfolding parse_stmt match_stmt match_body parse_stmts match_decl take_string take_match
        lexeme_tokens

    pub parse_stmt-Reads :
        (f : ℕ) (st : Stmt) (ls : List Lexeme)
        → stmt_size st ≤ f
        → StmtFits st
        → Reads
            (parse_stmt compile stale include f)
            (stmt_text st ls)
            (stmt_meaning compile stale include st)
            ls
    parse_stmt-Reads zero st ls h fits script = absurd (
        let positive : 1 ≤ stmt_size st = stmt_size-positive compile stale include st in
        let never : ⊥ = omega arith in never)
    parse_stmt-Reads (suc f) (include_stmt name) ls h fits script = refl
    parse_stmt-Reads (suc f) (name_stmt name) ls h fits script =
        bind_kept (name_rule name script) (script_tokens ls) script
    parse_stmt-Reads (suc f) (set_stmt str) ls h fits script = refl
    parse_stmt-Reads (suc f) (subst_stmt match repl flags) ls h fits script =
        bind_kept (new_substitution_rule compile stale include match repl flags) (script_tokens ls)
          script
    parse_stmt-Reads (suc f) skip_stmt ls h fits script = refl
    parse_stmt-Reads (suc f) break_stmt ls h fits script = refl
    parse_stmt-Reads (suc f) (Syntax.match_stmt i is' body) ls h (fits, all, body_fits) script =
        let rest : List Lexeme = body_text body ls in
        let read : Reads (match_body compile stale include (parse_stmt compile stale include f) f)
            rest (body_meaning compile stale include body) ls =
          match_body-Reads f body ls (omega arith) body_fits in
        match_case f i is' body ls fits all script (read script)

    pub match_body-Reads :
        (f : ℕ) (body : Body) (ls : List Lexeme)
        → body_size body ≤ f
        → BodyFits body
        → Reads
            (match_body compile stale include (parse_stmt compile stale include f) f)
            (body_text body ls)
            (body_meaning compile stale include body)
            ls
    match_body-Reads f (block sts) ls h fits script =
        bind_step (stmts_meaning compile stale include sts script)
          (λ (rules, script'). (rules, script_tokens ls, script')) _ _ _ _
          (parse_stmts-Reads f f sts ls h h fits script) (λ r. refl)
    match_body-Reads f (single st) ls h fits script =
        match_body-single compile stale include (parse_stmt compile stale include f) f st ls script
        ∙ parse_stmt-Reads f st ls h fits script

    parse_stmts-Reads :
        (f g : ℕ) (sts : Stmts) (ls : List Lexeme)
        → stmts_size sts ≤ f
        → stmts_size sts ≤ g
        → StmtsFit sts
        → Reads
            (parse_stmts (parse_stmt compile stale include f) g)
            (stmts_text sts ls)
            (stmts_meaning compile stale include sts)
            ls
    parse_stmts-Reads f zero sts ls h k fits script = absurd (
        let positive : 1 ≤ stmts_size sts = stmts_size-positive compile stale include sts in
        let never : ⊥ = omega arith in never)
    parse_stmts-Reads f (suc g) end_stmts ls h k fits script = refl
    parse_stmts-Reads f (suc g) (then_stmt st sts) ls h k (fits, all) script =
        let positive : 1 ≤ stmt_size st = stmt_size-positive compile stale include st in
        parse_stmts-stmt compile stale include (parse_stmt compile stale include f) g st
          (stmts_text sts ls) script
        ∙ bind_step (stmt_meaning compile stale include st script)
            (λ (rule, script'). (rule, script_tokens (stmts_text sts ls), script')) _ _ _ _
            (parse_stmt-Reads f st (stmts_text sts ls) (omega arith) fits script)
            (λ (rule, script').
              bind_step (stmts_meaning compile stale include sts script')
                (λ (rules, last). (rules, script_tokens ls, last)) _ _ _ _
                (parse_stmts-Reads f g sts ls (omega arith) (omega arith) all script') (λ r. refl))
