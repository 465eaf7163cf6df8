-- ===== src/Parser/RoundTrip.antt =====
-- src/lexer.l and src/parser.y: the text of a file that is written out from its declarations.
use regex_markup.Common.{
  ℕ, suc, ◌+◌, ◌≤◌, ◌≡◌, refl, ap, List, [], ◌∷◌, Option, none, some, length, arith,
}
use regex_markup.Match.{RegexFlags}
use regex_markup.Rule.{Rule, new_multi_rule}
use regex_markup.Execute.{Result, ok, died, out_of_fuel, ◌>>=◌}
use regex_markup.Lexer.{Token}
use regex_markup.Lexer.Lexemes.{Lexeme, script_text, script_tokens, lexeme_tokens, AllWritable}
use regex_markup.Lexer.RoundTrip.{lex-script_text}
use regex_markup.Script.{Script, new_script}
use regex_markup.Parser.Syntax.{
  Item, regex_item, number_item, StyleStmt, like_stmt, pre_stmt, post_stmt, style_block,
  style_single, Stmt, Stmts, Body, include_stmt, name_stmt, set_stmt, subst_stmt, skip_stmt,
  break_stmt, match_stmt, end_stmts, then_stmt, block, single, Decl, style_decl, macro_decl,
  prepend_decl, append_decl, stmt_decl, item_text, more_items_text, stmt_text, stmts_text,
  body_text, style_stmt_text, style_stmts_text, decl_text, decls_text, stmt_size, stmts_size,
  body_size, decl_size, decls_size, DeclsFit,
}
use regex_markup.Parser.Meaning.{decls_meaning}
use regex_markup.Parser.Decls.{parse_input-decls}
use regex_markup.Parser.Include.{
  Opened, find_file, include_script, parse_script, parse_text, read_tokens,
}
use regex_markup.Remark.{RemarkScript}

abbrev tokens_of : List Lexeme → ℕ
tokens_of ls = length (script_tokens ls)

-- Each part of a tree has a token of its own.
length-item : (i : Item) (ls : List Lexeme) → tokens_of (item_text i ∷ ls) ≡ suc (tokens_of ls)
unfolding lexeme_tokens
length-item (regex_item re flags) ls = refl
length-item (number_item digits n) ls = refl

length-more_items :
    (is' : List Item) (ls : List Lexeme) → tokens_of ls ≤ tokens_of (more_items_text is' ls)
unfolding lexeme_tokens
length-more_items [] ls = omega arith
length-more_items (i ∷ is') ls =
    omega (arith, length-item i (more_items_text is' ls), length-more_items is' ls)

mutual
  unfolding lexeme_tokens

  length-stmt :
      (st : Stmt) (ls : List Lexeme) → stmt_size st + tokens_of ls ≤ tokens_of (stmt_text st ls)
  length-stmt (include_stmt name) ls = omega arith
  length-stmt (name_stmt name) ls = omega arith
  length-stmt (set_stmt str) ls = omega arith
  length-stmt (subst_stmt match repl flags) ls = omega arith
  length-stmt skip_stmt ls = omega arith
  length-stmt break_stmt ls = omega arith
  length-stmt (match_stmt i is' body) ls = omega (
    arith,
    length-item i (more_items_text is' (body_text body ls)),
    length-more_items is' (body_text body ls),
    length-body body ls,
  )

  length-stmts :
      (sts : Stmts) (ls : List Lexeme)
      → stmts_size sts + tokens_of ls ≤ tokens_of (stmts_text sts ls)
  length-stmts end_stmts ls = omega arith
  length-stmts (then_stmt st sts) ls =
      omega (arith, length-stmt st (stmts_text sts ls), length-stmts sts ls)

  length-body :
      (body : Body) (ls : List Lexeme)
      → body_size body + tokens_of ls ≤ tokens_of (body_text body ls)
  length-body (block sts) ls = omega (arith, length-stmts sts ls)
  length-body (single st) ls = length-stmt st ls

length-style_stmt :
    (st : StyleStmt) (ls : List Lexeme) → 1 + tokens_of ls ≤ tokens_of (style_stmt_text st ls)
unfolding lexeme_tokens
length-style_stmt (like_stmt name) ls = omega arith
length-style_stmt (pre_stmt str) ls = omega arith
length-style_stmt (post_stmt str) ls = omega arith

length-style_stmts :
    (sts : List StyleStmt) (ls : List Lexeme)
    → suc (length sts) + tokens_of ls ≤ tokens_of (style_stmts_text sts ls)
unfolding lexeme_tokens
length-style_stmts [] ls = omega arith
length-style_stmts (st ∷ sts) ls =
    omega (arith, length-style_stmt st (style_stmts_text sts ls), length-style_stmts sts ls)

length-decl :
    (d : Decl) (ls : List Lexeme) → decl_size d + tokens_of ls ≤ tokens_of (decl_text d ls)
unfolding lexeme_tokens
length-decl (style_decl name (style_block sts)) ls = omega (arith, length-style_stmts sts ls)
length-decl (style_decl name (style_single st)) ls = omega (arith, length-style_stmt st ls)
length-decl (macro_decl name body) ls = omega (arith, length-body body ls)
length-decl (prepend_decl body) ls = omega (arith, length-body body ls)
length-decl (append_decl body) ls = omega (arith, length-body body ls)
length-decl (stmt_decl st) ls = length-stmt st ls

length-decls : (ds : List Decl) → decls_size ds ≤ suc (tokens_of (decls_text ds))
length-decls [] = omega arith
length-decls (d ∷ ds) = omega (arith, length-decl d (decls_text ds), length-decls ds)

module _ {R : Type 0} (compile : List ℕ → RegexFlags → Option R) (stale : List Token → ℕ) where
  -- A file that is written out from its declarations.
  pub parse_text-decls :
      (include : List ℕ → Script R → Result (Rule R × Script R)) (ds : List Decl)
      (script : Script R)
      → AllWritable (decls_text ds)
      → DeclsFit ds
      → parse_text compile stale include (script_text (decls_text ds)) script ≡ (
          decls_meaning compile stale include ds script >>= λ (rules, script').
          ok (new_multi_rule rules, script'))
  unfolding parse_text
  parse_text-decls include ds script writable fits =
      rw (read_tokens, lex-script_text (decls_text ds) writable)
        (ap (λ p. p >>= λ (rules, script'). ok (new_multi_rule rules, script'))
          (parse_input-decls compile stale include (suc (tokens_of (decls_text ds))) ds script
            (length-decls ds) fits))

  module _ (open_file : List ℕ → Opened) (dir_name : List ℕ → List ℕ) (home : Option (List ℕ))
      (pkguserdir pkgdatadir : List ℕ) where
    abbrev pub with_file :
        ℕ → (directory : Option (List ℕ)) → List ℕ → Script R → Result (Rule R × Script R)
    with_file = include_script compile stale open_file dir_name home pkguserdir pkgdatadir

    abbrev pub remark_script : List (Rule R) × Script R → Result (RemarkScript R)
    remark_script (rules, script) = ok (record {
      prepend_rule = script.prepend_rule;
      append_rule = script.append_rule;
      rule = some (new_multi_rule rules);
    })

    pub include_script-decls :
        (depth : ℕ) (directory : Option (List ℕ)) (filename : List ℕ) (ds : List Decl)
        (script : Script R)
        → find_file compile stale open_file dir_name home pkguserdir pkgdatadir directory filename
          ≡ ok (script_text (decls_text ds))
        → AllWritable (decls_text ds)
        → DeclsFit ds
        → with_file (suc depth) directory filename script ≡ (
            decls_meaning compile stale (with_file depth (some (dir_name filename))) ds script
            >>= λ (rules, script'). ok (new_multi_rule rules, script'))
    unfolding include_script
    include_script-decls depth directory filename ds script found writable fits =
        rw (include_script, found)
          (parse_text-decls (with_file depth (some (dir_name filename))) ds script writable fits)

    -- parse_script, where the file it is given is found and its text is written out from
    -- declarations: these are carried out in their order on a script without names, the files that
    -- they include being read from the file's directory, and the script's rule is all of their
    -- rules in one; the first that is wrong ends the program. The expressions have no slash but
    -- behind a backslash, and no newline behind one and no backslash at their end, and the numbers
    -- are digits and fit 32 bits.
    pub parse_script-decls :
        (depth : ℕ) (filename : List ℕ) (ds : List Decl)
        → find_file compile stale open_file dir_name home pkguserdir pkgdatadir none filename
          ≡ ok (script_text (decls_text ds))
        → AllWritable (decls_text ds)
        → DeclsFit ds
        → parse_script compile stale open_file dir_name home pkguserdir pkgdatadir
            (suc depth)
            (some filename)
          ≡ (decls_meaning compile stale (with_file depth (some (dir_name filename))) ds new_script
              >>= remark_script)
    unfolding parse_script include_script
    parse_script-decls depth filename ds found writable fits =
        rw
          (
            include_script,
            found,
            parse_text-decls (with_file depth (some (dir_name filename))) ds new_script writable
                fits,
          )
          (collected (
            decls_meaning compile stale (with_file depth (some (dir_name filename))) ds new_script))
      where
        collected :
            (m : Result (List (Rule R) × Script R))
            → (let multi : List (Rule R) × Script R → Result (Rule R × Script R) =
                  λ (rules, script). ok (new_multi_rule rules, script) in
                let kept : Rule R × Script R → Result (RemarkScript R) = λ (rule, script).
                  ok (record {
                    prepend_rule = script.prepend_rule;
                    append_rule = script.append_rule;
                    rule = some rule;
                  }) in
                (m >>= multi >>= kept) ≡ (m >>= remark_script))
        collected (ok a) = refl
        collected died = refl
        collected out_of_fuel = refl
