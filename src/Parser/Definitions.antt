-- ===== src/Parser/Definitions.antt =====
-- src/parser.y: what a script has defined, through the grammar and files that include files.
use regex_markup.Common.{ℕ, zero, suc, List, [], ◌∷◌, Option, some, length}
use regex_markup.Style.{new_style}
use regex_markup.Match.{RegexFlags}
use regex_markup.Rule.{Rule}
use regex_markup.Execute.{Result, ok, ◌>>=◌}
use regex_markup.Lexer.{
  Token, string_token, subst_token, macro_word, style_word, skip_word, break_word, prepend_word,
  append_word, include_word, set_word,
}
use regex_markup.Script.{
  Script, define_style, define_macro, define_prepend, define_append, name_rule,
}
use regex_markup.Parser.{
  Parser, is_open, take_string, take_match, parse_stmts, parse_style_body, new_substitution_rule,
  match_item, more_items, match_body, match_decl, match_stmt, parse_stmt, input_item, parse_input,
}
use regex_markup.Parser.Include.{Opened, find_file, read_tokens, parse_text, include_script}
use regex_markup.Parser.Kept.{
  Gives, Gives-bind, Gives-then, Gives-cond, HasTables, Keeps, Keeps-itself, Keeps-trans, Left,
  IsKeeping, Included, parse_stmts-IsKeeping, parse_style_body-IsKeeping, define_style-Keeps,
  define_macro-Keeps, define_prepend-Keeps, define_append-Keeps,
}

module _ {R : Type 0} (compile : List ℕ → RegexFlags → Option R) (stale : List Token → ℕ)
    (include : List ℕ → Script R → Result (Rule R × Script R))
    (included : (name : List ℕ) (script : Script R)
      → HasTables script
      → Gives (Included script) (include name script)) where
  match_body-IsKeeping :
      (stmt : Parser R (Rule R)) (f : ℕ)
      → IsKeeping stmt
      → IsKeeping (match_body compile stale include stmt f)
  unfolding match_body
  match_body-IsKeeping stmt f keeping [] script h = _
  match_body-IsKeeping stmt f keeping (t ∷ ts) script h =
      Gives-cond _ (is_open t) _ _
        (Gives-bind _ _ (parse_stmts stmt f ts script) _
          (parse_stmts-IsKeeping stmt f keeping ts script h) (λ (rules, rest, script') kept. kept))
        (keeping (t ∷ ts) script h)

  match_decl-Keeps :
      (stmt : Parser R (Rule R)) (f : ℕ)
      → IsKeeping stmt
      → (t : Token) → IsKeeping (match_decl compile stale include stmt f t)
  unfolding match_decl
  match_decl-Keeps stmt f keeping t ts script h =
      Gives-then _ (match_item compile stale include t ts) _ (λ m.
        Gives-then _ (more_items compile stale include ts) _ (λ (ms, behind).
          Gives-bind _ _ (match_body compile stale include stmt f behind script) _
            (match_body-IsKeeping stmt f keeping behind script h)
            (λ (rule, rest, script') kept. kept)))

  match_stmt-Keeps :
      (stmt : Parser R (Rule R)) (f : ℕ)
      → IsKeeping stmt
      → (t : Token) → IsKeeping (match_stmt compile stale include stmt f t)
  unfolding match_stmt
  match_stmt-Keeps stmt f keeping include_word ts script h =
      Gives-then _ (take_string ts) _ (λ (name, rest).
        Gives-bind (Included script) _ (include name script) _ (included name script h)
          (λ (rule, script') kept. kept))
  match_stmt-Keeps stmt f keeping (string_token name) ts script h =
      Gives-then _ (name_rule name script) _ (λ rule. Keeps-itself script h)
  match_stmt-Keeps stmt f keeping (subst_token match) ts script h =
      Gives-then _ (take_match ts) _ (λ ((repl, flags), rest).
        Gives-then _ (new_substitution_rule compile stale include match repl flags) _
          (λ rule. Keeps-itself script h))
  match_stmt-Keeps stmt f keeping set_word ts script h =
      Gives-then _ (take_string ts) _ (λ (str, rest). Keeps-itself script h)
  match_stmt-Keeps stmt f keeping skip_word ts script h = Keeps-itself script h
  match_stmt-Keeps stmt f keeping break_word ts script h = Keeps-itself script h
  match_stmt-Keeps stmt f keeping t ts script h = match_decl-Keeps stmt f keeping t ts script h

  parse_stmt-IsKeeping : (f : ℕ) → IsKeeping (parse_stmt compile stale include f)
  unfolding parse_stmt
  parse_stmt-IsKeeping zero ts script h = _
  parse_stmt-IsKeeping (suc f) [] script h = _
  parse_stmt-IsKeeping (suc f) (t ∷ ts) script h =
      match_stmt-Keeps (parse_stmt compile stale include f) f (parse_stmt-IsKeeping f) t ts script h

  abbrev defining :
      (Rule R → Script R → Result (Script R))
      → Rule R × List Token × Script R
      → Result (List (Rule R) × List Token × Script R)
  defining define (rule, rest, script) = define rule script >>= λ defined. ok ([], rest, defined)

  define_body-Keeps :
      (f : ℕ) (ts : List Token) (script : Script R) (define : Rule R → Script R → Result (Script R))
      → ((rule : Rule R) (script' : Script R)
          → HasTables script'
          → Gives (Keeps script') (define rule script'))
      → HasTables script
      → Gives (Left script) (
          match_body compile stale include (parse_stmt compile stale include f) f ts script
          >>= defining define)
  define_body-Keeps f ts script define keeps h =
      Gives-bind _ _
        (match_body compile stale include (parse_stmt compile stale include f) f ts script) _
        (match_body-IsKeeping (parse_stmt compile stale include f) f (parse_stmt-IsKeeping f) ts
          script h)
        (λ (rule, rest, script') kept.
          Gives-bind (Keeps script') _ (define rule script') _ (keeps rule script' kept.0)
            (λ defined kept'. Keeps-trans script script' defined kept kept'))

  input_item-Keeps : (f : ℕ) (t : Token) → IsKeeping (input_item compile stale include f t)
  unfolding input_item
  input_item-Keeps f style_word ts script h = Gives-then _ (take_string ts) _ (λ (name, behind).
      Gives-bind _ _ (parse_style_body f behind script) _
        (parse_style_body-IsKeeping f behind script h)
        (λ (infos, rest, script') kept.
          Gives-bind (Keeps script') _ (define_style (new_style name infos) script') _
            (define_style-Keeps (new_style name infos) script' kept.0)
            (λ defined kept'. Keeps-trans script script' defined kept kept')))
  input_item-Keeps f macro_word ts script h = Gives-then _ (take_string ts) _ (λ (name, behind).
      define_body-Keeps f behind script (λ rule. define_macro (record { name = name; rule = rule }))
        (λ rule. define_macro-Keeps (record { name = name; rule = rule })) h)
  input_item-Keeps f prepend_word ts script h =
      define_body-Keeps f ts script define_prepend define_prepend-Keeps h
  input_item-Keeps f append_word ts script h =
      define_body-Keeps f ts script define_append define_append-Keeps h
  input_item-Keeps f t ts script h =
      Gives-bind _ _ (parse_stmt compile stale include f (t ∷ ts) script) _
        (parse_stmt-IsKeeping f (t ∷ ts) script h) (λ (rule, rest, script') kept. kept)

  abbrev AllRead : Script R → List (Rule R) × Script R → Type 0
  AllRead script (rules, script') = Keeps script script'

  parse_input-Keeps :
      (f : ℕ) (ts : List Token) (script : Script R)
      → HasTables script
      → Gives (AllRead script) (parse_input compile stale include f ts script)
  unfolding parse_input
  parse_input-Keeps zero ts script h = _
  parse_input-Keeps (suc f) [] script h = Keeps-itself script h
  parse_input-Keeps (suc f) (t ∷ ts) script h =
      Gives-bind _ _ (input_item compile stale include (suc f) t ts script) _
        (input_item-Keeps (suc f) t ts script h)
        (λ (rules, rest, script') kept.
          Gives-bind (AllRead script') _ (parse_input compile stale include f rest script') _
            (parse_input-Keeps f rest script' kept.0)
            (λ (more, last) kept'. Keeps-trans script script' last kept kept'))

  parse_text-Keeps :
      (text : List ℕ) (script : Script R)
      → HasTables script
      → Gives (Included script) (parse_text compile stale include text script)
  unfolding parse_text
  parse_text-Keeps text script h = Gives-then _ (read_tokens compile stale text) _ (λ tokens.
      Gives-bind (AllRead script) _
        (parse_input compile stale include (suc (length tokens)) tokens script) _
        (parse_input-Keeps (suc (length tokens)) tokens script h) (λ (rules, script') kept. kept))

module _ {R : Type 0} (compile : List ℕ → RegexFlags → Option R) (stale : List Token → ℕ)
    (open_file : List ℕ → Opened) (dir_name : List ℕ → List ℕ) (home : Option (List ℕ))
    (pkguserdir pkgdatadir : List ℕ) where
  -- include_script, whatever stands in the file that it finds, and in those which this includes: in
  -- the script that it leaves, every style and every macro that was defined is what it was, and so
  -- are the rules of pre and post, where there were any. The tables were as hmap.c makes them, each
  -- entry in the bucket of its name, and they are so again.
  pub include_script-Keeps :
      (depth : ℕ) (directory : Option (List ℕ)) (filename : List ℕ) (script : Script R)
      → HasTables script
      → Gives (Included script) (
          include_script compile stale open_file dir_name home pkguserdir pkgdatadir depth directory
            filename script)
  unfolding include_script
  include_script-Keeps zero directory filename script h = _
  include_script-Keeps (suc depth) directory filename script h =
      Gives-then _
        (find_file compile stale open_file dir_name home pkguserdir pkgdatadir directory filename) _
        (λ text.
          parse_text-Keeps compile stale _ (include_script-Keeps depth (some (dir_name filename)))
            text script h)
