-- ===== src/Parser/Ends.antt =====
-- src/parser.y: the rounds of the parser, against the tokens of a file.
use regex_markup.Common.{ℕ, zero, suc, ◌<◌, List, [], ◌∷◌, Option, length, arith}
use regex_markup.Style.{Style, new_style}
use regex_markup.Match.{RegexFlags}
use regex_markup.Rule.{Rule}
use regex_markup.Execute.{Result, ok, ◌>>=◌}
use regex_markup.Lexer.{Token, macro_word, style_word, prepend_word, append_word}
use regex_markup.Parser.Include.{parse_text, read_tokens}
use regex_markup.Lexer.Fuel.{lex-total}
use regex_markup.Script.{
  Script, Macro, has_name, define_style, define_macro, define_prepend, define_append,
}
use regex_markup.Parser.{
  take_string, parse_style_body, match_body, parse_stmt, input_item, parse_input,
}
use regex_markup.Parser.Results.{Ends, Ends-bind, Any, Ends-if, Ends-option, Ends-weaken}
use regex_markup.Parser.Takes.{
  LeftBy, take_string-Ends, parse_style_body-Ends, parse_stmt-Takes, stmt_body-Ends,
}

module _ {R : Type 0} (compile : List ℕ → RegexFlags → Option R) (stale : List Token → ℕ)
    (include : List ℕ → Script R → Result (Rule R × Script R))
    (include-Ends : (name : List ℕ) (script : Script R) → Ends Any (include name script)) where
  -- A body whose rule is made a definition of.
  abbrev defining :
      (Rule R → Script R → Result (Script R))
      → Rule R × List Token × Script R
      → Result (List (Rule R) × List Token × Script R)
  defining define (rule, rest, script) = define rule script >>= λ defined. ok ([], rest, defined)

  define_body-Ends :
      (f : ℕ) (ts : List Token) (script : Script R) (define : Rule R → Script R → Result (Script R))
      → length ts < f
      → ((rule : Rule R) (script' : Script R) → Ends Any (define rule script'))
      → Ends (LeftBy (length ts)) (
          match_body compile stale include (parse_stmt compile stale include f) f ts script
          >>= defining define)
  define_body-Ends f ts script define h ends =
      Ends-bind _ _
        (match_body compile stale include (parse_stmt compile stale include f) f ts script) _
        (stmt_body-Ends compile stale include include-Ends f ts script h)
        (λ (rule, rest, script') less.
          Ends-bind Any _ (define rule script') _ (ends rule script') (λ defined any. less))

  define_prepend-Ends : (rule : Rule R) (script : Script R) → Ends Any (define_prepend rule script)
  unfolding define_prepend
  define_prepend-Ends rule script = Ends-option _ script.prepend_rule _ _ _ (λ old. _)

  define_append-Ends : (rule : Rule R) (script : Script R) → Ends Any (define_append rule script)
  unfolding define_append
  define_append-Ends rule script = Ends-option _ script.append_rule _ _ _ (λ old. _)

  define_macro-Ends : (macro : Macro R) (script : Script R) → Ends Any (define_macro macro script)
  unfolding define_macro
  define_macro-Ends macro script = Ends-if Any (has_name script.macros macro.name) _ _ _ _

  define_style-Ends : (style : Style) (script : Script R) → Ends Any (define_style style script)
  unfolding define_style
  define_style-Ends style script = Ends-if Any (has_name script.styles style.name) _ _ _ _

  input_item-Ends :
      (f : ℕ) (t : Token) (ts : List Token) (script : Script R)
      → suc (length ts) < f
      → Ends (LeftBy (suc (length ts))) (input_item compile stale include f t ts script)
  unfolding input_item
  input_item-Ends f style_word ts script h =
      Ends-bind _ _ (take_string ts) _ (take_string-Ends ts) (λ (name, behind) less.
        Ends-bind _ _ (parse_style_body f behind script) _
          (parse_style_body-Ends f behind script (omega arith))
          (λ (infos, rest, script') shorter.
            Ends-bind Any _ (define_style (new_style name infos) script') _
              (define_style-Ends (new_style name infos) script') (λ defined any. omega arith)))
  input_item-Ends f macro_word ts script h =
      Ends-bind _ _ (take_string ts) _ (take_string-Ends ts) (λ (name, behind) less.
        Ends-weaken (LeftBy (length behind)) _ _
          (define_body-Ends f behind script
            (λ rule. define_macro (record { name = name; rule = rule })) (omega arith)
            (λ rule script'. define_macro-Ends (record { name = name; rule = rule }) script'))
          (λ (rules, rest, script') shorter. omega arith))
  input_item-Ends f prepend_word ts script h =
      Ends-weaken (LeftBy (length ts)) _ _
        (define_body-Ends f ts script define_prepend (omega arith) define_prepend-Ends)
        (λ (rules, rest, script') shorter. omega arith)
  input_item-Ends f append_word ts script h =
      Ends-weaken (LeftBy (length ts)) _ _
        (define_body-Ends f ts script define_append (omega arith) define_append-Ends)
        (λ (rules, rest, script') shorter. omega arith)
  input_item-Ends f t ts script h =
      Ends-bind _ _ (parse_stmt compile stale include f (t ∷ ts) script) _
        (parse_stmt-Takes compile stale include include-Ends f (suc (length ts)) h (t ∷ ts) script
          (omega arith))
        (λ (rule, rest, script') less. less)

  -- parser.y ends on any tokens, with the rules of the file or with the program, given that each
  -- file that it includes does: a round for each token and one more are enough.
  pub parse_input-Ends :
      (f : ℕ) (ts : List Token) (script : Script R)
      → length ts < f
      → Ends Any (parse_input compile stale include f ts script)
  unfolding parse_input
  parse_input-Ends zero ts script h = absurd (let never : ⊥ = omega arith in never)
  parse_input-Ends (suc f) [] script h = _
  parse_input-Ends (suc f) (t ∷ ts) script h =
      Ends-bind _ _ (input_item compile stale include (suc f) t ts script) _
        (input_item-Ends (suc f) t ts script (omega arith))
        (λ (rules, rest, script') less.
          Ends-bind Any _ (parse_input compile stale include f rest script') _
            (parse_input-Ends f rest script' (omega arith)) (λ (more, last) any. _))

  -- lexer.l and parser.y end on any text, with a rule for the file or with the program, given that
  -- each file that it includes does.
  pub parse_text-Ends :
      (text : List ℕ) (script : Script R) → Ends Any (parse_text compile stale include text script)
  unfolding parse_text read_tokens
  parse_text-Ends text script =
      let (r, e) = lex-total text in
      rw (read_tokens, e)
        (Ends-bind Any _ (parse_input compile stale include (suc (length r.0)) r.0 script) _
          (parse_input-Ends (suc (length r.0)) r.0 script (omega arith))
          (λ (rules, script') any. _))
