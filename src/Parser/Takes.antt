-- ===== src/Parser/Takes.antt =====
-- src/parser.y: the rounds that a statement needs, and the tokens that it takes.
use regex_markup.Common.{ℕ, zero, suc, ◌<◌, ◌≤◌, List, [], ◌∷◌, Option, none, some, length, arith}
use regex_markup.Match.{RegexFlags}
use regex_markup.Rule.{Rule}
use regex_markup.Execute.{Result}
use regex_markup.Lexer.{
  Token, comma, string_token, match_token, subst_token, number_token, skip_word, break_word,
  prepend_word, append_word, include_word, set_word,
}
use regex_markup.Script.{Script, get_name, name_rule}
use regex_markup.Parser.{
  Parser, is_open, is_close, take_string, take_match, parse_stmts, parse_style_stmt,
  parse_style_body, new_regex_match, new_substitution_rule, match_item, more_items, match_body,
  match_decl, match_stmt, parse_stmt,
}
use regex_markup.Parser.Results.{Ends, Ends-bind, Any, Ends-cond, Ends-option, Ends-weaken}

-- What is left is shorter than `n`.
abbrev pub Left {ℓ} : {A : Type ℓ} → ℕ → A × List Token → Type 0
Left n (a, rest) = length rest < n

abbrev pub LeftBy : {R A : Type 0} → ℕ → A × List Token × Script R → Type 0
LeftBy n (a, rest, script) = length rest < n

-- On tokens that are no more than `n`, the parser ends and takes one at least.
abbrev pub Takes : {R A : Type 0} → Parser R A → ℕ → Type 0
Takes {R} parse n =
    (ts : List Token) (script : Script R)
    → length ts ≤ n
    → Ends (LeftBy (length ts)) (parse ts script)

pub take_string-Ends : (ts : List Token) → Ends (Left (length ts)) (take_string ts)
unfolding take_string
take_string-Ends (string_token str ∷ ts) = omega arith
take_string-Ends _ = _

take_match-Ends : (ts : List Token) → Ends (Left (length ts)) (take_match ts)
unfolding take_match
take_match-Ends (match_token re flags ∷ ts) = omega arith
take_match-Ends _ = _

parse_stmts-Takes :
    {R A : Type 0} (parse : Parser R A) (g : ℕ) (n : ℕ)
    → Takes parse n
    → (ts : List Token) (script : Script R) → length ts < g
    → length ts ≤ n
    → Ends (LeftBy (length ts)) (parse_stmts parse g ts script)
unfolding parse_stmts
parse_stmts-Takes parse zero n takes ts script h k = absurd (let never : ⊥ = omega arith in never)
parse_stmts-Takes parse (suc g) n takes [] script h k = _
parse_stmts-Takes parse (suc g) n takes (t ∷ ts) script h k =
    Ends-cond _ (is_close t) _ _ (omega arith) (
      Ends-bind _ _ (parse (t ∷ ts) script) _ (takes (t ∷ ts) script k)
        (λ (a, rest, script') shorter.
          Ends-bind _ _ (parse_stmts parse g rest script') _
            (parse_stmts-Takes parse g n takes rest script' (omega arith) (omega arith))
            (λ (as', last, script'') less. omega arith)))

module _ {R : Type 0} where
  parse_style_stmt-Ends :
      (ts : List Token) (script : Script R) → Ends (LeftBy (length ts)) (parse_style_stmt ts script)
  unfolding parse_style_stmt
  parse_style_stmt-Ends [] script = _
  parse_style_stmt-Ends (string_token name ∷ ts) script =
      Ends-option _ (get_name script.styles name) _ _ _ (λ style. omega arith)
  parse_style_stmt-Ends (prepend_word ∷ ts) script =
      Ends-bind _ _ (take_string ts) _ (take_string-Ends ts) (λ (str, rest) less. omega arith)
  parse_style_stmt-Ends (append_word ∷ ts) script =
      Ends-bind _ _ (take_string ts) _ (take_string-Ends ts) (λ (str, rest) less. omega arith)
  parse_style_stmt-Ends (_ ∷ ts) script = _

  pub parse_style_body-Ends :
      (f : ℕ) (ts : List Token) (script : Script R)
      → length ts < f
      → Ends (LeftBy (length ts)) (parse_style_body f ts script)
  unfolding parse_style_body
  parse_style_body-Ends f [] script h = _
  parse_style_body-Ends f (t ∷ ts) script h =
      Ends-cond _ (is_open t) _ _
        (Ends-weaken (LeftBy (length ts)) _ _
          (parse_stmts-Takes parse_style_stmt f f
            (λ ts' script' k. parse_style_stmt-Ends ts' script') ts script (omega arith)
            (omega arith))
          (λ (infos, rest, script') less. omega arith))
        (Ends-bind _ _ (parse_style_stmt (t ∷ ts) script) _ (parse_style_stmt-Ends (t ∷ ts) script)
          (λ (info, rest, script') less. less))

  name_rule-Ends : (name : List ℕ) (script : Script R) → Ends Any (name_rule name script)
  unfolding name_rule
  name_rule-Ends name script =
      Ends-option _ (get_name script.macros name) _ _
        (Ends-option _ (get_name script.styles name) _ _ _ (λ style. _)) (λ macro. _)

module _ {R : Type 0} (compile : List ℕ → RegexFlags → Option R) (stale : List Token → ℕ)
    (include : List ℕ → Script R → Result (Rule R × Script R))
    (include-Ends : (name : List ℕ) (script : Script R) → Ends Any (include name script)) where
  match_item-Ends : (t : Token) (ts : List Token) → Ends Any (match_item compile stale include t ts)
  unfolding match_item new_regex_match
  match_item-Ends (match_token re flags) ts = Ends-option _ (compile re flags) _ _ _ (λ r. _)
  match_item-Ends (number_token (some n)) ts = _
  match_item-Ends (number_token none) ts = _
  match_item-Ends _ ts = _

  more_items-Ends :
      (ts : List Token) → Ends (Left (suc (length ts))) (more_items compile stale include ts)
  unfolding more_items
  more_items-Ends (comma ∷ t ∷ ts) =
      Ends-bind Any _ (match_item compile stale include t ts) _ (match_item-Ends t ts) (λ m h.
        Ends-bind _ _ (more_items compile stale include ts) _ (more_items-Ends ts)
          (λ (ms, rest) less. omega arith))
  more_items-Ends (comma ∷ []) = _
  more_items-Ends [] = omega arith
  more_items-Ends (_ ∷ ts) = omega arith

  match_body-Takes :
      (stmt : Parser R (Rule R)) (f n : ℕ)
      → n < f
      → Takes stmt n
      → Takes (match_body compile stale include stmt f) n
  unfolding match_body
  match_body-Takes stmt f n enough takes [] script h = _
  match_body-Takes stmt f n enough takes (t ∷ ts) script h =
      Ends-cond _ (is_open t) _ _
        (Ends-bind _ _ (parse_stmts stmt f ts script) _
          (parse_stmts-Takes stmt f n takes ts script (omega arith) (omega arith))
          (λ (rules, rest, script') less. omega arith))
        (takes (t ∷ ts) script h)

  match_decl-Ends :
      (stmt : Parser R (Rule R)) (f n : ℕ)
      → n < f
      → Takes stmt n
      → (t : Token) (ts : List Token) (script : Script R) → length ts ≤ n
      → Ends (LeftBy (suc (length ts))) (match_decl compile stale include stmt f t ts script)
  unfolding match_decl
  match_decl-Ends stmt f n enough takes t ts script h =
      Ends-bind Any _ (match_item compile stale include t ts) _ (match_item-Ends t ts) (λ m any.
        Ends-bind _ _ (more_items compile stale include ts) _ (more_items-Ends ts)
          (λ (ms, behind) less.
            Ends-bind _ _ (match_body compile stale include stmt f behind script) _
              (match_body-Takes stmt f n enough takes behind script (omega arith))
              (λ (rule, rest, script') shorter. omega arith)))

  match_stmt-Ends :
      (stmt : Parser R (Rule R)) (f n : ℕ)
      → n < f
      → Takes stmt n
      → (t : Token) (ts : List Token) (script : Script R) → length ts ≤ n
      → Ends (LeftBy (suc (length ts))) (match_stmt compile stale include stmt f t ts script)
  unfolding match_stmt new_substitution_rule
  match_stmt-Ends stmt f n enough takes include_word ts script h =
      Ends-bind _ _ (take_string ts) _ (take_string-Ends ts) (λ (name, rest) less.
        Ends-bind Any _ (include name script) _ (include-Ends name script)
          (λ (rule, script') any. omega arith))
  match_stmt-Ends stmt f n enough takes (string_token name) ts script h =
      Ends-bind Any _ (name_rule name script) _ (name_rule-Ends name script)
        (λ rule any. omega arith)
  match_stmt-Ends stmt f n enough takes (subst_token match) ts script h =
      Ends-bind _ _ (take_match ts) _ (take_match-Ends ts) (λ ((repl, flags), rest) less.
        Ends-bind Any _ (new_substitution_rule compile stale include match repl flags) _
          (Ends-option _ (compile match flags) _ _ _ (λ r. _)) (λ rule any. omega arith))
  match_stmt-Ends stmt f n enough takes set_word ts script h =
      Ends-bind _ _ (take_string ts) _ (take_string-Ends ts) (λ (str, rest) less. omega arith)
  match_stmt-Ends stmt f n enough takes skip_word ts script h = omega arith
  match_stmt-Ends stmt f n enough takes break_word ts script h = omega arith
  match_stmt-Ends stmt f n enough takes t ts script h =
      match_decl-Ends stmt f n enough takes t ts script h

  pub parse_stmt-Takes : (f n : ℕ) → n < f → Takes (parse_stmt compile stale include f) n
  unfolding parse_stmt
  parse_stmt-Takes zero n less ts script h = absurd (let never : ⊥ = omega arith in never)
  parse_stmt-Takes (suc f) n less [] script h = _
  parse_stmt-Takes (suc f) n less (t ∷ ts) script h =
      match_stmt-Ends (parse_stmt compile stale include f) f (length ts) (omega arith)
        (parse_stmt-Takes f (length ts) (omega arith)) t ts script (omega arith)

  pub stmt_body-Ends :
      (f : ℕ) (ts : List Token) (script : Script R)
      → length ts < f
      → Ends
          (LeftBy (length ts))
          (match_body compile stale include (parse_stmt compile stale include f) f ts script)
  stmt_body-Ends f ts script h =
      match_body-Takes (parse_stmt compile stale include f) f (length ts) h
        (parse_stmt-Takes f (length ts) h) ts script (omega arith)
