-- ===== src/Parser/Kept.antt =====
-- src/parser.y: what a script has defined, before and after a part of the grammar.
use regex_markup.Common.{
  ℕ, zero, suc, ◌≡◌, refl, sym, ◌∙◌, List, [], ◌∷◌, Option, none, some, Bool, true, false,
  Bool-cases, inl, inr,
}
use mathlib.Core.Option.{none-ne-some}
use regex_markup.Style.{Style, StyleInfo, new_style}
use regex_markup.Rule.{Rule}
use regex_markup.Execute.{Result, ok, died, out_of_fuel, ◌>>=◌}
use regex_markup.Lexer.{Token, string_token, prepend_word, append_word}
use regex_markup.HMap.{strhash}
use regex_markup.HMap.Placed.{reached_new, Reached-IsPlaced}
use regex_markup.Script.{
  new_script, same_name, Macro, Script, get_name, has_name, define_style, define_macro,
  define_prepend, define_append,
}
use regex_markup.Script.Names.{
  same_name-key, IsTable, KeepsNames, put_name-KeepsNames, put_name-IsTable,
}
use regex_markup.Parser.{
  Parser, is_open, is_close, take_string, parse_stmts, parse_style_stmt, parse_style_body,
}

-- `P` holds of the result, where there is one.
abbrev pub Gives {ℓ} : {A : Type ℓ} → (A → Type 0) → Result A → Type 0
Gives P (ok a) = P a
Gives P died = Unit {0}
Gives P out_of_fuel = Unit {0}

pub Gives-bind {ℓ κ} :
    {A : Type ℓ} {B : Type κ} (P : A → Type 0) (Q : B → Type 0) (m : Result A) (f : A → Result B)
    → Gives P m
    → ((a : A) → P a → Gives Q (f a))
    → Gives Q (m >>= f)
Gives-bind P Q (ok a) f h k = k a h
Gives-bind P Q died f h k = _
Gives-bind P Q out_of_fuel f h k = _

-- Where the first step is of no interest.
pub Gives-then {ℓ κ} :
    {A : Type ℓ} {B : Type κ} (Q : B → Type 0) (m : Result A) (f : A → Result B)
    → ((a : A) → Gives Q (f a))
    → Gives Q (m >>= f)
Gives-then Q (ok a) f k = k a
Gives-then Q died f k = _
Gives-then Q out_of_fuel f k = _

pub Gives-cond {ℓ} :
    {A : Type ℓ} (P : A → Type 0) (b : Bool) (m other : Result A)
    → Gives P m
    → Gives P other
    → Gives P (elim b [ true ↦ m | false ↦ other ])
Gives-cond P true m other h k = h
Gives-cond P false m other h k = k

module _ {R : Type 0} where
  -- The tables are as the functions make them.
  abbrev pub HasTables : Script R → Type 0
  HasTables script = IsTable script.styles × IsTable script.macros

  abbrev pub KeepsRule : (rule rule' : Option (Rule R)) → Type 0
  KeepsRule rule rule' = (r : Rule R) → rule ≡ some r → rule' ≡ some r

  -- The styles, the macros, and the two rules for the strings around pieces.
  abbrev pub Keeps : (script script' : Script R) → Type 0
  Keeps script script' =
      HasTables script'
      × KeepsNames script.styles script'.styles
      × KeepsNames script.macros script'.macros
      × KeepsRule script.prepend_rule script'.prepend_rule
      × KeepsRule script.append_rule script'.append_rule

  pub Keeps-itself : (script : Script R) → HasTables script → Keeps script script
  Keeps-itself script h = (h, (λ name v e. e), (λ name v e. e), (λ r e. e), (λ r e. e))

  pub Keeps-trans : (s t u : Script R) → Keeps s t → Keeps t u → Keeps s u
  Keeps-trans s t u (h, a, b, c, d) (h', a', b', c', d') = (
    h',
    (λ name v e. a' name v (a name v e)),
    (λ name v e. b' name v (b name v e)),
    (λ r e. c' r (c r e)),
    (λ r e. d' r (d r e)),
  )

  -- What a parser does to the script.
  abbrev pub Left : {A : Type 0} → Script R → A × List Token × Script R → Type 0
  Left script (a, rest, script') = Keeps script script'

  abbrev pub IsKeeping : {A : Type 0} → Parser R A → Type 0
  IsKeeping parse =
      (ts : List Token) (script : Script R)
      → HasTables script
      → Gives (Left script) (parse ts script)

  abbrev pub Included : Script R → Rule R × Script R → Type 0
  Included script (rule, script') = Keeps script script'

  pub parse_stmts-IsKeeping :
      {A : Type 0} (parse : Parser R A) (g : ℕ) → IsKeeping parse → IsKeeping (parse_stmts parse g)
  unfolding parse_stmts
  parse_stmts-IsKeeping parse zero keeping ts script h = _
  parse_stmts-IsKeeping parse (suc g) keeping [] script h = _
  parse_stmts-IsKeeping parse (suc g) keeping (t ∷ ts) script h =
      Gives-cond _ (is_close t) _ _ (Keeps-itself script h) (
        Gives-bind _ _ (parse (t ∷ ts) script) _ (keeping (t ∷ ts) script h)
          (λ (a, rest, script') kept.
            Gives-bind _ _ (parse_stmts parse g rest script') _
              (parse_stmts-IsKeeping parse g keeping rest script' kept.0)
              (λ (as', last, script'') kept'. Keeps-trans script script' script'' kept kept')))

  parse_style_stmt-IsKeeping : IsKeeping (parse_style_stmt {R = R})
  unfolding parse_style_stmt
  parse_style_stmt-IsKeeping [] script h = _
  parse_style_stmt-IsKeeping (string_token name ∷ ts) script h = found (get_name script.styles name)
    where
      found :
          (o : Option Style)
          → Gives (Left script) (elim o [
            | none ↦ died
            | some style ↦ ok (regex_markup.Style.styleinfo_style style, ts, script)
          ])
      found none = _
      found (some style) = Keeps-itself script h
  parse_style_stmt-IsKeeping (prepend_word ∷ ts) script h =
      Gives-then _ (take_string ts) _ (λ (str, rest). Keeps-itself script h)
  parse_style_stmt-IsKeeping (append_word ∷ ts) script h =
      Gives-then _ (take_string ts) _ (λ (str, rest). Keeps-itself script h)
  parse_style_stmt-IsKeeping (_ ∷ ts) script h = _

  pub parse_style_body-IsKeeping : (f : ℕ) → IsKeeping (parse_style_body {R = R} f)
  unfolding parse_style_body
  parse_style_body-IsKeeping f [] script h = _
  parse_style_body-IsKeeping f (t ∷ ts) script h =
      Gives-cond _ (is_open t) _ _
        (parse_stmts-IsKeeping parse_style_stmt f parse_style_stmt-IsKeeping ts script h)
        (Gives-bind _ _ (parse_style_stmt (t ∷ ts) script) _
          (parse_style_stmt-IsKeeping (t ∷ ts) script h) (λ (info, rest, script') kept. kept))

  pub define_style-Keeps :
      (style : Style) (script : Script R)
      → HasTables script
      → Gives (Keeps script) (define_style style script)
  unfolding define_style
  define_style-Keeps style script (styles, macros) =
      elim (Bool-cases (has_name script.styles style.name)) [
        | inl there ↦ rw (define_style, there) _
        | inr fresh ↦
            rw (define_style, fresh)
              (
                (put_name-IsTable script.styles style.name style styles, macros),
                put_name-KeepsNames script.styles style.name style styles fresh,
                (λ name v e. e),
                (λ r e. e),
                (λ r e. e),
              )
      ]

  pub define_macro-Keeps :
      (macro : Macro R) (script : Script R)
      → HasTables script
      → Gives (Keeps script) (define_macro macro script)
  unfolding define_macro
  define_macro-Keeps macro script (styles, macros) =
      elim (Bool-cases (has_name script.macros macro.name)) [
        | inl there ↦ rw (define_macro, there) _
        | inr fresh ↦
            rw (define_macro, fresh)
              (
                (styles, put_name-IsTable script.macros macro.name macro macros),
                (λ name v e. e),
                put_name-KeepsNames script.macros macro.name macro macros fresh,
                (λ r e. e),
                (λ r e. e),
              )
      ]

  pub define_prepend-Keeps :
      (rule : Rule R) (script : Script R)
      → HasTables script
      → Gives (Keeps script) (define_prepend rule script)
  unfolding define_prepend
  define_prepend-Keeps rule script h = defined script.prepend_rule refl
    where
      defined :
          (o : Option (Rule R))
          → script.prepend_rule ≡ o
          → Gives
              (Keeps script)
              (elim o [ some old ↦ died | none ↦ ok (record script { prepend_rule = some rule }) ])
      defined (some old) e = _
      defined none e = (
        h,
        (λ name v e'. e'),
        (λ name v e'. e'),
        (λ r e'. absurd (none-ne-some r (sym e ∙ e'))),
        (λ r e'. e'),
      )

  pub define_append-Keeps :
      (rule : Rule R) (script : Script R)
      → HasTables script
      → Gives (Keeps script) (define_append rule script)
  unfolding define_append
  define_append-Keeps rule script h = defined script.append_rule refl
    where
      defined :
          (o : Option (Rule R))
          → script.append_rule ≡ o
          → Gives
              (Keeps script)
              (elim o [ some old ↦ died | none ↦ ok (record script { append_rule = some rule }) ])
      defined (some old) e = _
      defined none e = (
        h,
        (λ name v e'. e'),
        (λ name v e'. e'),
        (λ r e'. e'),
        (λ r e'. absurd (none-ne-some r (sym e ∙ e'))),
      )

-- parse_script starts with such tables.
pub new_script-HasTables : (R : Type 0) → HasTables (new_script {R = R})
unfolding new_script
new_script-HasTables R = (
  Reached-IsPlaced (List ℕ) Style strhash same_name same_name-key _ reached_new,
  Reached-IsPlaced (List ℕ) (Macro R) strhash same_name same_name-key _ reached_new,
)
