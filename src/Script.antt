-- ===== src/Script.antt =====
-- src/parser.y, what the actions of its grammar do to a script: tables of styles and macros by their
-- names, and the two rules for the strings around pieces. `died` is script_die.
pub mod Names
use regex_markup.Common.{ℕ, List, Option, none, some, Bool, false, if◌then◌else◌}
use regex_markup.Style.{Style}
use regex_markup.HMap.{HMap, strhash, hmap_new, hmap_get, hmap_contains_key, hmap_put}
use regex_markup.Wrap.{same_string}
use regex_markup.Rule.{Rule, rule_macro, rule_style}
use regex_markup.Execute.{Result, ok, died}

pub record Macro (R : Type 0) : Type 0 where
  pub name : List ℕ
  pub rule : Rule R

pub record Script (R : Type 0) : Type 0 where
  pub styles : HMap (List ℕ) Style
  pub macros : HMap (List ℕ) (Macro R)
  pub prepend_rule : Option (Rule R)
  pub append_rule : Option (Rule R)

-- strcmp on the keys.
abbrev pub same_name : List ℕ → Option (List ℕ) → Bool
same_name key none = false
same_name key (some other) = same_string key other

-- The functions of a table, for names.
abbrev pub get_name : {V : Type 0} → HMap (List ℕ) V → List ℕ → Option V
get_name {V} m name = hmap_get (List ℕ) V strhash same_name m (some name)

abbrev pub has_name : {V : Type 0} → HMap (List ℕ) V → List ℕ → Bool
has_name {V} m name = hmap_contains_key (List ℕ) V strhash same_name m (some name)

abbrev pub put_name : {V : Type 0} → HMap (List ℕ) V → List ℕ → V → HMap (List ℕ) V
put_name {V} m name value = (hmap_put (List ℕ) V strhash same_name m (some name) value).1

unfoldable pub new_script : {R : Type 0} → Script R
unfolding hmap_new
new_script {R} = record {
  styles = hmap_new (List ℕ) Style strhash same_name;
  macros = hmap_new (List ℕ) (Macro R) strhash same_name;
  prepend_rule = none;
  append_rule = none;
}

module _ {R : Type 0} where
  unfoldable pub define_style : Style → Script R → Result (Script R)
  unfolding hmap_contains_key hmap_put
  define_style style script =
      if has_name script.styles style.name
      then died
      else ok (record script { styles = put_name script.styles style.name style })

  unfoldable pub define_macro : Macro R → Script R → Result (Script R)
  unfolding hmap_contains_key hmap_put
  define_macro macro script =
      if has_name script.macros macro.name
      then died
      else ok (record script { macros = put_name script.macros macro.name macro })

  unfoldable pub define_prepend : Rule R → Script R → Result (Script R)
  define_prepend rule script = elim script.prepend_rule [
    | some old ↦ died
    | none ↦ ok (record script { prepend_rule = some rule })
  ]

  unfoldable pub define_append : Rule R → Script R → Result (Script R)
  define_append rule script = elim script.append_rule [
    | some old ↦ died
    | none ↦ ok (record script { append_rule = some rule })
  ]

  -- A name as a statement: a macro before a style.
  unfoldable pub name_rule : List ℕ → Script R → Result (Rule R)
  unfolding hmap_get
  name_rule name script = elim (get_name script.macros name) [
    | some macro ↦ ok (rule_macro macro.rule)
    | none ↦ elim (get_name script.styles name) [ some style ↦ ok (rule_style style) | none ↦ died ]
  ]
