-- ===== src/Tests/Execute.antt =====
-- src/execute.c with regular expressions that are one character, or that match the empty string.
use regex_markup.Common.{
  ℕ, suc, ◌+◌, ◌<◌, ◌⊎◌, i32, inl, inr, Bool-cases, length, subst, ◌≡◌, refl, sym, ap, List, [],
  ◌∷◌, Option, Bool, none, some, true, false, arith, ◌==◌, if◌then◌else◌,
}
use regex_markup.Regex.{RegexLib, SubmatchSpec, spec, xregexec_substring}
use regex_markup.Match.{RegexFlags, regex, subex}
use regex_markup.Expand.{expand_substitution}
use regex_markup.Expand.Escaped.{escape, expand_substitution-escape}
use regex_markup.Rule.{
  action_break, ActionType, rule_style, then_rule, Rule, rule_match, rule_multi, rule_action,
  end_rules,
}
use regex_markup.Positions.Placed.{difference}
use regex_markup.Execute.{ok, died, State, out_of_fuel, execute_any_rule, replace_and_update}
use regex_markup.Execute.Placed.{Placed, replace_and_update-Placed}
use regex_markup.Style.{Style}
use regex_markup.Execute.Styling.{
  OnlyStyles, AllOnlyStyles, Proper, Styled, styling, execute_any_rule-Styled,
}
use regex_markup.Match.Found.{
  ReportsOffsets, Advances, IsFound, IsMatch, xregexec_substring-IsMatch,
}
use regex_markup.Match.{whole_match}
use regex_markup.Execute.Loops.{Marked}
use regex_markup.Execute.Marking.{MarksOnly, AllMarkOnly}
use regex_markup.Execute.Named.{names_exist, all_exist, ReportsSubexpressions}
use regex_markup.Execute.Ends.{execute_any_rule-Marked}
use regex_markup.Execute.Endless.{execute_any_rule-endless}

abbrev find : ℕ → ℕ → List ℕ → Option (List SubmatchSpec)
find c at [] = none
find c at (d ∷ s) = if c == d then some (spec at (suc at) ∷ []) else find c (suc at) s

abbrev char_lib : RegexLib
char_lib = record { Regex = ℕ; regexec = λ c s. find c 0 s }

abbrev empty_lib : RegexLib
empty_lib = record { Regex = ℕ; regexec = λ c s. some (spec 0 0 ∷ []) }

abbrev global : RegexFlags
global = record { global = true; ignore_case = false }

-- "a-b", matched as a whole and at "-".
abbrev line : State
line = record {
  text = b'a' ∷ b'-' ∷ b'b' ∷ [];
  styles = [];
  frames = (spec 1 2 ∷ []) ∷ (spec 0 3 ∷ []) ∷ [];
}

line-Placed : Placed line
line-Placed = (((omega arith, omega arith, tt), ((omega arith, omega arith, tt), tt)), refl, tt)

replace_and_update-Placed_example :
    Placed (replace_and_update line 1 2 1 (difference 2 1 2) (b'+' ∷ b'+' ∷ []))
replace_and_update-Placed_example =
    replace_and_update-Placed line 1 2 1 (b'+' ∷ b'+' ∷ []) line-Placed
      (record { in_order = omega arith; inside = omega arith; small = omega arith }) (omega arith)

execute_any_rule-endless_example :
    execute_any_rule empty_lib 9 (rule_match (regex 0 global ∷ []) (rule_multi end_rules)) line
    ≡ out_of_fuel
execute_any_rule-endless_example =
    execute_any_rule-endless empty_lib 0 global refl (λ s. refl) 9 line (omega arith)

expand_substitution-escape_example :
    expand_substitution line.text (spec 0 3 ∷ []) (spec 1 2 ∷ []) (escape (b'$' ∷ b'&' ∷ []))
    ≡ some (b'$' ∷ b'&' ∷ [])
expand_substitution-escape_example =
    expand_substitution-escape line.text (spec 0 3 ∷ []) (spec 1 2 ∷ []) (b'$' ∷ b'&' ∷ [])

abbrev named : ℕ → Style
named n = record { name = n ∷ []; pre_string = []; post_string = []; refs = 1 }

abbrev block : Rule ℕ
block = rule_multi (
    then_rule (rule_style (named 1))
      (then_rule (rule_action action_break) (then_rule (rule_style (named 2)) end_rules)))

block-OnlyStyles : OnlyStyles block
unfolding OnlyStyles AllOnlyStyles
block-OnlyStyles = (tt, (tt, (tt, tt)))

line-Proper : Proper line
line-Proper = (tt, omega arith)

execute_any_rule-Styled_example :
    (st' : State) × (execute_any_rule char_lib 0 block line ≡ ok ((styling block).0, st'))
    × Styled (styling block).1 line st'
execute_any_rule-Styled_example =
    execute_any_rule-Styled char_lib 0 block line block-OnlyStyles line-Proper

-- What is found lies in the string, and is a character.
abbrev IsCharIn : ℕ → Option (List SubmatchSpec) → Type 0
IsCharIn n none = Unit {0}
IsCharIn n (some found) = IsFound n found × ((whole_match found).so < (whole_match found).eo)

find-IsCharIn : (c at n : ℕ) (s : List ℕ) → at + length s ≡ n → IsCharIn n (find c at s)
find-IsCharIn c at n [] e = tt
find-IsCharIn c at n (d ∷ s) e = elim (Bool-cases (c == d)) [
  | inl same ↦ rw same ((omega arith, omega arith, tt), omega arith)
  | inr other ↦ rw other (find-IsCharIn c (suc at) n s (omega arith))
]

found-IsCharIn :
    (c : ℕ) (s : List ℕ) (found : List SubmatchSpec)
    → find c 0 s ≡ some found
    → IsCharIn (length s) (some found)
found-IsCharIn c s found e =
    subst (IsCharIn (length s)) e (find-IsCharIn c 0 (length s) s (omega arith))

char_lib-ReportsOffsets : ReportsOffsets char_lib
char_lib-ReportsOffsets = record { within = λ c s found e. (found-IsCharIn c s found e).0 }

char_lib-Advances : (c : ℕ) → Advances char_lib c
char_lib-Advances c = record { longer = λ s found e. (found-IsCharIn c s found e).1 }

find-length :
    (c at : ℕ) (s : List ℕ) (found : List SubmatchSpec)
    → find c at s ≡ some found
    → length found ≡ 1
find-length c at [] found = λ e. absurd (ground arith)
find-length c at (d ∷ s) found = go (c == d) (find-length c (suc at) s found)
  where
    go :
        (b : Bool)
        → (find c (suc at) s ≡ some found → length found ≡ 1)
        → (if b then some (spec at (suc at) ∷ []) else find c (suc at) s) ≡ some found
        → length found ≡ 1
    go true later e =
        ap length
          (sym (ap (λ (o : Option (List SubmatchSpec)). elim o [ none ↦ [] | some ms ↦ ms ]) e))
    go false later e = later e

char_lib-ReportsSubexpressions : ReportsSubexpressions char_lib (λ c. 1)
char_lib-ReportsSubexpressions = record { counted = λ c s found e. find-length c 0 s found e }

-- Each "-" of the match is marked, as the subexpression 0 of its match.
abbrev mark : Rule ℕ
mark = rule_match (regex b'-' global ∷ []) (rule_match (subex 0 ∷ []) block)

-- A subexpression 1, which there is not.
unknown :
    names_exist (λ c. 1) 1 (rule_match (regex b'-' global ∷ []) (rule_match (subex 1 ∷ []) block))
    ≡ false
unfolding names_exist all_exist
unknown = refl

mark-MarksOnly : MarksOnly char_lib mark
unfolding MarksOnly AllMarkOnly
mark-MarksOnly = (((λ is_global. char_lib-Advances b'-'), tt), ((tt, tt), (tt, (tt, (tt, tt)))))

execute_any_rule-Marked_example :
    ((execute_any_rule char_lib 5 mark line ≡ died) × (names_exist (λ c. 1) 1 mark ≡ false))
    ⊎ ((action : ActionType) × (st' : State) × (execute_any_rule char_lib 5 mark line
          ≡ ok (action, st'))
        × Marked line st')
execute_any_rule-Marked_example =
    execute_any_rule-Marked char_lib char_lib-ReportsOffsets (λ c. 1) char_lib-ReportsSubexpressions
      mark line 5 mark-MarksOnly tt (omega arith, omega arith, tt) (omega arith) (omega arith)

small_line : length line.text < i32
small_line = omega arith

xregexec_substring-IsMatch_example :
    (xregexec_substring char_lib b'-' line.text 1 3 ≡ none)
    ⊎ ((found : List SubmatchSpec) × (xregexec_substring char_lib b'-' line.text 1 3 ≡ some found)
        × IsMatch char_lib char_lib-ReportsOffsets b'-' line.text 1 3
            (omega arith)
            (omega arith)
            small_line
            found)
xregexec_substring-IsMatch_example =
    xregexec_substring-IsMatch char_lib char_lib-ReportsOffsets b'-' line.text 1 3 (omega arith)
      (omega arith) small_line
