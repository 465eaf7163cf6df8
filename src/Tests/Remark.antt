-- ===== src/Tests/Remark.antt =====
-- src/remark.c and src/cacheline.c on small inputs.
use regex_markup.Common.{ℕ, ◌≡◌, refl, List, [], ◌∷◌, ◌++◌, map, none, some, true, arith}
use regex_markup.Cacheline.{newline, joined, held, put_lines, ends_newline, put_lines-joined}
use regex_markup.Style.{Style}
use regex_markup.Ranges.Covers.{covers, on_between}
use regex_markup.Regex.{RegexLib}
use regex_markup.Rule.{Rule, rule_multi, rule_style, rule_action, action_skip, then_rule, end_rules}
use regex_markup.Execute.{ok}
use regex_markup.Execute.Styling.{OnlyStyles, AllOnlyStyles, styling}
use regex_markup.Wrap.{wrapper_none, wrapper_char, wrap_width_max}
use regex_markup.Remark.{
  Settings, RemarkScript, RemarkInput, opt_wrap, opt_retain, opt_append, set_options, init_input,
  try_line, try_lines,
}
use regex_markup.Remark.Lines.{no_rules, try_lines-copy, try_line-skip}

put_lines-joined_example :
    ((put_lines true ((b'a' ∷ newline) ∷ (b'b' ∷ newline) ∷ [])).0
        ++ held (put_lines true ((b'a' ∷ newline) ∷ (b'b' ∷ newline) ∷ [])).1
      ≡ held true ++ joined ((b'a' ∷ newline) ∷ (b'b' ∷ newline) ∷ []))
    × ((put_lines true ((b'a' ∷ newline) ∷ (b'b' ∷ newline) ∷ [])).1
        ≡ ends_newline (held true ++ joined ((b'a' ∷ newline) ∷ (b'b' ∷ newline) ∷ [])))
put_lines-joined_example = put_lines-joined true ((b'a' ∷ newline) ∷ (b'b' ∷ newline) ∷ [])

abbrev plain : Settings
plain = record {
  wrap = record { wrap_width = wrap_width_max; wrapper = wrapper_none; wrapper_args = none };
  wrap_retain = 0;
  prepend_string = [];
  append_string = [];
}

abbrev char_settings : Settings
char_settings = record plain {
  wrap = record { wrap_width = wrap_width_max; wrapper = wrapper_char; wrapper_args = none };
}

-- The wrapper "none" that is asked for becomes "char".
none_is_char : set_options (opt_wrap (b'n' ∷ []) ∷ []) plain ≡ some char_settings
unfolding set_options
none_is_char = refl

-- The sum of the lengths goes round: 2 ^ 32 - 1 characters are retained, one is appended.
too_long :
    set_options
      (opt_retain (b'4' ∷ b'2' ∷ b'9' ∷ b'4' ∷ b'9' ∷ b'6' ∷ b'7' ∷ b'2' ∷ b'9' ∷ b'5' ∷ [])
        ∷ opt_append (b'+' ∷ [])
        ∷ [])
      plain
    ≡ some (record char_settings { wrap_retain = wrap_width_max; append_string = b'+' ∷ [] })
unfolding set_options
too_long = refl

abbrev no_lib : RegexLib
no_lib = record { Regex = ℕ; regexec = λ re s. none }

abbrev texts : List (List ℕ)
texts = (b'a' ∷ b'b' ∷ []) ∷ [] ∷ []

init_input-plain : init_input.mb.styles ≡ []
unfolding init_input
init_input-plain = refl

try_lines-copy_example :
    (input' : RemarkInput) × (try_lines no_lib 2 plain no_rules init_input (map (◌++ newline) texts)
      ≡ ok (joined (map (◌++ newline) texts), input'))
try_lines-copy_example =
    try_lines-copy no_lib 0 plain (omega arith) init_input texts init_input-plain
      ((omega arith, omega arith), ((omega arith, omega arith), tt))

abbrev mark : Style
mark = record { name = b'm' ∷ []; pre_string = b'<' ∷ []; post_string = b'>' ∷ []; refs = 1 }

abbrev skip_rule : Rule ℕ
skip_rule = rule_multi (then_rule (rule_style mark) (then_rule (rule_action action_skip) end_rules))

abbrev skip_script : RemarkScript ℕ
skip_script = record { prepend_rule = none; append_rule = none; rule = some skip_rule }

skip_rule-OnlyStyles : OnlyStyles skip_rule
unfolding OnlyStyles AllOnlyStyles
skip_rule-OnlyStyles = (tt, (tt, tt))

skip_rule-skips : (styling skip_rule).0 ≡ action_skip
unfolding styling
skip_rule-skips = refl

try_line-skip_example :
    (input' : RemarkInput) × (try_line no_lib 2 plain skip_script init_input (b'a' ∷ [])
      ≡ ok ([], input'))
    × ((i : ℕ)
        → covers i input'.mb.styles
          ≡ covers i init_input.mb.styles ++ on_between i 0 1 (styling skip_rule).1)
unfolding init_input
try_line-skip_example =
    try_line-skip no_lib 2 plain skip_script skip_rule init_input (b'a' ∷ []) refl
      skip_rule-OnlyStyles skip_rule-skips tt (omega arith)
