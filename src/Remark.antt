-- ===== src/Remark.antt =====
-- src/remark.c, and execute_script of src/execute.c: a line goes through the rules of a script and is
-- wrapped. What a line prints is a result; the buffers go on to the next line. The options come from
-- getopt_long, the lines from getline.
pub mod Lines
use regex_markup.Common.{
  ℕ, ◌+◌, ◌-◌, List, [], ◌∷◌, ◌++◌, Option, none, some, Bool, true, false, leb, if◌then◌else◌,
  length, wrap32, add32, i32,
}
use regex_markup.Regex.{RegexLib}
use regex_markup.Rule.{Rule}
use regex_markup.IntUtil.{parse_uint}
use regex_markup.StringUtils.{chomp}
use regex_markup.Wrap.{
  WrapperType, wrapper_char, WrapSettings, is_none, wrap_width_max, identify_wrapper, apply_styles,
}
use regex_markup.Wrap.Line.{WrapOptions, wrap_line}
use regex_markup.Execute.{MatchBuffer, Result, ok, died, ◌>>=◌, from_option, execute_rule}

-- The variables of the two files that the options set.
pub record Settings : Type 0 where
  pub wrap : WrapSettings
  pub wrap_retain : ℕ
  pub prepend_string : List ℕ
  pub append_string : List ℕ

-- An option and its argument; opt_exit is one that ends the program.
pub data Opt : Type 0 where
  opt_prepend opt_append opt_retain opt_width opt_wrap : List ℕ → Opt
  opt_exit : Opt

-- `none` where the program ends.
unfoldable pub set_option : Opt → Settings → Option Settings
unfolding parse_uint identify_wrapper
set_option (opt_prepend str) s = some (record s { prepend_string = str })
set_option (opt_append str) s = some (record s { append_string = str })
set_option (opt_retain str) s = elim (parse_uint 32 str) [
  | none ↦ none
  | some n ↦ some (record s { wrap_retain = n })
]
set_option (opt_width str) s = elim (parse_uint 32 str) [
  | none ↦ none
  | some n ↦ some (record s { wrap = record s.wrap { wrap_width = n } })
]
set_option (opt_wrap str) s =
    let (known, wrap) = identify_wrapper str s.wrap in
    if known then some (record s { wrap = wrap }) else none
set_option opt_exit s = none

-- `if (wrapper == 0) wrapper = WRAPPER_CHAR`, and the test of the lengths.
unfoldable pub check_settings : Settings → Option Settings
check_settings s =
    let wrap =
      if is_none s.wrap.wrapper then record s.wrap { wrapper = wrapper_char } else s.wrap in
    if leb wrap.wrap_width
      (add32 (add32 s.wrap_retain (length s.append_string)) (length s.prepend_string))
    then none
    else some (record s { wrap = wrap })

unfoldable pub set_options : List Opt → Settings → Option Settings
unfolding set_option check_settings
set_options [] s = check_settings s
set_options (opt ∷ opts) s = elim (set_option opt s) [ none ↦ none | some s' ↦ set_options opts s' ]

pub record RemarkScript (R : Type 0) : Type 0 where
  pub prepend_rule : Option (Rule R)
  pub append_rule : Option (Rule R)
  pub rule : Option (Rule R)

pub record RemarkInput : Type 0 where
  pub mb : MatchBuffer
  pub append_mb : MatchBuffer
  pub prepend_mb : MatchBuffer

unfoldable pub init_match_buffer : MatchBuffer
init_match_buffer = record { text = []; bufferlen = 0; styles = [] }

unfoldable pub init_input : RemarkInput
unfolding init_match_buffer
init_input = record {
  mb = init_match_buffer;
  append_mb = init_match_buffer;
  prepend_mb = init_match_buffer;
}

-- strbuf_set, and the length.
unfoldable pub set_buffer : MatchBuffer → List ℕ → MatchBuffer
set_buffer mb str = record mb { text = str; bufferlen = wrap32 (length str) }

abbrev pub wrap_options : Settings → (append_mb prepend_mb : MatchBuffer) → WrapOptions
wrap_options settings append_mb prepend_mb = record {
  wrap_width = settings.wrap.wrap_width;
  wrap_retain = settings.wrap_retain;
  wrapper = settings.wrap.wrapper;
  prestr = prepend_mb.text;
  appstr = append_mb.text;
  prelen = prepend_mb.bufferlen;
  applen = append_mb.bufferlen;
}

-- What is printed, and the buffers.
abbrev pub printed : Bool × RemarkInput → List ℕ × RemarkInput
printed (true, input) = (input.mb.text, input)
printed (false, input) = ([], input)

module _ (lib : RegexLib) (fuel : ℕ) (settings : Settings) where
  open lib use {Regex}

  -- The rule of one of the two strings that are put around pieces, whose styles are written into it.
  unfoldable pub execute_around : Option (Rule Regex) → MatchBuffer → Result MatchBuffer
  unfolding execute_rule apply_styles
  execute_around none mb = ok mb
  execute_around (some rule) mb = execute_rule lib fuel rule mb >>= λ (kept, mb').
      ok (record mb' { text = apply_styles mb'.styles mb'.text (i32 - 1); styles = [] })

  -- What follows the rule of the script, if that did not skip the line.
  unfoldable pub finish_script :
      RemarkScript Regex → (mb : MatchBuffer) → RemarkInput → Result (Bool × RemarkInput)
  unfolding execute_around wrap_line
  finish_script script mb input = execute_around script.append_rule input.append_mb >>= λ append_mb.
      execute_around script.prepend_rule input.prepend_mb >>= λ prepend_mb.
      from_option
        (wrap_line fuel (wrap_options settings append_mb prepend_mb) mb.styles mb.text mb.bufferlen)
      >>= λ text. ok (
        true,
        record {
          mb = record mb { text = text; styles = [] };
          append_mb = append_mb;
          prepend_mb = prepend_mb;
        },
      )

  unfoldable pub main_rule : Option (Rule Regex) → MatchBuffer → Result (Bool × MatchBuffer)
  unfolding execute_rule
  main_rule none mb = ok (true, mb)
  main_rule (some rule) mb = execute_rule lib fuel rule mb

  unfoldable pub execute_script : RemarkScript Regex → RemarkInput → Result (Bool × RemarkInput)
  unfolding main_rule finish_script
  execute_script script input = main_rule script.rule input.mb >>= λ (kept, mb). elim kept [
    | true ↦ finish_script script mb input
    | false ↦ ok (false, record input { mb = mb })
  ]

  unfoldable pub try_line :
      RemarkScript Regex → RemarkInput → List ℕ → Result (List ℕ × RemarkInput)
  unfolding execute_script set_buffer
  try_line script input text =
      execute_script script (record {
        mb = set_buffer input.mb text;
        append_mb = set_buffer input.append_mb settings.append_string;
        prepend_mb = set_buffer input.prepend_mb settings.prepend_string;
      })
      >>= λ done. ok (printed done)

  -- The loop over the arguments behind the script.
  unfoldable pub try_arguments :
      RemarkScript Regex → RemarkInput → List (List ℕ) → Result (List ℕ × RemarkInput)
  unfolding try_line
  try_arguments script input [] = ok ([], input)
  try_arguments script input (text ∷ texts) = try_line script input text >>= λ (out, input').
      try_arguments script input' texts >>= λ (outs, input''). ok (out ++ outs, input'')

  -- The loop over the lines of standard input.
  unfoldable pub try_lines :
      RemarkScript Regex → RemarkInput → List (List ℕ) → Result (List ℕ × RemarkInput)
  unfolding try_line chomp
  try_lines script input [] = ok ([], input)
  try_lines script input (line ∷ lines) = try_line script input (chomp line) >>= λ (out, input').
      try_lines script input' lines >>= λ (outs, input''). ok (out ++ outs, input'')
