-- ===== src/Tests/Parser.antt =====
-- src/parser.y at a small script.
use regex_markup.Common.{
  ℕ, ◌≡◌, refl, List, [], ◌∷◌, Option, none, some, false, if◌then◌else◌, arith,
}
use regex_markup.Match.{RegexFlags}
use regex_markup.IntUtil.{parse_int, parse_digits, digit}
use regex_markup.Wrap.{same_string}
use regex_markup.Execute.{Result, ok, died, ◌>>=◌}
use regex_markup.Lexer.{Token}
use regex_markup.Lexer.Lexemes.{script_text, script_tokens, AllWritable}
use regex_markup.Rule.{Rule}
use regex_markup.Script.{Script, new_script}
use regex_markup.Parser.{parse_input}
use regex_markup.Parser.Syntax.{
  include_stmt, Decl, style_decl, macro_decl, stmt_decl, style_block, pre_stmt, post_stmt,
  regex_item, number_item, single, block, end_stmts, then_stmt, name_stmt, skip_stmt, match_stmt,
  decls_text, DeclsFit,
}
use regex_markup.Parser.Meaning.{decls_meaning}
use regex_markup.Parser.Include.{
  include_script, Opened, opened, missing, try_open, find_file, parse_script, parse_text,
}
use regex_markup.Parser.Results.{Ends, Any}
use regex_markup.Parser.Decls.{parse_input-decls}
use regex_markup.Regex.{RegexLib, spec}
use regex_markup.Execute.{State}
use regex_markup.Parser.Inline.{run_on, and_then, include-in_place}
use regex_markup.Parser.RoundTrip.{
  include_script-decls, parse_script-decls, remark_script, with_file,
}
use regex_markup.Parser.Ends.{parse_text-Ends}
use regex_markup.Parser.Kept.{Gives, Included, new_script-HasTables}
use regex_markup.Parser.Definitions.{include_script-Keeps}

-- Every expression compiles, to its own text.
abbrev compile : List ℕ → RegexFlags → Option (List ℕ)
compile re flags = some re

abbrev stale : List Token → ℕ
stale ts = 0

abbrev no_flags : RegexFlags
no_flags = record { global = false; ignore_case = false }

abbrev red : List ℕ
red = b'r' ∷ b'e' ∷ b'd' ∷ []

-- style "red" { pre "<" post ">" } macro "m" { skip } /a/ , 0 "red" "m"
abbrev decls : List Decl
decls =
    style_decl red (style_block (pre_stmt (b'<' ∷ []) ∷ post_stmt (b'>' ∷ []) ∷ []))
    ∷ macro_decl (b'm' ∷ []) (block (then_stmt skip_stmt end_stmts))
    ∷ stmt_decl (
        match_stmt (regex_item (b'a' ∷ []) no_flags) (number_item (b'0' ∷ []) 0 ∷ [])
          (single (name_stmt red)))
    ∷ stmt_decl (name_stmt (b'm' ∷ []))
    ∷ []

zero_digit : parse_int 32 (b'0' ∷ []) ≡ some 0
unfolding parse_int parse_digits digit
zero_digit = refl

decls-DeclsFit : DeclsFit decls
decls-DeclsFit = (tt, ((tt, tt), ((tt, (zero_digit, tt), tt), (tt, tt))))

abbrev no_include : List ℕ → Script (List ℕ) → Result (Rule (List ℕ) × Script (List ℕ))
no_include name script = died

parse_input-decls_example :
    parse_input compile stale no_include 20 (script_tokens (decls_text decls)) new_script
    ≡ decls_meaning compile stale no_include decls new_script
parse_input-decls_example =
    parse_input-decls compile stale no_include 20 decls new_script (omega arith) decls-DeclsFit

free : {A : Type 0} → A → Unit {0} × A
free a = (tt, a)

decls-AllWritable : AllWritable (decls_text decls)
decls-AllWritable = free (
    free (
      free (
        free (
          free (
            free (
              free (
                free (
                  free (
                    free (
                      free (
                        free (
                          free (
                            (
                              ((λ e. omega arith), tt),
                              (
                                tt,
                                ((((omega arith, omega arith), tt), omega arith), (tt, (tt, tt))),
                              ),
                            ))))))))))))))

parse_text-Ends_example : Ends Any (parse_text compile stale no_include (b'"' ∷ []) new_script)
parse_text-Ends_example =
    parse_text-Ends compile stale no_include (λ name script. tt) (b'"' ∷ []) new_script

-- The one file that there is.
abbrev open_file : List ℕ → Opened
open_file name = if same_string name red then opened (script_text (decls_text decls)) else missing

found :
    find_file compile stale open_file (λ name. b'.' ∷ []) none [] [] none red
    ≡ ok (script_text (decls_text decls))
unfolding find_file try_open
found = refl

parse_script-decls_example :
    parse_script compile stale open_file (λ name. b'.' ∷ []) none [] [] 1 (some red) ≡ (
      decls_meaning compile stale
        (with_file compile stale open_file (λ name. b'.' ∷ []) none [] [] 0 (some (b'.' ∷ [])))
        decls
        new_script
      >>= remark_script compile stale open_file (λ name. b'.' ∷ []) none [] [])
parse_script-decls_example =
    parse_script-decls compile stale open_file (λ name. b'.' ∷ []) none [] [] 0 red decls found
      decls-AllWritable decls-DeclsFit

include_script-Keeps_example :
    Gives
      (Included new_script)
      (include_script compile stale open_file (λ name. b'.' ∷ []) none [] [] 1 none red new_script)
include_script-Keeps_example =
    include_script-Keeps compile stale open_file (λ name. b'.' ∷ []) none [] [] 1 none red
      new_script (new_script-HasTables (List ℕ))

-- A file that includes it.
abbrev quiet_lib : RegexLib
quiet_lib = record { Regex = List ℕ; regexec = λ re s. none }

abbrev line : State
line = record { text = b'a' ∷ []; styles = []; frames = (spec 0 1 ∷ []) ∷ [] }

abbrev files :
    ℕ → Option (List ℕ) → List ℕ → Script (List ℕ) → Result (Rule (List ℕ) × Script (List ℕ))
files = with_file compile stale open_file (λ name. b'.' ∷ []) none [] []

include-in_place_example :
    (decls_meaning compile stale
        (files 1 none)
        (stmt_decl (include_stmt red) ∷ stmt_decl (name_stmt red) ∷ [])
        new_script
      >>= run_on quiet_lib 5 line)
    ≡ (decls_meaning compile stale (files 0 (some (b'.' ∷ []))) decls new_script
        >>= and_then quiet_lib 5 compile stale
            (files 1 none)
            (files 0 (some (b'.' ∷ [])))
            (stmt_decl (name_stmt red) ∷ [])
        >>= run_on quiet_lib 5 line)
include-in_place_example =
    include-in_place quiet_lib 5 compile stale (files 1 none) (files 0 (some (b'.' ∷ []))) red decls
      (stmt_decl (name_stmt red) ∷ []) new_script line
      (include_script-decls compile stale open_file (λ name. b'.' ∷ []) none [] [] 0 none red decls
        new_script found decls-AllWritable decls-DeclsFit)
