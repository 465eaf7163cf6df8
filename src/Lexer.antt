-- ===== src/Lexer.antt =====
-- src/lexer.l: the tokens of a script. Of the patterns that match, flex takes the one that matches
-- most characters, and the first of those; a character that none matches is echoed to the output.
pub mod Lexemes
pub mod Delimited
pub mod Fuel
pub mod RoundTrip
use regex_markup.Common.{
  ℕ, zero, suc, ◌+◌, List, [], ◌∷◌, ◌++◌, Option, none, some, Bool, true, false, not, ◌&&◌, ◌||◌,
  ◌==◌, leb, if◌then◌else◌, length, drop, reverse,
}
use mathlib.Core.Option.{map}
use regex_markup.Match.{RegexFlags}
use regex_markup.IntUtil.{parse_int}
use regex_markup.Wrap.{same_string}

-- The value of a number is `none` where parse_int32 leaves the variable as it was.
pub data Token : Type 0 where
  brace_open brace_close comma : Token
  string_token : List ℕ → Token
  match_token : List ℕ → RegexFlags → Token
  subst_token : List ℕ → Token
  number_token : Option ℕ → Token
  macro_word style_word skip_word break_word prepend_word append_word include_word set_word : Token

abbrev pub backslash : ℕ
backslash = 92

abbrev pub quotation_mark : ℕ
quotation_mark = 34

abbrev pub newline : ℕ
newline = 10

-- [[:space:]]
unfoldable pub is_space : ℕ → Bool
is_space c = c == b' ' || (leb 9 c && leb c 13)

-- [^[:space:],{}/\"]
unfoldable pub is_word_char : ℕ → Bool
unfolding is_space
is_word_char c =
    not (is_space c || c == b',' || c == b'{' || c == b'}' || c == b'/' || c == quotation_mark)

unfoldable pub span : (ℕ → Bool) → List ℕ → List ℕ × List ℕ
span test [] = ([], [])
span test (c ∷ s) = let rest = span test s in if test c then (c ∷ rest.0, rest.1) else ([], c ∷ s)

abbrev pub before : ℕ → Option (List ℕ × List ℕ) → Option (List ℕ × List ℕ)
before c none = none
before c (some (s, rest)) = some (c ∷ s, rest)

-- ESCSTR or ESCRE and the character that closes it: what is in front of that, and behind. After a
-- backslash, `.` is any character but a newline.
unfoldable pub until_close : (close : ℕ) → (escaped : Bool) → List ℕ → Option (List ℕ × List ℕ)
until_close close escaped [] = none
until_close close true (c ∷ s) =
    let rest = until_close close false s in if c == newline then none else before c rest
until_close close false (c ∷ s) =
    let rest = until_close close (c == backslash) s in
    if c == close then some ([], s) else before c rest

unfoldable pub escape_char : ℕ → ℕ
escape_char ch =
    if ch == b'a'
    then 7
    else if ch == b'b'
    then 8
    else if ch == b't'
    then 9
    else if ch == b'n'
    then 10
    else if ch == b'v'
    then 11
    else if ch == b'f'
    then 12
    else if ch == b'r'
    then 13
    else if ch == b'e' || ch == b'E'
    then 27
    else ch

abbrev pub is_last : List ℕ → Bool
is_last [] = true
is_last (c ∷ s) = false

-- The loop of fix_string, on what is left of yytext; `escaped` is behind a backslash.
unfoldable pub fix_loop : (retain : Bool) → (endchar : ℕ) → (escaped : Bool) → List ℕ → List ℕ
unfolding escape_char
fix_loop retain endchar escaped [] = []
fix_loop retain endchar true (ch ∷ s) =
    let rest = fix_loop retain endchar false s in
    if retain then backslash ∷ ch ∷ rest else escape_char ch ∷ rest
fix_loop retain endchar false (ch ∷ s) =
    let escape = ch == backslash && not (is_last s) in
    let rest = fix_loop retain endchar escape s in
    if ch == endchar then [] else if escape then rest else ch ∷ rest

unfoldable pub fix_string : (retain : Bool) → (skip_count endchar : ℕ) → List ℕ → List ℕ
unfolding fix_loop
fix_string retain skip_count endchar yytext =
    fix_loop retain endchar false (drop (1 + skip_count) yytext)

-- The loop of fix_reflags, from the end of yytext.
unfoldable pub reflags_loop : RegexFlags → List ℕ → RegexFlags
reflags_loop flags [] = flags
reflags_loop flags (c ∷ s) =
    let flags' : RegexFlags = record {
      global = flags.global || c == b'g';
      ignore_case = flags.ignore_case || c == b'i';
    } in
    let rest = reflags_loop flags' s in if c == b'/' then flags else rest

unfoldable pub fix_reflags : List ℕ → RegexFlags
unfolding reflags_loop
fix_reflags yytext = reflags_loop (record { global = false; ignore_case = false }) (reverse yytext)

unfoldable pub is_number : List ℕ → Bool
is_number [] = true
is_number (c ∷ s) = leb b'0' c && leb c b'9' && is_number s

-- The words that are no strings.
abbrev pub words : List (List ℕ × Token)
words =
    ((b'm' ∷ b'a' ∷ b'c' ∷ b'r' ∷ b'o' ∷ []), macro_word)
    ∷ ((b's' ∷ b't' ∷ b'y' ∷ b'l' ∷ b'e' ∷ []), style_word)
    ∷ ((b's' ∷ b'k' ∷ b'i' ∷ b'p' ∷ []), skip_word)
    ∷ ((b'b' ∷ b'r' ∷ b'e' ∷ b'a' ∷ b'k' ∷ []), break_word)
    ∷ ((b'p' ∷ b'r' ∷ b'e' ∷ []), prepend_word)
    ∷ ((b'p' ∷ b'r' ∷ b'e' ∷ b'p' ∷ b'e' ∷ b'n' ∷ b'd' ∷ []), prepend_word)
    ∷ ((b'p' ∷ b'o' ∷ b's' ∷ b't' ∷ []), append_word)
    ∷ ((b'a' ∷ b'p' ∷ b'p' ∷ b'e' ∷ b'n' ∷ b'd' ∷ []), append_word)
    ∷ ((b'i' ∷ b'n' ∷ b'c' ∷ b'l' ∷ b'u' ∷ b'd' ∷ b'e' ∷ []), include_word)
    ∷ ((b's' ∷ b'e' ∷ b't' ∷ []), set_word)
    ∷ []

unfoldable pub find_word : List (List ℕ × Token) → List ℕ → Token
find_word [] yytext = string_token yytext
find_word ((word, token) ∷ others) yytext =
    let rest = find_word others yytext in if same_string word yytext then token else rest

unfoldable pub word_token : List ℕ → Token
unfolding is_number find_word parse_int
word_token yytext =
    if is_number yytext then number_token (parse_int 32 yytext) else find_word words yytext

pub data Scanned : Type 0 where
  at_end : Scanned
  skipped : (rest : List ℕ) → Scanned
  echoed : ℕ → (rest : List ℕ) → Scanned
  found : Token → (rest : List ℕ) → Scanned

unfoldable pub scan_word : List ℕ → Scanned
unfolding span is_word_char word_token
scan_word s = let (yytext, rest) = span is_word_char s in found (word_token yytext) rest

-- `#[^\n]*\n`; without a newline behind it, `#` starts a word.
unfoldable pub scan_comment : List ℕ → Scanned
unfolding span scan_word
scan_comment s = elim (span (λ c. not (c == newline)) s).1 [
  | [] ↦ scan_word s
  | c ∷ rest ↦ skipped rest
]

unfoldable pub scan_quoted : List ℕ → Scanned
unfolding until_close fix_string
scan_quoted s = elim (until_close quotation_mark false s) [
  | none ↦ echoed quotation_mark s
  | some (text, rest) ↦
      found
        (string_token
          (fix_string false 0 quotation_mark (quotation_mark ∷ (text ++ (quotation_mark ∷ [])))))
        rest
]

abbrev pub is_flag : ℕ → Bool
is_flag c = c == b'i' || c == b'g'

unfoldable pub scan_match : List ℕ → Scanned
unfolding until_close fix_string fix_reflags span
scan_match s = elim (until_close b'/' false s) [
  | none ↦ echoed b'/' s
  | some (text, behind) ↦
      let (flags, rest) = span is_flag behind in
      let yytext : List ℕ = b'/' ∷ (text ++ (b'/' ∷ flags)) in
      found (match_token (fix_string true 0 b'/' yytext) (fix_reflags yytext)) rest
]

-- Behind an `s`. The last slash is put back.
unfoldable pub scan_subst : List ℕ → Scanned
unfolding until_close fix_string scan_word
scan_subst [] = scan_word (b's' ∷ [])
scan_subst (c ∷ s) =
    let subst : Scanned = elim (until_close b'/' false s) [
      | none ↦ scan_word (b's' ∷ c ∷ s)
      | some (text, rest) ↦
          found (subst_token (fix_string true 1 b'/' (b's' ∷ b'/' ∷ (text ++ (b'/' ∷ [])))))
            (b'/' ∷ rest)
    ] in
    if c == b'/' then subst else scan_word (b's' ∷ c ∷ s)

unfoldable pub scan : List ℕ → Scanned
unfolding is_space scan_comment scan_quoted scan_match scan_subst scan_word
scan [] = at_end
scan (c ∷ s) =
    if is_space c
    then skipped (span is_space s).1
    else if c == b'#'
    then scan_comment (c ∷ s)
    else if c == b'{'
    then found brace_open s
    else if c == b'}'
    then found brace_close s
    else if c == b','
    then found comma s
    else if c == quotation_mark
    then scan_quoted s
    else if c == b'/'
    then scan_match s
    else if c == b's'
    then scan_subst s
    else scan_word (c ∷ s)

abbrev pub echo_char : ℕ → List Token × List ℕ → List Token × List ℕ
echo_char c (tokens, echo) = (tokens, c ∷ echo)

abbrev pub add_token : Token → List Token × List ℕ → List Token × List ℕ
add_token token (tokens, echo) = (token ∷ tokens, echo)

-- What a match, or a character that none matches, adds to what is read from the rest.
abbrev pub lex_round :
    (List ℕ → Option (List Token × List ℕ)) → Scanned → Option (List Token × List ℕ)
lex_round lex_rest at_end = some ([], [])
lex_round lex_rest (skipped rest) = lex_rest rest
lex_round lex_rest (echoed c rest) = map (echo_char c) (lex_rest rest)
lex_round lex_rest (found token rest) = map (add_token token) (lex_rest rest)

-- The tokens of a file, and what is echoed.
unfoldable pub lex_loop : ℕ → List ℕ → Option (List Token × List ℕ)
unfolding scan
lex_loop zero s = none
lex_loop (suc f) s = lex_round (lex_loop f) (scan s)

unfoldable pub lex : List ℕ → Option (List Token × List ℕ)
unfolding lex_loop
lex s = lex_loop (suc (length s)) s
