-- ===== src/Lexer/Lexemes.antt =====
-- The tokens of src/lexer.l, and how a script writes them.
use regex_markup.Common.{
  ℕ, ◌<◌, ◌≤◌, ◌≢◌, List, [], ◌∷◌, ◌++◌, Bool, true, false, ◌||◌, ◌==◌, if◌then◌else◌, length,
}
use regex_markup.Match.{RegexFlags}
use regex_markup.IntUtil.{parse_int}
use regex_markup.Lexer.{
  Token, brace_open, brace_close, comma, string_token, match_token, subst_token, number_token,
  macro_word, style_word, skip_word, break_word, prepend_word, append_word, include_word, set_word,
  newline, backslash, quotation_mark,
}

-- A part of a script: a token, or a substitution, whose two expressions share a slash.
pub data Lexeme : Type 0 where
  open_lexeme close_lexeme comma_lexeme : Lexeme
  macro_lexeme style_lexeme skip_lexeme break_lexeme : Lexeme
  prepend_lexeme append_lexeme include_lexeme set_lexeme : Lexeme
  string_lexeme : List ℕ → Lexeme
  match_lexeme : List ℕ → RegexFlags → Lexeme
  subst_lexeme : (match repl : List ℕ) → RegexFlags → Lexeme
  number_lexeme : List ℕ → Lexeme

-- A backslash in front of quotation marks and backslashes.
abbrev pub quote : List ℕ → List ℕ
quote [] = []
quote (c ∷ s) =
    if c == quotation_mark || c == backslash then backslash ∷ c ∷ quote s else c ∷ quote s

abbrev pub flag_text : RegexFlags → List ℕ
flag_text flags =
    (if flags.global then b'g' ∷ [] else []) ++ (if flags.ignore_case then b'i' ∷ [] else [])

-- Without the space behind.
abbrev pub lexeme_text : Lexeme → List ℕ
lexeme_text open_lexeme = b'{' ∷ []
lexeme_text close_lexeme = b'}' ∷ []
lexeme_text comma_lexeme = b',' ∷ []
lexeme_text macro_lexeme = b'm' ∷ b'a' ∷ b'c' ∷ b'r' ∷ b'o' ∷ []
lexeme_text style_lexeme = b's' ∷ b't' ∷ b'y' ∷ b'l' ∷ b'e' ∷ []
lexeme_text skip_lexeme = b's' ∷ b'k' ∷ b'i' ∷ b'p' ∷ []
lexeme_text break_lexeme = b'b' ∷ b'r' ∷ b'e' ∷ b'a' ∷ b'k' ∷ []
lexeme_text prepend_lexeme = b'p' ∷ b'r' ∷ b'e' ∷ []
lexeme_text append_lexeme = b'p' ∷ b'o' ∷ b's' ∷ b't' ∷ []
lexeme_text include_lexeme = b'i' ∷ b'n' ∷ b'c' ∷ b'l' ∷ b'u' ∷ b'd' ∷ b'e' ∷ []
lexeme_text set_lexeme = b's' ∷ b'e' ∷ b't' ∷ []
lexeme_text (string_lexeme s) = quotation_mark ∷ (quote s ++ (quotation_mark ∷ []))
lexeme_text (match_lexeme re flags) = b'/' ∷ (re ++ (b'/' ∷ flag_text flags))
lexeme_text (subst_lexeme match repl flags) =
    b's' ∷ b'/' ∷ (match ++ (b'/' ∷ (repl ++ (b'/' ∷ flag_text flags))))
lexeme_text (number_lexeme ds) = ds

abbrev pub script_text : List Lexeme → List ℕ
script_text [] = []
script_text (l ∷ ls) = lexeme_text l ++ (b' ' ∷ script_text ls)

unfoldable pub lexeme_tokens : Lexeme → List Token
unfolding parse_int
lexeme_tokens open_lexeme = brace_open ∷ []
lexeme_tokens close_lexeme = brace_close ∷ []
lexeme_tokens comma_lexeme = comma ∷ []
lexeme_tokens macro_lexeme = macro_word ∷ []
lexeme_tokens style_lexeme = style_word ∷ []
lexeme_tokens skip_lexeme = skip_word ∷ []
lexeme_tokens break_lexeme = break_word ∷ []
lexeme_tokens prepend_lexeme = prepend_word ∷ []
lexeme_tokens append_lexeme = append_word ∷ []
lexeme_tokens include_lexeme = include_word ∷ []
lexeme_tokens set_lexeme = set_word ∷ []
lexeme_tokens (string_lexeme s) = string_token s ∷ []
lexeme_tokens (match_lexeme re flags) = match_token re flags ∷ []
lexeme_tokens (subst_lexeme match repl flags) = subst_token match ∷ match_token repl flags ∷ []
lexeme_tokens (number_lexeme ds) = number_token (parse_int 32 ds) ∷ []

abbrev pub script_tokens : List Lexeme → List Token
script_tokens [] = []
script_tokens (l ∷ ls) = lexeme_tokens l ++ script_tokens ls

-- No slash but behind a backslash, no newline behind one, and no backslash at the end.
abbrev pub IsClosed : (escaped : Bool) → List ℕ → Type 0
IsClosed true [] = ⊥
IsClosed false [] = Unit {0}
IsClosed true (c ∷ s) = (c ≢ newline) × IsClosed false s
IsClosed false (c ∷ s) = (c ≢ b'/') × IsClosed (c == backslash) s

abbrev pub AllDigits : List ℕ → Type 0
AllDigits [] = Unit {0}
AllDigits (c ∷ ds) = ((b'0' ≤ c) × (c ≤ b'9')) × AllDigits ds

abbrev pub IsWritable : Lexeme → Type 0
IsWritable (match_lexeme re flags) = IsClosed false re
IsWritable (subst_lexeme match repl flags) = IsClosed false match × IsClosed false repl
IsWritable (number_lexeme ds) = AllDigits ds × (0 < length ds)
IsWritable _ = Unit {0}

abbrev pub AllWritable : List Lexeme → Type 0
AllWritable [] = Unit {0}
AllWritable (l ∷ ls) = IsWritable l × AllWritable ls
