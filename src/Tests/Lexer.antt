-- ===== src/Tests/Lexer.antt =====
-- src/lexer.l at small texts.
use regex_markup.Common.{ℕ, ◌≡◌, refl, List, [], ◌∷◌, some, true, false, arith}
use regex_markup.Match.{RegexFlags}
use regex_markup.Lexer.{
  Token, lex, scan, scan_word, scan_comment, scan_quoted, span, until_close, word_token, find_word,
  is_number, is_space, is_word_char, lex_loop, string_token,
}
use regex_markup.Lexer.Lexemes.{
  Lexeme, style_lexeme, string_lexeme, match_lexeme, subst_lexeme, number_lexeme, comma_lexeme,
  script_text, script_tokens, AllWritable,
}
use regex_markup.Lexer.Fuel.{lex-total}
use regex_markup.Lexer.RoundTrip.{lex-script_text}

abbrev global_flag : RegexFlags
global_flag = record { global = true; ignore_case = false }

-- style "a\"" /x\// , s/b/$0/g 7
abbrev lexemes : List Lexeme
lexemes =
    style_lexeme
    ∷ string_lexeme (b'a' ∷ b'"' ∷ [])
    ∷ match_lexeme (b'x' ∷ b'\\' ∷ b'/' ∷ []) (record { global = false; ignore_case = true })
    ∷ comma_lexeme
    ∷ subst_lexeme (b'b' ∷ []) (b'$' ∷ b'0' ∷ []) global_flag
    ∷ number_lexeme (b'7' ∷ [])
    ∷ []

lexemes-AllWritable : AllWritable lexemes
lexemes-AllWritable = (
  tt,
  (
    tt,
    (
      ((λ e. omega arith), ((λ e. omega arith), ((λ e. omega arith), tt))),
      (
        tt,
        (
          (((λ e. omega arith), tt), ((λ e. omega arith), ((λ e. omega arith), tt))),
          ((((omega arith, omega arith), tt), omega arith), tt),
        ),
      ),
    ),
  ),
)

lex-script_text_example : lex (script_text lexemes) ≡ some (script_tokens lexemes, [])
lex-script_text_example = lex-script_text lexemes lexemes-AllWritable

-- A comment at the end of a file, without a newline: its words are tokens.
abbrev comment : List ℕ
comment = b'#' ∷ b'a' ∷ b' ' ∷ b'b' ∷ []

comment_words :
    lex comment ≡ some (string_token (b'#' ∷ b'a' ∷ []) ∷ string_token (b'b' ∷ []) ∷ [], [])
unfolding lex_loop scan scan_comment scan_word span word_token find_word is_number is_word_char
    is_space lex
comment_words = refl

-- A string that is not closed: its quotation mark is echoed.
abbrev unclosed : List ℕ
unclosed = b'"' ∷ b'a' ∷ []

unclosed_echoed : lex unclosed ≡ some (string_token (b'a' ∷ []) ∷ [], b'"' ∷ [])
unfolding lex_loop scan scan_quoted until_close scan_word span word_token find_word is_number
    is_word_char is_space lex
unclosed_echoed = refl

lex-total_example : (r : List Token × List ℕ) × (lex unclosed ≡ some r)
lex-total_example = lex-total unclosed
