-- ===== src/Lexer/RoundTrip.antt =====
-- src/lexer.l: the lexer on a script that is written out from its lexemes.
use regex_markup.Common.{
  ℕ, suc, ◌<◌, ◌≤◌, ◌≡◌, refl, ap, ◌∙◌, List, [], ◌∷◌, ◌++◌, append_assoc, some, true, false, arith,
  length,
}
use regex_markup.Match.{RegexFlags}
use regex_markup.IntUtil.{parse_int}
use regex_markup.Lexer.{
  Token, string_token, match_token, subst_token, number_token, is_number, quotation_mark,
  is_word_char, is_space, span, fix_string, word_token, found, skipped, scan_word, scan_quoted,
  scan_match, scan_subst, scan, lex_loop, lex,
}
use regex_markup.Lexer.Lexemes.{
  Lexeme, open_lexeme, close_lexeme, comma_lexeme, macro_lexeme, style_lexeme, skip_lexeme,
  break_lexeme, prepend_lexeme, append_lexeme, include_lexeme, set_lexeme, string_lexeme,
  match_lexeme, subst_lexeme, number_lexeme, quote, flag_text, lexeme_text, script_text,
  lexeme_tokens, script_tokens, IsClosed, AllDigits, IsWritable, AllWritable,
}
use regex_markup.Lexer.Fuel.{lex_loop-lex}
use regex_markup.Lexer.Delimited.{
  until_close-quote, fix_loop-quote, until_close-closed, fix_loop-closed, span-flag_text,
  fix_reflags-flag_text,
}

lex_loop-found :
    (s rest : List ℕ) (t : Token) (f : ℕ) (ts : List Token)
    → scan s ≡ found t rest
    → lex_loop f rest ≡ some (ts, [])
    → lex_loop (suc f) s ≡ some (t ∷ ts, [])
unfolding lex_loop
lex_loop-found s rest t f ts h k = rw (lex_loop, h, k) refl

lex_loop-skipped :
    (s rest : List ℕ) (f : ℕ) (ts : List Token)
    → scan s ≡ skipped rest
    → lex_loop f rest ≡ some (ts, [])
    → lex_loop (suc f) s ≡ some (ts, [])
unfolding lex_loop
lex_loop-skipped s rest f ts h k = rw (lex_loop, h, k) refl

scan-string :
    (s rest : List ℕ)
    → scan (lexeme_text (string_lexeme s) ++ (b' ' ∷ rest)) ≡ found (string_token s) (b' ' ∷ rest)
unfolding scan scan_quoted fix_string
scan-string s rest =
    rw
      (
        scan_quoted,
        append_assoc (quote s) (quotation_mark ∷ []) (b' ' ∷ rest),
        until_close-quote s (b' ' ∷ rest),
        fix_loop-quote s,
      )
      refl

scan-match :
    (re : List ℕ) (flags : RegexFlags) (rest : List ℕ)
    → IsClosed false re
    → scan (lexeme_text (match_lexeme re flags) ++ (b' ' ∷ rest))
      ≡ found (match_token re flags) (b' ' ∷ rest)
unfolding scan scan_match fix_string
scan-match re flags rest h =
    rw
      (
        scan_match,
        append_assoc re (b'/' ∷ flag_text flags) (b' ' ∷ rest),
        until_close-closed false re (flag_text flags ++ (b' ' ∷ rest)) h,
        span-flag_text flags rest,
        fix_loop-closed false re (flag_text flags) h,
        fix_reflags-flag_text flags re,
      )
      refl

scan-subst :
    (match behind : List ℕ)
    → IsClosed false match
    → scan (b's' ∷ b'/' ∷ (match ++ (b'/' ∷ behind))) ≡ found (subst_token match) (b'/' ∷ behind)
unfolding scan scan_subst fix_string
scan-subst match behind h =
    rw (until_close-closed false match behind h, fix_loop-closed false match [] h) refl

span-digits :
    (ds rest : List ℕ) → AllDigits ds → span is_word_char (ds ++ (b' ' ∷ rest)) ≡ (ds, b' ' ∷ rest)
unfolding span is_word_char is_space
span-digits [] rest h = refl
span-digits (c ∷ ds) rest ((lo, hi), h) =
    let is_word : is_word_char c ≡ true = ground (arith, lo, hi) in
    rw (is_word, span-digits ds rest h) refl

is_number-digits : (ds : List ℕ) → AllDigits ds → is_number ds ≡ true
unfolding is_number
is_number-digits [] h = refl
is_number-digits (c ∷ ds) ((lo, hi), h) =
    let rest : is_number ds ≡ true = is_number-digits ds h in ground (arith, lo, hi, rest)

scan-digit : (c : ℕ) (s : List ℕ) → b'0' ≤ c → c ≤ b'9' → scan (c ∷ s) ≡ scan_word (c ∷ s)
unfolding scan is_space
scan-digit c s lo hi = ground (arith, lo, hi)

scan-number :
    (ds rest : List ℕ)
    → AllDigits ds
    → 0 < length ds
    → scan (ds ++ (b' ' ∷ rest)) ≡ found (number_token (parse_int 32 ds)) (b' ' ∷ rest)
unfolding scan_word word_token
scan-number [] rest h k = absurd (let no : ⊥ = omega arith in no)
scan-number (c ∷ ds) rest ((lo, hi), h) k =
    scan-digit c (ds ++ (b' ' ∷ rest)) lo hi
    ∙ rw
        (
          scan_word,
          span-digits (c ∷ ds) rest ((lo, hi), h),
          word_token,
          is_number-digits (c ∷ ds) ((lo, hi), h),
        )
        refl

-- The rounds that read a lexeme, and more of them.
abbrev rounds : Lexeme → ℕ → ℕ
rounds (subst_lexeme match repl flags) f = suc (suc f)
rounds _ f = suc f

lex_loop-lexeme :
    (l : Lexeme) (rest : List ℕ) (f : ℕ) (ts : List Token)
    → IsWritable l
    → lex_loop f (b' ' ∷ rest) ≡ some (ts, [])
    → lex_loop (rounds l f) (lexeme_text l ++ (b' ' ∷ rest)) ≡ some (lexeme_tokens l ++ ts, [])
unfolding scan scan_word span is_word_char is_space word_token scan_subst lexeme_tokens
lex_loop-lexeme open_lexeme rest f ts h k = lex_loop-found _ _ _ f ts refl k
lex_loop-lexeme close_lexeme rest f ts h k = lex_loop-found _ _ _ f ts refl k
lex_loop-lexeme comma_lexeme rest f ts h k = lex_loop-found _ _ _ f ts refl k
lex_loop-lexeme macro_lexeme rest f ts h k = lex_loop-found _ _ _ f ts refl k
lex_loop-lexeme style_lexeme rest f ts h k = lex_loop-found _ _ _ f ts refl k
lex_loop-lexeme skip_lexeme rest f ts h k = lex_loop-found _ _ _ f ts refl k
lex_loop-lexeme break_lexeme rest f ts h k = lex_loop-found _ _ _ f ts refl k
lex_loop-lexeme prepend_lexeme rest f ts h k = lex_loop-found _ _ _ f ts refl k
lex_loop-lexeme append_lexeme rest f ts h k = lex_loop-found _ _ _ f ts refl k
lex_loop-lexeme include_lexeme rest f ts h k = lex_loop-found _ _ _ f ts refl k
lex_loop-lexeme set_lexeme rest f ts h k = lex_loop-found _ _ _ f ts refl k
lex_loop-lexeme (string_lexeme s) rest f ts h k = lex_loop-found _ _ _ f ts (scan-string s rest) k
lex_loop-lexeme (match_lexeme re flags) rest f ts h k =
    lex_loop-found _ _ _ f ts (scan-match re flags rest h) k
lex_loop-lexeme (subst_lexeme match repl flags) rest f ts (m, r) k =
    let behind : List ℕ = (repl ++ (b'/' ∷ flag_text flags)) ++ (b' ' ∷ rest) in
    ap (λ t. lex_loop (suc (suc f)) (b's' ∷ b'/' ∷ t))
      (append_assoc match (b'/' ∷ (repl ++ (b'/' ∷ flag_text flags))) (b' ' ∷ rest))
    ∙ lex_loop-found _ _ _ (suc f) _ (scan-subst match behind m)
        (lex_loop-found _ _ _ f ts (scan-match repl flags rest r) k)
lex_loop-lexeme (number_lexeme ds) rest f ts (h, ne) k =
    lex_loop-found _ _ _ f ts (scan-number ds rest h ne) k

-- A lexeme starts with no space.
span_space-lexeme :
    (l : Lexeme) (s : List ℕ)
    → IsWritable l
    → (span is_space (lexeme_text l ++ s)).1 ≡ (lexeme_text l ++ s)
unfolding span is_space
span_space-lexeme open_lexeme s h = refl
span_space-lexeme close_lexeme s h = refl
span_space-lexeme comma_lexeme s h = refl
span_space-lexeme macro_lexeme s h = refl
span_space-lexeme style_lexeme s h = refl
span_space-lexeme skip_lexeme s h = refl
span_space-lexeme break_lexeme s h = refl
span_space-lexeme prepend_lexeme s h = refl
span_space-lexeme append_lexeme s h = refl
span_space-lexeme include_lexeme s h = refl
span_space-lexeme set_lexeme s h = refl
span_space-lexeme (string_lexeme _) s h = refl
span_space-lexeme (match_lexeme _ _) s h = refl
span_space-lexeme (subst_lexeme _ _ _) s h = refl
span_space-lexeme (number_lexeme []) s (h, ne) = absurd (let no : ⊥ = omega arith in no)
span_space-lexeme (number_lexeme (c ∷ ds)) s (((lo, hi), h), ne) =
    let no_space : is_space c ≡ false = ground (arith, lo, hi) in rw no_space refl

abbrev script_rounds : List Lexeme → ℕ
script_rounds [] = 1
script_rounds (l ∷ ls) = rounds l (suc (script_rounds ls))

lex_loop-script :
    (ls : List Lexeme)
    → AllWritable ls
    → lex_loop (script_rounds ls) (script_text ls) ≡ some (script_tokens ls, [])
unfolding lex_loop scan
lex_loop-script [] h = refl
lex_loop-script (l ∷ ls) (w, h) =
    lex_loop-lexeme l (script_text ls) (suc (script_rounds ls)) (script_tokens ls) w (
      lex_loop-skipped (b' ' ∷ script_text ls) _ _ _ (ap skipped (space ls h))
        (lex_loop-script ls h))
  where
    space :
        (ls : List Lexeme) → AllWritable ls → (span is_space (script_text ls)).1 ≡ script_text ls
    space [] h = refl
    space (l ∷ ls) (w, h) = span_space-lexeme l (b' ' ∷ script_text ls) w

-- A script that is written out, with quotation marks and backslashes escaped in strings and a space
-- behind each part, is read back by lexer.l to its tokens, with nothing echoed. The expressions in
-- it have no slash but behind a backslash, and no newline behind one and no backslash at their end;
-- its numbers are digits, one at least.
pub lex-script_text :
    (ls : List Lexeme) → AllWritable ls → lex (script_text ls) ≡ some (script_tokens ls, [])
lex-script_text ls h = lex_loop-lex (script_rounds ls) (script_text ls) _ (lex_loop-script ls h)
