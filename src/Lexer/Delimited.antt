-- ===== src/Lexer/Delimited.antt =====
-- src/lexer.l: strings between quotation marks, and expressions between slashes.
use regex_markup.Common.{
  ℕ, ◌≡◌, refl, ap, ◌∙◌, List, [], ◌∷◌, ◌++◌, append_assoc, some, Bool, true, false, ◌||◌, ◌==◌,
  if◌then◌else◌, ap₂, subst, arith, Bool-cases, inl, inr, reverse,
}
use mathlib.Core.List.{reverse-append, reverse-cons}
use regex_markup.Match.{RegexFlags}
use regex_markup.Lexer.{
  until_close, fix_loop, escape_char, reflags_loop, fix_reflags, span, is_flag, before, newline,
  backslash, quotation_mark, is_last,
}
use regex_markup.Lexer.Lexemes.{quote, flag_text, IsClosed}

pub until_close-quote :
    (s rest : List ℕ)
    → until_close quotation_mark false (quote s ++ (quotation_mark ∷ rest)) ≡ some (quote s, rest)
unfolding until_close
until_close-quote [] rest = refl
until_close-quote (c ∷ s) rest = elim (Bool-cases (c == quotation_mark || c == backslash)) [
  | inl special ↦
      let no_newline : (c == newline) ≡ false = ground (arith, special) in
      rw (special, no_newline) (ap (λ o. before backslash (before c o)) (until_close-quote s rest))
  | inr plain ↦
      let not_mark : (c == quotation_mark) ≡ false = ground (arith, plain) in
      let not_slash : (c == backslash) ≡ false = ground (arith, plain) in
      rw (plain, not_slash, not_mark) (ap (before c) (until_close-quote s rest))
]

escape_char-plain : (c : ℕ) → (c == quotation_mark || c == backslash) ≡ true → escape_char c ≡ c
unfolding escape_char
escape_char-plain c special = ground (arith, special)

is_last-append : (s rest : List ℕ) (c : ℕ) → is_last (s ++ (c ∷ rest)) ≡ false
is_last-append [] rest c = refl
is_last-append (d ∷ s) rest c = refl

pub fix_loop-quote :
    (s : List ℕ) → fix_loop false quotation_mark false (quote s ++ (quotation_mark ∷ [])) ≡ s
unfolding fix_loop
fix_loop-quote [] = refl
fix_loop-quote (c ∷ s) = elim (Bool-cases (c == quotation_mark || c == backslash)) [
  | inl special ↦ rw special (ap₂ (λ d t. d ∷ t) (escape_char-plain c special) (fix_loop-quote s))
  | inr plain ↦
      let not_mark : (c == quotation_mark) ≡ false = ground (arith, plain) in
      let not_slash : (c == backslash) ≡ false = ground (arith, plain) in
      rw (plain, not_slash, not_mark) (ap (λ t. c ∷ t) (fix_loop-quote s))
]

pub until_close-closed :
    (escaped : Bool) (re rest : List ℕ)
    → IsClosed escaped re
    → until_close b'/' escaped (re ++ (b'/' ∷ rest)) ≡ some (re, rest)
unfolding until_close
until_close-closed true [] rest h = absurd h
until_close-closed false [] rest h = refl
until_close-closed true (c ∷ s) rest (ne, h) =
    let no_newline : (c == newline) ≡ false = ground (arith, ne) in
    rw no_newline (ap (before c) (until_close-closed false s rest h))
until_close-closed false (c ∷ s) rest (ne, h) =
    let no_slash : (c == b'/') ≡ false = ground (arith, ne) in
    rw no_slash (ap (before c) (until_close-closed (c == backslash) s rest h))

pub fix_loop-closed :
    (escaped : Bool) (re rest : List ℕ)
    → IsClosed escaped re
    → fix_loop true b'/' escaped (re ++ (b'/' ∷ rest)) ≡ (if escaped then backslash ∷ re else re)
unfolding fix_loop
fix_loop-closed true [] rest h = absurd h
fix_loop-closed false [] rest h = refl
fix_loop-closed true (c ∷ s) rest (ne, h) =
    ap (λ t. backslash ∷ c ∷ t) (fix_loop-closed false s rest h)
fix_loop-closed false (c ∷ s) rest (ne, h) =
    let no_slash : (c == b'/') ≡ false = ground (arith, ne) in
    rw (no_slash, is_last-append s rest b'/')
      elim (Bool-cases (c == backslash)) [
        | inl slash ↦
            let is_backslash : backslash ≡ c = ground (arith, slash) in
            let h' : IsClosed true s = subst (λ b. IsClosed b s) slash h in
            rw slash (fix_loop-closed true s rest h' ∙ ap (λ d. d ∷ s) is_backslash)
        | inr plain ↦
            let h' : IsClosed false s = subst (λ b. IsClosed b s) plain h in
            rw plain (ap (λ t. c ∷ t) (fix_loop-closed false s rest h'))
      ]

span-flags :
    (g i : Bool) (rest : List ℕ)
    → (let flags : RegexFlags = record { global = g; ignore_case = i } in
        span is_flag (flag_text flags ++ (b' ' ∷ rest)) ≡ (flag_text flags, b' ' ∷ rest))
unfolding span
span-flags true true rest = refl
span-flags true false rest = refl
span-flags false true rest = refl
span-flags false false rest = refl

pub span-flag_text :
    (flags : RegexFlags) (rest : List ℕ)
    → span is_flag (flag_text flags ++ (b' ' ∷ rest)) ≡ (flag_text flags, b' ' ∷ rest)
span-flag_text flags rest = span-flags flags.global flags.ignore_case rest

reverse_two_slashes :
    (re fs : List ℕ)
    → reverse (b'/' ∷ (re ++ (b'/' ∷ fs))) ≡ (reverse fs ++ (b'/' ∷ reverse (b'/' ∷ re)))
reverse_two_slashes re fs =
    reverse-append (b'/' ∷ re) (b'/' ∷ fs)
    ∙ ap (λ t. t ++ reverse (b'/' ∷ re)) (reverse-cons b'/' fs)
    ∙ append_assoc (reverse fs) (b'/' ∷ []) (reverse (b'/' ∷ re))

fix_reflags-flags :
    (g i : Bool) (re : List ℕ)
    → (let flags : RegexFlags = record { global = g; ignore_case = i } in
        fix_reflags (b'/' ∷ (re ++ (b'/' ∷ flag_text flags))) ≡ flags)
unfolding fix_reflags
fix_reflags-flags g i re =
    let flags : RegexFlags = record { global = g; ignore_case = i } in
    ap (reflags_loop (record { global = false; ignore_case = false }))
      (reverse_two_slashes re (flag_text flags))
    ∙ reflags g i
  where
    reflags :
        (g i : Bool)
        → (let flags : RegexFlags = record { global = g; ignore_case = i } in
            reflags_loop
              (record { global = false; ignore_case = false })
              (reverse (flag_text flags) ++ (b'/' ∷ reverse (b'/' ∷ re)))
            ≡ flags)
    reflags true true = refl
    reflags true false = refl
    reflags false true = refl
    reflags false false = refl

pub fix_reflags-flag_text :
    (flags : RegexFlags) (re : List ℕ)
    → fix_reflags (b'/' ∷ (re ++ (b'/' ∷ flag_text flags))) ≡ flags
fix_reflags-flag_text flags re = fix_reflags-flags flags.global flags.ignore_case re
