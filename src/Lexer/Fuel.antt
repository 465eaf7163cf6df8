-- ===== src/Lexer/Fuel.antt =====
-- src/lexer.l: the rounds of the lexer, against the characters of a file.
use regex_markup.Common.{
  ℕ, zero, suc, ◌+◌, ◌<◌, ◌≤◌, ◌≡◌, refl, sym, ap, ◌∙◌, subst, ◌∙◌, List, [], ◌∷◌, Option, none,
  some, Bool, true, false, not, ◌==◌, if◌then◌else◌, arith, length, Bool-cases, Option-cases, inl,
  inr,
}
use mathlib.Core.Option.{map, none-ne-some}
use regex_markup.Lexer.{
  Token, quotation_mark, backslash, is_word_char, is_space, is_flag, span, before, until_close,
  newline, echo_char, add_token, lex_round, Scanned, at_end, echoed, found, skipped, scan_word,
  scan_comment, scan_quoted, scan_match, scan_subst, scan, lex_loop, lex,
}

-- What is left is shorter than `n`.
abbrev IsShorter : ℕ → Scanned → Type 0
IsShorter n at_end = Unit {0}
IsShorter n (skipped rest) = length rest < n
IsShorter n (echoed c rest) = length rest < n
IsShorter n (found token rest) = length rest < n

length-span : (test : ℕ → Bool) (s : List ℕ) → length (span test s).1 ≤ length s
unfolding span
length-span test [] = omega arith
length-span test (c ∷ s) =
    let rest : length (span test s).1 ≤ length s = length-span test s in
    elim (Bool-cases (test c)) [
      | inl t ↦ rw (span, t) (omega arith)
      | inr t ↦ rw (span, t) (omega arith)
    ]

LeavesLess : ℕ → Option (List ℕ × List ℕ) → Type 0
LeavesLess n none = Unit {0}
LeavesLess n (some (text, rest)) = length rest < n

LeavesLess-before :
    (n c : ℕ) (o : Option (List ℕ × List ℕ)) → LeavesLess n o → LeavesLess (suc n) (before c o)
unfolding LeavesLess
LeavesLess-before n c none h = h
LeavesLess-before n c (some (text, rest)) h = omega arith

until_close-LeavesLess :
    (close : ℕ) (escaped : Bool) (s : List ℕ) → LeavesLess (length s) (until_close close escaped s)
unfolding until_close LeavesLess
until_close-LeavesLess close escaped [] = _
until_close-LeavesLess close true (c ∷ s) = elim (Bool-cases (c == newline)) [
  | inl nl ↦ rw nl _
  | inr other ↦ rw other (LeavesLess-before _ c _ (until_close-LeavesLess close false s))
]
until_close-LeavesLess close false (c ∷ s) = elim (Bool-cases (c == close)) [
  | inl end ↦ rw end (omega arith)
  | inr other ↦ rw other (LeavesLess-before _ c _ (until_close-LeavesLess close (c == backslash) s))
]

scan_word-IsShorter :
    (c : ℕ) (s : List ℕ) → is_word_char c ≡ true → IsShorter (suc (length s)) (scan_word (c ∷ s))
unfolding scan_word span
scan_word-IsShorter c s h =
    let rest : length (span is_word_char s).1 ≤ length s = length-span is_word_char s in
    rw (scan_word, span, h) (omega arith)

scan_comment-IsShorter :
    (c : ℕ) (s : List ℕ) → is_word_char c ≡ true → IsShorter (suc (length s)) (scan_comment (c ∷ s))
unfolding scan_comment
scan_comment-IsShorter c s h =
    left (span (λ d. not (d == newline)) (c ∷ s)).1 (length-span (λ d. not (d == newline)) (c ∷ s))
  where
    left :
        (r : List ℕ)
        → length r ≤ suc (length s)
        → IsShorter (suc (length s)) (elim r [ [] ↦ scan_word (c ∷ s) | d ∷ rest ↦ skipped rest ])
    left [] le = scan_word-IsShorter c s h
    left (d ∷ rest) le = omega arith

scan_quoted-IsShorter : (s : List ℕ) → IsShorter (suc (length s)) (scan_quoted s)
unfolding scan_quoted LeavesLess
scan_quoted-IsShorter s = elim (Option-cases (until_close quotation_mark false s)) [
  | inl unclosed ↦ rw (scan_quoted, unclosed) (omega arith)
  | inr ((text, rest), e) ↦
      let left : length rest < length s =
        subst (LeavesLess (length s)) e (until_close-LeavesLess quotation_mark false s) in
      rw (scan_quoted, e) (omega arith)
]

scan_match-IsShorter : (s : List ℕ) → IsShorter (suc (length s)) (scan_match s)
unfolding scan_match LeavesLess
scan_match-IsShorter s = elim (Option-cases (until_close b'/' false s)) [
  | inl unclosed ↦ rw (scan_match, unclosed) (omega arith)
  | inr ((text, behind), e) ↦
      let left : length behind < length s =
        subst (LeavesLess (length s)) e (until_close-LeavesLess b'/' false s) in
      let flags : length (span is_flag behind).1 ≤ length behind = length-span is_flag behind in
      rw (scan_match, e) (omega arith)
]

scan_word_s-IsShorter : (s : List ℕ) → IsShorter (suc (length s)) (scan_word (b's' ∷ s))
unfolding is_word_char is_space
scan_word_s-IsShorter s = scan_word-IsShorter b's' s refl

IsShorter-if :
    (b : Bool) (n : ℕ) (w v : Scanned)
    → IsShorter n w
    → IsShorter n v
    → IsShorter n (if b then w else v)
IsShorter-if true n w v h k = h
IsShorter-if false n w v h k = k

scan_subst-IsShorter : (s : List ℕ) → IsShorter (suc (length s)) (scan_subst s)
unfolding scan_subst LeavesLess
scan_subst-IsShorter [] = scan_word_s-IsShorter []
scan_subst-IsShorter (c ∷ s) =
    IsShorter-if (c == b'/') _ _ _
      (elim (Option-cases (until_close b'/' false s)) [
        | inl unclosed ↦ rw unclosed (scan_word_s-IsShorter (c ∷ s))
        | inr ((text, rest), e) ↦
            let left : length rest < length s =
              subst (LeavesLess (length s)) e (until_close-LeavesLess b'/' false s) in
            rw e (omega arith)
      ])
      (scan_word_s-IsShorter (c ∷ s))

pub scan-IsShorter : (s : List ℕ) → IsShorter (length s) (scan s)
unfolding scan is_space is_word_char
scan-IsShorter [] = _
scan-IsShorter (c ∷ s) =
    let spaces : length (span is_space s).1 ≤ length s = length-span is_space s in
    let comment : is_word_char c ≡ true → IsShorter (suc (length s)) (scan_comment (c ∷ s)) =
      scan_comment-IsShorter c s in
    let word : is_word_char c ≡ true → IsShorter (suc (length s)) (scan_word (c ∷ s)) =
      scan_word-IsShorter c s in
    let quoted : IsShorter (suc (length s)) (scan_quoted s) = scan_quoted-IsShorter s in
    let match' : IsShorter (suc (length s)) (scan_match s) = scan_match-IsShorter s in
    let subst' : IsShorter (suc (length s)) (scan_subst s) = scan_subst-IsShorter s in ground arith

lex_round-total :
    (lex_rest : List ℕ → Option (List Token × List ℕ)) (n : ℕ)
    → ((s : List ℕ) → length s < n → (r : List Token × List ℕ) × (lex_rest s ≡ some r))
    → (w : Scanned) → IsShorter n w
    → (r : List Token × List ℕ) × (lex_round lex_rest w ≡ some r)
lex_round-total lex_rest n total at_end h = (([], []), refl)
lex_round-total lex_rest n total (skipped rest) h = total rest h
lex_round-total lex_rest n total (echoed c rest) h =
    let (r, e) = total rest h in (echo_char c r, ap (map (echo_char c)) e)
lex_round-total lex_rest n total (found token rest) h =
    let (r, e) = total rest h in (add_token token r, ap (map (add_token token)) e)

lex_loop-total :
    (f : ℕ) (s : List ℕ) → length s < f → (r : List Token × List ℕ) × (lex_loop f s ≡ some r)
unfolding lex_loop
lex_loop-total zero s h = absurd (let never : ⊥ = omega arith in never)
lex_loop-total (suc f) s h =
    lex_round-total (lex_loop f) (length s) (λ rest k. lex_loop-total f rest (omega arith)) (scan s)
      (scan-IsShorter s)

-- lexer.l reads any file to its end, within a round for each character and one more: it gives the
-- tokens and what it echoes.
pub lex-total : (s : List ℕ) → (r : List Token × List ℕ) × (lex s ≡ some r)
unfolding lex
lex-total s = lex_loop-total (suc (length s)) s (omega arith)

map-more {ℓ} :
    {A : Type ℓ} (g : A → A) (o o' : Option A) (r : A)
    → ((a : A) → o ≡ some a → o' ≡ some a)
    → map g o ≡ some r
    → map g o' ≡ some r
map-more g none o' r more e = absurd (none-ne-some r e)
map-more g (some a) o' r more e = rw (more a refl) e

lex_round-more :
    (lex_rest more_rest : List ℕ → Option (List Token × List ℕ)) (w : Scanned)
    (r : List Token × List ℕ)
    → ((s : List ℕ) (q : List Token × List ℕ) → lex_rest s ≡ some q → more_rest s ≡ some q)
    → lex_round lex_rest w ≡ some r
    → lex_round more_rest w ≡ some r
lex_round-more lex_rest more_rest at_end r more e = e
lex_round-more lex_rest more_rest (skipped rest) r more e = more rest r e
lex_round-more lex_rest more_rest (echoed c rest) r more e =
    map-more (echo_char c) _ _ r (more rest) e
lex_round-more lex_rest more_rest (found token rest) r more e =
    map-more (add_token token) _ _ r (more rest) e

lex_loop-more :
    (f g : ℕ) (s : List ℕ) (r : List Token × List ℕ)
    → f ≤ g
    → lex_loop f s ≡ some r
    → lex_loop g s ≡ some r
unfolding lex_loop
lex_loop-more zero g s r h e = absurd (none-ne-some r e)
lex_loop-more (suc f) zero s r h e = absurd (let never : ⊥ = omega arith in never)
lex_loop-more (suc f) (suc g) s r h e =
    lex_round-more (lex_loop f) (lex_loop g) (scan s) r (λ t q. lex_loop-more f g t q (omega arith))
      e

-- What some number of rounds gives, the lexer gives.
pub lex_loop-lex :
    (f : ℕ) (s : List ℕ) (r : List Token × List ℕ) → lex_loop f s ≡ some r → lex s ≡ some r
unfolding lex
lex_loop-lex f s r e =
    let (q, total) = lex-total s in
    let n : ℕ = suc (length s) in
    let agree : some q ≡ some r =
      sym (lex_loop-more n (n + f) s q (omega arith) total)
      ∙ lex_loop-more f (n + f) s r (omega arith) e in
    total ∙ agree
