-- ===== src/Positions/Text.antt =====
-- A part of a text in which another part is replaced: what update_positions of src/execute.c does to
-- the ends of a range is compared with it in Positions/Parts.antt.
use regex_markup.Common.{
  ℕ, zero, suc, ◌+◌, ◌-◌, ◌≤◌, ◌≡◌, refl, sym, ap, ap₂, ◌∙◌, List, [], ◌∷◌, ◌++◌, arith, length,
  take, drop, append_assoc, length-append, length-take, take-append-drop,
}
use regex_markup.StrBuf.Splice.{splice}

-- The characters from `so` up to `eo`.
abbrev pub part : List ℕ → ℕ → ℕ → List ℕ
part t so eo = take (eo - so) (drop so t)

drop-append_le : (n : ℕ) (xs ys : List ℕ) → n ≤ length xs → drop n (xs ++ ys) ≡ drop n xs ++ ys
drop-append_le zero xs ys h = refl
drop-append_le (suc n) [] ys h = absurd (omega arith)
drop-append_le (suc n) (x ∷ xs) ys h = drop-append_le n xs ys (omega arith)

take-append_le : (n : ℕ) (xs ys : List ℕ) → n ≤ length xs → take n (xs ++ ys) ≡ take n xs
take-append_le zero xs ys h = refl
take-append_le (suc n) [] ys h = absurd (omega arith)
take-append_le (suc n) (x ∷ xs) ys h = ap (x ∷◌) (take-append_le n xs ys (omega arith))

drop-append_add : (n j : ℕ) (xs ys : List ℕ) → n ≡ length xs + j → drop n (xs ++ ys) ≡ drop j ys
drop-append_add n j [] ys e = let same : n ≡ j = omega arith in ap (λ m. drop m ys) same
drop-append_add zero j (x ∷ xs) ys e = absurd (omega arith)
drop-append_add (suc n) j (x ∷ xs) ys e = drop-append_add n j xs ys (omega arith)

drop_all_le : (n : ℕ) (xs : List ℕ) → n ≤ length xs → length (drop n xs) ≡ length xs - n
drop_all_le zero xs h = omega arith
drop_all_le (suc n) [] h = omega arith
drop_all_le (suc n) (x ∷ xs) h = omega (arith, drop_all_le n xs (omega arith))

part-append :
    (xs ys : List ℕ) (so eo : ℕ) → so ≤ eo → eo ≤ length xs → part (xs ++ ys) so eo ≡ part xs so eo
part-append xs ys so eo h k =
    ap (take (eo - so)) (drop-append_le so xs ys (omega arith))
    ∙ take-append_le (eo - so) (drop so xs) ys (omega (arith, drop_all_le so xs (omega arith)))

pub part-splice_before :
    (t ins : List ℕ) (lo hi so eo : ℕ)
    → lo ≤ length t
    → so ≤ eo
    → eo ≤ lo
    → part (splice t lo hi ins) so eo ≡ part t so eo
part-splice_before t ins lo hi so eo h k l =
    let reaches : eo ≤ length (take lo t) = omega (arith, length-take lo t) in
    part-append (take lo t) (ins ++ drop hi t) so eo k reaches
    ∙ sym (part-append (take lo t) (drop lo t) so eo k reaches)
    ∙ ap (λ w. part w so eo) (take-append-drop lo t)

pub part-splice_behind :
    (t ins : List ℕ) (lo hi so eo so' eo' : ℕ)
    → lo ≤ hi
    → hi ≤ length t
    → hi ≤ so
    → so' ≡ so + length ins - (hi - lo)
    → eo' - so' ≡ eo - so
    → part (splice t lo hi ins) so' eo' ≡ part t so eo
part-splice_behind t ins lo hi so eo so' eo' h k l e same =
    let moved : drop so' (splice t lo hi ins) ≡ drop (so - hi) (drop hi t) =
      ap (drop so') (sym (append_assoc (take lo t) ins (drop hi t)))
      ∙ drop-append_add so' (so - hi) (take lo t ++ ins) (drop hi t)
          (omega (arith, length-append (take lo t) ins, length-take lo t)) in
    let stayed : drop so t ≡ drop (so - hi) (drop hi t) =
      ap (drop so) (sym (take-append-drop hi t))
      ∙ drop-append_add so (so - hi) (take hi t) (drop hi t) (omega (arith, length-take hi t)) in
    ap (λ m. take m (drop so' (splice t lo hi ins))) same ∙ ap (take (eo - so)) (moved ∙ sym stayed)

take-append_add :
    (n j : ℕ) (xs ys : List ℕ) → n ≡ length xs + j → take n (xs ++ ys) ≡ xs ++ take j ys
take-append_add n j [] ys e = let same : n ≡ j = omega arith in ap (λ m. take m ys) same
take-append_add zero j (x ∷ xs) ys e = absurd (omega arith)
take-append_add (suc n) j (x ∷ xs) ys e = ap (x ∷◌) (take-append_add n j xs ys (omega arith))

take_nil : (n : ℕ) → take {A = ℕ} n [] ≡ []
take_nil zero = refl
take_nil (suc n) = refl

take-take : (m n : ℕ) (xs : List ℕ) → m ≤ n → take m (take n xs) ≡ take m xs
take-take zero n xs h = refl
take-take (suc m) zero xs h = absurd (omega arith)
take-take (suc m) (suc n) [] h = refl
take-take (suc m) (suc n) (x ∷ xs) h = ap (x ∷◌) (take-take m n xs (omega arith))

drop-take : (m n j : ℕ) (xs : List ℕ) → j ≡ n - m → m ≤ n → drop m (take n xs) ≡ take j (drop m xs)
drop-take zero n j xs e h = let same : n ≡ j = omega arith in ap (λ k. take k xs) same
drop-take (suc m) zero j xs e h = absurd (omega arith)
drop-take (suc m) (suc n) j [] e h = sym (take_nil j)
drop-take (suc m) (suc n) j (x ∷ xs) e h = drop-take m n j xs (omega arith) (omega arith)

drop-drop : (m n j : ℕ) (xs : List ℕ) → n + m ≡ j → drop m (drop n xs) ≡ drop j xs
drop-drop m zero j xs e = let same : m ≡ j = omega arith in ap (λ k. drop k xs) same
drop-drop zero (suc n) zero xs e = absurd (omega arith)
drop-drop (suc m) (suc n) zero xs e = absurd (omega arith)
drop-drop zero (suc n) (suc j) [] e = refl
drop-drop (suc m) (suc n) (suc j) [] e = refl
drop-drop zero (suc n) (suc j) (x ∷ xs) e = drop-drop zero n j xs (omega arith)
drop-drop (suc m) (suc n) (suc j) (x ∷ xs) e = drop-drop (suc m) n j xs (omega arith)

-- A range around the replaced part has the replacement in its characters.
pub part-splice_around :
    (t ins : List ℕ) (lo hi so eo eo' : ℕ)
    → lo ≤ hi
    → so ≤ lo
    → hi ≤ eo
    → eo ≤ length t
    → eo' ≡ eo + length ins - (hi - lo)
    → part (splice t lo hi ins) so eo' ≡ splice (part t so eo) (lo - so) (hi - so) ins
part-splice_around t ins lo hi so eo eo' h k l inside e =
    let front : drop so (take lo t) ≡ take (lo - so) (part t so eo) =
      drop-take so lo (lo - so) t refl (omega arith)
      ∙ sym (take-take (lo - so) (eo - so) (drop so t) (omega arith)) in
    let back : take (eo - hi) (drop hi t) ≡ drop (hi - so) (part t so eo) = sym (
      drop-take (hi - so) (eo - so) (eo - hi) (drop so t) (omega arith) (omega arith)
      ∙ ap (take (eo - hi)) (drop-drop (hi - so) so hi t (omega arith))) in
    ap (take (eo' - so))
      (drop-append_le so (take lo t) (ins ++ drop hi t) (omega (arith, length-take lo t)))
    ∙ take-append_add (eo' - so) (length ins + (eo - hi)) (drop so (take lo t)) (ins ++ drop hi t) (
        omega (
          arith,
          e,
          drop_all_le so (take lo t) (omega (arith, length-take lo t)),
          length-take lo t,
        ))
    ∙ ap (drop so (take lo t) ++◌)
        (take-append_add (length ins + (eo - hi)) (eo - hi) ins (drop hi t) refl)
    ∙ ap₂ (λ (u v : List ℕ). u ++ (ins ++ v)) front back
