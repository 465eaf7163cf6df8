-- ===== src/StringUtils/Affixes.antt =====
-- src/common/string-utils.c: starts_with and ends_with.
use regex_markup.Common.{
  ℕ, zero, suc, ◌+◌, ◌-◌, ◌<◌, ◌≡◌, ◌≢◌, ◌↔◌, refl, sym, ap, ◌∙◌, List, [], ◌∷◌, ◌++◌, Bool, true,
  false, ◌==◌, ltb, if◌then◌else◌, length, length-append, length-drop, get_or, take, drop,
  drop-append, take-append-drop, arith, add32, sub32, slt32, i32, u32, Bool-cases, inl, inr, ==_iff,
}
use regex_markup.Match.Found.{get_or-drop}
use regex_markup.StringUtils.{end_matches, ends_with, same_until, starts_with}

-- A string has no null byte inside.
abbrev pub NoNul : List ℕ → Type 0
NoNul [] = Unit {0}
NoNul (c ∷ str) = (c ≢ 0) × NoNul str

abbrev pub StartsWith : List ℕ → List ℕ → Type 0
StartsWith str start = (rest : List ℕ) × (str ≡ start ++ rest)

abbrev pub EndsWith : List ℕ → List ℕ → Type 0
EndsWith str end = (front : List ℕ) × (str ≡ front ++ end)

abbrev is_start : List ℕ → List ℕ → Bool
is_start str [] = true
is_start [] (d ∷ start) = false
is_start (c ∷ str) (d ∷ start) = if c == d then is_start str start else false

abbrev is_same : List ℕ → List ℕ → Bool
is_same [] [] = true
is_same [] (d ∷ ys) = false
is_same (c ∷ xs) [] = false
is_same (c ∷ xs) (d ∷ ys) = if d == c then is_same xs ys else false

is_start-StartsWith : (str start : List ℕ) → is_start str start ≡ true → StartsWith str start
is_start-StartsWith str [] h = (str, refl)
is_start-StartsWith [] (d ∷ start) h = ground (arith, h)
is_start-StartsWith (c ∷ str) (d ∷ start) h = elim (Bool-cases (c == d)) [
  | inl same ↦
      let at : c ≡ d = (==_iff c d).0 same in
      let (rest, e) = is_start-StartsWith str start (ground (arith, h, same)) in
      (rest, ap (c ∷◌) e ∙ ap (◌∷ (start ++ rest)) at)
  | inr other ↦ ground (arith, h, other)
]

is_start-append : (start rest : List ℕ) → is_start (start ++ rest) start ≡ true
is_start-append [] rest = refl
is_start-append (d ∷ start) rest =
    let same : (d == d) ≡ true = ground arith in rw same (is_start-append start rest)

is_same-eq : (xs ys : List ℕ) → is_same xs ys ≡ true → xs ≡ ys
is_same-eq [] [] h = refl
is_same-eq [] (d ∷ ys) h = ground (arith, h)
is_same-eq (c ∷ xs) [] h = ground (arith, h)
is_same-eq (c ∷ xs) (d ∷ ys) h = elim (Bool-cases (d == c)) [
  | inl same ↦
      let at : d ≡ c = (==_iff d c).0 same in
      ap (c ∷◌) (is_same-eq xs ys (ground (arith, h, same))) ∙ ap (◌∷ ys) (sym at)
  | inr other ↦ ground (arith, h, other)
]

is_same_refl : (xs : List ℕ) → is_same xs xs ≡ true
is_same_refl [] = refl
is_same_refl (c ∷ xs) = let same : (c == c) ≡ true = ground arith in rw same (is_same_refl xs)

abbrev tail : List ℕ → List ℕ
tail [] = []
tail (x ∷ xs) = xs

drop-tail : (c : ℕ) (xs : List ℕ) → drop (c + 1) xs ≡ tail (drop c xs)
drop-tail zero [] = refl
drop-tail zero (x ∷ xs) = refl
drop-tail (suc c) [] =
    let later : suc c + 1 ≡ suc (c + 1) = omega arith in ap (λ n. drop n []) later
drop-tail (suc c) (x ∷ xs) =
    let later : suc c + 1 ≡ suc (c + 1) = omega arith in
    ap (λ n. drop n (x ∷ xs)) later ∙ drop-tail c xs

drop_next : (c : ℕ) (xs : List ℕ) (y : ℕ) (ys : List ℕ) → drop c xs ≡ y ∷ ys → drop (c + 1) xs ≡ ys
drop_next c xs y ys e = drop-tail c xs ∙ ap tail e

head_at : (c : ℕ) (xs ys : List ℕ) → drop c xs ≡ ys → get_or xs c 0 ≡ get_or ys 0 0
head_at c xs ys e =
    let here : c + 0 ≡ c = omega arith in
    ap (λ n. get_or xs n 0) (sym here) ∙ sym (get_or-drop xs c 0) ∙ ap (λ zs. get_or zs 0 0) e

module _ (start : List ℕ) where
  same_until-is_start :
      (c : ℕ) (str rest : List ℕ)
      → drop c start ≡ rest
      → NoNul rest
      → NoNul str
      → c + length str < u32
      → (get_or start (same_until (λ c. c) start c str) 0 == 0) ≡ is_start str rest
  unfolding same_until
  same_until-is_start c [] [] e n m small = rw (head_at c start [] e) refl
  same_until-is_start c [] (d ∷ rest) e (ne, n) m small =
      rw (head_at c start (d ∷ rest) e) (ground (arith, ne))
  same_until-is_start c (x ∷ str) [] e n (ne, m) small =
      let at_end = head_at c start [] e in
      let other : (x == 0) ≡ false = ground (arith, ne) in rw (at_end, other, at_end) refl
  same_until-is_start c (x ∷ str) (d ∷ rest) e (ne, n) (ne', m) small =
      let at_d : get_or start c 0 ≡ d = head_at c start (d ∷ rest) e in
      let next : add32 c 1 ≡ c + 1 = omega (arith, small) in
      elim (Bool-cases (x == d)) [
        | inl same ↦
            rw (at_d, same, next)
              (same_until-is_start (c + 1) str rest (drop_next c start d rest e) n m (omega arith))
        | inr other ↦ rw (at_d, other, at_d) (ground (arith, ne))
      ]

module _ (str : List ℕ) where
  -- starts_with is true exactly where the string is the other one with something behind it, of which
  -- both have no null byte inside and the first has less than 2 ^ 31 characters.
  pub starts_with-StartsWith :
      (start : List ℕ)
      → NoNul str
      → NoNul start
      → length str < i32
      → (starts_with str start ≡ true) ↔ StartsWith str start
  unfolding starts_with
  starts_with-StartsWith start m n small =
      let same : starts_with str start ≡ is_start str start =
        same_until-is_start start 0 str start refl n m (omega arith) in
      (
        λ h. is_start-StartsWith str start (sym same ∙ h),
        λ (rest, e). same ∙ ap (λ s. is_start s start) e ∙ is_start-append start rest,
      )

  end_matches-is_same :
      (diff c : ℕ) (xs end : List ℕ)
      → drop (c + diff) str ≡ xs
      → length xs ≡ length end
      → c + diff + length end < u32
      → end_matches (λ c. c) str diff c end ≡ is_same xs end
  unfolding end_matches
  end_matches-is_same diff c [] [] e size small = refl
  end_matches-is_same diff c [] (d ∷ end) e size small = absurd (omega arith)
  end_matches-is_same diff c (x ∷ xs) [] e size small = absurd (omega arith)
  end_matches-is_same diff c (x ∷ xs) (d ∷ end) e size small =
      let at_x : get_or str (c + diff) 0 ≡ x = head_at (c + diff) str (x ∷ xs) e in
      let place : add32 c diff ≡ c + diff = omega (arith, small) in
      let next : add32 c 1 ≡ c + 1 = omega (arith, small) in
      let regroup : c + 1 + diff ≡ c + diff + 1 = omega arith in
      let later : drop (c + 1 + diff) str ≡ xs =
        ap (λ n. drop n str) regroup ∙ drop_next (c + diff) str x xs e in
      elim (Bool-cases (d == x)) [
        | inl same ↦
            rw (place, at_x, same, next)
              (end_matches-is_same diff (c + 1) xs end later (omega arith) (omega arith))
        | inr other ↦ rw (place, at_x, other) refl
      ]

  -- ends_with is true exactly where the string is the other one with something in front of it, of
  -- which both have less than 2 ^ 31 characters.
  pub ends_with-EndsWith :
      (end : List ℕ)
      → length str < i32
      → length end < i32
      → (ends_with str end ≡ true) ↔ EndsWith str end
  unfolding ends_with
  ends_with-EndsWith end small small' = elim (Bool-cases (ltb (length str) (length end))) [
    | inl longer ↦
        let negative : slt32 (sub32 (length str) (length end)) 0 ≡ true =
          ground (arith, longer, small, small') in
        let fails : ends_with str end ≡ false = rw negative refl in
        (
          λ h. ground (arith, h, fails),
          λ (front, e).
              let size : length str ≡ length (front ++ end) = ap length e in
              absurd (ground (arith, longer, size, length-append front end)),
        )
    | inr fits ↦
        let positive : slt32 (sub32 (length str) (length end)) 0 ≡ false =
          ground (arith, fits, small, small') in
        let diff : sub32 (length str) (length end) ≡ length str - length end =
          ground (arith, fits, small) in
        let place : ℕ = length str - length end in
        let size : length (drop place str) ≡ length end =
          ground (arith, length-drop place str, fits) in
        let same : ends_with str end ≡ is_same (drop place str) end =
          rw (positive, diff)
            (end_matches-is_same place 0 (drop place str) end (ap (λ n. drop n str) (omega arith))
              size (ground (arith, fits, small))) in
        (
          λ h. (
            take place str,
            sym (take-append-drop place str)
                ∙ ap (take place str ++◌) (is_same-eq (drop place str) end (sym same ∙ h)),
          ),
          λ (front, e).
              let sizes : length str ≡ length (front ++ end) = ap length e in
              let at : place ≡ length front = ground (arith, sizes, length-append front end) in
              let back : drop place str ≡ end =
                ap (drop place) e ∙ drop-append place front end at in
              same ∙ ap (λ xs. is_same xs end) back ∙ is_same_refl end,
        )
  ]
