-- ===== src/StringUtils/Stripped.antt =====
-- src/common/string-utils.c: string_strip_trailing and string_strip_leading.
use regex_markup.Common.{
  ℕ, zero, suc, ◌-◌, ◌<◌, ◌≤◌, ◌≡◌, refl, sym, subst, List, Option, true, length, get_or, take,
  arith, sub32, slt32, i32, wrap32, some, if◌then◌else◌, none, false, Bool-cases, ◌==◌, ==_iff, ◌⊎◌,
  inl, inr,
}
use regex_markup.StringUtils.{listed, kept, string_strip_trailing}

module _ (chars str : List ℕ) where
  -- Of the first `m` characters `n` are left: the ones behind are all in the set, the last is not.
  abbrev pub Kept : (m n : ℕ) → Type 0
  Kept m n =
      (n ≤ m)
      × ((i : ℕ) → n ≤ i → i < m → listed chars (get_or str i 0) ≡ true)
      × ((n ≡ 0) ⊎ ((k : ℕ) × (n ≡ suc k) × (listed chars (get_or str k 0) ≡ false)))

  further :
      (m i : ℕ)
      → listed chars (get_or str m 0) ≡ true
      → (i < m → listed chars (get_or str i 0) ≡ true)
      → i < suc m
      → listed chars (get_or str i 0) ≡ true
  further m i here before to = elim (Bool-cases (i == m)) [
    | inl at ↦ subst (λ j. listed chars (get_or str j 0) ≡ true) (sym ((==_iff i m).0 at)) here
    | inr other ↦ before (ground (arith, other, to))
  ]

  kept-Kept : (m : ℕ) → Kept m (kept chars str m)
  unfolding kept
  kept-Kept zero = (omega arith, (λ i le lt. absurd (omega arith)), inl refl)
  kept-Kept (suc m) = elim (Bool-cases (listed chars (get_or str m 0))) [
    | inl gone ↦
        let (le, all, last) = kept-Kept m in
        rw gone (omega (arith, le), (λ i from to. further m i gone (λ lt. all i from lt) to), last)
    | inr stays ↦ rw stays (omega arith, (λ i from to. absurd (omega arith)), inr (m, refl, stays))
  ]

  -- string_strip_trailing takes away the longest end of a string, of less than 2 ^ 31 characters,
  -- that is made of the given characters: what is left is a start of it, behind which there are only
  -- such characters, and it is empty or its last one is no such character. It returns their number,
  -- and writes inside the string.
  pub string_strip_trailing-Kept :
      length str < i32
      → (n : ℕ) × (string_strip_trailing str chars ≡ some (length str - n, take n str))
        × Kept (length str) n
  unfolding string_strip_trailing
  string_strip_trailing-Kept small =
      let n : ℕ = kept chars str (length str) in
      let k : Kept (length str) n = kept-Kept (length str) in
      let size : wrap32 (length str) ≡ length str = omega (arith, small) in
      (n, rw size (stripped (length str) n small k.0), k)
    where
      -- Neither index is negative, but for -1 where the string is empty.
      stripped :
          (len n : ℕ)
          → len < i32
          → n ≤ len
          → (let m = if slt32 (sub32 len 1) 0 then len else n in
              let done : Option (ℕ × List ℕ) = some (sub32 len m, take m str) in
              if slt32 m 0 then none else done)
            ≡ some (len - n, take n str)
      stripped len n small le =
          let left : (if slt32 (sub32 len 1) 0 then len else n) ≡ n = ground (arith, small, le) in
          let inside : slt32 n 0 ≡ false = ground (arith, small, le) in
          let gone : sub32 len n ≡ len - n = omega (arith, small, le) in
          rw (left, inside, gone) refl
