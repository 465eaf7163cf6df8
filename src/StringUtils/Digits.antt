-- ===== src/StringUtils/Digits.antt =====
-- src/common/string-utils.c: uintlen, the number of decimal digits.
use regex_markup.Common.{
  ℕ, zero, suc, ◌+◌, ◌/◌, ◌^◌, ◌<◌, ◌≤◌, ◌≡◌, refl, sym, ap, subst, ◌∙◌, some, true, false, leb,
  arith, add32, u32, Bool-cases, ◌⊎◌, inl, inr,
}
use native.Mathlib.Nat.{pow-succ'}
use regex_markup.StringUtils.{digits_loop, uintlen}

-- `k` digits more than one.
abbrev HasDigits : (value k : ℕ) → Type 0
HasDigits value k = (value < 10 ^ (k + 1)) × ((k ≡ 0) ⊎ (10 ^ k ≤ value))

times_ten : (n value : ℕ) → value / 10 < 10 ^ n → value < 10 ^ (n + 1)
times_ten n value lt =
    let next : n + 1 ≡ suc n = omega arith in
    subst (λ m. value < 10 ^ m) (sym next) (omega (arith, lt, pow-succ' 10 n))

at_least :
    (k value : ℕ) → leb 10 value ≡ true → (k ≡ 0) ⊎ (10 ^ k ≤ value / 10) → 10 ^ (k + 1) ≤ value
at_least k value more (inl e) = subst (λ m. 10 ^ (m + 1) ≤ value) (sym e) (ground (arith, more))
at_least k value more (inr le) =
    let next : k + 1 ≡ suc k = omega arith in
    subst (λ m. 10 ^ m ≤ value) (sym next) (omega (arith, le, pow-succ' 10 k))

next_digit :
    (f value len : ℕ)
    → leb 10 value ≡ true
    → digits_loop (suc f) value len ≡ digits_loop f (value / 10) (add32 len 1)
unfolding digits_loop
next_digit f value len more = rw more refl

digits_loop-HasDigits :
    (f value len : ℕ)
    → value < 10 ^ suc f
    → len + f < u32
    → (k : ℕ) × (digits_loop (suc f) value len ≡ some (len + k)) × HasDigits value k
unfolding digits_loop
digits_loop-HasDigits zero value len le small =
    let last : leb 10 value ≡ false = ground (arith, le) in
    (0, rw last (ap some (omega arith)), (ground (arith, le), inl refl))
digits_loop-HasDigits (suc f) value len le small = elim (Bool-cases (leb 10 value)) [
  | inr last ↦ (0, rw last (ap some (omega arith)), (ground (arith, last), inl refl))
  | inl more ↦
      let next : add32 len 1 ≡ len + 1 = omega (arith, small) in
      let bound : value / 10 < 10 ^ suc f = omega (arith, le, pow-succ' 10 (suc f)) in
      let (k, e, (lt, ge)) = digits_loop-HasDigits f (value / 10) (len + 1) bound (omega arith) in
      (
        k + 1,
        next_digit (suc f) value len more
            ∙ ap (digits_loop (suc f) (value / 10)) next
            ∙ e
            ∙ ap some (omega arith),
        (times_ten (k + 1) value lt, inr (at_least k value more ge)),
      )
]

-- uintlen ends for every 64-bit value, with the number of its decimal digits, which is 1 for 0.
pub uintlen-digits :
    (value : ℕ)
    → value < 2 ^ 64
    → (k : ℕ) × (uintlen value ≡ some (k + 1))
      × (value < 10 ^ (k + 1))
      × ((k ≡ 0) ⊎ (10 ^ k ≤ value))
unfolding uintlen
uintlen-digits value small =
    let (k, e, has) = digits_loop-HasDigits 19 value 1 (omega (arith, small)) (omega arith) in
    (k, e ∙ ap some (omega arith), has.0, has.1)
