-- ===== src/IntUtil/Decimal.antt =====
-- The loops of src/common/intutil.c against the number that a string of digits means.
use regex_markup.Common.{
  ℕ, zero, suc, ap, ap₂, ◌∙◌, ◌+◌, ◌-◌, ◌*◌, ◌/◌, ◌%◌, ◌^◌, ◌≤◌, ◌<◌, ◌≡◌, refl, ap, List, [], ◌∷◌,
  Option, none, some, Bool, true, false, ◌&&◌, ◌||◌, ltb, leb, ◌==◌, if◌then◌else◌, arith,
  Bool-cases, inl, inr, ltb→lt,
}
use native.Mathlib.Nat.{mod-eq_of_lt, two-pow-succ}
use regex_markup.IntUtil.{digit, parse_digits, parse_int, parse_uint}

abbrev pub all_digits : List ℕ → Bool
all_digits [] = true
all_digits (byte ∷ instr) = leb b'0' byte && leb byte b'9' && all_digits instr

-- The number written by the digits behind those that mean `value`, without a bound.
abbrev pub decimal : ℕ → List ℕ → ℕ
decimal value [] = value
decimal value (byte ∷ instr) = decimal (value * 10 + (byte - b'0')) instr

abbrev pub IsBytes : List ℕ → Type 0
IsBytes [] = Unit {0}
IsBytes (byte ∷ instr) = (byte < 256) × IsBytes instr

-- A number that is written by digits only and is not above the limit.
abbrev pub read_decimal : (limit value : ℕ) → List ℕ → Option ℕ
read_decimal limit value instr =
    if all_digits instr && leb (decimal value instr) limit then some (decimal value instr) else none

decimal-le : (value : ℕ) (instr : List ℕ) → value ≤ decimal value instr
decimal-le value [] = omega arith
decimal-le value (byte ∷ instr) = omega (arith, decimal-le (value * 10 + (byte - b'0')) instr)

digit-range :
    (byte : ℕ)
    → byte < 256
    → digit byte ≡ (if leb b'0' byte && leb byte b'9' then some (byte - b'0') else none)
unfolding digit
digit-range byte h = ground arith

-- The test for one more digit.
guard :
    (limit value c : ℕ)
    → c ≤ 9
    → (ltb (limit / 10) value || value == limit / 10 && ltb (limit % 10) c)
      ≡ ltb limit (value * 10 + c)
guard limit value c h = ground arith

-- Past the limit, whatever follows.
read_decimal-above :
    (limit value : ℕ) (instr : List ℕ) → limit < value → read_decimal limit value instr ≡ none
read_decimal-above limit value instr h = ground (arith, decimal-le value instr)

abbrev over_limit : (limit value c : ℕ) → Bool
over_limit limit value c = ltb (limit / 10) value || value == limit / 10 && ltb (limit % 10) c

abbrev take_digit : (limit value : ℕ) (rest : ℕ → Option ℕ) → Option ℕ → Option ℕ
take_digit limit value rest none = none
take_digit limit value rest (some c) = if over_limit limit value c then none else rest c

take_digit-range :
    (limit value byte : ℕ) (rest : ℕ → Option ℕ)
    → take_digit limit value rest
        (if leb b'0' byte && leb byte b'9' then some (byte - b'0') else none)
      ≡ (if leb b'0' byte && leb byte b'9'
          then if ltb limit (value * 10 + (byte - b'0')) then none else rest (byte - b'0')
          else none)
take_digit-range limit value byte rest = elim (Bool-cases (leb b'0' byte && leb byte b'9')) [
  | inr other ↦ rw other refl
  | inl decimal_digit ↦ rw decimal_digit (
      ap (λ b. if b then none else rest (byte - b'0'))
        (guard limit value (byte - b'0') (ground arith)))
]

both :
    (a b c : Bool) (x : ℕ)
    → (if a then (if b && c then some x else none) else none)
      ≡ (if (a && b) && c then some x else none)
both true b c x = refl
both false b c x = refl

-- One digit more, where what follows it is read.
read_step :
    (w limit value byte : ℕ) (instr : List ℕ)
    → limit < 2 ^ w
    → byte < 256
    → (let v = value * 10 + (byte - b'0') in
        v ≤ limit → parse_digits w limit v instr ≡ read_decimal limit v instr)
    → parse_digits w limit value (byte ∷ instr) ≡ read_decimal limit value (byte ∷ instr)
unfolding parse_digits
read_step w limit value byte instr fits h next =
    ap (take_digit limit value (λ c. parse_digits w limit ((value * 10 + c) % 2 ^ w) instr))
      (digit-range byte h)
    ∙ take_digit-range limit value byte (λ c. parse_digits w limit ((value * 10 + c) % 2 ^ w) instr)
    ∙ remaining (value * 10 + (byte - b'0')) next
  where
    remaining :
        (v : ℕ)
        → (v ≤ limit → parse_digits w limit v instr ≡ read_decimal limit v instr)
        → (if leb b'0' byte && leb byte b'9'
            then if ltb limit v then none else parse_digits w limit (v % 2 ^ w) instr
            else none)
          ≡ (if (leb b'0' byte && leb byte b'9' && all_digits instr) && leb (decimal v instr) limit
              then some (decimal v instr)
              else none)
    remaining v next = elim (Bool-cases (ltb limit v)) [
      | inl over ↦ let above : limit < v = ltb→lt limit v over in ground (arith, decimal-le v instr)
      | inr under ↦
          let small : v ≤ limit = ground arith in
          let unwrapped : v % 2 ^ w ≡ v = mod-eq_of_lt {n = v} {m = 2 ^ w} (omega arith) in
          rw (under, unwrapped, next small)
            (both (leb b'0' byte && leb byte b'9') (all_digits instr) (leb (decimal v instr) limit)
              (decimal v instr))
    ]

-- The loop of the parse functions accepts digits only, up to the limit of the type, and computes
-- the number they mean; no step wraps.
pub parse_digits-read :
    (w limit value : ℕ) (instr : List ℕ)
    → limit < 2 ^ w
    → value ≤ limit
    → IsBytes instr
    → parse_digits w limit value instr ≡ read_decimal limit value instr
unfolding parse_digits
parse_digits-read w limit value [] fits le bytes = ground arith
parse_digits-read w limit value (byte ∷ instr) fits le (h, bytes) =
    read_step w limit value byte instr fits h
      (λ small. parse_digits-read w limit (value * 10 + (byte - b'0')) instr fits small bytes)

-- What a string means to the functions for signed numbers of `w` bits: digits, or `-` and digits,
-- with the result as a pattern.
abbrev pub read_signed : ℕ → List ℕ → Option ℕ
read_signed w [] = none
read_signed w (byte ∷ []) = read_decimal (2 ^ (w - 1) - 1) 0 (byte ∷ [])
read_signed w (byte ∷ next ∷ instr) =
    if byte == b'-'
    then elim (read_decimal (2 ^ (w - 1)) 0 (next ∷ instr)) [
      | none ↦ none
      | some value ↦ some ((2 ^ w - value) % 2 ^ w)
    ]
    else read_decimal (2 ^ (w - 1) - 1) 0 (byte ∷ next ∷ instr)

pow_positive : (w : ℕ) → 0 < 2 ^ w
pow_positive zero = omega arith
pow_positive (suc w) =
    let double : 2 ^ suc w ≡ 2 ^ w + 2 ^ w = two-pow-succ w in omega (arith, pow_positive w, double)

half-lt : (w : ℕ) → 1 ≤ w → 2 ^ (w - 1) < 2 ^ w
half-lt zero h = absurd (omega arith)
half-lt (suc w) h =
    let before : 2 ^ (suc w - 1) ≡ 2 ^ w = ap (2 ^◌) (omega arith) in
    let double : 2 ^ suc w ≡ 2 ^ w + 2 ^ w = two-pow-succ w in
    omega (arith, pow_positive w, before, double)

minus_alone :
    (limit byte : ℕ)
    → (if byte == b'-' then none else read_decimal limit 0 (byte ∷ []))
      ≡ read_decimal limit 0 (byte ∷ [])
minus_alone limit byte = ground arith

-- parse_int8 to parse_int64 accept a number exactly where it is written by digits, one at least, with
-- a `-` before them or none, and the type has it, and they return its two's complement pattern.
pub parse_int-read :
    (w : ℕ) (instr : List ℕ) → 1 ≤ w → IsBytes instr → parse_int w instr ≡ read_signed w instr
unfolding parse_int
parse_int-read w [] h bytes = refl
parse_int-read w (byte ∷ []) h bytes =
    ap (λ positive. if byte == b'-' then none else positive)
      (parse_digits-read w (2 ^ (w - 1) - 1) 0 (byte ∷ []) (omega (arith, half-lt w h))
        (omega arith) bytes)
    ∙ minus_alone (2 ^ (w - 1) - 1) byte
parse_int-read w (byte ∷ next ∷ instr) h bytes =
    ap₂
      (λ (negative positive : Option ℕ).
        if byte == b'-'
        then elim negative [ none ↦ none | some value ↦ some ((2 ^ w - value) % 2 ^ w) ]
        else positive)
      (parse_digits-read w (2 ^ (w - 1)) 0 (next ∷ instr) (half-lt w h) (omega arith) bytes.1)
      (parse_digits-read w (2 ^ (w - 1) - 1) 0 (byte ∷ next ∷ instr) (omega (arith, half-lt w h))
        (omega arith) bytes)

-- parse_uint8 to parse_uint64 accept a number exactly where it is written by digits and the type has
-- it, the empty string as 0, and they return it.
pub parse_uint-read :
    (w : ℕ) (instr : List ℕ)
    → 1 ≤ w
    → IsBytes instr
    → parse_uint w instr ≡ read_decimal (2 ^ w - 1) 0 instr
unfolding parse_uint
parse_uint-read w instr h bytes =
    parse_digits-read w (2 ^ w - 1) 0 instr (omega (arith, half-lt w h)) (omega arith) bytes
