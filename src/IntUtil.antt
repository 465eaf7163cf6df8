-- ===== src/IntUtil.antt =====
-- src/common/intutil.c: decimal numbers read into integers of 8 to 64 bits. A string is the list of
-- its bytes, without the null byte at the end. A result is the two's complement pattern.
pub mod Decimal
use regex_markup.Common.{
  ℕ, ◌+◌, ◌-◌, ◌*◌, ◌/◌, ◌%◌, ◌^◌, ◌≡◌, List, [], ◌∷◌, Option, none, some, Bool, true, false, ◌&&◌,
  ◌||◌, ltb, leb, ◌==◌, if◌then◌else◌,
}

-- `int8_t c = *instr - '0'`, where the test `c < 0 || c > 9` does not hold.
unfoldable pub digit : ℕ → Option ℕ
digit byte = let c = (byte + 256 - b'0') % 256 in if leb 128 c || ltb 9 c then none else some c

-- The loop over the digits of a type of `2 ^ w` patterns, up to `limit`: the greatest value, or for
-- negative numbers, which are kept by their distance from 0, that of the least.
unfoldable pub parse_digits : (w limit value : ℕ) → List ℕ → Option ℕ
unfolding digit
parse_digits w limit value [] = some value
parse_digits w limit value (byte ∷ instr) = elim (digit byte) [
  | none ↦ none
  | some c ↦
      let rest = parse_digits w limit ((value * 10 + c) % 2 ^ w) instr in
      if ltb (limit / 10) value || (value == limit / 10 && ltb (limit % 10) c) then none else rest
]

-- parse_int8 to parse_int64: `-` and digits, or digits, at least one.
unfoldable pub parse_int : ℕ → List ℕ → Option ℕ
unfolding parse_digits
parse_int w [] = none
parse_int w (byte ∷ instr) =
    let positive = parse_digits w (2 ^ (w - 1) - 1) 0 (byte ∷ instr) in
    let negative = parse_digits w (2 ^ (w - 1)) 0 instr in
    if byte == b'-'
    then (elim instr [
      | [] ↦ none
      | _ ∷ _ ↦ elim negative [ none ↦ none | some value ↦ some ((2 ^ w - value) % 2 ^ w) ]
    ])
    else positive

-- parse_uint8 to parse_uint64: the string may be empty.
unfoldable pub parse_uint : ℕ → List ℕ → Option ℕ
unfolding parse_digits
parse_uint w instr = parse_digits w (2 ^ w - 1) 0 instr

abbrev pub parse_int8 : List ℕ → Option ℕ
parse_int8 = parse_int 8

abbrev pub parse_int16 : List ℕ → Option ℕ
parse_int16 = parse_int 16

abbrev pub parse_int32 : List ℕ → Option ℕ
parse_int32 = parse_int 32

abbrev pub parse_int64 : List ℕ → Option ℕ
parse_int64 = parse_int 64

abbrev pub parse_uint8 : List ℕ → Option ℕ
parse_uint8 = parse_uint 8

abbrev pub parse_uint16 : List ℕ → Option ℕ
parse_uint16 = parse_uint 16

abbrev pub parse_uint32 : List ℕ → Option ℕ
parse_uint32 = parse_uint 32

abbrev pub parse_uint64 : List ℕ → Option ℕ
parse_uint64 = parse_uint 64
