-- ===== src/Tests/IntUtil.antt =====
-- src/common/intutil.c at the ends of the types.
use regex_markup.Common.{ℕ, ◌-◌, ◌^◌, ◌≡◌, refl, List, [], ◌∷◌, none, some, arith}
use regex_markup.IntUtil.{parse_int, parse_uint, parse_digits, digit, parse_uint8, parse_int8}
use regex_markup.IntUtil.Decimal.{
  parse_digits-read, parse_int-read, parse_uint-read, read_decimal, read_signed, IsBytes,
}

abbrev least : List ℕ
least = b'-' ∷ b'1' ∷ b'2' ∷ b'8' ∷ []

abbrev above : List ℕ
above = b'2' ∷ b'5' ∷ b'6' ∷ []

least_read : parse_int8 least ≡ some 128
unfolding parse_int parse_digits digit
least_read = refl

above_read : parse_uint8 above ≡ none
unfolding parse_uint parse_digits digit
above_read = refl

least-IsBytes : IsBytes least
least-IsBytes = (omega arith, (omega arith, (omega arith, (omega arith, tt))))

above-IsBytes : IsBytes above
above-IsBytes = (omega arith, (omega arith, (omega arith, tt)))

parse_digits-read_example : parse_digits 8 255 2 above ≡ read_decimal 255 2 above
parse_digits-read_example =
    parse_digits-read 8 255 2 above (omega arith) (omega arith) above-IsBytes

parse_int-read_example : parse_int 8 least ≡ read_signed 8 least
parse_int-read_example = parse_int-read 8 least (omega arith) least-IsBytes

parse_uint-read_example : parse_uint 8 above ≡ read_decimal (2 ^ 8 - 1) 0 above
parse_uint-read_example = parse_uint-read 8 above (omega arith) above-IsBytes
