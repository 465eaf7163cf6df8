-- ===== src/Tests/StringUtils.antt =====
-- src/common/string-utils.c at small strings.
use regex_markup.Common.{ℕ, ◌≡◌, refl, List, [], ◌∷◌, some, Bool, ◌==◌, length, take, arith, ◌-◌}
use regex_markup.StringUtils.{
  word_get, word_get_index, string_strip_trailing, chomp, translate_char, char_index,
}
use regex_markup.StringUtils.Stripped.{Kept, string_strip_trailing-Kept}
use regex_markup.StringUtils.Words.{nth, words, word_get-nth}

-- "a b/"
abbrev str : List ℕ
str = b'a' ∷ b' ' ∷ b'b' ∷ b'/' ∷ []

abbrev is_space : ℕ → Bool
is_space c = c == b' '

chomp_newline : chomp (b'a' ∷ b'\n' ∷ []) ≡ b'a' ∷ []
unfolding chomp
chomp_newline = refl

translate_spaces : translate_char str b' ' b'_' ≡ (1, b'a' ∷ b'_' ∷ b'b' ∷ b'/' ∷ [])
unfolding translate_char
translate_spaces = refl

char_index_space : char_index str is_space ≡ 1
unfolding char_index
char_index_space = refl

word_index : word_get_index is_space str 3 ≡ 1
unfolding word_get_index
word_index = refl

string_strip_trailing-Kept_example :
    (n : ℕ) × (string_strip_trailing str (b'/' ∷ []) ≡ some (length str - n, take n str))
    × Kept (b'/' ∷ []) str (length str) n
string_strip_trailing-Kept_example = string_strip_trailing-Kept (b'/' ∷ []) str (omega arith)

word_get-nth_example : word_get is_space str 1 ≡ some (nth (words is_space str) 1)
word_get-nth_example = word_get-nth is_space str 1 (omega arith) (omega arith)
