-- ===== src/StringUtils.antt =====
-- src/common/string-utils.c: strings as lists of characters, without the null byte at the end. A
-- function that changes a string returns the new one. Indices are `int`, kept by their patterns.
-- The character classes of the C library, and tolower, are parameters.
pub mod Affixes
pub mod Stripped
pub mod Parts
pub mod Words
pub mod Paths
pub mod Digits
use regex_markup.Common.{
  ℕ, zero, suc, ◌+◌, ◌-◌, ◌/◌, List, [], ◌∷◌, ◌++◌, Option, none, some, Bool, true, false, not,
  ◌&&◌, ◌||◌, ◌==◌, ltb, leb, if◌then◌else◌, length, get_or, take, drop, map, wrap32, add32, sub32,
  slt32, minus_one,
}

-- strchr: the null byte at the end is found as well.
unfoldable pub char_place : ℕ → List ℕ → Option ℕ
char_place ch [] = if ch == 0 then some 0 else none
char_place ch (c ∷ str) =
    let rest = char_place ch str in
    if c == ch then some 0 else elim rest [ none ↦ none | some i ↦ some (suc i) ]

unfoldable pub strindex : List ℕ → ℕ → ℕ
unfolding char_place
strindex str ch = elim (char_place ch str) [ none ↦ minus_one | some i ↦ wrap32 i ]

-- `string_index_of_c(chars, ch) != -1`
unfoldable pub listed : List ℕ → ℕ → Bool
unfolding strindex
listed chars ch = not (strindex chars ch == minus_one)

unfoldable pub chomp : List ℕ → List ℕ
chomp str =
    let len = wrap32 (length str) in
    if slt32 0 len && get_or str (len - 1) 0 == b'\n' then take (len - 1) str else str

unfoldable pub skip_while : (ℕ → Bool) → List ℕ → List ℕ
skip_while check [] = []
skip_while check (c ∷ line) = let rest = skip_while check line in if check c then rest else c ∷ line

unfoldable pub strip_leading : List ℕ → (ℕ → Bool) → List ℕ
unfolding skip_while
strip_leading [] check = []
strip_leading (c ∷ line) check = if check c then skip_while check line else c ∷ line

unfoldable pub index_where : (ℕ → Bool) → ℕ → List ℕ → ℕ
index_where check c [] = minus_one
index_where check c (d ∷ line) =
    let rest = index_where check (add32 c 1) line in if check d then c else rest

unfoldable pub char_index : List ℕ → (ℕ → Bool) → ℕ
unfolding index_where
char_index line check = index_where check 0 line

unfoldable pub string_index_of_any : List ℕ → List ℕ → ℕ
unfolding index_where listed
string_index_of_any str findchars = index_where (listed findchars) 0 str

-- The loop of ends_with, on what is left of `end`.
unfoldable pub end_matches : (ℕ → ℕ) → List ℕ → (diff c : ℕ) → List ℕ → Bool
end_matches lower str diff c [] = true
end_matches lower str diff c (d ∷ end) =
    let rest = end_matches lower str diff (add32 c 1) end in
    if lower d == lower (get_or str (add32 c diff) 0) then rest else false

unfoldable pub ends_with_nocase : (tolower : ℕ → ℕ) → List ℕ → List ℕ → Bool
unfolding end_matches
ends_with_nocase tolower str end =
    let diff = sub32 (length str) (length end) in
    if slt32 diff 0 then false else end_matches tolower str diff 0 end

unfoldable pub ends_with : List ℕ → List ℕ → Bool
unfolding end_matches
ends_with str end =
    let diff = sub32 (length str) (length end) in
    if slt32 diff 0 then false else end_matches (λ c. c) str diff 0 end

-- The index where the loop of starts_with ends, on what is left of `str`.
unfoldable pub same_until : (ℕ → ℕ) → List ℕ → (c : ℕ) → List ℕ → ℕ
same_until lower start c [] = c
same_until lower start c (d ∷ str) =
    let rest = same_until lower start (add32 c 1) str in
    if lower d == lower (get_or start c 0) then rest else c

unfoldable pub starts_with_nocase : (tolower : ℕ → ℕ) → List ℕ → List ℕ → Bool
unfolding same_until
starts_with_nocase tolower str start = get_or start (same_until tolower start 0 str) 0 == 0

unfoldable pub starts_with : List ℕ → List ℕ → Bool
unfolding same_until
starts_with str start = get_or start (same_until (λ c. c) start 0 str) 0 == 0

-- The number of changes, and the string.
unfoldable pub translate_char : List ℕ → (from to : ℕ) → ℕ × List ℕ
translate_char [] from to = (0, [])
translate_char (c ∷ str) from to =
    let (changes, rest) = translate_char str from to in
    if c == from then (add32 changes 1, to ∷ rest) else (changes, c ∷ rest)

unfoldable pub str_convert : List ℕ → (ℕ → ℕ) → List ℕ
str_convert str convert = map convert str

unfoldable pub iswordchar : (isalnum : ℕ → Bool) → ℕ → Bool
iswordchar isalnum ch = isalnum ch || ch == b'_'

-- `strcmp(file, ".") == 0`
unfoldable pub is_dot : List ℕ → Bool
is_dot [] = false
is_dot (c ∷ []) = c == b'.'
is_dot (c ∷ d ∷ file) = false

unfoldable pub cat_files : List ℕ → List ℕ → List ℕ
unfolding is_dot ends_with
cat_files file file2 =
    if is_dot file
    then file2
    else file ++ (if ends_with file (b'/' ∷ []) then [] else b'/' ∷ []) ++ file2

-- `none` is a read in front of the string or behind its end. A negative length, as size_t, goes on to
-- the end of the string.
unfoldable pub substring : List ℕ → (start end : ℕ) → Option (List ℕ)
substring buf start end =
    let len = wrap32 (length buf) in
    let start' = if slt32 start 0 then add32 start len else start in
    let end' = if slt32 end 0 then add32 end len else end in
    if slt32 start' 0 || ltb len start'
    then none
    else some
        (if slt32 end' start' then drop start' buf else take (sub32 end' start') (drop start' buf))

-- The loop of string_strip_trailing, from `a` that is not negative: what is kept of the first `a + 1`
-- characters.
unfoldable pub kept : List ℕ → List ℕ → ℕ → ℕ
unfolding listed
kept stripchars str zero = 0
kept stripchars str (suc a) =
    let rest = kept stripchars str a in if listed stripchars (get_or str a 0) then rest else suc a

-- The number of characters that are gone, and the string. `len` is `a + 1` in front of the loop, `n`
-- behind it; where `n` is negative, the null byte is written outside the string.
unfoldable pub string_strip_trailing : List ℕ → List ℕ → Option (ℕ × List ℕ)
unfolding kept
string_strip_trailing str stripchars =
    let len = wrap32 (length str) in
    let a = sub32 len 1 in
    let n = if slt32 a 0 then len else kept stripchars str len in
    if slt32 n 0 then none else some (sub32 len n, take n str)

-- For a string of less than 2 ^ 31 characters, like string_strip_leading_c: both indices are `int`.
unfoldable pub string_strip_leading : List ℕ → List ℕ → ℕ × List ℕ
unfolding skip_while listed
string_strip_leading str stripchars =
    let rest = skip_while (listed stripchars) str in (sub32 (length str) (length rest), rest)

unfoldable pub string_strip_leading_c : List ℕ → ℕ → ℕ × List ℕ
unfolding skip_while
string_strip_leading_c str stripchar =
    let rest = skip_while (λ c. c == stripchar) str in (sub32 (length str) (length rest), rest)

module _ (isspace : ℕ → Bool) where
  unfoldable pub words_before : (pos : ℕ) → (in_word : Bool) → (words c : ℕ) → List ℕ → ℕ
  words_before pos in_word words c [] = words
  words_before pos in_word words c (ch ∷ str) =
      let inside = in_word || not (isspace ch) in
      let ends = inside && isspace ch in
      let rest =
        words_before pos (inside && not ends) (if ends then add32 words 1 else words) (add32 c 1)
          str in
      if slt32 c pos then rest else words

  unfoldable pub word_get_index : List ℕ → ℕ → ℕ
  unfolding words_before
  word_get_index str pos = words_before pos false 0 0 str

  -- `none` is a read outside the string, `some none` the result NULL.
  unfoldable pub word_loop :
      List ℕ
      → (idx : ℕ) → (in_word : Bool) → (words start c : ℕ) → List ℕ
      → Option (Option (List ℕ))
  unfolding substring
  word_loop str idx in_word words start c [] =
      if sub32 words 1 == idx
      then elim (substring str start c) [ none ↦ none | some w ↦ some (some w) ]
      else some none
  word_loop str idx in_word words start c (ch ∷ rest) =
      let begins = not in_word && not (isspace ch) in
      let words' = if begins then add32 words 1 else words in
      let start' = if begins then c else start in
      let inside = in_word || begins in
      let later = word_loop str idx (inside && not (isspace ch)) words' start' (add32 c 1) rest in
      if inside && isspace ch && slt32 idx words'
      then elim (substring str start' c) [ none ↦ none | some w ↦ some (some w) ]
      else later

  unfoldable pub word_get : List ℕ → ℕ → Option (Option (List ℕ))
  unfolding word_loop
  word_get str idx = word_loop str idx false 0 minus_one 0 str

-- `for (len = 1; value >= 10; len++)`, on fuel.
unfoldable pub digits_loop : ℕ → (value len : ℕ) → Option ℕ
digits_loop zero value len = none
digits_loop (suc f) value len =
    let rest = digits_loop f (value / 10) (add32 len 1) in if leb 10 value then rest else some len

-- 20 rounds, for a `uint64_t`.
unfoldable pub uintlen : ℕ → Option ℕ
unfolding digits_loop
uintlen value = digits_loop 20 value 1

-- strrchr, of a character that is not the null byte.
unfoldable pub last_place : ℕ → List ℕ → Option ℕ
last_place ch [] = none
last_place ch (c ∷ str) = elim (last_place ch str) [
  | some i ↦ some (suc i)
  | none ↦ if c == ch then some 0 else none
]

unfoldable pub xdirname : List ℕ → Option (List ℕ)
unfolding last_place substring
xdirname path = elim (last_place b'/' path) [
  | none ↦ some (b'.' ∷ [])
  | some i ↦ if i == 0 then some (b'/' ∷ []) else substring path 0 (wrap32 i)
]
