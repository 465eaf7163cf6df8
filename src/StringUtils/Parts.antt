-- ===== src/StringUtils/Parts.antt =====
-- src/common/string-utils.c, substring: a part of a string that is written as three.
use regex_markup.Common.{
  ℕ, ◌+◌, ◌<◌, ◌≡◌, refl, ap, ◌∙◌, List, ◌++◌, some, false, ltb, length, length-append, drop,
  drop-append, take-append, arith, wrap32, sub32, slt32, i32,
}
use regex_markup.StringUtils.{substring}

pub substring-middle :
    (str front part back : List ℕ)
    → str ≡ front ++ (part ++ back)
    → length str < i32
    → substring str (length front) (length front + length part) ≡ some part
unfolding substring
substring-middle str front part back e small =
    let s : ℕ = length front in
    let t : ℕ = length front + length part in
    let size : length str ≡ s + (length part + length back) =
      ap length e ∙ length-append front (part ++ back) ∙ ap (s +◌) (length-append part back) in
    let start : slt32 s 0 ≡ false = ground (arith, size, small) in
    let end : slt32 t 0 ≡ false = ground (arith, size, small) in
    let inside : ltb (wrap32 (length str)) s ≡ false = ground (arith, size, small) in
    let in_order : slt32 t s ≡ false = ground (arith, size, small) in
    let width : sub32 t s ≡ length part = ground (arith, size, small) in
    let behind : drop s str ≡ part ++ back =
      ap (drop s) e ∙ drop-append s front (part ++ back) refl in
    rw (start, end, inside, in_order, width, behind, start)
      (ap some (take-append (length part) part back refl))
