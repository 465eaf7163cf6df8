-- ===== src/StrBuf/Edits.antt =====
-- The operations of src/common/strbuf.h that the rest of the program calls, on the text held.
use regex_markup.Common.{
  ℕ, ◌+◌, ◌-◌, ◌≤◌, ◌<◌, ◌≡◌, refl, ap, sym, ◌∙◌, List, [], ◌∷◌, ◌++◌, Option, none, some, arith,
  i32, length, take, drop, length-append, append_assoc, append-nil, subst, minus_one, take-append,
  drop-append, ◌>>=◌,
}
use regex_markup.Memory.{load_bytes, load_bytes-append, split_window}
use regex_markup.StrBuf.{
  StrBuf, normalize_strbuf_pos, normalize_str_pos, lower, higher, substr_bytes,
  strbuf_replace_data_n, strbuf_replace_substring_n, strbuf_replace, strbuf_append, strbuf_set,
  strbuf_substring,
}
use regex_markup.StrBuf.Held.{Holds}
use regex_markup.StrBuf.Splice.{
  splice, from_pos, to_pos, strbuf_replace_data_n-splice, window_positions,
}

-- A NULL pointer stands for no characters.
abbrev pub chars : Option (List ℕ) → List ℕ
chars none = []
chars (some str) = str

take-length : (xs : List ℕ) → take (length xs) xs ≡ xs
take-length xs = ap (take (length xs)) (sym (append-nil xs)) ∙ take-append (length xs) xs [] refl

drop-length : (xs : List ℕ) → drop (length xs) xs ≡ []
drop-length xs = ap (drop (length xs)) (sym (append-nil xs)) ∙ drop-append (length xs) xs [] refl

splice_ends :
    (t ins : List ℕ) (lo hi n : ℕ) → lo ≡ n → hi ≡ length t → splice t lo hi ins ≡ take n t ++ ins
splice_ends t ins lo hi n p q =
    ap (λ m. splice t m hi ins) p
    ∙ ap (λ m. splice t n m ins) q
    ∙ ap (λ w. take n t ++ (ins ++ w)) (drop-length t)
    ∙ ap (take n t ++◌) (append-nil ins)

-- From 0 to -1 is the whole string.
substr_bytes-whole :
    (str : Option (List ℕ)) → length (chars str) < i32 → substr_bytes str 0 minus_one ≡ chars str
unfolding substr_bytes
substr_bytes-whole none small = refl
substr_bytes-whole (some s) small = rw (start, finish, in_order.0, in_order.1) (take-length s)
  where
    start : normalize_str_pos (some s) 0 ≡ 0
    start = ground arith

    finish : normalize_str_pos (some s) minus_one ≡ length s
    finish = ground arith

    in_order : (lower 0 (length s) ≡ 0) × (higher 0 (length s) - 0 ≡ length s)
    in_order = ground arith

module _ (junk : ℕ) (sb : StrBuf) (t : List ℕ) (k : Holds sb t) where
  -- strbuf_replace puts the string between the two positions, NULL standing for the empty string,
  -- where the old text and the string have less than 2 ^ 31 characters together.
  pub strbuf_replace-splice :
      (sp ep : ℕ) (str : Option (List ℕ))
      → length t + length (chars str) < i32
      → (sb' : StrBuf) × (strbuf_replace junk sb sp ep str ≡ some sb')
        × Holds sb' (splice t (from_pos t sp ep) (to_pos t sp ep) (chars str))
  unfolding strbuf_replace strbuf_replace_substring_n
  strbuf_replace-splice sp ep str fits =
      let (sb', done, holds) =
        strbuf_replace_data_n-splice junk sb t sp ep 1 (chars str) k (omega arith) in
      (
        sb',
        ap (strbuf_replace_data_n junk sb sp ep 1) (substr_bytes-whole str (omega arith)) ∙ done,
        subst (λ w. Holds sb' (splice t (from_pos t sp ep) (to_pos t sp ep) w))
            (append-nil (chars str)) holds,
      )

  -- strbuf_append puts the string behind the text, where both have less than 2 ^ 31 characters
  -- together.
  pub strbuf_append-Holds :
      (str : Option (List ℕ))
      → length t + length (chars str) < i32
      → (sb' : StrBuf) × (strbuf_append junk sb str ≡ some sb') × Holds sb' (t ++ chars str)
  unfolding strbuf_append
  strbuf_append-Holds str fits =
      let (sb', done, holds) = strbuf_replace-splice minus_one minus_one str fits in
      let all : splice t (from_pos t minus_one minus_one) (to_pos t minus_one minus_one) (chars str)
          ≡ take (length t) t ++ chars str =
        splice_ends t (chars str) _ _ (length t) (omega arith) (omega arith) in
      (sb', done, subst (Holds sb') (all ∙ ap (◌++ chars str) (take-length t)) holds)

  -- strbuf_set makes the string the text, where both have less than 2 ^ 31 characters together.
  pub strbuf_set-Holds :
      (str : Option (List ℕ))
      → length t + length (chars str) < i32
      → (sb' : StrBuf) × (strbuf_set junk sb str ≡ some sb') × Holds sb' (chars str)
  unfolding strbuf_set
  strbuf_set-Holds str fits =
      let (sb', done, holds) = strbuf_replace-splice 0 minus_one str fits in
      (
        sb',
        done,
        subst (Holds sb') (splice_ends t (chars str) _ _ 0 (omega arith) (omega arith)) holds,
      )

terminated : (c spare : List ℕ) → (x : ℕ) × (rest : List ℕ) × (c ++ (0 ∷ spare) ≡ (x ∷ []) ++ rest)
terminated [] spare = (0, spare, refl)
terminated (x ∷ c) spare = (x, c ++ (0 ∷ spare), refl)

load_text :
    (sb : StrBuf) (t : List ℕ) (lo hi : ℕ)
    → Holds sb t
    → lo ≤ hi
    → hi ≤ length t
    → (load_bytes sb.buf lo (hi - lo + 1) >>= λ w. some (take (hi - lo) w))
      ≡ some (take (hi - lo) (drop lo t))
load_text sb t lo hi k in_order within =
    let (a, b, c, cut, la, lb) = split_window t lo (hi - lo) (omega arith) in
    let (x, rest, end) = terminated c k.spare in
    let shape : sb.buf ≡ a ++ ((b ++ (x ∷ [])) ++ rest) =
      k.bytes
      ∙ ap (◌++ (0 ∷ k.spare)) cut
      ∙ append_assoc a (b ++ c) (0 ∷ k.spare)
      ∙ ap (a ++◌) (append_assoc b c (0 ∷ k.spare) ∙ ap (b ++◌) end)
      ∙ ap (a ++◌) (sym (append_assoc b (x ∷ []) rest)) in
    let loaded : load_bytes sb.buf lo (hi - lo + 1) ≡ some (b ++ (x ∷ [])) =
      ap (λ w. load_bytes w lo (hi - lo + 1)) shape
      ∙ load_bytes-append a (b ++ (x ∷ [])) rest lo (hi - lo + 1) (omega arith)
          (omega (arith, length-append b (x ∷ []))) in
    ap (λ o. o >>= λ w. some (take (hi - lo) w)) loaded
    ∙ ap some (
        take-append (hi - lo) b (x ∷ []) (omega arith)
        ∙ sym (
            ap (take (hi - lo)) (ap (drop lo) cut ∙ drop-append lo a (b ++ c) (omega arith))
            ∙ take-append (hi - lo) b c (omega arith)))

-- strbuf_substring returns the text between the two positions, which are cut to its length and put
-- in order, where the text has less than 2 ^ 31 characters.
pub strbuf_substring-take :
    (sb : StrBuf) (t : List ℕ) (sp ep : ℕ)
    → Holds sb t
    → length t < i32
    → strbuf_substring sb sp ep
      ≡ some (take (to_pos t sp ep - from_pos t sp ep) (drop (from_pos t sp ep) t))
unfolding strbuf_substring
strbuf_substring-take sb t sp ep k small =
    let (at_lo, at_hi) = window_positions sb t sp ep k.len small in
    ap
      (λ q. load_bytes sb.buf (lower p' q') (q - lower p' q' + 1) >>= λ w.
        some (take (q - lower p' q') w))
      at_hi
    ∙ ap
        (λ p.
          load_bytes sb.buf p (to_pos t sp ep - p + 1) >>= λ w. some (take (to_pos t sp ep - p) w))
        at_lo
    ∙ load_text sb t (from_pos t sp ep) (to_pos t sp ep) k (omega arith) (omega arith)
  where
    p' : ℕ
    p' = normalize_strbuf_pos sb sp

    q' : ℕ
    q' = normalize_strbuf_pos sb ep
