-- ===== src/StrBuf/Gap.antt =====
-- Making room in the middle of a buffer: the memmove of strbuf_replace_data_n.
use regex_markup.Common.{
  ℕ, ◌+◌, ◌-◌, ◌≤◌, ◌<◌, ◌≡◌, refl, ap, sym, ◌∙◌, List, [], ◌∷◌, ◌++◌, some, arith, i32, length,
  length-append, append_assoc, Bool-cases, inl, inr, add32, sub32, wrap32, ◌==◌, if◌then◌else◌,
  ◌>>=◌,
}
use regex_markup.Memory.{
  move_bytes, load_bytes, store_bytes, load_bytes-append, store_bytes-append, split_window,
}
use regex_markup.StrBuf.{StrBuf, strbuf_ensure_capacity, open_gap}
use regex_markup.StrBuf.Held.{Holds, ensure_capacity-Holds}

-- One list that begins two ways.
prefix_of :
    (a x w w' : List ℕ) → x ++ w ≡ a ++ w' → length a ≤ length x → (g : List ℕ) × (x ≡ a ++ g)
prefix_of [] x w w' e h = (x, refl)
prefix_of (b ∷ a) [] w w' e h = absurd (omega arith)
prefix_of (b ∷ a) (y ∷ x) w w' e h =
    let (g, same) = prefix_of a x w w' (cc) (omega arith) in (g, cc)

-- memmove of a tail from behind `b` to `m` bytes behind `a`.
move_tail :
    (buf a b tail s : List ℕ) (m dst src n : ℕ)
    → buf ≡ a ++ (b ++ (tail ++ s))
    → src ≡ length a + length b
    → n ≡ length tail
    → dst ≡ length a + m
    → dst + n ≤ length buf
    → (g : List ℕ) × (z : List ℕ) × (move_bytes buf dst src n ≡ some (a ++ (g ++ (tail ++ z))))
      × (length g ≡ m)
      × (length (a ++ (g ++ (tail ++ z))) ≡ length buf)
unfolding move_bytes
move_tail buf a b tail s m dst src n shape at_src at_n at_dst room =
    let (x, y, z, cut, lx, ly) = split_window buf dst n room in
    let (g, front) = prefix_of a x (y ++ z) _ (sym cut ∙ shape) (omega arith) in
    let loaded : load_bytes buf src n ≡ some tail =
      ap (λ w. load_bytes w src n) (shape ∙ sym (append_assoc a b (tail ++ s)))
      ∙ load_bytes-append (a ++ b) tail s src n (omega (arith, length-append a b)) at_n in
    let stored : store_bytes buf dst tail ≡ some (a ++ (g ++ (tail ++ z))) =
      ap (λ w. store_bytes w dst tail) cut
      ∙ store_bytes-append x y z tail dst (omega arith) (omega arith)
      ∙ ap (λ w. some (w ++ (tail ++ z))) front
      ∙ ap some (append_assoc a g (tail ++ z)) in
    (
      g,
      z,
      ap (λ o. o >>= λ bytes. store_bytes buf dst bytes) loaded ∙ stored,
      omega (arith, ap length front, length-append a g),
      omega (
        arith,
        ap length front,
        ap length cut,
        length-append a g,
        length-append x (y ++ z),
        length-append y z,
        length-append a (g ++ (tail ++ z)),
        length-append g (tail ++ z),
        length-append tail z,
      ),
    )

-- What a call of `open_gap` has done: `addlen` bytes of no meaning between the two parts.
pub record Gap (sb : StrBuf) (a c : List ℕ) (addlen : ℕ) : Type 0 where
  pub gap : List ℕ
  pub spare : List ℕ
  pub bytes : sb.buf ≡ a ++ (gap ++ (c ++ (0 ∷ spare)))
  pub length_gap : length gap ≡ addlen
  pub len : sb.len ≡ length a + addlen + length c
  pub capacity : sb.capacity ≡ length sb.buf

module _ (junk : ℕ) (sb : StrBuf) (a b c : List ℕ) (k : Holds sb (a ++ (b ++ c)))
    (small : length a + length b + length c < i32) (addlen : ℕ)
    (fits : length a + addlen + length c < i32) where
  text_length : sb.len ≡ length a + length b + length c
  text_length = omega (arith, k.len, length-append a (b ++ c), length-append b c)

  open_gap-Gap :
      (lo hi : ℕ)
      → lo ≡ length a
      → hi ≡ length a + length b
      → (sb' : StrBuf) × (open_gap junk sb lo hi addlen ≡ some sb') × Gap sb' a c addlen
  unfolding open_gap
  open_gap-Gap lo hi at_lo at_hi =
      let need : ℕ = wrap32 (sub32 (add32 sb.len 1) (hi - lo) + addlen) in
      let needed : need ≡ length a + addlen + length c + 1 = omega (arith, text_length) in
      let (holds, room) = ensure_capacity-Holds junk sb (a ++ (b ++ c)) need k in
      let shape : (strbuf_ensure_capacity junk sb need).buf
          ≡ a ++ (b ++ ((c ++ (0 ∷ [])) ++ holds.spare)) =
        holds.bytes ∙ simp append_assoc in
      let (g, z, moved, lg, same) =
        move_tail (strbuf_ensure_capacity junk sb need).buf a b (c ++ (0 ∷ [])) holds.spare addlen
          (lo + addlen) hi (sb.len + 1 - hi) shape at_hi
          (omega (arith, text_length, length-append c (0 ∷ []))) (omega arith)
          (omega (arith, text_length)) in
      (
        record {
          buf = a ++ (g ++ ((c ++ (0 ∷ [])) ++ z));
          len = add32 sb.len (sub32 addlen (hi - lo));
          capacity = (strbuf_ensure_capacity junk sb need).capacity;
        },
        ap
            (λ o. o >>= λ buf. some (record (strbuf_ensure_capacity junk sb need) {
              buf = buf;
              len = add32 sb.len (sub32 addlen (hi - lo));
            }))
            moved,
        record {
          gap = g;
          spare = z;
          bytes = simp append_assoc;
          length_gap = lg;
          len = omega (arith, text_length);
          capacity = omega (arith, holds.capacity, same);
        },
      )

  -- Where the lengths agree, the old text is the gap.
  pub Gap-made :
      (lo hi : ℕ)
      → lo ≡ length a
      → hi ≡ length a + length b
      → (sb' : StrBuf) × ((if addlen == hi - lo then some sb else open_gap junk sb lo hi addlen)
          ≡ some sb')
        × Gap sb' a c addlen
  Gap-made lo hi at_lo at_hi = elim (Bool-cases (addlen == hi - lo)) [
    | inl same ↦ (
      sb,
      rw same,
      record {
        gap = b;
        spare = k.spare;
        bytes = k.bytes ∙ simp append_assoc;
        length_gap = ground arith;
        len = let e : addlen ≡ hi - lo = ground arith in omega (arith, text_length);
        capacity = k.capacity;
      },
    )
    | inr other ↦ rw other (open_gap-Gap lo hi at_lo at_hi)
  ]
