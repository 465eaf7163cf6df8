-- ===== src/StrBuf/Held.antt =====
-- What a buffer of src/common/strbuf.c holds, and that it can grow.
use Prim.Native.Nat.{min}
use regex_markup.Common.{
  ℕ, ◌+◌, ◌-◌, ◌*◌, ◌≤◌, ◌<◌, ◌≡◌, refl, ap, sym, ◌∙◌, List, [], ◌∷◌, ◌++◌, arith, i32, length,
  replicate, length-append, append_assoc, set, ltb, Bool-cases, inl, inr, length-replicate, wrap32,
  ◌==◌, if◌then◌else◌,
}
use regex_markup.StrBuf.{StrBuf, normalize_strbuf_pos, realloc_to, strbuf_ensure_capacity}

-- The buffer's array is the text, the terminator, and spare bytes up to the capacity.
pub record Holds (sb : StrBuf) (t : List ℕ) : Type 0 where
  pub spare : List ℕ
  pub bytes : sb.buf ≡ t ++ (0 ∷ spare)
  pub len : sb.len ≡ length t
  pub capacity : sb.capacity ≡ length sb.buf

-- Below 2 ^ 31 characters a position is cut to the length, as an unsigned number: every negative
-- position means the end.
pub normalize_strbuf_pos-min :
    (sb : StrBuf) (pos : ℕ) → sb.len < i32 → normalize_strbuf_pos sb pos ≡ min pos sb.len
unfolding normalize_strbuf_pos
normalize_strbuf_pos-min sb pos h = ground arith

set_terminated :
    (t rest : List ℕ)
    → (if length t == 0 then set (t ++ (0 ∷ rest)) 0 0 else t ++ (0 ∷ rest)) ≡ t ++ (0 ∷ rest)
set_terminated [] rest = refl
set_terminated (x ∷ t) rest = ground arith

module _ (junk : ℕ) where
  module _ (sb : StrBuf) (t : List ℕ) (n : ℕ) (k : Holds sb t) (h : sb.capacity ≤ n) where
    extra : List ℕ
    extra = replicate (n - sb.capacity) junk

    realloc_to_buf : (realloc_to junk sb n).buf ≡ t ++ (0 ∷ (k.spare ++ extra))
    unfolding realloc_to extra
    realloc_to_buf =
        ap (λ l. if l == 0 then set (sb.buf ++ extra) 0 0 else sb.buf ++ extra) k.len
        ∙ ap (λ b. if length t == 0 then set b 0 0 else b)
            (ap (◌++ extra) k.bytes ∙ append_assoc t (0 ∷ k.spare) extra)
        ∙ set_terminated t (k.spare ++ extra)

    length-realloc_to : length (realloc_to junk sb n).buf ≡ n
    unfolding extra
    length-realloc_to = omega (
      arith,
      ap length realloc_to_buf,
      ap length k.bytes,
      k.capacity,
      length-append t (0 ∷ k.spare),
      length-append t (0 ∷ (k.spare ++ extra)),
      length-append k.spare extra,
      length-replicate (n - sb.capacity) junk,
    )

    realloc_to-Holds : Holds (realloc_to junk sb n) t × (n ≤ length (realloc_to junk sb n).buf)
    realloc_to-Holds = (
      record {
        spare = k.spare ++ extra;
        bytes = realloc_to_buf;
        len = unfold realloc_to in k.len;
        capacity = unfold realloc_to in sym length-realloc_to;
      },
      omega (arith, length-realloc_to),
    )

  pub ensure_capacity-Holds :
      (sb : StrBuf) (t : List ℕ) (n : ℕ)
      → Holds sb t
      → Holds (strbuf_ensure_capacity junk sb n) t
        × (n ≤ length (strbuf_ensure_capacity junk sb n).buf)
  unfolding strbuf_ensure_capacity
  ensure_capacity-Holds sb t n k = elim (Bool-cases (ltb sb.capacity n)) [
    | inl grows ↦
        let doubled : ℕ = wrap32 (sb.len * 2 + 2) in
        let c : ℕ = if ltb doubled n then n else doubled in
        let enough : n ≤ c = ground arith in
        let (holds, room) = realloc_to-Holds sb t c k (ground arith) in
        rw grows (holds, omega arith)
    | inr fits ↦ rw fits (k, ground arith)
  ]
