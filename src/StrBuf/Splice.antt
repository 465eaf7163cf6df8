-- ===== src/StrBuf/Splice.antt =====
-- The replacements of src/common/strbuf.c, as splices of the text that the buffer holds.
use Prim.Native.Nat.{min, max}
use regex_markup.Common.{
  ℕ, ◌+◌, ◌-◌, ◌*◌, ◌≤◌, ◌<◌, ◌≡◌, refl, ap, sym, ◌∙◌, List, [], ◌∷◌, ◌++◌, some, arith, i32,
  length, take, drop, repeat, length-append, append_assoc, subst, ltb, Bool-cases, inl, inr,
  take-append, drop-append, mul32, if◌then◌else◌, ◌>>=◌,
}
use regex_markup.Memory.{store_times, length-repeat, split_window, store_times-append}
use regex_markup.StrBuf.{
  StrBuf, normalize_strbuf_pos, lower, higher, replace_between, strbuf_replace_data_n,
}
use regex_markup.StrBuf.Held.{Holds, normalize_strbuf_pos-min}
use regex_markup.StrBuf.Gap.{Gap, Gap-made}

-- The text with the part from `lo` up to `hi` replaced.
abbrev pub splice : List ℕ → ℕ → ℕ → List ℕ → List ℕ
splice t lo hi ins = take lo t ++ (ins ++ drop hi t)

nil_of_length : (xs : List ℕ) → length xs ≡ 0 → xs ≡ []
nil_of_length [] h = refl
nil_of_length (x ∷ xs) h = absurd (omega arith)

-- The copies of `mem` fill the gap.
fill-Gap :
    (sb : StrBuf) (a c mem : List ℕ) (times addlen lo : ℕ)
    → lo ≡ length a
    → addlen ≡ times * length mem
    → Gap sb a c addlen
    → (buf : List ℕ) × ((if ltb 0 addlen then store_times times sb.buf lo mem else some sb.buf)
        ≡ some buf)
      × Holds (record sb { buf = buf }) (a ++ (repeat times mem ++ c))
fill-Gap sb a c mem times addlen lo at_lo total g = (
  a ++ (repeat times mem ++ (c ++ (0 ∷ g.spare))),
  filled,
  record {
    spare = g.spare;
    bytes = simp append_assoc;
    len = omega (
      arith,
      g.len,
      length-append a (repeat times mem ++ c),
      length-append (repeat times mem) c,
      length-repeat times mem,
    );
    capacity = omega (
      arith,
      g.capacity,
      ap length g.bytes,
      g.length_gap,
      length-repeat times mem,
      length-append a (g.gap ++ (c ++ (0 ∷ g.spare))),
      length-append g.gap (c ++ (0 ∷ g.spare)),
      length-append a (repeat times mem ++ (c ++ (0 ∷ g.spare))),
      length-append (repeat times mem) (c ++ (0 ∷ g.spare)),
    );
  },
)
  where
    filled :
        (if ltb 0 addlen then store_times times sb.buf lo mem else some sb.buf)
        ≡ some (a ++ (repeat times mem ++ (c ++ (0 ∷ g.spare))))
    filled = elim (Bool-cases (ltb 0 addlen)) [
      | inl some_bytes ↦ rw some_bytes (
          ap (λ w. store_times times w lo mem) g.bytes
          ∙ store_times-append times a g.gap (c ++ (0 ∷ g.spare)) mem lo at_lo
              (omega (arith, g.length_gap)))
      | inr nothing ↦
          let zero_len : addlen ≡ 0 = ground arith in
          rw (nothing, nil_of_length (repeat times mem) (omega (arith, length-repeat times mem)))
            (ap some g.bytes
              ∙ ap (λ w. some (a ++ (w ++ (c ++ (0 ∷ g.spare)))))
                  (nil_of_length g.gap (omega (arith, g.length_gap))))
    ]

replace_between-Holds :
    (junk : ℕ) (sb : StrBuf) (a b c : List ℕ) (lo hi times : ℕ) (mem : List ℕ)
    → Holds sb (a ++ (b ++ c))
    → length a + length b + length c < i32
    → length a + times * length mem + length c < i32
    → lo ≡ length a
    → hi ≡ length a + length b
    → (sb' : StrBuf) × (replace_between junk sb lo hi times mem ≡ some sb')
      × Holds sb' (a ++ (repeat times mem ++ c))
unfolding replace_between
replace_between-Holds junk sb a b c lo hi times mem k small fits at_lo at_hi =
    let addlen : ℕ = mul32 (length mem) times in
    let total : addlen ≡ times * length mem = omega arith in
    let (sb', made, gap) = Gap-made junk sb a b c k small addlen (omega arith) lo hi at_lo at_hi in
    let (buf, filled, holds) = fill-Gap sb' a c mem times addlen lo at_lo total gap in
    (
      record sb' { buf = buf },
      ap
            (λ o. o >>= λ s.
              (if ltb 0 addlen then store_times times s.buf lo mem else some s.buf) >>= λ w.
              some (record s { buf = w }))
            made
          ∙ ap (λ o. o >>= λ w. some (record sb' { buf = w })) filled,
      holds,
    )

replace_between-splice :
    (junk : ℕ) (sb : StrBuf) (t : List ℕ) (lo hi times : ℕ) (mem : List ℕ)
    → Holds sb t
    → length t + times * length mem < i32
    → lo ≤ hi
    → hi ≤ length t
    → (sb' : StrBuf) × (replace_between junk sb lo hi times mem ≡ some sb')
      × Holds sb' (splice t lo hi (repeat times mem))
replace_between-splice junk sb t lo hi times mem k fits in_order within =
    let (a, b, c, cut, la, lb) = split_window t lo (hi - lo) (omega arith) in
    let lengths : length t ≡ length a + length b + length c =
      omega (arith, ap length cut, length-append a (b ++ c), length-append b c) in
    let (sb', done, holds) =
      replace_between-Holds junk sb a b c lo hi times mem (subst (Holds sb) cut k) (omega arith)
        (omega arith) (omega arith) (omega arith) in
    let front : take lo t ≡ a = ap (take lo) cut ∙ take-append lo a (b ++ c) (omega arith) in
    let back : drop hi t ≡ c =
      ap (drop hi) (cut ∙ sym (append_assoc a b c))
      ∙ drop-append hi (a ++ b) c (omega (arith, length-append a b)) in
    (
      sb',
      done,
      subst (Holds sb')
          (sym (
            ap (◌++ (repeat times mem ++ drop hi t)) front
            ∙ ap (λ w. a ++ (repeat times mem ++ w)) back))
          holds,
    )

-- The two positions that a call uses: cut to the length, and in order.
abbrev pub from_pos : List ℕ → ℕ → ℕ → ℕ
from_pos t sp ep = min (min sp (length t)) (min ep (length t))

abbrev pub to_pos : List ℕ → ℕ → ℕ → ℕ
to_pos t sp ep = max (min sp (length t)) (min ep (length t))

pub window_positions :
    (sb : StrBuf) (t : List ℕ) (sp ep : ℕ)
    → sb.len ≡ length t
    → length t < i32
    → (lower (normalize_strbuf_pos sb sp) (normalize_strbuf_pos sb ep) ≡ from_pos t sp ep)
      × (higher (normalize_strbuf_pos sb sp) (normalize_strbuf_pos sb ep) ≡ to_pos t sp ep)
unfolding lower higher
window_positions sb t sp ep len small =
    rw
      (
        normalize_strbuf_pos-min sb sp (omega arith),
        normalize_strbuf_pos-min sb ep (omega arith),
        len,
      )
      (ground arith)

-- strbuf_replace_data_n cuts both positions to the length of the text, puts them in order, and
-- replaces what lies between them by `times` copies of the data, where the old text and the
-- copies have less than 2 ^ 31 characters together: it returns, so no access leaves the array,
-- and the array is the new text, its terminator and spare bytes.
pub strbuf_replace_data_n-splice :
    (junk : ℕ) (sb : StrBuf) (t : List ℕ) (sp ep times : ℕ) (mem : List ℕ)
    → Holds sb t
    → length t + times * length mem < i32
    → (sb' : StrBuf) × (strbuf_replace_data_n junk sb sp ep times mem ≡ some sb')
      × Holds sb' (splice t (from_pos t sp ep) (to_pos t sp ep) (repeat times mem))
unfolding strbuf_replace_data_n
strbuf_replace_data_n-splice junk sb t sp ep times mem k fits =
    let (sb', done, holds) =
      replace_between-splice junk sb t (from_pos t sp ep) (to_pos t sp ep) times mem k fits
        (omega arith) (omega arith) in
    let (at_lo, at_hi) = window_positions sb t sp ep k.len (omega arith) in
    (
      sb',
      ap
            (λ p.
              replace_between junk sb p
                (higher (normalize_strbuf_pos sb sp) (normalize_strbuf_pos sb ep)) times mem)
            at_lo
          ∙ ap (λ q. replace_between junk sb (from_pos t sp ep) q times mem) at_hi
          ∙ done,
      holds,
    )
