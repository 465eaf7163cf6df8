-- ===== src/Wrap/Line/Short.antt =====
-- A line without styles that is not longer than the width, in wrap_line of src/wrap.c.
use Prim.Native.Nat.{min}
use regex_markup.Common.{
  ℕ, suc, ◌<◌, ◌≤◌, ◌≡◌, refl, ap, ◌∙◌, List, [], ◌∷◌, ◌++◌, append-nil, Option, none, some, true,
  false, ltb, leb, ◌==◌, length, i32, u32, arith, add32, take, drop, Bool-cases, inl, inr,
}
use regex_markup.Style.{insert_text}
use regex_markup.StrBuf.Splice.{from_pos, to_pos}
use regex_markup.Wrap.{is_none}
use regex_markup.Wrap.Line.{
  WrapOptions, WrapState, piece_end, piece_styles, go_back, insert_into, wrap_piece, wrap_loop,
  retained, wrap_line,
}

take_all : (t : List ℕ) → take (length t) t ≡ t
take_all [] = refl
take_all (c ∷ t) = ap (c ∷◌) (take_all t)

drop_all : (t : List ℕ) → drop (length t) t ≡ []
drop_all [] = refl
drop_all (c ∷ t) = drop_all t

insert_text-end : (t str : List ℕ) → insert_text t (length t) str ≡ t ++ str
unfolding insert_text
insert_text-end t str =
    let at : from_pos t (length t) (length t) ≡ length t = omega arith in
    let behind : to_pos t (length t) (length t) ≡ length t = omega arith in
    rw (at, behind, take_all t, drop_all t, append-nil str) refl

module _ (opts : WrapOptions) (t : List ℕ) (fits : length t ≤ opts.wrap_width)
    (small : opts.wrap_width < u32) (short : length t < i32) (some_text : 0 < length t) where
  abbrev start : WrapState
  start = record {
    text = t;
    len = length t;
    sp = 0;
    width = opts.wrap_width;
    style_mod = 0;
    upto = [];
    after = [];
  }

  piece_end-whole : piece_end opts start ≡ record { state = start; ep = length t; deleted = 0 }
  unfolding piece_end
  piece_end-whole =
      let whole : min (length t) (add32 0 opts.wrap_width) ≡ length t = omega arith in
      let last : (length t == length t) ≡ true = ground arith in
      let reached : leb (length t) (length t) ≡ true = ground arith in
      elim (Bool-cases (is_none opts.wrapper)) [
        | inl plain ↦ rw (whole, last, plain, piece_end) refl
        | inr wrapped ↦ rw (whole, last, wrapped, reached, piece_end) refl
      ]

  wrap_piece-whole :
      (retainbuf : List ℕ)
      → ((wrap_piece opts retainbuf start).text ≡ t ++ (10 ∷ []))
        × ((wrap_piece opts retainbuf start).len ≡ (wrap_piece opts retainbuf start).sp)
  unfolding wrap_piece piece_styles go_back insert_into
  wrap_piece-whole retainbuf =
      let nothing_left : ltb (length t) (length t) ≡ false = ground arith in
      rw (piece_end-whole, nothing_left, wrap_piece) (insert_text-end t (10 ∷ []), refl)

  loop_stop :
      (f : ℕ) (retainbuf : List ℕ) (st : WrapState)
      → leb st.len st.sp ≡ true
      → wrap_loop (suc f) opts retainbuf st ≡ some st
  unfolding wrap_loop
  loop_stop f retainbuf st done = rw done refl

  loop_round :
      (f : ℕ) (retainbuf : List ℕ) (st : WrapState)
      → leb st.len st.sp ≡ false
      → wrap_loop (suc f) opts retainbuf st
        ≡ wrap_loop f opts retainbuf (wrap_piece opts retainbuf st)
  unfolding wrap_loop
  loop_round f retainbuf st more = rw more refl

  leb-same : (a b : ℕ) → a ≡ b → leb a b ≡ true
  leb-same a b e = ground arith

  abbrev text_of : Option WrapState → Option (List ℕ)
  text_of none = none
  text_of (some st) = some st.text

  wrap_loop-whole :
      (f : ℕ) (retainbuf : List ℕ)
      → text_of (wrap_loop (suc (suc f)) opts retainbuf start) ≡ some (t ++ (10 ∷ []))
  wrap_loop-whole f retainbuf =
      let begins : leb (length t) 0 ≡ false = ground arith in
      let (text, ends) = wrap_piece-whole retainbuf in
      ap text_of (
        loop_round (suc f) retainbuf start begins
        ∙ loop_stop f retainbuf (wrap_piece opts retainbuf start) (
            leb-same (wrap_piece opts retainbuf start).len (wrap_piece opts retainbuf start).sp
              ends))
      ∙ ap some text

  -- wrap_line writes a line without styles, of one character or more, less than 2 ^ 31, and no longer
  -- than the width, a uint32_t, as it is, with a newline behind it, whatever the wrapper and the
  -- strings around pieces; two rounds are enough.
  pub wrap_line-short :
      (f : ℕ) → wrap_line (suc (suc f)) opts [] t (length t) ≡ some (t ++ (10 ∷ []))
  unfolding wrap_line
  wrap_line-short f =
      let filled : (length t == 0) ≡ false = ground arith in
      rw (filled, wrap_line)
        (text_of_lem (wrap_loop (suc (suc f)) opts (retained opts [] t) start)
          ∙ wrap_loop-whole f (retained opts [] t))
    where
      text_of_lem :
          (o : Option WrapState) → elim o [ none ↦ none | some st ↦ some st.text ] ≡ text_of o
      text_of_lem none = refl
      text_of_lem (some st) = refl
