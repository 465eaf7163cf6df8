-- ===== src/Wrap/Line.antt =====
-- src/wrap.c, wrap_line: a line is broken into pieces, and its styles are written into them.

pub mod Short
use Prim.Native.Nat.{min, max}
use regex_markup.Common.{
  ℕ, zero, suc, ◌+◌, ◌-◌, List, [], ◌∷◌, ◌++◌, Option, none, some, Bool, true, false, not, ◌&&◌,
  ◌||◌, ltb, leb, ◌==◌, if◌then◌else◌, length, get_or, add32, sub32, i32,
}
use regex_markup.StrBuf.{substr_bytes}
use regex_markup.StrBuf.Splice.{splice, from_pos, to_pos}
use regex_markup.Style.{insert_text, insert_style_pre, insert_style_post}
use regex_markup.Ranges.{StyleRange}
use regex_markup.Wrap.{
  WrapperType, wrapper_none, wrapper_char, wrapper_word, is_none, new_run, apply_styles,
}

-- The variables of the file, the strings put around the pieces, and their lengths in the input.
pub record WrapOptions : Type 0 where
  pub wrap_width : ℕ
  pub wrap_retain : ℕ
  pub wrapper : WrapperType
  pub prestr : List ℕ
  pub appstr : List ℕ
  pub prelen : ℕ
  pub applen : ℕ

-- The variables of the function that the outer loop carries; the iterator stands between the styles
-- `upto`, the last first, and `after`.
pub record WrapState : Type 0 where
  pub text : List ℕ
  pub len : ℕ
  pub sp : ℕ
  pub width : ℕ
  pub style_mod : ℕ
  pub upto : List StyleRange
  pub after : List StyleRange

-- Those of one round.
pub record Round : Type 0 where
  pub state : WrapState
  pub ep : ℕ
  pub deleted : ℕ

abbrev char_at : List ℕ → ℕ → ℕ
char_at text i = get_or text i 0

-- `for (t = …; t > sp && … != ' '; t--)`
unfoldable pub space_before : List ℕ → (sp t : ℕ) → ℕ
space_before text sp zero = zero
space_before text sp (suc t) =
    let rest = space_before text sp t in
    if ltb sp (suc t) && not (char_at text (suc t) == b' ') then rest else suc t

-- The first place from `u` on, up to `len`, where the character is a space, or is none.
unfoldable pub skip_until : (space : Bool) → List ℕ → (rounds u : ℕ) → ℕ
skip_until space text zero u = u
skip_until space text (suc rounds) u =
    let rest = skip_until space text rounds (suc u) in
    let at_space = char_at text u == b' ' in
    if (if space then at_space else not at_space) then u else rest

-- The end of a piece in the middle of a word, with wrapping at words.
unfoldable pub word_end : WrapOptions → WrapState → ℕ → ℕ
unfolding space_before skip_until
word_end opts st ep =
    let nextwidth = if st.sp == 0 then sub32 st.width opts.prelen else st.width in
    let t = space_before st.text st.sp (sub32 ep 1) in
    let u = skip_until true st.text (st.len - (ep + 1)) (ep + 1) in
    let size = sub32 (sub32 u t) 1 in
    if ltb st.sp t
      && (leb size (sub32 nextwidth opts.applen) || (leb size nextwidth && u == st.len))
    then add32 t 1
    else ep

-- The spaces from the end of a piece on are deleted, where something follows them.
unfoldable pub delete_spaces : WrapState → ℕ → Round
unfolding skip_until
delete_spaces st ep =
    let t = skip_until false st.text (st.len - (ep + 1)) (ep + 1) in
    if ltb t st.len
    then record {
      state = record st {
        text = splice st.text (from_pos st.text ep t) (to_pos st.text ep t) [];
        len = sub32 st.len (sub32 t ep);
      };
      ep = ep;
      deleted = sub32 t ep;
    }
    else record { state = st; ep = ep; deleted = 0 }

abbrev is_word : WrapperType → Bool
is_word wrapper_none = false
is_word wrapper_char = false
is_word wrapper_word = true

unfoldable pub piece_end : WrapOptions → WrapState → Round
unfolding word_end delete_spaces
piece_end opts st =
    let whole = min st.len (add32 st.sp st.width) in
    let ep = if whole == st.len then whole else sub32 whole opts.applen in
    let same : Round = record { state = st; ep = ep; deleted = 0 } in
    let in_word : Round = record same { ep = word_end opts st ep } in
    if is_none opts.wrapper
    then same
    else if leb st.len ep
    then same
    else if char_at st.text ep == b' '
    then delete_spaces st ep
    else if is_word opts.wrapper
    then in_word
    else same

-- `max((int32_t) a, 0)`
abbrev positive_part : ℕ → ℕ
positive_part a = if ltb a i32 then a else 0

-- The loop over the styles of a piece, and how many of them go on behind it.
unfoldable pub piece_styles :
    (last : Option StyleRange) (post_last keep back : ℕ) → Round → List StyleRange → Round × ℕ
unfolding insert_style_pre insert_style_post
piece_styles last post_last keep back r [] = (r, back)
piece_styles last post_last keep back r (rng ∷ rngs) =
    let st : WrapState = r.state in
    let so = add32 rng.so st.style_mod in
    let eo = add32 rng.eo st.style_mod in
    let back' = if ltb r.ep eo then suc back else back in
    let behind = (not (rng.so == rng.eo) || ltb r.ep so) && (not (r.ep == st.len) && leb r.ep so) in
    let fresh = new_run last rng in
    let post_last' = if fresh then 0 else post_last in
    let keep' = if fresh then 0 else keep in
    let ss = max st.sp so in
    let es = min r.ep eo in
    let newkeep = positive_part (sub32 (sub32 st.sp rng.so) st.style_mod) in
    let (text', pre) = insert_style_pre rng.style st.text (add32 (sub32 ss post_last') keep') in
    let (text'', post) = insert_style_post rng.style text' (sub32 (add32 es pre) post_last') in
    let passed : WrapState = record st { upto = rng ∷ st.upto; after = rngs } in
    let written : WrapState = record passed {
      text = text'';
      len = add32 (add32 st.len pre) post;
      style_mod = add32 (add32 st.style_mod pre) post;
    } in
    let next : Round = record r { state = written; ep = add32 (add32 r.ep pre) post } in
    let rest =
      piece_styles (some rng) (add32 post_last' post) (add32 keep' newkeep) back' next rngs in
    if behind then (record r { state = passed }, back') else rest

-- iterator_previous, `back` times.
unfoldable pub go_back : ℕ → WrapState → WrapState
go_back zero st = st
go_back (suc back) st = elim st.upto [
  | [] ↦ st
  | rng ∷ rngs ↦ go_back back (record st { upto = rngs; after = rng ∷ st.after })
]

-- strbuf_insert of a string that makes the piece longer.
unfoldable pub insert_into : Bool → (pos : ℕ) → List ℕ → Round → Round
unfolding insert_text
insert_into false pos str r = r
insert_into true pos str r =
    let st : WrapState = r.state in
    record r {
      state = record st { text = insert_text st.text pos str; len = add32 st.len (length str) };
      ep = add32 r.ep (length str);
    }

abbrev newline : List ℕ
newline = 10 ∷ []

unfoldable pub wrap_piece : WrapOptions → (retainbuf : List ℕ) → WrapState → WrapState
unfolding piece_end piece_styles go_back insert_into
wrap_piece opts retainbuf st =
    let first = st.sp == 0 in
    let (styled, back) = piece_styles none 0 0 0 (piece_end opts st) st.after in
    let r1 : Round = record styled { state = go_back back styled.state } in
    let r2 = insert_into (not first) st.sp opts.prestr r1 in
    let s2 : WrapState = r2.state in
    let r3 = insert_into (ltb r2.ep s2.len && ltb 0 opts.applen) r2.ep opts.appstr r2 in
    let r4 = insert_into true r3.ep newline r3 in
    let retain = not first && not (length retainbuf == 0) in
    let r5 = insert_into retain st.sp retainbuf r4 in
    let s5 : WrapState = r5.state in
    record s5 {
      sp = r5.ep;
      style_mod =
          add32 (if retain then add32 s5.style_mod (length retainbuf) else s5.style_mod)
            (sub32 1 r5.deleted);
      width = (if first then sub32 s5.width (add32 opts.wrap_retain opts.prelen) else s5.width);
    }

-- The outer loop, on fuel.
unfoldable pub wrap_loop : ℕ → WrapOptions → (retainbuf : List ℕ) → WrapState → Option WrapState
unfolding wrap_piece
wrap_loop zero opts retainbuf st = none
wrap_loop (suc f) opts retainbuf st =
    let rest = wrap_loop f opts retainbuf (wrap_piece opts retainbuf st) in
    if leb st.len st.sp then some st else rest

-- The text that is repeated in front of the pieces, with its styles.
unfoldable pub retained : WrapOptions → List StyleRange → List ℕ → List ℕ
unfolding apply_styles substr_bytes
retained opts styles text =
    if opts.wrap_retain == 0
    then []
    else apply_styles styles (substr_bytes (some text) 0 opts.wrap_retain) opts.wrap_retain

unfoldable pub wrap_line :
    ℕ → WrapOptions → List StyleRange → List ℕ → (bufferlen : ℕ) → Option (List ℕ)
unfolding wrap_loop retained apply_styles
wrap_line fuel opts styles text len =
    let start : WrapState = record {
      text = text;
      len = len;
      sp = 0;
      width = opts.wrap_width;
      style_mod = 0;
      upto = [];
      after = styles;
    } in
    let wrapped : Option (List ℕ) = elim (wrap_loop fuel opts (retained opts styles text) start) [
      | none ↦ none
      | some st ↦ some st.text
    ] in
    if len == 0 then some (apply_styles styles text (i32 - 1) ++ newline) else wrapped
