-- ===== src/Wrap.antt =====
-- src/wrap.c: the choice of a wrapper, and the strings of the styles written into a line.
pub mod Line
use regex_markup.Common.{
  ℕ, ◌-◌, List, [], ◌∷◌, Option, none, some, Bool, true, false, ◌&&◌, ◌||◌, leb, ◌==◌,
  if◌then◌else◌, add32, sub32, u32,
}
use Prim.Native.Nat.{min}
use regex_markup.Style.{insert_style_pre, insert_style_post}
use regex_markup.Ranges.{StyleRange}

pub data WrapperType : Type 0 where
  wrapper_none wrapper_char wrapper_word : WrapperType

pub record Wrapper : Type 0 where
  pub short_name : ℕ
  pub long_name : List ℕ
  pub type : WrapperType

-- The variables of the file.
pub record WrapSettings : Type 0 where
  pub wrap_width : ℕ
  pub wrapper : WrapperType
  pub wrapper_args : Option (List ℕ)

abbrev pub wrappers : List Wrapper
wrappers =
    record { short_name = b'n'; long_name = b'n' ∷ b'o' ∷ b'n' ∷ b'e' ∷ []; type = wrapper_none }
    ∷ record { short_name = b'c'; long_name = b'c' ∷ b'h' ∷ b'a' ∷ b'r' ∷ []; type = wrapper_char }
    ∷ record { short_name = b'w'; long_name = b'w' ∷ b'o' ∷ b'r' ∷ b'd' ∷ []; type = wrapper_word }
    ∷ []

abbrev pub wrap_width_max : ℕ
wrap_width_max = u32 - 1

abbrev pub same_string : List ℕ → List ℕ → Bool
same_string [] [] = true
same_string [] (d ∷ t) = false
same_string (c ∷ s) [] = false
same_string (c ∷ s) (d ∷ t) = c == d && same_string s t

-- strchr(spec, ':'): the characters before it, and those behind, if there is one.
unfoldable pub split_colon : List ℕ → List ℕ × Option (List ℕ)
split_colon [] = ([], none)
split_colon (c ∷ spec) =
    let rest = split_colon spec in if c == b':' then ([], some spec) else (c ∷ rest.0, rest.1)

unfoldable pub find_wrapper : List ℕ → List Wrapper → Option WrapperType
find_wrapper name [] = none
find_wrapper name (w ∷ ws) =
    let rest = find_wrapper name ws in
    if same_string name (w.short_name ∷ []) || same_string name w.long_name
    then some w.type
    else rest

abbrev pub is_none : WrapperType → Bool
is_none wrapper_none = true
is_none wrapper_char = false
is_none wrapper_word = false

unfoldable pub identify_wrapper : List ℕ → WrapSettings → Bool × WrapSettings
unfolding split_colon find_wrapper
identify_wrapper spec settings =
    let (name, args) = split_colon spec in
    elim (find_wrapper name wrappers) [
      | none ↦ (false, record settings { wrapper_args = args })
      | some type ↦ (
        true,
        record {
          wrapper_args = args;
          wrapper = type;
          wrap_width =
              (if (if is_none type then false else settings.wrap_width == wrap_width_max)
                then 80
                else settings.wrap_width);
        },
      )
    ]

-- `last == NULL || last->so != rng->so || last->eo != rng->eo`
abbrev pub new_run : Option StyleRange → StyleRange → Bool
new_run none rng = true
new_run (some last) rng = if last.so == rng.so && last.eo == rng.eo then false else true

-- The loop over the ranges in the text, up to `ep`, with the variables of the function.
unfoldable pub apply_loop :
    (last : Option StyleRange) (post_last style_mod ep : ℕ) → List StyleRange → List ℕ → List ℕ
unfolding insert_style_pre insert_style_post
apply_loop last post_last style_mod ep [] text = text
apply_loop last post_last style_mod ep (rng ∷ rngs) text =
    let post_last' = if new_run last rng then 0 else post_last in
    let ss = add32 rng.so style_mod in
    let es = min ep (add32 rng.eo style_mod) in
    let (text', pre) = insert_style_pre rng.style text (sub32 ss post_last') in
    let (text'', post) = insert_style_post rng.style text' (sub32 (add32 es pre) post_last') in
    let rest =
      apply_loop (some rng) (add32 post_last' post) (add32 (add32 style_mod pre) post)
        (add32 (add32 ep pre) post) rngs text'' in
    if leb ep (add32 rng.so style_mod) then text else rest

unfoldable pub apply_styles : List StyleRange → List ℕ → ℕ → List ℕ
unfolding apply_loop
apply_styles styles text ep = apply_loop none 0 0 ep styles text
