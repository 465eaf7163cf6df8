-- ===== src/Style.antt =====
-- src/style.c: styles, the strings that a script writes before and behind a matched part.
pub mod Strings
use regex_markup.Common.{ℕ, ◌≡◌, List, [], ◌∷◌, ◌++◌, length}
use regex_markup.StrBuf.Splice.{splice, from_pos, to_pos}

pub record Style : Type 0 where
  pub name : List ℕ
  pub pre_string : List ℕ
  pub post_string : List ℕ
  pub refs : ℕ

-- One statement of a style's definition in a script.
pub data StyleInfo : Type 0 where
  styleinfo_style : Style → StyleInfo
  styleinfo_pre styleinfo_post : List ℕ → StyleInfo

-- The two buffers, `prebuf` and `postbuf`, after one more statement.
unfoldable pub add_info : StyleInfo → List ℕ → List ℕ → List ℕ × List ℕ
add_info (styleinfo_pre value) prebuf postbuf = (prebuf ++ value, postbuf)
add_info (styleinfo_post value) prebuf postbuf = (prebuf, value ++ postbuf)
add_info (styleinfo_style add_style) prebuf postbuf =
    (prebuf ++ add_style.pre_string, add_style.post_string ++ postbuf)

unfoldable pub add_infos : List StyleInfo → List ℕ → List ℕ → List ℕ × List ℕ
unfolding add_info
add_infos [] prebuf postbuf = (prebuf, postbuf)
add_infos (info ∷ spec) prebuf postbuf =
    let (prebuf', postbuf') = add_info info prebuf postbuf in add_infos spec prebuf' postbuf'

unfoldable pub new_style : List ℕ → List StyleInfo → Style
unfolding add_infos
new_style name spec =
    let (pre, post) = add_infos spec [] [] in
    record { name = name; pre_string = pre; post_string = post; refs = 1 }

-- strbuf_insert on the text.
unfoldable pub insert_text : List ℕ → ℕ → List ℕ → List ℕ
insert_text text pos str = splice text (from_pos text pos pos) (to_pos text pos pos) str

-- The text, and how much longer it is.
unfoldable pub insert_style_pre : Style → List ℕ → ℕ → List ℕ × ℕ
unfolding insert_text
insert_style_pre style text pos = (insert_text text pos style.pre_string, length style.pre_string)

unfoldable pub insert_style_post : Style → List ℕ → ℕ → List ℕ × ℕ
unfolding insert_text
insert_style_post style text pos =
    (insert_text text pos style.post_string, length style.post_string)
