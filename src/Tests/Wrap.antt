-- ===== src/Tests/Wrap.antt =====
-- src/wrap.c, wrap_line on small lines.
use regex_markup.Common.{ℕ, ◌≡◌, refl, List, [], ◌∷◌, Option, some, ◌++◌, arith}
use regex_markup.Wrap.Line.Short.{wrap_line-short}
use regex_markup.Style.{Style, insert_text, insert_style_pre, insert_style_post}
use regex_markup.Wrap.{wrapper_none}
use regex_markup.Wrap.Line.{
  WrapOptions, wrap_line, wrap_loop, wrap_piece, piece_end, piece_styles, insert_into, go_back,
  retained,
}

abbrev style : Style
style = record { name = []; pre_string = b'<' ∷ []; post_string = b'>' ∷ []; refs = 1 }

abbrev opts : WrapOptions
opts = record {
  wrap_width = 3;
  wrap_retain = 0;
  wrapper = wrapper_none;
  prestr = [];
  appstr = b'+' ∷ [];
  prelen = 0;
  applen = 1;
}

abbrev out : Option (List ℕ)
out =
    wrap_line 9 opts (record { so = 2; eo = 4; style = style } ∷ [])
      (b'a' ∷ b'b' ∷ b'c' ∷ b'd' ∷ b'e' ∷ []) 5

-- The style of "cd" ends after "c": the string behind the first piece is not counted.
appended : out ≡ some (97 ∷ 98 ∷ 43 ∷ 10 ∷ 60 ∷ 99 ∷ 62 ∷ 100 ∷ 101 ∷ 10 ∷ [])
unfolding wrap_line wrap_loop wrap_piece piece_end piece_styles insert_into go_back retained
    insert_style_pre insert_style_post insert_text
appended = refl

abbrev line : List ℕ
line = b'a' ∷ b'b' ∷ b'c' ∷ []

wrap_line-short_example : wrap_line 2 opts [] line 3 ≡ some (line ++ (10 ∷ []))
wrap_line-short_example =
    wrap_line-short opts line (omega arith) (omega arith) (omega arith) (omega arith) 0
