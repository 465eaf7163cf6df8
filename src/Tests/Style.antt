-- ===== src/Tests/Style.antt =====
-- src/style.c: a style of two statements.
use regex_markup.Common.{◌≡◌, List, [], ◌∷◌}
use regex_markup.Style.{StyleInfo, styleinfo_pre, styleinfo_post, new_style}
use regex_markup.Style.Strings.{all_opening, all_closing, new_style-strings}

abbrev infos : List StyleInfo
infos = styleinfo_pre (b'<' ∷ []) ∷ styleinfo_post (b'>' ∷ []) ∷ styleinfo_post (b'.' ∷ []) ∷ []

new_style-strings_example :
    ((new_style [] infos).pre_string ≡ all_opening infos)
    × ((new_style [] infos).post_string ≡ all_closing infos)
new_style-strings_example = new_style-strings [] infos
