-- ===== src/Style/Strings.antt =====
-- What new_style of src/style.c writes before and behind a part.
use regex_markup.Common.{
  ℕ, ◌≡◌, refl, sym, ap, ap₂, ◌∙◌, List, [], ◌∷◌, ◌++◌, append_assoc, append-nil,
}
use regex_markup.Style.{
  StyleInfo, styleinfo_style, styleinfo_pre, styleinfo_post, add_info, add_infos, new_style,
}

abbrev pub opening : StyleInfo → List ℕ
opening (styleinfo_style style) = style.pre_string
opening (styleinfo_pre value) = value
opening (styleinfo_post value) = []

abbrev pub closing : StyleInfo → List ℕ
closing (styleinfo_style style) = style.post_string
closing (styleinfo_pre value) = []
closing (styleinfo_post value) = value

-- The first statement's opening string is the outermost, and so is its closing string.
abbrev pub all_opening : List StyleInfo → List ℕ
all_opening [] = []
all_opening (info ∷ spec) = opening info ++ all_opening spec

abbrev pub all_closing : List StyleInfo → List ℕ
all_closing [] = []
all_closing (info ∷ spec) = all_closing spec ++ closing info

add_info-pair :
    (info : StyleInfo) (pre post : List ℕ)
    → add_info info pre post ≡ (pre ++ opening info, closing info ++ post)
unfolding add_info
add_info-pair (styleinfo_style style) pre post = refl
add_info-pair (styleinfo_pre value) pre post = ap₂ (λ p q. (p, q)) refl refl
add_info-pair (styleinfo_post value) pre post = ap₂ (λ p q. (p, q)) (sym (append-nil pre)) refl

add_infos-pair :
    (spec : List StyleInfo) (pre post : List ℕ)
    → add_infos spec pre post ≡ (pre ++ all_opening spec, all_closing spec ++ post)
unfolding add_infos
add_infos-pair [] pre post = ap₂ (λ p q. (p, q)) (sym (append-nil pre)) refl
add_infos-pair (info ∷ spec) pre post =
    ap (λ (p : List ℕ × List ℕ). add_infos spec p.0 p.1) (add_info-pair info pre post)
    ∙ add_infos-pair spec (pre ++ opening info) (closing info ++ post)
    ∙ ap₂ (λ p q. (p, q)) (append_assoc pre (opening info) (all_opening spec))
        (sym (append_assoc (all_closing spec) (closing info) post))

-- A style opens with the opening strings of its statements in their order and closes with their
-- closing strings in the reverse order, so that what is opened first is closed last.
pub new_style-strings :
    (name : List ℕ) (spec : List StyleInfo)
    → ((new_style name spec).pre_string ≡ all_opening spec)
      × ((new_style name spec).post_string ≡ all_closing spec)
unfolding new_style
new_style-strings name spec =
    let both : add_infos spec [] [] ≡ (all_opening spec, all_closing spec ++ []) =
      add_infos-pair spec [] [] in
    (ap (λ p. p.0) both, ap (λ p. p.1) both ∙ append-nil (all_closing spec))
