-- ===== src/Tests/Ranges.antt =====
-- insert_style of src/execute.c on small lists.
use regex_markup.Common.{ℕ, ◌≡◌, refl, List, [], ◌∷◌, ◌++◌, some, arith}
use regex_markup.Style.{Style}
use regex_markup.Ranges.{
  StyleRange, insert_style, insert_loop, place, insort_style1, insort_style2, insort_style3,
}
use regex_markup.Ranges.Covers.{covers, on_between}
use regex_markup.Ranges.Insert.{InOrder, insert_style-covers}

abbrev style : ℕ → Style
style n = record { name = n ∷ []; pre_string = []; post_string = []; refs = 1 }

abbrev range : ℕ → ℕ → ℕ → StyleRange
range n so eo = record { so = so; eo = eo; style = style n }

abbrev two_ranges : List StyleRange
two_ranges = range 1 0 4 ∷ range 2 6 8 ∷ []

-- A range across both: a part before, the parts of the two, and the parts between and behind.
across :
    insert_style two_ranges (range 3 2 9)
    ≡ some (
        range 1 0 2
        ∷ range 1 2 4
        ∷ range 3 2 4
        ∷ range 3 4 6
        ∷ range 2 6 8
        ∷ range 3 6 8
        ∷ range 3 8 9
        ∷ [])
unfolding insert_style insert_loop place insort_style1 insort_style2 insort_style3
across = refl

insert_style-covers_example :
    (out : List StyleRange) × (insert_style two_ranges (range 3 2 9) ≡ some out)
    × InOrder out
    × ((i : ℕ) → covers i out ≡ covers i two_ranges ++ on_between i 2 9 (style 3 ∷ []))
insert_style-covers_example =
    insert_style-covers two_ranges (range 3 2 9) (omega arith) (omega arith)
