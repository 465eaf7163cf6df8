-- ===== src/Ranges/Whole.antt =====
-- The helpers of insert_style in src/execute.c on a run, as whole lists; and what each case of its
-- loop says of the two ranges.
use regex_markup.Common.{
  ◌≤◌, ◌<◌, ◌≡◌, ap, ◌∙◌, List, ◌∷◌, ◌++◌, arith, map, some, none, onto, onto-onto,
}
use regex_markup.Ranges.{
  StyleRange, Placement, place, insort_style1, insort_style2, insort_style3, whole_list, at_end,
  inside, at_empty, before_it, equal, starts, ends, within, beyond_from, covers_end, surrounds,
  overlaps_start, overlaps_end, pass,
}
use regex_markup.Ranges.Order.{AllSame, Differs}
use regex_markup.Ranges.Pieces.{
  cut_at, piece, insort_style1-run, insort_style2-run_first, insort_style3-run,
}

-- What each placement says of the two ranges.
abbrev pub Placed : StyleRange → StyleRange → Placement → Type 0
Placed a x at_end = (a.so ≡ a.eo) × (a.so ≡ x.eo)
Placed a x inside = (a.so ≡ a.eo) × (x.so < a.so) × (a.so < x.eo)
Placed a x at_empty = (x.so ≡ x.eo) × (a.so ≡ x.so) × (a.so < a.eo)
Placed a x before_it = (a.eo ≤ x.so)
Placed a x equal = (a.so ≡ x.so) × (a.eo ≡ x.eo) × (a.so < a.eo)
Placed a x starts = (a.so ≡ x.so) × (a.eo < x.eo) × (a.so < a.eo)
Placed a x ends = (x.so < a.so) × (a.eo ≡ x.eo) × (a.so < a.eo)
Placed a x within = (x.so < a.so) × (a.eo < x.eo) × (a.so < a.eo)
Placed a x beyond_from = (a.so ≡ x.so) × (x.eo < a.eo) × (x.so < x.eo)
Placed a x covers_end = (a.so < x.so) × (a.eo ≡ x.eo) × (x.so < x.eo)
Placed a x surrounds = (a.so < x.so) × (x.eo < a.eo)
Placed a x overlaps_start = (a.so < x.so) × (a.eo < x.eo) × (x.so < a.eo)
Placed a x overlaps_end = (x.so < a.so) × (x.eo < a.eo) × (a.so < x.eo)
Placed a x pass = x.eo ≤ a.so

pub placed : (a x : StyleRange) → a.so ≤ a.eo → x.so ≤ x.eo → Placed a x (place a x)
unfolding place
placed a x h k = ground arith

-- The helpers of insert_style on a run, as lists.
module _ (x : StyleRange) (before run rest : List StyleRange) (same : AllSame x run)
    (differs : Differs x rest) where
  pub whole1 :
      (b : StyleRange)
      → whole_list (insort_style1 (x ∷ before) (run ++ rest) x b)
        ≡ onto before (x ∷ (run ++ (b ∷ rest)))
  whole1 b =
      ap (λ c. whole_list c) (insort_style1-run x before run rest same differs b)
      ∙ onto-onto run (x ∷ before) (b ∷ rest)

  pub whole2 :
      (b : StyleRange)
      → whole_list (insort_style2 (x ∷ before) (run ++ rest) x (some b) none)
        ≡ onto before
            (map (cut_at b.eo) (x ∷ run) ++ (b ∷ (map (piece b.eo x.eo) (x ∷ run) ++ rest)))
  whole2 b =
      ap (λ c. whole_list c) (insort_style2-run_first x before run rest same differs b)
      ∙ onto-onto (map (piece b.eo x.eo) (x ∷ run)) (b ∷ onto (map (cut_at b.eo) (x ∷ run)) before)
          rest
      ∙ onto-onto (map (cut_at b.eo) (x ∷ run)) before
          (b ∷ (map (piece b.eo x.eo) (x ∷ run) ++ rest))

  -- The nodes up to the new one, in front of any list.
  pub upto2 :
      (b : StyleRange) (tail : List StyleRange)
      → onto
          (b ∷ onto (map (piece b.so x.eo) (x ∷ run)) (onto (map (cut_at b.so) (x ∷ run)) before))
          tail
        ≡ onto before
            (map (cut_at b.so) (x ∷ run) ++ (map (piece b.so x.eo) (x ∷ run) ++ (b ∷ tail)))
  upto2 b tail =
      onto-onto (map (piece b.so x.eo) (x ∷ run)) (onto (map (cut_at b.so) (x ∷ run)) before)
        (b ∷ tail)
      ∙ onto-onto (map (cut_at b.so) (x ∷ run)) before
          (map (piece b.so x.eo) (x ∷ run) ++ (b ∷ tail))

  pub whole3 :
      (b : StyleRange)
      → whole_list (insort_style3 (x ∷ before) (run ++ rest) x b)
        ≡ onto before (
            map (cut_at b.so) (x ∷ run)
            ++ (map (piece b.so b.eo) (x ∷ run) ++ (b ∷ (map (piece b.eo x.eo) (x ∷ run) ++ rest))))
  whole3 b =
      ap (λ c. whole_list c) (insort_style3-run x before run rest same differs b)
      ∙ onto-onto (map (piece b.so b.eo) (x ∷ run)) (onto (map (cut_at b.so) (x ∷ run)) before)
          (b ∷ (map (piece b.eo x.eo) (x ∷ run) ++ rest))
      ∙ onto-onto (map (cut_at b.so) (x ∷ run)) before _
