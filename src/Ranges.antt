-- ===== src/Ranges.antt =====
-- src/execute.c, insert_style and its helpers: the list of style ranges of a match buffer.
-- A node of the list is a cursor: the ranges up to the node, the node's own first, and those that
-- follow. The list holds each range once, so that comparing the data of two nodes compares their
-- places. Offsets are `uint32_t`, compared as unsigned numbers.
pub mod Order
pub mod Pieces
pub mod Covers
pub mod Overlap
pub mod Parts
pub mod Whole
pub mod Rounds
pub mod Insert
use regex_markup.Common.{
  ℕ, zero, suc, ◌+◌, ◌≡◌, List, [], ◌∷◌, ◌++◌, Option, none, some, Bool, true, false, ◌&&◌, ltb,
  leb, ◌==◌, if◌then◌else◌, length, onto,
}
use regex_markup.Style.{Style}

pub record StyleRange : Type 0 where
  pub so : ℕ
  pub eo : ℕ
  pub style : Style

unfoldable pub new_style_range : Style → ℕ → ℕ → StyleRange
new_style_range style so eo = record { so = so; eo = eo; style = style }

pub record Cursor : Type 0 where
  pub upto : List StyleRange
  pub after : List StyleRange

-- The two range tests of the loops, as one condition to go on.
abbrev pub same_range : StyleRange → StyleRange → Bool
same_range t orig = t.so == orig.so && t.eo == orig.eo

-- `while (!lnode_is_last(node)) …`: to the last of the ranges that are equal to `orig`.
unfoldable pub last_of_run : StyleRange → List StyleRange → List StyleRange → Cursor
last_of_run orig upto [] = record { upto = upto; after = [] }
last_of_run orig upto (t ∷ after) =
    if same_range t orig
    then last_of_run orig (t ∷ upto) after
    else record { upto = upto; after = t ∷ after }

unfoldable pub insort_style1 : List StyleRange → List StyleRange → StyleRange → StyleRange → Cursor
unfolding last_of_run
insort_style1 upto after orig a =
    let c = last_of_run orig upto after in record { upto = a ∷ c.upto; after = c.after }

-- What the backward loops leave: the nodes before `orig`, the shortened ranges from `orig` on,
-- and the new nodes, up to `last`.
pub record Halves : Type 0 where
  pub before : List StyleRange
  pub first : List StyleRange
  pub second : List StyleRange
  pub third : List StyleRange

-- From the last of the run back to `orig`, the node at place `k`: each range is cut at `p2`, and
-- the pieces from `p2` to `p3` and from `p3` to `p4` are collected in front of those made before.
unfoldable pub split_back :
    (k p2 p3 p4 : ℕ) → List StyleRange → (first second third : List StyleRange) → Halves
unfolding new_style_range
split_back k p2 p3 p4 [] first second third = record {
  before = [];
  first = first;
  second = second;
  third = third;
}
split_back k p2 p3 p4 (t ∷ upto) first second third =
    let first' = record t { eo = p2 } ∷ first in
    let second' = new_style_range t.style p2 p3 ∷ second in
    let third' = new_style_range t.style p3 p4 ∷ third in
    if length (t ∷ upto) == k
    then record { before = upto; first = first'; second = second'; third = third' }
    else split_back k p2 p3 p4 upto first' second' third'

-- With `a` and no `b` the new range goes before the second halves; with `b` and no `a`, after.
unfoldable pub insort_style2 :
    List StyleRange → List StyleRange → StyleRange → Option StyleRange → Option StyleRange → Cursor
unfolding last_of_run split_back
insort_style2 upto after orig a b =
    let p2 : ℕ = elim a [ some r ↦ r.eo | none ↦ elim b [ some r ↦ r.so | none ↦ 0 ] ] in
    let c = last_of_run orig upto after in
    let h = split_back (length upto) p2 orig.eo orig.eo c.upto [] [] [] in
    let cut = onto h.first h.before in
    let marked : List StyleRange = elim a [ some r ↦ r ∷ cut | none ↦ cut ] in
    let whole = onto h.second marked in
    record { upto = elim b [ some r ↦ r ∷ whole | none ↦ whole ]; after = c.after }

unfoldable pub insort_style3 : List StyleRange → List StyleRange → StyleRange → StyleRange → Cursor
unfolding last_of_run split_back
insort_style3 upto after orig b =
    let c = last_of_run orig upto after in
    let h = split_back (length upto) b.so b.eo orig.eo c.upto [] [] [] in
    record { upto = b ∷ onto h.second (onto h.first h.before); after = h.third ++ c.after }

-- The list that a cursor stands in.
abbrev pub whole_list : Cursor → List StyleRange
whole_list c = onto c.upto c.after

-- The cases of the loop body of insert_style, in its order.
pub data Placement : Type 0 where
  at_end inside at_empty before_it equal starts ends within beyond_from covers_end surrounds
        overlaps_start overlaps_end pass :
      Placement

unfoldable pub place : StyleRange → StyleRange → Placement
place s1 s2 =
    if s1.so == s1.eo && s1.so == s2.eo
    then at_end
    else if s1.so == s1.eo && (ltb s2.so s1.so && ltb s1.so s2.eo)
    then inside
    else if s2.so == s2.eo && s1.so == s2.so
    then at_empty
    else if leb s1.eo s2.so
    then before_it
    else if s1.so == s2.so && s1.eo == s2.eo
    then equal
    else if s1.so == s2.so && ltb s1.eo s2.eo
    then starts
    else if ltb s2.so s1.so && s1.eo == s2.eo
    then ends
    else if ltb s2.so s1.so && ltb s1.eo s2.eo
    then within
    else if s1.so == s2.so && ltb s2.eo s1.eo
    then beyond_from
    else if ltb s1.so s2.so && s1.eo == s2.eo
    then covers_end
    else if ltb s1.so s2.so && ltb s2.eo s1.eo
    then surrounds
    else if ltb s1.so s2.so && (ltb s1.eo s2.eo && ltb s2.so s1.eo)
    then overlaps_start
    else if ltb s2.so s1.so && (ltb s2.eo s1.eo && ltb s1.so s2.eo)
    then overlaps_end
    else pass

-- The loop of insert_style on fuel: `before` are the nodes passed, last first.
unfoldable pub insert_loop :
    ℕ → (old_so : ℕ) → StyleRange → List StyleRange → List StyleRange → Option (List StyleRange)
insert_loop zero old_so s1 before after = none
insert_loop (suc f) old_so s1 before [] = some (onto before (s1 ∷ []))
insert_loop (suc f) old_so s1 before (s2 ∷ after) =
    let node = s2 ∷ before in
    let copy = new_style_range s1.style s2.so s2.eo in
    let head = new_style_range s1.style s1.so s2.so in
    let next = λ (s : StyleRange) (c : Cursor). insert_loop f old_so s c.upto c.after in
    elim (place s1 s2) [
      | at_end ↦ some (whole_list (insort_style1 node after s2 s1))
      | inside ↦ some (whole_list (insort_style2 node after s2 (some s1) none))
      | at_empty ↦ elim (ltb old_so s1.so) [
        | true ↦ next s1 (insort_style1 node after s2 copy)
        | false ↦ next s1 (record { upto = node; after = after })
      ]
      | before_it ↦ some (onto before (s1 ∷ s2 ∷ after))
      | equal ↦ some (whole_list (insort_style1 node after s2 s1))
      | starts ↦ some (whole_list (insort_style2 node after s2 (some s1) none))
      | ends ↦ some (whole_list (insort_style2 node after s2 none (some s1)))
      | within ↦ some (whole_list (insort_style3 node after s2 s1))
      | beyond_from ↦ next (record s1 { so = s2.eo }) (insort_style1 node after s2 copy)
      | covers_end ↦
          some (whole_list (insort_style1 (s2 ∷ head ∷ before) after s2 (record s1 { so = s2.so })))
      | surrounds ↦
          next (record s1 { so = s2.eo }) (insort_style1 (s2 ∷ head ∷ before) after s2 copy)
      | overlaps_start ↦ some (
          whole_list
            (insort_style2 (s2 ∷ head ∷ before) after s2 (some (record s1 { so = s2.so })) none))
      | overlaps_end ↦
          next (record s1 { so = s2.eo })
            (insort_style2 node after s2 none (some (new_style_range s1.style s1.so s2.eo)))
      | pass ↦ next s1 (record { upto = node; after = after })
    ]

-- The loop makes a round for each node of the list, and one at its end.
unfoldable pub insert_style : List StyleRange → StyleRange → Option (List StyleRange)
insert_style styles s1 = insert_loop (suc (length styles)) s1.so s1 [] styles
