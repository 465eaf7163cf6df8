-- ===== src/Tests/LList.antt =====
-- src/common/llist.c on a list of two nodes.
use regex_markup.Common.{
  ◌≡◌, refl, reverse, [], ◌∷◌, none, some, arith, get_or, ◌==◌, if◌then◌else◌,
}
use regex_markup.LList.Heap.{Ptr, null, lnode, Heap, done}
use regex_markup.LList.{
  LList, llist, llist_remove_entry, llist_get, llist_set, llist_remove, llist_clear, llist_new,
  llist_reverse,
}
use regex_markup.LList.Reverse.{addresses, llist_reverse-reverse}
use regex_markup.LList.Whole.{Without, Freed, llist_remove-Without, llist_clear-Freed}
use regex_markup.LList.Nodes.{lnode_add_before}
use regex_markup.LList.Linked.{Cells, IsList, Ends, SameOutside}
use regex_markup.LList.Remove.{Removed, llist_remove_entry-Removed}
use regex_markup.LList.Insert.{IsFresh}
use regex_markup.LList.Between.{AtNew, lnode_add_before-Inserted}
use regex_markup.LList.Walk.{contents}
use regex_markup.LList.Places.{llist_get-get_or, llist_set-unchanged}

-- The data 7 at the address 1 and 8 at the address 2.
abbrev nodes : Heap
nodes a = if a == 1 then some (lnode 7 2 0) else if a == 2 then some (lnode 8 0 1) else none

abbrev two : LList
two = llist 1 2 2

abbrev cells : Cells
cells = (1, 7) ∷ (2, 8) ∷ []

two-IsList : IsList nodes two cells
two-IsList = record {
  linked = (
    record { ne_null = omega arith; holds = refl },
    refl,
    (record { ne_null = omega arith; holds = refl }, refl, tt),
  );
  first = refl;
  last = refl;
  size = refl;
  small = omega arith;
}

three_fresh : IsFresh nodes 3
three_fresh = record { ne_null = omega arith; unused = refl }

llist_remove_entry-Removed_example :
    Ends (Removed nodes 2 cells ((1, 7) ∷ [])) (llist_remove_entry two 2 nodes)
llist_remove_entry-Removed_example =
    llist_remove_entry-Removed nodes 2 8 two ((1, 7) ∷ []) [] two-IsList

lnode_add_before-Inserted_example :
    Ends
      (AtNew nodes 3 9 three_fresh two ((1, 7) ∷ (3, 9) ∷ (2, 8) ∷ []))
      (lnode_add_before 3 two 2 9 nodes)
lnode_add_before-Inserted_example =
    lnode_add_before-Inserted nodes 3 9 three_fresh two 2 8 ((1, 7) ∷ []) [] two-IsList
      (omega arith)

llist_get-get_or_example : llist_get two 1 nodes ≡ done (get_or (contents cells) 1 null) nodes
llist_get-get_or_example = llist_get-get_or nodes two cells two-IsList 1

llist_set-unchanged_example :
    Ends
      (λ old g. (old ≡ get_or (contents cells) 1 null) × ((a : Ptr) → g a ≡ nodes a))
      (llist_set two 1 5 nodes)
llist_set-unchanged_example = llist_set-unchanged nodes two cells two-IsList 1 5

llist_remove-Without_example :
    Ends (Without nodes two cells two-IsList 8) (llist_remove two 8 nodes)
llist_remove-Without_example = llist_remove-Without nodes two cells two-IsList 8

llist_clear-Freed_example :
    Ends (λ l' g. (l' ≡ llist_new) × Freed nodes cells g) (llist_clear two nodes)
llist_clear-Freed_example = llist_clear-Freed nodes two cells two-IsList

llist_reverse-reverse_example :
    Ends
      (λ (_ : Unit {0}) g.
        ((ys : Cells) × IsList g two ys
          × (contents ys ≡ reverse (contents cells))
          × (addresses ys ≡ addresses cells))
        × SameOutside cells nodes g)
      (llist_reverse two nodes)
llist_reverse-reverse_example = llist_reverse-reverse nodes two cells two-IsList
