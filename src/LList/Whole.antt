-- ===== src/LList/Whole.antt =====
-- src/common/llist.c: removal by data, and clearing a list.
use regex_markup.Common.{
  ℕ, zero, suc, ◌+◌, ◌<◌, ◌≡◌, refl, sym, subst, ap, ◌∙◌, List, [], ◌∷◌, ◌++◌, Bool, true, false,
  ◌||◌, ◌==◌, none, if◌then◌else◌, arith, length, Bool-cases, ◌⊎◌, inl, inr, ==_iff,
}
use regex_markup.LList.Heap.{Ptr, null, Heap, write, done}
use regex_markup.LList.{LList, llist_new, find_node, llist_remove, free_nodes, llist_clear}
use regex_markup.LList.Linked.{
  Cells, has, head_or, Linked, IsList, Ends, SameOutside, not_null, load-done, free-done,
  Linked-write, write-same, write-other,
}
use regex_markup.LList.Relink.{∉-head}
use regex_markup.LList.Remove.{llist_remove_entry-Removed}
use regex_markup.LList.Walk.{contents}

abbrev pub has_value : ℕ → List ℕ → Bool
has_value v [] = false
has_value v (w ∷ ws) = (w == v) || has_value v ws

-- The data without the first that is `v`.
abbrev pub without_first : ℕ → List ℕ → List ℕ
without_first v [] = []
without_first v (w ∷ ws) = if w == v then ws else w ∷ without_first v ws

-- A node with the data, the first one; `p` is what the search along the nodes returns.
abbrev Search : ℕ → Ptr → Cells → Type 0
Search v p xs =
    ((p ≡ null) × (has_value v (contents xs) ≡ false))
    ⊎ ((front : Cells) × (back : Cells) × (xs ≡ front ++ ((p, v) ∷ back))
        × ((p == null) ≡ false)
        × (has_value v (contents xs) ≡ true)
        × (without_first v (contents xs) ≡ contents (front ++ back)))

without_none : (v : ℕ) (ws : List ℕ) → has_value v ws ≡ false → without_first v ws ≡ ws
without_none v [] h = refl
without_none v (w ∷ ws) h =
    let miss : (w == v) ≡ false = ground (arith, h) in
    let later : has_value v ws ≡ false = ground (arith, h) in
    rw (miss, without_none v ws later) refl

find_node-Search :
    (v k : ℕ) (h : Heap) (before : Ptr) (xs : Cells)
    → Linked h before xs null
    → length xs < k
    → (p : Ptr) × (find_node v k (head_or null xs) h ≡ done p h) × Search v p xs
unfolding find_node
find_node-Search v zero h before xs l fuel = absurd (omega arith)
find_node-Search v (suc k) h before [] l fuel = (null, refl, inl (refl, refl))
find_node-Search v (suc k) h before ((q, w) ∷ xs) (node, new, l) fuel = elim (Bool-cases (w == v)) [
  | inl hit ↦
      let same : w ≡ v = (==_iff w v).0 hit in
      (
        q,
        rw (not_null node, load-done node, hit) refl,
        inr ([], xs, ap (λ d. (q, d) ∷ xs) same, not_null node, rw hit refl, rw hit refl),
      )
  | inr miss ↦
      let (p, e, s) = find_node-Search v k h q xs l (omega arith) in
      (
        p,
        rw (not_null node, load-done node, miss) e,
        (elim s [
          | inl (nothing, none_of) ↦ inl (nothing, rw miss none_of)
          | inr (front, back, split, ne, one_of, out) ↦ inr (
            (q, w) ∷ front,
            back,
            ap ((q, w) ∷◌) split,
            ne,
            rw miss one_of,
            rw miss (ap (w ∷◌) out),
          )
        ]),
      )
]

-- All nodes are freed, and no other address is written.
pub record Freed (h : Heap) (xs : Cells) (g : Heap) : Type 0 where
  pub gone : (a : Ptr) → has a xs ≡ true → g a ≡ none
  pub same : SameOutside xs h g

free_nodes-Freed :
    (k : ℕ) (h : Heap) (before : Ptr) (xs : Cells)
    → Linked h before xs null
    → length xs < k
    → Ends (λ (_ : Unit {0}) g. Freed h xs g) (free_nodes k (head_or null xs) h)
unfolding free_nodes
free_nodes-Freed zero h before xs l fuel = absurd (omega arith)
free_nodes-Freed (suc k) h before [] l fuel =
    (tt, h, refl, record { gone = λ a inside. ground (arith, inside); same = λ a out. refl })
free_nodes-Freed (suc k) h before ((q, w) ∷ xs) (node, new, l) fuel =
    let h1 : Heap = write h q none in
    let (u, g, e, freed) =
      free_nodes-Freed k h1 q xs (Linked-write h q none q null xs l new) (omega arith) in
    (
      u,
      g,
      rw (not_null node, load-done node, free-done node) e,
      record {
        gone = λ a held. elim (Bool-cases (has a xs)) [
          | inl inside ↦ freed.gone a inside
          | inr outside ↦
              let at : a ≡ q = (==_iff a q).0 (ground (arith, held, outside)) in
              subst (λ b. g b ≡ none) (sym at) (freed.same q new ∙ write-same h q none)
        ];
        same = λ a out.
            freed.same a (ground (arith, out)) ∙ write-other h q a none (∉-head a q w xs out);
      },
    )

module _ (h : Heap) (l : LList) (xs : Cells) (is : IsList h l xs) where
  -- What is left of the list where its first node with the data is taken out.
  abbrev pub Without : ℕ → Bool × LList → Heap → Type 0
  Without v (found, l') g =
      (found ≡ has_value v (contents xs))
      × ((rest : Cells) × IsList g l' rest × (contents rest ≡ without_first v (contents xs)))
      × SameOutside xs h g

  -- llist_remove ends, and takes out of a list the first node that has the data, where there is one,
  -- and says whether there was; the others keep their order, and no other address is written.
  pub llist_remove-Without : (v : ℕ) → Ends (Without v) (llist_remove l v h)
  unfolding llist_remove
  llist_remove-Without v =
      let (p, e, s) =
        find_node-Search v (l.size + 1) h null xs is.linked (omega (arith, is.size)) in
      let found : find_node v (l.size + 1) l.first h ≡ done p h =
        ap (λ q. find_node v (l.size + 1) q h) is.first ∙ e in
      elim s [
        | inl (nothing, none_of) ↦
            let at_end : (p == null) ≡ true = ground (arith, nothing) in
            (
              (false, l),
              h,
              rw (found, at_end) refl,
              (sym none_of, (xs, is, sym (without_none v (contents xs) none_of)), λ a out. refl),
            )
        | inr (front, back, split, ne, one_of, out) ↦
            let (l', g, r, removed) =
              llist_remove_entry-Removed h p v l front back (subst (IsList h l) split is) in
            (
              (true, l'),
              g,
              rw (found, ne, r) refl,
              (
                sym one_of,
                (front ++ back, removed.is, sym out),
                subst (λ zs. SameOutside zs h g) (sym split) removed.same,
              ),
            )
      ]

  -- llist_clear ends, frees every node of a list and writes to no other address, and leaves the list
  -- as llist_new makes it.
  pub llist_clear-Freed : Ends (λ l' g. (l' ≡ llist_new) × Freed h xs g) (llist_clear l h)
  unfolding llist_clear
  llist_clear-Freed =
      let (u, g, e, freed) =
        free_nodes-Freed (l.size + 1) h null xs is.linked (omega (arith, is.size)) in
      let all : free_nodes (l.size + 1) l.first h ≡ done u g =
        ap (λ q. free_nodes (l.size + 1) q h) is.first ∙ e in
      (llist_new, g, rw all refl, (refl, freed))
