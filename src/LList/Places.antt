-- ===== src/LList/Places.antt =====
-- src/common/llist.c: the functions that go to a place of a list.
use regex_markup.Common.{
  ℕ, suc, ◌+◌, ◌-◌, ◌/◌, ◌<◌, ◌≤◌, ◌≡◌, refl, sym, subst, ap, ◌∙◌, ◌∷◌, ◌++◌, true, false, ◌==◌,
  ltb, leb, arith, length, length-append, get_or, Bool-cases, inl, inr, some, ==_iff, leb→le,
}
use regex_markup.LList.Heap.{Ptr, null, LNode, lnode, Heap, write, done}
use regex_markup.LList.{
  LList, walk_next, walk_previous, llist_get_entry, llist_get, llist_set, llist_remove_at,
}
use regex_markup.LList.Linked.{
  Cells, head_or, last_or, Node, Linked, IsList, Ends, load-done, set_content-done, Linked-split,
  last_or-append, write-same, write-other,
}
use regex_markup.LList.Remove.{Removed, llist_remove_entry-Removed}
use regex_markup.LList.Walk.{
  contents, SplitAt, split_at, get_or-contents, get_or-beyond, walk_next-at, walk_previous-at,
}

not_leb : (n i : ℕ) → leb n i ≡ false → i < n
not_leb n i h = ground arith

lt→not_leb : (n i : ℕ) → i < n → leb n i ≡ false
lt→not_leb n i h = ground arith

module _ (h : Heap) (l : LList) (xs : Cells) (is : IsList h l xs) where
  -- llist_get_entry finds the node at a place from either end.
  llist_get_entry-at :
      (front : Cells) (a : Ptr) (v : ℕ) (back : Cells)
      → xs ≡ front ++ ((a, v) ∷ back)
      → llist_get_entry l (length front) h ≡ done a h
  unfolding llist_get_entry
  llist_get_entry-at front a v back e =
      let linked : Linked h null (front ++ ((a, v) ∷ back)) null =
        subst (λ zs. Linked h null zs null) e is.linked in
      let (_, (_, _, behind), _) = Linked-split h null null front ((a, v) ∷ back) linked in
      let size : length (front ++ ((a, v) ∷ back)) ≡ length front + suc (length back) =
        length-append front ((a, v) ∷ back) in
      let size' : l.size ≡ length (front ++ ((a, v) ∷ back)) = is.size ∙ ap length e in
      let rounds : l.size - (length front + 1) ≡ length back = omega (arith, size, size') in
      let first : l.first ≡ head_or null (front ++ ((a, v) ∷ back)) =
        is.first ∙ ap (head_or null) e in
      let last : l.last ≡ last_or a back =
        is.last ∙ ap (last_or null) e ∙ last_or-append null front ((a, v) ∷ back) in
      elim (Bool-cases (ltb (length front) (l.size / 2))) [
        | inl near ↦ rw near (
            ap (λ p. walk_next (length front) p h) first
            ∙ walk_next-at h front null a null v back linked)
        | inr far ↦ rw far (
            ap (λ k. walk_previous k l.last h) rounds
            ∙ ap (λ p. walk_previous (length back) p h) last
            ∙ walk_previous-at h back a null behind)
      ]

  Node-at :
      (front : Cells) (a : Ptr) (v : ℕ) (back : Cells)
      → xs ≡ front ++ ((a, v) ∷ back)
      → Node h a v (head_or null back) (last_or null front)
  Node-at front a v back e =
      (Linked-split h null null front ((a, v) ∷ back)
        (subst (λ zs. Linked h null zs null) e is.linked)).1.0

  entry_at : (i : ℕ) (s : SplitAt xs i) → llist_get_entry l i h ≡ done s.at h
  entry_at i s =
      ap (λ k. llist_get_entry l k h) (sym s.place)
      ∙ llist_get_entry-at s.front s.at s.content s.back s.same

  value_at : (i : ℕ) (s : SplitAt xs i) → get_or (contents xs) i null ≡ s.content
  value_at i s =
      ap (λ zs. get_or (contents zs) i null) s.same
      ∙ ap (λ k. get_or (contents (s.front ++ ((s.at, s.content) ∷ s.back))) k null) (sym s.place)
      ∙ get_or-contents s.front s.at s.content s.back

  beyond_at : (i : ℕ) → leb l.size i ≡ true → get_or (contents xs) i null ≡ null
  beyond_at i beyond = get_or-beyond xs i (subst (λ n. n ≤ i) is.size (leb→le l.size i beyond))

  split_inside : (i : ℕ) → leb l.size i ≡ false → SplitAt xs i
  split_inside i inside = split_at xs i (subst (λ n. i < n) is.size (not_leb l.size i inside))

  -- llist_get returns the data at every place of a list, and NULL for a place that it has not.
  pub llist_get-get_or : (i : ℕ) → llist_get l i h ≡ done (get_or (contents xs) i null) h
  unfolding llist_get
  llist_get-get_or i = elim (Bool-cases (leb l.size i)) [
    | inl beyond ↦ rw (beyond, beyond_at i beyond) refl
    | inr inside ↦
        let s = split_inside i inside in
        rw
          (
            inside,
            entry_at i s,
            load-done (Node-at s.front s.at s.content s.back s.same),
            value_at i s,
          )
          refl
  ]

  -- llist_set returns the data at a place of a list, NULL for a place that it has not, and changes
  -- nothing, whatever it is given to store.
  pub llist_set-unchanged :
      (i v : ℕ)
      → Ends
          (λ old g. (old ≡ get_or (contents xs) i null) × ((a : Ptr) → g a ≡ h a))
          (llist_set l i v h)
  unfolding llist_set
  llist_set-unchanged i v = elim (Bool-cases (leb l.size i)) [
    | inl beyond ↦ (null, h, rw beyond refl, (sym (beyond_at i beyond), λ a. refl))
    | inr inside ↦
        let s = split_inside i inside in
        let node = Node-at s.front s.at s.content s.back s.same in
        let kept : LNode = lnode s.content (head_or null s.back) (last_or null s.front) in
        (
          s.content,
          write h s.at (some kept),
          rw (inside, entry_at i s, load-done node, set_content-done node s.content) refl,
          (
            sym (value_at i s),
            λ a. elim (Bool-cases (a == s.at)) [
              | inl same ↦
                  let here : a ≡ s.at = (==_iff a s.at).0 same in
                  subst (λ q. write h s.at (some kept) q ≡ h q) (sym here)
                    (write-same h s.at (some kept) ∙ sym node.holds)
              | inr other ↦ write-other h s.at a (some kept) other
            ],
          ),
        )
  ]

  -- llist_remove_at takes out the node at a place of a list, frees it, and returns its data; the other
  -- nodes stay linked, and no other address is written.
  pub llist_remove_at-Removed :
      (front : Cells) (a : Ptr) (v : ℕ) (back : Cells)
      → xs ≡ front ++ ((a, v) ∷ back)
      → Ends
          (λ (r : ℕ × LList) g.
            (r.0 ≡ v) × Removed h a (front ++ ((a, v) ∷ back)) (front ++ back) r.1 g)
          (llist_remove_at l (length front) h)
  unfolding llist_remove_at
  llist_remove_at-Removed front a v back e =
      let (l', g, r, removed) =
        llist_remove_entry-Removed h a v l front back (subst (IsList h l) e is) in
      let size : length (front ++ ((a, v) ∷ back)) ≡ length front + suc (length back) =
        length-append front ((a, v) ∷ back) in
      let size' : l.size ≡ length (front ++ ((a, v) ∷ back)) = is.size ∙ ap length e in
      let inside : leb l.size (length front) ≡ false =
        lt→not_leb l.size (length front) (omega (arith, size, size')) in
      (
        (v, l'),
        g,
        rw (inside, llist_get_entry-at front a v back e, load-done (Node-at front a v back e), r)
            refl,
        (refl, removed),
      )
