-- ===== src/LList/Between.antt =====
-- src/common/llist.c, lnode_add_before and lnode_add_after: a new node beside a node of a list.
use regex_markup.Common.{
  ℕ, ◌+◌, ◌<◌, ◌≡◌, refl, sym, subst, ◌∙◌, [], ◌∷◌, ◌++◌, false, some, ◌==◌, arith, append_assoc,
  length, length-append, u32, add32,
}
use regex_markup.LList.Heap.{Ptr, null, lnode, Heap, write, done, store, set_next, set_previous}
use regex_markup.LList.{LList, llist}
use regex_markup.LList.Nodes.{lnode_add_before, lnode_add_after}
use regex_markup.LList.Linked.{
  Cells, ◌∉◌, head_or, last_or, Node, Linked, IsList, Ends, write-same, write-other, Linked-write,
  Linked-split, Linked-append, not_in_append, not_null, load-done, last_or-append,
}
use regex_markup.LList.Relink.{
  one, last_view, last_or-snoc, relink_next, Apart-sym, head_snoc, ∉-head, ∉-snoc, join,
}
use regex_markup.LList.Insert.{
  IsFresh, fresh_out, Inserted, llist_add_first-Inserted, llist_add_last-Inserted,
}

abbrev grown : LList → LList
grown l = llist l.first l.last (add32 l.size 1)

-- The links of the new node's neighbours are written.
record Spliced (h h0 : Heap) (n b c : Ptr) (new : Cells) (l : LList) (h1 g : Heap) : Type 0 where
  node_b : (b == null) ≡ false
  set_c : set_previous c n h0 ≡ done tt h1
  set_b : set_next b n h1 ≡ done tt g
  result : Inserted h new (grown l) g

module _ (h : Heap) (n : Ptr) (v : ℕ) (fresh : IsFresh h n) (l : LList) where
  splice_between :
      (b c : Ptr) (w u : ℕ) (xs ys : Cells)
      → IsList h l ((xs ++ one b w) ++ ((c, u) ∷ ys))
      → l.size + 1 < u32
      → (h1 : Heap) × (g : Heap) × Spliced h
          (write h n (some (lnode v c b)))
          n
          b
          c
          ((xs ++ one b w) ++ ((n, v) ∷ (c, u) ∷ ys))
          l
          h1
          g
  splice_between b c w u xs ys is small =
      let front_cells : Cells = xs ++ one b w in
      let back_cells : Cells = (c, u) ∷ ys in
      let (front, back', apart) = Linked-split h null null front_cells back_cells is.linked in
      let before : last_or null front_cells ≡ b = last_or-snoc null b w xs in
      let back : Linked h b back_cells null =
        subst (λ q. Linked h q back_cells null) before back' in
      let (out, out') =
        not_in_append n front_cells back_cells
          (fresh_out h n null null (front_cells ++ back_cells) fresh is.linked) in
      let new : _ = lnode v c b in
      let h0 : Heap = write h n (some new) in
      let (h1, g, j) =
        join h0 null null c b n n b c w u xs ys
          (Linked-write h n (some new) null c front_cells front out)
          (Linked-write h n (some new) b null back_cells back out') apart in
      let node_n : Node g n v c b = record {
        ne_null = fresh.ne_null;
        holds = j.other n (∉-snoc n b w xs out) (∉-head n c u ys out') ∙ write-same h n _;
      } in
      let all : Linked g null (front_cells ++ ((n, v) ∷ back_cells)) null =
        Linked-append g null null front_cells ((n, v) ∷ back_cells) j.front
          (subst (λ q. Linked g q ((n, v) ∷ back_cells) null) (sym before) (node_n, out', j.back))
          (Apart-sym ((n, v) ∷ back_cells) front_cells
            (out, Apart-sym front_cells back_cells apart)) in
      let size : length (front_cells ++ back_cells) ≡ length front_cells + length back_cells =
        length-append front_cells back_cells in
      let size' : length (front_cells ++ ((n, v) ∷ back_cells))
          ≡ length front_cells + length ((n, v) ∷ back_cells) =
        length-append front_cells ((n, v) ∷ back_cells) in
      (
        h1,
        g,
        record {
          node_b = not_null (relink_next h null c b c w xs front).0;
          set_c = j.set_c;
          set_b = j.set_b;
          result = record {
            is = record {
              linked = all;
              first =
                  is.first
                  ∙ head_snoc b w xs back_cells
                  ∙ sym (head_snoc b w xs ((n, v) ∷ back_cells));
              last =
                  is.last
                  ∙ last_or-append null front_cells back_cells
                  ∙ sym (last_or-append null front_cells ((n, v) ∷ back_cells));
              size = omega (arith, is.size, size, size', small);
              small = omega (arith, is.size, small);
            };
            same = λ d d_out.
                let (o, o') = not_in_append d front_cells ((n, v) ∷ back_cells) d_out in
                j.other d (∉-snoc d b w xs o) (∉-next d c u ys o')
                ∙ write-other h n d _ (∉-head d n v back_cells o');
          };
        },
      )
    where
      ∉-next : (d c : Ptr) (u : ℕ) (ys : Cells) → d ∉ (n, v) ∷ (c, u) ∷ ys → (d == c) ≡ false
      ∉-next d c u ys out = ground (arith, out)

  -- The node, and the list in which it stands.
  abbrev pub AtNew : (new : Cells) → Ptr × LList → Heap → Type 0
  AtNew new (p, l') g = (p ≡ n) × Inserted h new l' g

  before_inner :
      (b c : Ptr) (w u : ℕ) (xs ys : Cells)
      → IsList h l ((xs ++ one b w) ++ ((c, u) ∷ ys))
      → l.size + 1 < u32
      → Ends (AtNew ((xs ++ one b w) ++ ((n, v) ∷ (c, u) ∷ ys))) (lnode_add_before n l c v h)
  unfolding lnode_add_before store
  before_inner b c w u xs ys is small =
      let (h1, g, s) = splice_between b c w u xs ys is small in
      let (front, back, apart) = Linked-split h null null (xs ++ one b w) ((c, u) ∷ ys) is.linked in
      let node_c : Node h c u (head_or null ys) b =
        subst (λ q. Node h c u (head_or null ys) q) (last_or-snoc null b w xs) back.0 in
      (
        (n, grown l),
        g,
        rw (load-done node_c, s.node_b, not_null node_c, s.set_c, s.set_b) refl,
        (refl, s.result),
      )

  after_inner :
      (b c : Ptr) (w u : ℕ) (xs ys : Cells)
      → IsList h l ((xs ++ one b w) ++ ((c, u) ∷ ys))
      → l.size + 1 < u32
      → Ends (AtNew ((xs ++ one b w) ++ ((n, v) ∷ (c, u) ∷ ys))) (lnode_add_after n l b v h)
  unfolding lnode_add_after store
  after_inner b c w u xs ys is small =
      let (h1, g, s) = splice_between b c w u xs ys is small in
      let (front, back, apart) = Linked-split h null null (xs ++ one b w) ((c, u) ∷ ys) is.linked in
      let node_b = (relink_next h null c b c w xs front).0 in
      (
        (n, grown l),
        g,
        rw (load-done node_b, not_null back.0, s.node_b, s.set_c, s.set_b) refl,
        (refl, s.result),
      )

  -- lnode_add_before, at an address that holds no node, puts the new node in front of the given one
  -- of a list, at the list's start as elsewhere, and returns it; the list has less than 2 ^ 32 nodes
  -- then.
  pub lnode_add_before-Inserted :
      (c : Ptr) (u : ℕ) (xs ys : Cells)
      → IsList h l (xs ++ ((c, u) ∷ ys))
      → l.size + 1 < u32
      → Ends (AtNew (xs ++ ((n, v) ∷ (c, u) ∷ ys))) (lnode_add_before n l c v h)
  unfolding lnode_add_before
  lnode_add_before-Inserted c u [] ys is small =
      let (l', g, e, ins) = llist_add_first-Inserted h n v fresh l ((c, u) ∷ ys) is small in
      ((l'.first, l'), g, rw (load-done is.linked.0, e) refl, (ins.is.first, ins))
  lnode_add_before-Inserted c u (x ∷ xs) ys is small =
      let (front, b, w, e) = last_view x xs in
      subst
        (λ zs.
          IsList h l (zs ++ ((c, u) ∷ ys))
          → Ends (AtNew (zs ++ ((n, v) ∷ (c, u) ∷ ys))) (lnode_add_before n l c v h))
        (sym e) (λ is'. before_inner b c w u front ys is' small) is

  -- lnode_add_after, at an address that holds no node, puts the new node behind the given one of a
  -- list, at the list's end as elsewhere, and returns it; the list has less than 2 ^ 32 nodes then.
  pub lnode_add_after-Inserted :
      (b : Ptr) (w : ℕ) (xs ys : Cells)
      → IsList h l ((xs ++ one b w) ++ ys)
      → l.size + 1 < u32
      → Ends (AtNew ((xs ++ one b w) ++ ((n, v) ∷ ys))) (lnode_add_after n l b v h)
  unfolding lnode_add_after
  lnode_add_after-Inserted b w xs [] is small =
      let (front, _, _) = Linked-split h null null (xs ++ one b w) [] is.linked in
      let node_b = (relink_next h null null b null w xs front).0 in
      let (l', g, e, ins) =
        llist_add_last-Inserted h n v fresh l ((xs ++ one b w) ++ []) is small in
      let cells : ((xs ++ one b w) ++ []) ++ one n v ≡ (xs ++ one b w) ++ one n v =
        append_assoc (xs ++ one b w) [] (one n v) in
      (
        (l'.last, l'),
        g,
        rw (load-done node_b, e) refl,
        (
          ins.is.last ∙ last_or-snoc null n v ((xs ++ one b w) ++ []),
          subst (λ zs. Inserted h zs l' g) cells ins,
        ),
      )
  lnode_add_after-Inserted b w xs ((c, u) ∷ ys) is small = after_inner b c w u xs ys is small
