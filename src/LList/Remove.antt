-- ===== src/LList/Remove.antt =====
-- src/common/llist.c, llist_remove_entry: a node is taken out of a list.
use regex_markup.Common.{
  ℕ, ◌+◌, ◌≡◌, refl, sym, subst, ◌∙◌, [], ◌∷◌, ◌++◌, true, false, none, some, ◌==◌, arith,
  append-nil, length, length-append, sub32, ==_iff,
}
use regex_markup.LList.Heap.{Ptr, null, lnode, Heap, write}
use regex_markup.LList.{LList, llist, llist_remove_entry}
use regex_markup.LList.Linked.{
  Cells, ◌∉◌, head_or, last_or, Node, Linked, Apart, IsList, Ends, SameOutside, write-same,
  write-other, Linked-write, Linked-split, Linked-append, has-append, not_in_append, load-done,
  set_next-done, set_previous-done, free-done, last_or-append,
}
use regex_markup.LList.Relink.{
  one, last_view, last_or-snoc, relink_previous, relink_next, Apart-sym, head_snoc, out_first,
  not_one, ∉-head, ∉-second, ∉-snoc, ∉-last, join,
}

-- What is left of a list when the node `a` is gone.
pub record Removed (h : Heap) (a : Ptr) (all rest : Cells) (l : LList) (g : Heap) : Type 0 where
  pub is : IsList g l rest
  pub gone : g a ≡ none
  pub same : SameOutside all h g

module _ (h : Heap) (a : Ptr) (v : ℕ) (l : LList) where
  remove_only : IsList h l (one a v) → Ends (Removed h a (one a v) []) (llist_remove_entry l a h)
  unfolding llist_remove_entry
  remove_only is =
      let node : Node h a v null null = is.linked.0 in
      let alone : (l.size == 1) ≡ true = ground (arith, is.size) in
      (
        llist null null (sub32 l.size 1),
        write h a none,
        rw (alone, free-done node) refl,
        record {
          is = record {
            linked = tt;
            first = refl;
            last = refl;
            size = omega (arith, is.size);
            small = omega (arith, is.size);
          };
          gone = write-same h a none;
          same = λ b out. write-other h a b none (ground arith);
        },
      )

  remove_first_entry :
      (c : Ptr) (u : ℕ) (ys : Cells)
      → IsList h l ((a, v) ∷ (c, u) ∷ ys)
      → Ends (Removed h a ((a, v) ∷ (c, u) ∷ ys) ((c, u) ∷ ys)) (llist_remove_entry l a h)
  unfolding llist_remove_entry
  remove_first_entry c u ys is =
      let (node, new, back) = is.linked in
      let h1 : Heap = write h c (some (lnode u (head_or null ys) null)) in
      let more : (l.size == 1) ≡ false = ground (arith, is.size) in
      let at_first : (a == l.first) ≡ true = ground (arith, is.first) in
      let apart : (a == c) ≡ false = ground (arith, new) in
      let still : Node h1 a v c null = record {
        ne_null = node.ne_null;
        holds = write-other h c a _ apart ∙ node.holds;
      } in
      (
        llist c l.last (sub32 l.size 1),
        write h1 a none,
        rw (more, at_first, load-done node, set_previous-done back.0 null, free-done still) refl,
        record {
          is = record {
            linked =
                Linked-write h1 a none null null ((c, u) ∷ ys)
                  (relink_previous h a null c null u ys back) new;
            first = refl;
            last = is.last;
            size = omega (arith, is.size, is.small);
            small = omega (arith, is.size, is.small);
          };
          gone = write-same h1 a none;
          same = λ b out.
              write-other h1 a b none (ground (arith, out))
              ∙ write-other h c b _ (ground (arith, out));
        },
      )

  remove_last_entry :
      (b : Ptr) (w : ℕ) (xs : Cells)
      → IsList h l ((xs ++ one b w) ++ one a v)
      → Ends (Removed h a ((xs ++ one b w) ++ one a v) (xs ++ one b w)) (llist_remove_entry l a h)
  unfolding llist_remove_entry
  remove_last_entry b w xs is =
      let (front, node_a, apart) = Linked-split h null null (xs ++ one b w) (one a v) is.linked in
      let (node_b, relinked) = relink_next h null null b a w xs front in
      let h1 : Heap = write h b (some (lnode w null (last_or null xs))) in
      let out : a ∉ xs ++ one b w = (Apart-sym (xs ++ one b w) (one a v) apart).0 in
      let not_b : (a == b) ≡ false = ground (arith, out, has-append a xs (one b w)) in
      let before : last_or null (xs ++ one b w) ≡ b = last_or-snoc null b w xs in
      let node : Node h a v null b = subst (λ q. Node h a v null q) before node_a.0 in
      let still : Node h1 a v null b = record {
        ne_null = node.ne_null;
        holds = write-other h b a _ not_b ∙ node.holds;
      } in
      let size : length ((xs ++ one b w) ++ one a v) ≡ length (xs ++ one b w) + 1 =
        length-append (xs ++ one b w) (one a v) in
      let size' : length (xs ++ one b w) ≡ length xs + 1 = length-append xs (one b w) in
      let more : (l.size == 1) ≡ false = not_one l.size (omega (arith, is.size, size, size')) in
      let first : l.first ≡ head_or null (xs ++ one b w) = is.first ∙ head_snoc b w xs (one a v) in
      let not_first : (a == l.first) ≡ false = rw first (out_first a b w xs out) in
      let at_last : (a == l.last) ≡ true =
        rw (is.last ∙ last_or-snoc null a v (xs ++ one b w)) ((==_iff a a).1 refl) in
      (
        llist l.first b (sub32 l.size 1),
        write h1 a none,
        rw (more, not_first, at_last, load-done node, set_next-done node_b null, free-done still)
            refl,
        record {
          is = record {
            linked = Linked-write h1 a none null null (xs ++ one b w) relinked out;
            first = first;
            last = sym before;
            size = omega (arith, is.size, is.small, size);
            small = omega (arith, is.size, is.small, size);
          };
          gone = write-same h1 a none;
          same = λ d d_out.
              let (o, o') = not_in_append d (xs ++ one b w) (one a v) d_out in
              write-other h1 a d none (ground (arith, o'))
              ∙ write-other h b d _ (ground (arith, o, has-append d xs (one b w)));
        },
      )

  remove_inner_entry :
      (b c : Ptr) (w u : ℕ) (xs ys : Cells)
      → IsList h l ((xs ++ one b w) ++ ((a, v) ∷ (c, u) ∷ ys))
      → Ends
          (Removed h a
            ((xs ++ one b w) ++ ((a, v) ∷ (c, u) ∷ ys))
            ((xs ++ one b w) ++ ((c, u) ∷ ys)))
          (llist_remove_entry l a h)
  unfolding llist_remove_entry
  remove_inner_entry b c w u xs ys is =
      let front_cells : Cells = xs ++ one b w in
      let back_cells : Cells = (c, u) ∷ ys in
      let (front, (node_a, new, back), apart) =
        Linked-split h null null front_cells ((a, v) ∷ back_cells) is.linked in
      let apart' : Apart front_cells back_cells = apart_tail front_cells apart in
      let out : a ∉ front_cells = (Apart-sym front_cells ((a, v) ∷ back_cells) apart).0 in
      let before : last_or null front_cells ≡ b = last_or-snoc null b w xs in
      let node : Node h a v c b = subst (λ q. Node h a v c q) before node_a in
      let (h1, h2, j) = join h null null a a b c b c w u xs ys front back apart' in
      let size : length (front_cells ++ ((a, v) ∷ back_cells))
          ≡ length front_cells + (length ys + 2) =
        length-append front_cells ((a, v) ∷ back_cells) ∙ omega arith in
      let size' : length front_cells ≡ length xs + 1 = length-append xs (one b w) in
      let size'' : length (front_cells ++ back_cells) ≡ length front_cells + (length ys + 1) =
        length-append front_cells back_cells ∙ omega arith in
      let more : (l.size == 1) ≡ false = not_one l.size (omega (arith, is.size, size, size')) in
      let first : l.first ≡ head_or null front_cells =
        is.first ∙ head_snoc b w xs ((a, v) ∷ back_cells) in
      let not_first : (a == l.first) ≡ false = rw first (out_first a b w xs out) in
      let ends : l.last ≡ last_or c ys =
        is.last ∙ last_or-append null front_cells ((a, v) ∷ back_cells) in
      let not_last : (a == l.last) ≡ false = rw ends (∉-last a c u ys new) in
      let not_b : (a == b) ≡ false = ∉-snoc a b w xs out in
      let still : Node h2 a v c b = record {
        ne_null = node.ne_null;
        holds = j.other a not_b (∉-head a c u ys new) ∙ node.holds;
      } in
      let linked : Linked (write h2 a none) null (front_cells ++ back_cells) null =
        Linked-append (write h2 a none) null null front_cells back_cells
          (Linked-write h2 a none null c front_cells j.front out)
          (subst (λ q. Linked (write h2 a none) q back_cells null) (sym before)
            (Linked-write h2 a none b null back_cells j.back new))
          apart' in
      (
        llist l.first l.last (sub32 l.size 1),
        write h2 a none,
        rw (more, not_first, not_last, load-done node, j.set_c, j.set_b, free-done still) refl,
        record {
          is = record {
            linked = linked;
            first = first ∙ sym (head_snoc b w xs back_cells);
            last = ends ∙ sym (last_or-append null front_cells back_cells);
            size = omega (arith, is.size, is.small, size, size'');
            small = omega (arith, is.size, is.small, size);
          };
          gone = write-same h2 a none;
          same = λ d d_out.
              let (o, o') = not_in_append d front_cells ((a, v) ∷ back_cells) d_out in
              write-other h2 a d none (∉-head d a v back_cells o')
              ∙ j.other d (∉-snoc d b w xs o) (∉-second d a c v u ys o');
        },
      )
    where
      apart_tail : (xs : Cells) → Apart xs ((a, v) ∷ (c, u) ∷ ys) → Apart xs ((c, u) ∷ ys)
      apart_tail [] p = tt
      apart_tail (x ∷ xs) (out, p) = (ground (arith, out), apart_tail xs p)

  -- llist_remove_entry takes a node of a list out wherever it stands, frees it, and writes to no
  -- address that is none of the list's; it ends without a fault.
  pub llist_remove_entry-Removed :
      (xs ys : Cells)
      → IsList h l (xs ++ ((a, v) ∷ ys))
      → Ends (Removed h a (xs ++ ((a, v) ∷ ys)) (xs ++ ys)) (llist_remove_entry l a h)
  llist_remove_entry-Removed [] [] is = remove_only is
  llist_remove_entry-Removed [] ((c, u) ∷ ys) is = remove_first_entry c u ys is
  llist_remove_entry-Removed (x ∷ xs) [] is =
      let (front, b, w, e) = last_view x xs in
      subst
        (λ zs.
          IsList h l (zs ++ one a v)
          → Ends (Removed h a (zs ++ one a v) (zs ++ [])) (llist_remove_entry l a h))
        (sym e)
        (λ is'.
          subst
            (λ rest.
              Ends (Removed h a ((front ++ one b w) ++ one a v) rest) (llist_remove_entry l a h))
            (sym (append-nil (front ++ one b w))) (remove_last_entry b w front is'))
        is
  llist_remove_entry-Removed (x ∷ xs) ((c, u) ∷ ys) is =
      let (front, b, w, e) = last_view x xs in
      subst
        (λ zs.
          IsList h l (zs ++ ((a, v) ∷ (c, u) ∷ ys))
          → Ends (Removed h a (zs ++ ((a, v) ∷ (c, u) ∷ ys)) (zs ++ ((c, u) ∷ ys)))
              (llist_remove_entry l a h))
        (sym e) (remove_inner_entry b c w u front ys) is
