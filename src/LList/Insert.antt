-- ===== src/LList/Insert.antt =====
-- src/common/llist.c: a new node is put at an end of a list, or between two nodes.
use regex_markup.Common.{
  ℕ, ◌+◌, ◌<◌, ◌≡◌, ◌≢◌, refl, sym, subst, ap, ◌∙◌, [], ◌∷◌, ◌++◌, true, false, none, some, ◌==◌,
  arith, length, length-append, u32, add32, Bool-cases, inl, inr, ==_iff,
}
use regex_markup.LList.Heap.{Ptr, null, lnode, Heap, write, done, store, set_next, set_previous}
use regex_markup.LList.{LList, llist, llist_add_first, llist_add_last, llist_add_last_entry}
use regex_markup.LList.Linked.{
  Cells, ◌∉◌, head_or, last_or, Node, Linked, IsList, Ends, write-same, write-other, Linked-write,
  Linked-append, not_in_append, set_next-done, set_previous-done,
}
use regex_markup.LList.Relink.{
  one, last_view, last_or-snoc, relink_previous, relink_next, Apart-sym, head_snoc, ∉-head,
  ∉-second, ∉-snoc, not_zero,
}

-- What xmalloc returns: an address that is not NULL and holds no node.
pub record IsFresh (h : Heap) (n : Ptr) : Type 0 where
  pub ne_null : n ≢ null
  pub unused : h n ≡ none

pub fresh_out :
    (h : Heap) (n before stop : Ptr) (xs : Cells) → IsFresh h n → Linked h before xs stop → n ∉ xs
fresh_out h n before stop [] f l = refl
fresh_out h n before stop ((p, v) ∷ xs) f (node, new, l) =
    let others : n ∉ xs = fresh_out h n p stop xs f l in
    elim (Bool-cases (n == p)) [
      | inl same ↦
          let at : n ≡ p = (==_iff n p).0 same in
          let holds : h p ≡ none = subst (λ q. h q ≡ none) at f.unused in
          let node_holds = node.holds in cc
      | inr other ↦ rw other others
    ]

-- The new list holds the cells, and no address was written that is none of theirs.
pub record Inserted (h : Heap) (new : Cells) (l : LList) (g : Heap) : Type 0 where
  pub is : IsList g l new
  pub same : (a : Ptr) → a ∉ new → g a ≡ h a

module _ (h : Heap) (n : Ptr) (v : ℕ) (fresh : IsFresh h n) (l : LList) where
  abbrev stored : Ptr → Ptr → Heap
  stored next previous = write h n (some (lnode v next previous))

  stored-Node : (next previous : Ptr) → Node (stored next previous) n v next previous
  stored-Node next previous = record { ne_null = fresh.ne_null; holds = write-same h n _ }

  alone : (size : ℕ) → size ≡ 1 → size < u32 → IsList (stored null null) (llist n n size) (one n v)
  alone size e small = record {
    linked = (stored-Node null null, refl, tt);
    first = refl;
    last = refl;
    size = e;
    small = small;
  }

  add_last-snoc :
      (b : Ptr) (w : ℕ) (xs : Cells)
      → IsList h l (xs ++ one b w)
      → l.size + 1 < u32
      → Ends (Inserted h ((xs ++ one b w) ++ one n v)) (llist_add_last_entry n l v h)
  unfolding llist_add_last_entry store
  add_last-snoc b w xs is small =
      let cells : Cells = xs ++ one b w in
      let h0 : Heap = stored null l.last in
      let out : n ∉ cells = fresh_out h n null null cells fresh is.linked in
      let last : l.last ≡ b = is.last ∙ last_or-snoc null b w xs in
      let (node_b, relinked) =
        relink_next h0 null n b null w xs (Linked-write h n _ null null cells is.linked out) in
      let g : Heap = write h0 b (some (lnode w n (last_or null xs))) in
      let not_b : (n == b) ≡ false = ∉-snoc n b w xs out in
      let size : length cells ≡ length xs + 1 = length-append xs (one b w) in
      let size' : length (cells ++ one n v) ≡ length cells + 1 = length-append cells (one n v) in
      let more : (l.size == 0) ≡ false = not_zero l.size (omega (arith, is.size, size)) in
      let written : set_next l.last n h0 ≡ done tt g =
        subst (λ q. set_next q n h0 ≡ done tt g) (sym last) (set_next-done node_b n) in
      (
        llist l.first n (add32 l.size 1),
        g,
        rw (more, written) refl,
        record {
          is = record {
            linked =
                Linked-append g null null cells (one n v) relinked
                  ((
                    record {
                      ne_null = fresh.ne_null;
                      holds =
                          write-other h0 b n _ not_b
                          ∙ write-same h n _
                          ∙ ap (λ q. some (lnode v null q)) is.last;
                    },
                    refl,
                    tt,
                  ))
                  (Apart-sym (one n v) cells (out, tt));
            first = is.first ∙ sym (head_snoc b w xs (one n v));
            last = sym (last_or-snoc null n v cells);
            size = omega (arith, is.size, size', small);
            small = omega (arith, is.size, size', small);
          };
          same = λ d d_out.
              let (o, o') = not_in_append d cells (one n v) d_out in
              write-other h0 b d _ (∉-snoc d b w xs o) ∙ write-other h n d _ (∉-head d n v [] o');
        },
      )

  -- llist_add_last, at an address that holds no node, puts the new node behind those of a list, links
  -- it both ways, and writes to no address but theirs and the new one; the list has less than 2 ^ 32
  -- nodes then.
  pub llist_add_last-Inserted :
      (xs : Cells)
      → IsList h l xs
      → l.size + 1 < u32
      → Ends (Inserted h (xs ++ one n v)) (llist_add_last n l v h)
  unfolding llist_add_last llist_add_last_entry store
  llist_add_last-Inserted [] is small =
      let empty : (l.size == 0) ≡ true = ground (arith, is.size) in
      (
        llist n n (add32 l.size 1),
        stored null null,
        rw empty refl,
        record {
          is = alone (add32 l.size 1) (omega (arith, is.size)) (omega (arith, is.size));
          same = λ d out. write-other h n d _ (∉-head d n v [] out);
        },
      )
  llist_add_last-Inserted (x ∷ xs) is small =
      let (front, b, w, e) = last_view x xs in
      subst (λ zs. IsList h l zs → Ends (Inserted h (zs ++ one n v)) (llist_add_last_entry n l v h))
        (sym e) (λ is'. add_last-snoc b w front is' small) is

  -- llist_add_first, at an address that holds no node, puts the new node in front of those of a list,
  -- links it both ways, and writes to no address but theirs and the new one; the list has less than
  -- 2 ^ 32 nodes then.
  pub llist_add_first-Inserted :
      (xs : Cells)
      → IsList h l xs
      → l.size + 1 < u32
      → Ends (Inserted h ((n, v) ∷ xs)) (llist_add_first n l v h)
  unfolding llist_add_first store
  llist_add_first-Inserted [] is small =
      let empty : (l.size == 0) ≡ true = ground (arith, is.size) in
      (
        llist n n (add32 l.size 1),
        stored null null,
        rw empty refl,
        record {
          is = alone (add32 l.size 1) (omega (arith, is.size)) (omega (arith, is.size));
          same = λ d out. write-other h n d _ (∉-head d n v [] out);
        },
      )
  llist_add_first-Inserted ((c, u) ∷ ys) is small =
      let cells : Cells = (c, u) ∷ ys in
      let h0 : Heap = stored l.first null in
      let out : n ∉ cells = fresh_out h n null null cells fresh is.linked in
      let back = Linked-write h n (some (lnode v l.first null)) null null cells is.linked out in
      let g : Heap = write h0 c (some (lnode u (head_or null ys) n)) in
      let more : (l.size == 0) ≡ false = not_zero l.size (omega (arith, is.size)) in
      let written : set_previous l.first n h0 ≡ done tt g =
        subst (λ q. set_previous q n h0 ≡ done tt g) (sym is.first) (set_previous-done back.0 n) in
      (
        llist n l.last (add32 l.size 1),
        g,
        rw (more, written) refl,
        record {
          is = record {
            linked = (
              record {
                ne_null = fresh.ne_null;
                holds =
                    write-other h0 c n _ (∉-head n c u ys out)
                    ∙ write-same h n _
                    ∙ ap (λ q. some (lnode v q null)) is.first;
              },
              out,
              relink_previous h0 null n c null u ys back,
            );
            first = refl;
            last = is.last;
            size = omega (arith, is.size, small);
            small = omega (arith, is.size, small);
          };
          same = λ d d_out.
              write-other h0 c d _ (∉-second d n c v u ys d_out)
              ∙ write-other h n d _ (∉-head d n v cells d_out);
        },
      )
