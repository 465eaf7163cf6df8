-- ===== src/LList/Swap.antt =====
-- src/common/llist.c, llist_reverse: one round of its loop, and where it ends.
use regex_markup.Common.{
  ℕ, suc, ◌≡◌, ◌≢◌, refl, sym, subst, ap, ◌∙◌, [], ◌∷◌, ◌++◌, append_assoc, true, false, ◌==◌, some,
  arith, length, Bool-cases, inl, inr,
}
use regex_markup.LList.Heap.{Ptr, null, lnode, Heap, write, done}
use regex_markup.LList.{reverse_loop}
use regex_markup.LList.Linked.{
  Cells, has, ◌∉◌, head_or, last_or, Linked, Apart, load-done, set_content-done, Linked-write,
  Linked-split, Linked-append, write-same, write-other, head_or-append, last_or-append, has-append,
  not_in_append,
}
use regex_markup.LList.Relink.{one, last_or-snoc, ∉-Apart, ∉-head, ∉-last}

Apart-content :
    (xs ys : Cells) (a : Ptr) (v w : ℕ) → Apart xs ((a, v) ∷ ys) → Apart xs ((a, w) ∷ ys)
Apart-content [] ys a v w apart = tt
Apart-content (x ∷ xs) ys a v w (out, apart) = (out, Apart-content xs ys a v w apart)

-- The data of one node is written.
Linked-content :
    (h : Heap) (before stop : Ptr) (xs ys : Cells) (a : Ptr) (v w : ℕ)
    → Linked h before (xs ++ ((a, v) ∷ ys)) stop
    → Linked
        (write h a (some (lnode w (head_or stop ys) (last_or before xs))))
        before
        (xs ++ ((a, w) ∷ ys))
        stop
Linked-content h before stop xs ys a v w l =
    let (front, (node, new, back), apart) = Linked-split h before stop xs ((a, v) ∷ ys) l in
    let c = some (lnode w (head_or stop ys) (last_or before xs)) in
    let out : a ∉ xs = ∉-Apart a xs ((a, v) ∷ ys) apart (ground arith) in
    Linked-append (write h a c) before stop xs ((a, w) ∷ ys)
      (Linked-write h a c before a xs front out)
      (
        record { ne_null = node.ne_null; holds = write-same h a c },
        new,
        Linked-write h a c a stop ys back new,
      )
      (Apart-content xs ys a v w apart)

-- The pointers meet: an empty middle, or one node.
pub loop_met :
    (h : Heap) (k : ℕ) (front back : Cells)
    → Linked h null (front ++ back) null
    → length front ≡ length back
    → reverse_loop (suc k) (head_or null back) (last_or null front) h ≡ done tt h
unfolding reverse_loop
loop_met h k [] [] l e = refl
loop_met h k (x ∷ front) [] l e = absurd (omega arith)
loop_met h k front ((c, u) ∷ back) l e =
    let (_, (node, _, _), _) = Linked-split h null null front ((c, u) ∷ back) l in
    elim (Bool-cases (c == last_or null front)) [
      | inl met ↦ rw met refl
      | inr apart ↦
          let passed : (last_or null front == last_or null front) ≡ true = ground arith in
          rw (apart, load-done node, passed) refl
    ]

pub loop_one :
    (h : Heap) (k : ℕ) (front back : Cells) (a : Ptr) (v : ℕ)
    → reverse_loop (suc k) a (last_or null (front ++ one a v)) h ≡ done tt h
unfolding reverse_loop
loop_one h k front back a v =
    let met : (a == last_or null (front ++ one a v)) ≡ true =
      ground (arith, last_or-snoc null a v front) in
    rw met refl

last_not : (b : Ptr) (front : Cells) → b ≢ null → b ∉ front → (last_or null front == b) ≡ false
last_not b [] ne out = ground (arith, ne)
last_not b ((c, u) ∷ ys) ne out = ground (arith, ∉-last b c u ys out)

-- A round: the data of the two ends is exchanged.
pub loop_swap :
    (h : Heap) (k : ℕ) (front inner back : Cells) (a : Ptr) (v : ℕ) (b : Ptr) (w : ℕ)
    → Linked h null (front ++ ((a, v) ∷ (inner ++ ((b, w) ∷ back)))) null
    → (g : Heap) × (reverse_loop (suc k) a b h
        ≡ reverse_loop k
            (head_or null (inner ++ ((b, v) ∷ back)))
            (last_or null ((front ++ one a w) ++ inner))
            g)
      × Linked g null ((front ++ one a w) ++ (inner ++ ((b, v) ∷ back))) null
      × ((d : Ptr) → (d == a) ≡ false → (d == b) ≡ false → g d ≡ h d)
unfolding reverse_loop
loop_swap h k front inner back a v b w l =
    let behind : Cells = inner ++ ((b, w) ∷ back) in
    let front' : Cells = front ++ one a w in
    let (_, (node_a, new_a, _), apart) = Linked-split h null null front ((a, v) ∷ behind) l in
    let whole : front ++ ((a, v) ∷ behind) ≡ (front ++ ((a, v) ∷ inner)) ++ ((b, w) ∷ back) =
      sym (append_assoc front ((a, v) ∷ inner) ((b, w) ∷ back)) in
    let (_, (node_b, _, _), _) =
      Linked-split h null null (front ++ ((a, v) ∷ inner)) ((b, w) ∷ back)
        (subst (λ zs. Linked h null zs null) whole l) in
    let not_ab : (a == b) ≡ false =
      ∉-head a b w back (not_in_append a inner ((b, w) ∷ back) new_a).1 in
    let b_behind : has b behind ≡ true = has-append b inner ((b, w) ∷ back) ∙ ground arith in
    let b_out : b ∉ front = ∉-Apart b front ((a, v) ∷ behind) apart (ground (arith, b_behind)) in
    let not_prev : (last_or null front == b) ≡ false = last_not b front node_b.ne_null b_out in
    let h1 : Heap = write h a (some (lnode w (head_or null behind) (last_or null front))) in
    let l1 : Linked h1 null (front ++ ((a, w) ∷ behind)) null =
      Linked-content h null null front behind a v w l in
    let regroup : front ++ ((a, w) ∷ behind) ≡ (front' ++ inner) ++ ((b, w) ∷ back) =
      sym (append_assoc front (one a w) behind) ∙ sym (append_assoc front' inner ((b, w) ∷ back)) in
    let l1' : Linked h1 null ((front' ++ inner) ++ ((b, w) ∷ back)) null =
      subst (λ zs. Linked h1 null zs null) regroup l1 in
    let (_, (node_b1, _, _), _) = Linked-split h1 null null (front' ++ inner) ((b, w) ∷ back) l1' in
    let h2 : Heap =
      write h1 b (some (lnode v (head_or null back) (last_or null (front' ++ inner)))) in
    let l2 : Linked h2 null ((front' ++ inner) ++ ((b, v) ∷ back)) null =
      Linked-content h1 null null (front' ++ inner) back b w v l1' in
    let prev : last_or null (front ++ ((a, v) ∷ inner)) ≡ last_or null (front' ++ inner) =
      last_or-append null front ((a, v) ∷ inner)
      ∙ sym (
          last_or-append null front' inner
          ∙ ap (λ p. last_or p inner) (last_or-snoc null a w front)) in
    let next : head_or null behind ≡ head_or null (inner ++ ((b, v) ∷ back)) =
      head_or-append null inner ((b, w) ∷ back) ∙ sym (head_or-append null inner ((b, v) ∷ back)) in
    (
      h2,
      rw
          (
            not_ab,
            load-done node_a,
            not_prev,
            load-done node_b,
            set_content-done node_a w,
            set_content-done node_b1 v,
          )
          (ap (λ p. reverse_loop k p (last_or null (front ++ ((a, v) ∷ inner))) h2) next
            ∙ ap (λ q. reverse_loop k (head_or null (inner ++ ((b, v) ∷ back))) q h2) prev),
      subst (λ zs. Linked h2 null zs null) (append_assoc front' inner ((b, v) ∷ back)) l2,
      λ d da db. write-other h1 b d _ db ∙ write-other h a d _ da,
    )

pub outside_round :
    (front inner back : Cells) (a : Ptr) (v : ℕ) (b : Ptr) (w : ℕ) (d : Ptr)
    → d ∉ front ++ (((a, v) ∷ (inner ++ one b w)) ++ back)
    → ((d == a) ≡ false)
      × ((d == b) ≡ false)
      × (d ∉ (front ++ one a w) ++ (inner ++ ((b, v) ∷ back)))
outside_round front inner back a v b w d out =
    let (out_front, out_rest) = not_in_append d front (((a, v) ∷ (inner ++ one b w)) ++ back) out in
    let (out_mid, out_back) = not_in_append d ((a, v) ∷ (inner ++ one b w)) back out_rest in
    let not_a : (d == a) ≡ false = ∉-head d a v (inner ++ one b w) out_mid in
    let behind : d ∉ inner ++ one b w = ground (arith, out_mid) in
    let (out_inner, out_b) = not_in_append d inner (one b w) behind in
    let not_b : (d == b) ≡ false = ∉-head d b w [] out_b in
    let front' : d ∉ front ++ one a w =
      has-append d front (one a w) ∙ ground (arith, out_front, not_a) in
    let back' : d ∉ inner ++ ((b, v) ∷ back) =
      has-append d inner ((b, v) ∷ back) ∙ ground (arith, out_inner, not_b, out_back) in
    (
      not_a,
      not_b,
      has-append d (front ++ one a w) (inner ++ ((b, v) ∷ back)) ∙ ground (arith, front', back'),
    )
