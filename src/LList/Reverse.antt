-- ===== src/LList/Reverse.antt =====
-- src/common/llist.c, llist_reverse: the data of the nodes is exchanged, from the ends inwards.
use regex_markup.Common.{
  ℕ, zero, suc, ◌+◌, ◌<◌, ◌≡◌, refl, sym, subst, ap, ◌∙◌, List, [], ◌∷◌, ◌++◌, append_assoc,
  append-nil, map, map-append, reverse, arith, length, length-append,
}
use mathlib.Core.List.{reverse-append, reverse-cons}
use regex_markup.LList.Heap.{Ptr, null, Heap}
use regex_markup.LList.{LList, reverse_loop, llist_reverse}
use regex_markup.LList.Linked.{
  Cells, ◌∉◌, head_or, last_or, Linked, IsList, Ends, SameOutside, last_or-append,
}
use regex_markup.LList.Relink.{one, last_view, last_or-snoc}
use regex_markup.LList.Walk.{contents}
use regex_markup.LList.Swap.{loop_met, loop_one, loop_swap, outside_round}

abbrev pub addresses : Cells → List Ptr
addresses = map (λ (cell : Ptr × ℕ). cell.0)

-- The data of the cells in the middle is reversed, at the same addresses.
abbrev Reversed : (h : Heap) (front mid back : Cells) → Heap → Type 0
Reversed h front mid back g =
    (ys : Cells) × Linked g null (front ++ (ys ++ back)) null
    × (addresses ys ≡ addresses mid)
    × (contents ys ≡ reverse (contents mid))
    × SameOutside (front ++ (mid ++ back)) h g

-- A round around the later ones.
around_round :
    (k : ℕ) (inner : Cells)
    → ((h : Heap) (front back : Cells)
        → Linked h null (front ++ (inner ++ back)) null
        → length front ≡ length back
        → Ends
            (λ (_ : Unit {0}) g. Reversed h front inner back g)
            (reverse_loop k (head_or null (inner ++ back)) (last_or null (front ++ inner)) h))
    → (h : Heap) (front back : Cells) (a : Ptr) (v : ℕ) (b : Ptr) (w : ℕ)
    → Linked h null (front ++ (((a, v) ∷ (inner ++ one b w)) ++ back)) null
    → length front ≡ length back
    → Ends
        (λ (_ : Unit {0}) g. Reversed h front ((a, v) ∷ (inner ++ one b w)) back g)
        (reverse_loop (suc k) a (last_or null (front ++ ((a, v) ∷ (inner ++ one b w)))) h)
around_round k inner later h front back a v b w l even =
    let front' : Cells = front ++ one a w in
    let l' =
      subst (λ zs. Linked h null (front ++ ((a, v) ∷ zs)) null) (append_assoc inner (one b w) back)
        l in
    let (g, e, lg, other) = loop_swap h k front inner back a v b w l' in
    let (u, g', e', (ys, ly, at, values, same)) =
      later g front' ((b, v) ∷ back) lg (omega (arith, even, length-append front (one a w))) in
    let tail : last_or null (front ++ ((a, v) ∷ (inner ++ one b w))) ≡ b =
      last_or-append null front ((a, v) ∷ (inner ++ one b w)) ∙ last_or-snoc a b w inner in
    (
      u,
      g',
      ap (λ q. reverse_loop (suc k) a q h) tail ∙ e ∙ e',
      (
        (a, w) ∷ (ys ++ one b v),
        subst (λ zs. Linked g' null zs null)
            (append_assoc front (one a w) (ys ++ ((b, v) ∷ back))
              ∙ ap (λ zs. front ++ ((a, w) ∷ zs)) (sym (append_assoc ys (one b v) back)))
            ly,
        ap (a ∷◌)
            (map-append _ ys (one b v) ∙ ap (◌++ (b ∷ [])) at ∙ sym (map-append _ inner (one b w))),
        ap (w ∷◌) (map-append _ ys (one b v) ∙ ap (◌++ (v ∷ [])) values)
            ∙ ap (◌++ (v ∷ [])) (
                sym (reverse-append (contents inner) (w ∷ []))
                ∙ ap reverse (sym (map-append _ inner (one b w))))
            ∙ sym (reverse-cons v (contents (inner ++ one b w))),
        λ d out.
            let (da, db, inside) = outside_round front inner back a v b w d out in
            same d inside ∙ other d da db,
      ),
    )

reverse_loop-Reversed :
    (k : ℕ) (mid : Cells) (h : Heap) (front back : Cells)
    → Linked h null (front ++ (mid ++ back)) null
    → length front ≡ length back
    → length mid < k
    → Ends
        (λ (_ : Unit {0}) g. Reversed h front mid back g)
        (reverse_loop k (head_or null (mid ++ back)) (last_or null (front ++ mid)) h)
reverse_loop-Reversed zero mid h front back l even fuel = absurd (omega arith)
reverse_loop-Reversed (suc k) [] h front back l even fuel = (
  tt,
  h,
  ap (λ zs. reverse_loop (suc k) (head_or null back) (last_or null zs) h) (append-nil front)
      ∙ loop_met h k front back l even,
  ([], l, refl, refl, λ d out. refl),
)
reverse_loop-Reversed (suc k) ((a, v) ∷ []) h front back l even fuel =
    (tt, h, loop_one h k front back a v, (one a v, l, refl, refl, λ d out. refl))
reverse_loop-Reversed (suc k) ((a, v) ∷ x ∷ rest) h front back l even fuel =
    let (inner, b, w, e) = last_view x rest in
    let size : suc (length rest) ≡ length inner + 1 = ap length e ∙ length-append inner (one b w) in
    let later =
      λ (h : Heap) (front back : Cells) (l : Linked h null (front ++ (inner ++ back)) null)
          (even : length front ≡ length back).
        reverse_loop-Reversed k inner h front back l even (omega (arith, size, fuel)) in
    subst
      (λ zs.
        Linked h null (front ++ (((a, v) ∷ zs) ++ back)) null
        → Ends (λ (_ : Unit {0}) g. Reversed h front ((a, v) ∷ zs) back g)
            (reverse_loop (suc k) a (last_or null (front ++ ((a, v) ∷ zs))) h))
      (sym e) (λ l'. around_round k inner later h front back a v b w l' even) l

-- The ends and the size of a list, from the addresses.
abbrev first_of : List Ptr → Ptr
first_of [] = null
first_of (p ∷ ps) = p

abbrev last_of : Ptr → List Ptr → Ptr
last_of before [] = before
last_of before (p ∷ ps) = last_of p ps

head_of : (xs : Cells) → head_or null xs ≡ first_of (addresses xs)
head_of [] = refl
head_of (x ∷ xs) = refl

last_of_cells : (before : Ptr) (xs : Cells) → last_or before xs ≡ last_of before (addresses xs)
last_of_cells before [] = refl
last_of_cells before ((p, v) ∷ xs) = last_of_cells p xs

size_of : (xs : Cells) → length (addresses xs) ≡ length xs
size_of [] = refl
size_of (x ∷ xs) = ap suc (size_of xs)

-- llist_reverse ends, and reverses the data of a list, whose nodes stay at their addresses and are
-- linked as they were; no other address is written.
pub llist_reverse-reverse :
    (h : Heap) (l : LList) (xs : Cells)
    → IsList h l xs
    → Ends
        (λ (_ : Unit {0}) g.
          ((ys : Cells) × IsList g l ys
            × (contents ys ≡ reverse (contents xs))
            × (addresses ys ≡ addresses xs))
          × SameOutside xs h g)
        (llist_reverse l h)
unfolding llist_reverse
llist_reverse-reverse h l xs is =
    let whole : xs ++ [] ≡ xs = append-nil xs in
    let (u, g, e, (ys, ly, at, values, same)) =
      reverse_loop-Reversed (l.size + 1) xs h [] []
        (subst (λ zs. Linked h null zs null) (sym whole) is.linked) refl (omega (arith, is.size)) in
    let start : head_or null (xs ++ []) ≡ l.first = ap (head_or null) whole ∙ sym is.first in
    let linked : Linked g null ys null = subst (λ zs. Linked g null zs null) (append-nil ys) ly in
    (
      u,
      g,
      ap (λ p. reverse_loop (l.size + 1) p l.last h) (sym start)
          ∙ ap (λ q. reverse_loop (l.size + 1) (head_or null (xs ++ [])) q h) is.last
          ∙ e,
      (
        (
          ys,
          record {
            linked = linked;
            first = is.first ∙ sym (head_of ys ∙ ap first_of at ∙ sym (head_of xs));
            last =
                is.last
                ∙ sym (last_of_cells null ys ∙ ap (last_of null) at ∙ sym (last_of_cells null xs));
            size = is.size ∙ sym (sym (size_of ys) ∙ ap length at ∙ size_of xs);
            small = is.small;
          },
          values,
          at,
        ),
        λ d out. same d (subst (λ zs. d ∉ zs) (sym whole) out),
      ),
    )
