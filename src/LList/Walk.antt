-- ===== src/LList/Walk.antt =====
-- src/common/llist.c: the functions that follow the links, against the data in order.
use regex_markup.Common.{
  ℕ, zero, suc, ◌+◌, ◌<◌, ◌≤◌, ◌≡◌, refl, ap, ◌∙◌, List, [], ◌∷◌, ◌++◌, map, ◌==◌, if◌then◌else◌,
  arith, length, get_or, add32, minus_one, u32, Bool-cases, inl, inr,
}
use regex_markup.LList.Heap.{Ptr, null, Heap, done}
use regex_markup.LList.{
  LList, collect, llist_to_array, index_from, llist_index_of, walk_next, walk_previous,
}
use regex_markup.LList.Linked.{Cells, head_or, last_or, Linked, IsList, not_null, load-done}

abbrev pub contents : Cells → List ℕ
contents = map (λ (cell : Ptr × ℕ). cell.1)

-- A list at one of its places.
pub record SplitAt (xs : Cells) (i : ℕ) : Type 0 where
  pub front : Cells
  pub at : Ptr
  pub content : ℕ
  pub back : Cells
  pub same : xs ≡ front ++ ((at, content) ∷ back)
  pub place : length front ≡ i

pub split_at : (xs : Cells) (i : ℕ) → i < length xs → SplitAt xs i
split_at [] i h = absurd (omega arith)
split_at ((a, v) ∷ xs) zero h = record {
  front = [];
  at = a;
  content = v;
  back = xs;
  same = refl;
  place = refl;
}
split_at (x ∷ xs) (suc i) h =
    let s = split_at xs i (omega arith) in
    record {
      front = x ∷ s.front;
      at = s.at;
      content = s.content;
      back = s.back;
      same = ap (x ∷◌) s.same;
      place = ap suc s.place;
    }

pub get_or-contents :
    (front : Cells) (a : Ptr) (v : ℕ) (back : Cells)
    → get_or (contents (front ++ ((a, v) ∷ back))) (length front) null ≡ v
get_or-contents [] a v back = refl
get_or-contents (x ∷ front) a v back = get_or-contents front a v back

pub get_or-beyond : (xs : Cells) (i : ℕ) → length xs ≤ i → get_or (contents xs) i null ≡ null
get_or-beyond [] i h = refl
get_or-beyond (x ∷ xs) zero h = absurd (omega arith)
get_or-beyond (x ∷ xs) (suc i) h = get_or-beyond xs i (omega arith)

-- The place of the first of the data that is `v`, counted from `i`, or the pattern of -1.
abbrev pub first_place : ℕ → ℕ → List ℕ → ℕ
first_place v i [] = minus_one
first_place v i (w ∷ ws) = if w == v then i else first_place v (i + 1) ws

module _ (h : Heap) where
  pub collect-contents :
      (k : ℕ) (before : Ptr) (xs : Cells)
      → Linked h before xs null
      → length xs < k
      → collect k (head_or null xs) h ≡ done (contents xs) h
  unfolding collect
  collect-contents zero before xs l fuel = absurd (omega arith)
  collect-contents (suc k) before [] l fuel = refl
  collect-contents (suc k) before ((p, v) ∷ xs) (node, new, l) fuel =
      rw (not_null node, load-done node, collect-contents k p xs l (omega arith)) refl

  pub index_from-first_place :
      (v k i : ℕ) (before : Ptr) (xs : Cells)
      → Linked h before xs null
      → length xs < k
      → i + length xs < u32
      → index_from v k i (head_or null xs) h ≡ done (first_place v i (contents xs)) h
  unfolding index_from
  index_from-first_place v zero i before xs l fuel small = absurd (omega arith)
  index_from-first_place v (suc k) i before [] l fuel small = refl
  index_from-first_place v (suc k) i before ((p, w) ∷ xs) (node, new, l) fuel small =
      let counted : add32 i 1 ≡ i + 1 = omega (arith, small) in
      let rest = index_from-first_place v k (i + 1) p xs l (omega arith) (omega (arith, small)) in
      elim (Bool-cases (w == v)) [
        | inl hit ↦ rw (not_null node, load-done node, hit) refl
        | inr miss ↦ rw (not_null node, load-done node, miss, counted) rest
      ]

  pub walk_next-at :
      (xs : Cells) (before a stop : Ptr) (v : ℕ) (ys : Cells)
      → Linked h before (xs ++ ((a, v) ∷ ys)) stop
      → walk_next (length xs) (head_or stop (xs ++ ((a, v) ∷ ys))) h ≡ done a h
  unfolding walk_next
  walk_next-at [] before a stop v ys l = refl
  walk_next-at ((p, w) ∷ xs) before a stop v ys (node, new, l) =
      rw (load-done node) (walk_next-at xs p a stop v ys l)

  walk_previous-more :
      (ys : Cells) (a stop : Ptr) (j : ℕ)
      → Linked h a ys stop
      → walk_previous (length ys + j) (last_or a ys) h ≡ walk_previous j a h
  unfolding walk_previous
  walk_previous-more [] a stop j l = ap (λ k. walk_previous k a h) (omega arith)
  walk_previous-more ((c, u) ∷ ys) a stop j (node, new, l) =
      let regroup : suc (length ys) + j ≡ length ys + suc j = omega arith in
      ap (λ k. walk_previous k (last_or c ys) h) regroup
      ∙ walk_previous-more ys c stop (suc j) l
      ∙ rw (load-done node) refl

  pub walk_previous-at :
      (ys : Cells) (a stop : Ptr)
      → Linked h a ys stop
      → walk_previous (length ys) (last_or a ys) h ≡ done a h
  unfolding walk_previous
  walk_previous-at ys a stop l =
      let rounds : length ys ≡ length ys + 0 = omega arith in
      ap (λ k. walk_previous k (last_or a ys) h) rounds ∙ walk_previous-more ys a stop 0 l

module _ (h : Heap) (l : LList) (xs : Cells) (is : IsList h l xs) where
  -- llist_to_array ends, and returns the data of a list's nodes in their order.
  pub llist_to_array-contents : llist_to_array l h ≡ done (contents xs) h
  unfolding llist_to_array
  llist_to_array-contents =
      ap (λ p. collect (l.size + 1) p h) is.first
      ∙ collect-contents h (l.size + 1) null xs is.linked (omega (arith, is.size))

  -- llist_index_of ends, and returns the place of the first node of a list that has the data, counted
  -- from 0, and -1 where no node has it.
  pub llist_index_of-first_place :
      (v : ℕ) → llist_index_of l v h ≡ done (first_place v 0 (contents xs)) h
  unfolding llist_index_of
  llist_index_of-first_place v =
      ap (λ p. index_from v (l.size + 1) 0 p h) is.first
      ∙ index_from-first_place h v (l.size + 1) 0 null xs is.linked (omega (arith, is.size))
          (omega (arith, is.size, is.small))
