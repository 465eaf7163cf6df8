-- ===== src/LList/Linked.antt =====
-- What a list of src/common/llist.c stands for: its nodes in order, with their data.
use regex_markup.Common.{
  ℕ, ◌<◌, ◌≡◌, ◌≢◌, refl, sym, subst, ◌∙◌, List, [], ◌∷◌, ◌++◌, Bool, false, ◌||◌, Option, none,
  some, ◌==◌, arith, length, u32,
}
use regex_markup.LList.Heap.{
  Ptr, null, LNode, lnode, Heap, write, Run, done, load, set_next, set_previous, set_content, free,
}
use regex_markup.LList.{LList}

-- Address and data of each node, in order.
abbrev pub Cells : Type 0
Cells = List (Ptr × ℕ)

abbrev pub has : Ptr → Cells → Bool
has a [] = false
has a ((p, v) ∷ xs) = (a == p) || has a xs

infix 40 ◌∉◌
abbrev pub ◌∉◌ : Ptr → Cells → Type 0
a ∉ xs = has a xs ≡ false

abbrev pub head_or : Ptr → Cells → Ptr
head_or stop [] = stop
head_or stop ((p, v) ∷ xs) = p

abbrev pub last_or : Ptr → Cells → Ptr
last_or before [] = before
last_or before ((p, v) ∷ xs) = last_or p xs

-- A node that is at its address.
pub record Node (h : Heap) (p : Ptr) (v : ℕ) (next previous : Ptr) : Type 0 where
  pub ne_null : p ≢ null
  pub holds : h p ≡ some (lnode v next previous)

-- The nodes are linked in both directions, between `before` and `stop`, at distinct addresses.
abbrev pub Linked : Heap → (before : Ptr) → Cells → (stop : Ptr) → Type 0
Linked h before [] stop = Unit {0}
Linked h before ((p, v) ∷ xs) stop =
    Node h p v (head_or stop xs) before × (p ∉ xs) × Linked h p xs stop

pub record IsList (h : Heap) (l : LList) (xs : Cells) : Type 0 where
  pub linked : Linked h null xs null
  pub first : l.first ≡ head_or null xs
  pub last : l.last ≡ last_or null xs
  pub size : l.size ≡ length xs
  pub small : l.size < u32

-- The heaps agree but at the addresses of the cells.
abbrev pub SameOutside : Cells → Heap → Heap → Type 0
SameOutside xs h g = (a : Ptr) → a ∉ xs → g a ≡ h a

module _ {h : Heap} {p next previous : Ptr} {v : ℕ} (node : Node h p v next previous) where
  pub not_null : (p == null) ≡ false
  not_null = ground (arith, node.ne_null)

  pub load-done : load p h ≡ done (lnode v next previous) h
  unfolding load
  load-done = rw (not_null, node.holds)

  pub set_next-done : (q : Ptr) → set_next p q h ≡ done tt (write h p (some (lnode v q previous)))
  unfolding set_next
  set_next-done q = rw load-done

  pub set_previous-done :
      (q : Ptr) → set_previous p q h ≡ done tt (write h p (some (lnode v next q)))
  unfolding set_previous
  set_previous-done q = rw load-done

  pub set_content-done :
      (w : ℕ) → set_content p w h ≡ done tt (write h p (some (lnode w next previous)))
  unfolding set_content
  set_content-done w = rw load-done

  pub free-done : free p h ≡ done tt (write h p none)
  unfolding free
  free-done = rw load-done

pub write-same : (h : Heap) (p : Ptr) (c : Option LNode) → write h p c p ≡ c
unfolding write
write-same h p c = ground arith

pub write-other : (h : Heap) (p a : Ptr) (c : Option LNode) → (a == p) ≡ false → write h p c a ≡ h a
unfolding write
write-other h p a c e = rw e

-- A write to an address that is none of theirs leaves the nodes as they are.
pub Linked-write :
    (h : Heap) (a : Ptr) (c : Option LNode) (before stop : Ptr) (xs : Cells)
    → Linked h before xs stop
    → a ∉ xs
    → Linked (write h a c) before xs stop
Linked-write h a c before stop [] l out = tt
Linked-write h a c before stop ((p, v) ∷ xs) (node, new, l) out = (
  record { ne_null = node.ne_null; holds = write-other h a p c (ground arith) ∙ node.holds },
  new,
  Linked-write h a c p stop xs l (ground arith),
)

pub has-append : (a : Ptr) (xs ys : Cells) → has a (xs ++ ys) ≡ (has a xs || has a ys)
has-append a [] ys = refl
has-append a ((p, v) ∷ xs) ys = ground (arith, has-append a xs ys)

pub not_in_append : (a : Ptr) (xs ys : Cells) → a ∉ xs ++ ys → (a ∉ xs) × (a ∉ ys)
not_in_append a xs ys out = (ground (arith, has-append a xs ys), ground (arith, has-append a xs ys))

pub head_or-append :
    (stop : Ptr) (xs ys : Cells) → head_or stop (xs ++ ys) ≡ head_or (head_or stop ys) xs
head_or-append stop [] ys = refl
head_or-append stop (x ∷ xs) ys = refl

pub last_or-append :
    (before : Ptr) (xs ys : Cells) → last_or before (xs ++ ys) ≡ last_or (last_or before xs) ys
last_or-append before [] ys = refl
last_or-append before ((p, v) ∷ xs) ys = last_or-append p xs ys

-- A run ends, without a fault, and with a result that is as stated.
abbrev pub Ends : {A : Type 0} → (A → Heap → Type 0) → Run A → Type 0
Ends {A} P r = (a : A) × (g : Heap) × (r ≡ done a g) × P a g

-- No address is in both.
abbrev pub Apart : Cells → Cells → Type 0
Apart [] ys = Unit {0}
Apart ((p, v) ∷ xs) ys = (p ∉ ys) × Apart xs ys

pub Linked-split :
    (h : Heap) (before stop : Ptr) (xs ys : Cells)
    → Linked h before (xs ++ ys) stop
    → Linked h before xs (head_or stop ys) × Linked h (last_or before xs) ys stop × Apart xs ys
Linked-split h before stop [] ys l = (tt, l, tt)
Linked-split h before stop ((p, v) ∷ xs) ys (node, new, l) =
    let (front, back, apart) = Linked-split h p stop xs ys l in
    let (here, there) = not_in_append p xs ys new in
    (
      (subst (λ q. Node h p v q before) (head_or-append stop xs ys) node, here, front),
      back,
      (there, apart),
    )

pub Linked-append :
    (h : Heap) (before stop : Ptr) (xs ys : Cells)
    → Linked h before xs (head_or stop ys)
    → Linked h (last_or before xs) ys stop
    → Apart xs ys
    → Linked h before (xs ++ ys) stop
Linked-append h before stop [] ys l m apart = m
Linked-append h before stop ((p, v) ∷ xs) ys (node, new, l) m (out, apart) = (
  subst (λ q. Node h p v q before) (sym (head_or-append stop xs ys)) node,
  has-append p xs ys ∙ ground (arith, new, out),
  Linked-append h p stop xs ys l m apart,
)
