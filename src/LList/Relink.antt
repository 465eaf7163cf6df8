-- ===== src/LList/Relink.antt =====
-- Writing the links between two parts of a list of src/common/llist.c.
use regex_markup.Common.{
  ℕ, ◌≡◌, ◌≤◌, refl, subst, ap, ◌∙◌, [], ◌∷◌, ◌++◌, true, false, some, ◌==◌, arith, Bool-cases, inl,
  inr, ==_iff,
}
use regex_markup.LList.Heap.{Ptr, null, lnode, Heap, write, done, set_next, set_previous}
use regex_markup.LList.Linked.{
  Cells, has, ◌∉◌, head_or, last_or, Node, Linked, Apart, write-same, write-other, Linked-write,
  has-append, set_next-done, set_previous-done,
}

abbrev pub one : Ptr → ℕ → Cells
one a v = (a, v) ∷ []

-- A list that is not empty, from its end.
pub last_view :
    (x : Ptr × ℕ) (xs : Cells) → (ys : Cells) × (a : Ptr) × (v : ℕ) × (x ∷ xs ≡ ys ++ one a v)
last_view x [] = ([], x.0, x.1, refl)
last_view x (y ∷ xs) = let (ys, a, v, e) = last_view y xs in (x ∷ ys, a, v, ap (x ∷◌) e)

pub last_or-snoc : (before a : Ptr) (v : ℕ) (xs : Cells) → last_or before (xs ++ one a v) ≡ a
last_or-snoc before a v [] = refl
last_or-snoc before a v ((p, w) ∷ xs) = last_or-snoc p a v xs

pub ∉-Apart : (a : Ptr) (xs ys : Cells) → Apart xs ys → has a ys ≡ true → a ∉ xs
∉-Apart a [] ys apart in_ys = refl
∉-Apart a ((p, v) ∷ xs) ys (out, apart) in_ys =
    let others : a ∉ xs = ∉-Apart a xs ys apart in_ys in
    elim (Bool-cases (a == p)) [
      | inl same ↦
          let at : a ≡ p = (==_iff a p).0 same in
          let there : has p ys ≡ true = subst (λ b. has b ys ≡ true) at in_ys in cc
      | inr other ↦ rw other others
    ]

pub Apart-nil : (xs : Cells) → Apart xs []
Apart-nil [] = tt
Apart-nil (x ∷ xs) = (refl, Apart-nil xs)

pub Apart-sym : (xs ys : Cells) → Apart xs ys → Apart ys xs
Apart-sym xs [] apart = tt
Apart-sym xs ((p, v) ∷ ys) apart =
    (∉-Apart p xs ((p, v) ∷ ys) apart (ground arith), Apart-sym xs ys (tail xs apart))
  where
    tail : (xs : Cells) → Apart xs ((p, v) ∷ ys) → Apart xs ys
    tail [] apart = tt
    tail (x ∷ xs) (out, apart) = (ground (arith, out), tail xs apart)

-- The first node of a part is given another predecessor.
pub relink_previous :
    (h : Heap) (before q a stop : Ptr) (v : ℕ) (xs : Cells)
    → Linked h before ((a, v) ∷ xs) stop
    → Linked (write h a (some (lnode v (head_or stop xs) q))) q ((a, v) ∷ xs) stop
relink_previous h before q a stop v xs (node, new, l) = (
  record { ne_null = node.ne_null; holds = write-same h a _ },
  new,
  Linked-write h a _ a stop xs l new,
)

-- The last node of a part is given another successor.
pub relink_next :
    (h : Heap) (before q a stop : Ptr) (v : ℕ) (xs : Cells)
    → Linked h before (xs ++ one a v) stop
    → Node h a v stop (last_or before xs)
      × Linked (write h a (some (lnode v q (last_or before xs)))) before (xs ++ one a v) q
relink_next h before q a stop v [] (node, new, l) =
    (node, (record { ne_null = node.ne_null; holds = write-same h a _ }, new, tt))
relink_next h before q a stop v ((p, w) ∷ []) (node, new, l) =
    let (last, rest) = relink_next h p q a stop v [] l in
    (
      last,
      (
        record {
          ne_null = node.ne_null;
          holds = write-other h a p _ (ground (arith, new)) ∙ node.holds;
        },
        new,
        rest,
      ),
    )
relink_next h before q a stop v ((p, w) ∷ (p', w') ∷ xs) (node, new, l) =
    let (last, rest) = relink_next h p q a stop v ((p', w') ∷ xs) l in
    (
      last,
      (
        record {
          ne_null = node.ne_null;
          holds = write-other h a p _ (ground (arith, new, has-append p xs (one a v))) ∙ node.holds;
        },
        new,
        rest,
      ),
    )

pub head_snoc :
    (b : Ptr) (w : ℕ) (xs ys : Cells)
    → head_or null ((xs ++ one b w) ++ ys) ≡ head_or null (xs ++ one b w)
head_snoc b w [] ys = refl
head_snoc b w (x ∷ xs) ys = refl

pub out_first :
    (a b : Ptr) (w : ℕ) (xs : Cells)
    → a ∉ xs ++ one b w
    → (a == head_or null (xs ++ one b w)) ≡ false
out_first a b w [] out = ground (arith, out)
out_first a b w (x ∷ xs) out = ground (arith, out)

pub not_zero : (n : ℕ) → 1 ≤ n → (n == 0) ≡ false
not_zero n h = ground arith

pub not_one : (n : ℕ) → 2 ≤ n → (n == 1) ≡ false
not_one n h = ground arith

pub ∉-head : (a p : Ptr) (v : ℕ) (xs : Cells) → a ∉ (p, v) ∷ xs → (a == p) ≡ false
∉-head a p v xs out = ground (arith, out)

pub ∉-second : (d a c : Ptr) (v u : ℕ) (xs : Cells) → d ∉ (a, v) ∷ (c, u) ∷ xs → (d == c) ≡ false
∉-second d a c v u xs out = ground (arith, out)

pub ∉-snoc : (a b : Ptr) (w : ℕ) (xs : Cells) → a ∉ xs ++ one b w → (a == b) ≡ false
∉-snoc a b w xs out = ground (arith, out, has-append a xs (one b w))

pub ∉-last : (a c : Ptr) (u : ℕ) (ys : Cells) → a ∉ (c, u) ∷ ys → (a == last_or c ys) ≡ false
∉-last a c u [] out = ground (arith, out)
∉-last a c u ((d, x) ∷ ys) out = ∉-last a d x ys (ground (arith, out))

-- The links at the ends of two parts are written, that of the second first: `m` before it, and `k`
-- behind the first.
pub record Joined (h : Heap) (before stop q r m k b c : Ptr) (w u : ℕ) (xs ys : Cells)
    (h1 h2 : Heap) : Type 0 where
  pub set_c : set_previous c m h ≡ done tt h1
  pub set_b : set_next b k h1 ≡ done tt h2
  pub other : (d : Ptr) → (d == b) ≡ false → (d == c) ≡ false → h2 d ≡ h d
  pub front : Linked h2 before (xs ++ one b w) k
  pub back : Linked h2 m ((c, u) ∷ ys) stop

pub join :
    (h : Heap) (before stop q r m k b c : Ptr) (w u : ℕ) (xs ys : Cells)
    → Linked h before (xs ++ one b w) q
    → Linked h r ((c, u) ∷ ys) stop
    → Apart (xs ++ one b w) ((c, u) ∷ ys)
    → (h1 : Heap) × (h2 : Heap) × Joined h before stop q r m k b c w u xs ys h1 h2
join h before stop q r m k b c w u xs ys front back apart =
    let sym_apart = Apart-sym (xs ++ one b w) ((c, u) ∷ ys) apart in
    let h1 : Heap = write h c (some (lnode u (head_or stop ys) m)) in
    let front1 =
      Linked-write h c (some (lnode u (head_or stop ys) m)) before q (xs ++ one b w) front
        sym_apart.0 in
    let back1 = relink_previous h r m c stop u ys back in
    let (node_b, front2) = relink_next h1 before k b q w xs front1 in
    let b_out : b ∉ (c, u) ∷ ys = last_out xs apart in
    (
      h1,
      write h1 b (some (lnode w k (last_or before xs))),
      record {
        set_c = set_previous-done back.0 m;
        set_b = set_next-done node_b k;
        other = λ d not_b not_c. write-other h1 b d _ not_b ∙ write-other h c d _ not_c;
        front = front2;
        back = Linked-write h1 b _ m stop ((c, u) ∷ ys) back1 b_out;
      },
    )
  where
    last_out : (xs : Cells) → Apart (xs ++ one b w) ((c, u) ∷ ys) → b ∉ (c, u) ∷ ys
    last_out [] apart = apart.0
    last_out (x ∷ xs) (out, apart) = last_out xs apart
