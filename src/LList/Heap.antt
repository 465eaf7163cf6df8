-- ===== src/LList/Heap.antt =====
-- The nodes of src/common/llist.c at addresses, and commands that read and write them.
use regex_markup.Common.{ℕ, Option, none, some, ◌==◌, if◌then◌else◌}

abbrev pub Ptr : Type 0
Ptr = ℕ

-- NULL, as an address and as data.
abbrev pub null : ℕ
null = 0

pub record LNode : Type 0 where
  pub content : ℕ
  pub next : Ptr
  pub previous : Ptr

abbrev pub lnode : ℕ → Ptr → Ptr → LNode
lnode content next previous = record { content = content; next = next; previous = previous }

abbrev pub Heap : Type 0
Heap = Ptr → Option LNode

unfoldable pub write : Heap → Ptr → Option LNode → Heap
write h p c a = if a == p then c else h a

-- `fault` is an access through NULL or to an address that holds no node.
pub data Run (A : Type 0) : Type 0 where
  done : A → Heap → Run A
  fault : Run A
  out_of_rounds : Run A

abbrev pub Cmd : Type 0 → Type 0
Cmd A = Heap → Run A

abbrev pub pure : {A : Type 0} → A → Cmd A
pure = done

module _ {A B : Type 0} where
  abbrev pub continue : Run A → (A → Cmd B) → Run B
  continue (done a h) k = k a h
  continue fault k = fault
  continue out_of_rounds k = out_of_rounds

  infixl 5 ◌>>=◌ ◌>>◌
  abbrev pub ◌>>=◌ : Cmd A → (A → Cmd B) → Cmd B
  m >>= k = λ h. continue (m h) k

  abbrev pub ◌>>◌ : Cmd A → Cmd B → Cmd B
  m >> n = m >>= λ _. n

unfoldable pub load : Ptr → Cmd LNode
load p h = if p == null then fault else elim (h p) [ none ↦ fault | some n ↦ done n h ]

-- The node that xmalloc has returned is filled.
unfoldable pub store : Ptr → LNode → Cmd (Unit {0})
store p n h = done tt (write h p (some n))

unfoldable pub set_next : Ptr → Ptr → Cmd (Unit {0})
unfolding load store
set_next p q = do n ← load p; store p (record n { next = q })

unfoldable pub set_previous : Ptr → Ptr → Cmd (Unit {0})
unfolding load store
set_previous p q = do n ← load p; store p (record n { previous = q })

unfoldable pub set_content : Ptr → ℕ → Cmd (Unit {0})
unfolding load store
set_content p v = do n ← load p; store p (record n { content = v })

unfoldable pub free : Ptr → Cmd (Unit {0})
unfolding load
free p = load p >> λ h. done tt (write h p none)
