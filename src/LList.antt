-- ===== src/LList.antt =====
-- src/common/llist.c: doubly linked lists. A list's structure stands outside the heap of nodes, so
-- a function that changes it returns the new one. `fresh` is an address that xmalloc returns. A loop
-- along the nodes runs on fuel, one round more than the list's size.
pub mod Heap
pub mod Nodes
pub mod Linked
pub mod Relink
pub mod Remove
pub mod Insert
pub mod Between
pub mod Walk
pub mod Places
pub mod Whole
pub mod Swap
pub mod Reverse
use regex_markup.Common.{
  ℕ, zero, suc, ◌+◌, ◌-◌, ◌/◌, ◌≡◌, List, [], ◌∷◌, Bool, true, false, not, ◌&&◌, ◌==◌, ltb, leb,
  if◌then◌else◌, add32, sub32, minus_one,
}
use regex_markup.LList.Heap.{
  Ptr, null, LNode, lnode, Cmd, pure, out_of_rounds, ◌>>=◌, ◌>>◌, load, store, set_next,
  set_previous, set_content, free,
}

pub record LList : Type 0 where
  pub first : Ptr
  pub last : Ptr
  pub size : ℕ

abbrev pub llist : Ptr → Ptr → ℕ → LList
llist first last size = record { first = first; last = last; size = size }

unfoldable pub llist_new : LList
llist_new = llist null null 0

unfoldable pub free_nodes : ℕ → Ptr → Cmd (Unit {0})
free_nodes zero entry = λ _. out_of_rounds
free_nodes (suc k) entry =
    if entry == null then pure tt else do n ← load entry; free entry; free_nodes k n.next

unfoldable pub llist_free : LList → Cmd (Unit {0})
unfolding free_nodes
llist_free list = free_nodes (list.size + 1) list.first

unfoldable pub llist_get_first : LList → Cmd ℕ
llist_get_first list = if list.size == 0 then pure null else do n ← load list.first; pure n.content

unfoldable pub llist_get_last : LList → Cmd ℕ
llist_get_last list = if list.size == 0 then pure null else do n ← load list.last; pure n.content

unfoldable pub llist_remove_first : LList → Cmd (ℕ × LList)
llist_remove_first list =
    let size = sub32 list.size 1 in
    if list.size == 0 then pure (null, list) else do
      n ← load list.first
      last ← if n.next == null then pure null else set_previous n.next null >> pure list.last
      free list.first
      pure (n.content, llist n.next last size)

unfoldable pub llist_remove_last : LList → Cmd (ℕ × LList)
llist_remove_last list =
    let size = sub32 list.size 1 in
    if list.size == 0 then pure (null, list) else do
      n ← load list.last
      first ← if n.previous == null then pure null else set_next n.previous null >> pure list.first
      free list.last
      pure (n.content, llist first n.previous size)

unfoldable pub llist_add_first : (fresh : Ptr) → LList → ℕ → Cmd LList
llist_add_first fresh list v =
    let size = add32 list.size 1 in
    if list.size == 0
    then (do store fresh (lnode v null null); pure (llist fresh fresh size))
    else do
      store fresh (lnode v list.first null)
      set_previous list.first fresh
      pure (llist fresh list.last size)

unfoldable pub llist_add_last_entry : (entry : Ptr) → LList → ℕ → Cmd LList
llist_add_last_entry entry list v =
    let size = add32 list.size 1 in
    if list.size == 0
    then (do store entry (lnode v null null); pure (llist entry entry size))
    else do
      store entry (lnode v null list.last)
      set_next list.last entry
      pure (llist list.first entry size)

unfoldable pub llist_add_last : (fresh : Ptr) → LList → ℕ → Cmd LList
unfolding llist_add_last_entry
llist_add_last fresh list v = llist_add_last_entry fresh list v

unfoldable pub llist_remove_entry : LList → Ptr → Cmd LList
llist_remove_entry list entry =
    let size = sub32 list.size 1 in
    if list.size == 1
    then (do free entry; pure (llist null null size))
    else if entry == list.first
    then (do
      n ← load entry
      set_previous n.next null
      free entry
      pure (llist n.next list.last size))
    else if entry == list.last
    then (do
      n ← load entry
      set_next n.previous null
      free entry
      pure (llist list.first n.previous size))
    else do
      n ← load entry
      set_previous n.next n.previous
      set_next n.previous n.next
      free entry
      pure (llist list.first list.last size)

-- The first node with the data, or NULL.
unfoldable pub find_node : ℕ → ℕ → Ptr → Cmd Ptr
find_node v zero entry = λ _. out_of_rounds
find_node v (suc k) entry =
    if entry == null
    then pure null
    else do n ← load entry; if n.content == v then pure entry else find_node v k n.next

unfoldable pub llist_remove : LList → ℕ → Cmd (Bool × LList)
unfolding find_node llist_remove_entry
llist_remove list v = do
  entry ← find_node v (list.size + 1) list.first
  if entry == null
      then pure (false, list)
      else do list' ← llist_remove_entry list entry; pure (true, list')

unfoldable pub walk_next : ℕ → Ptr → Cmd Ptr
walk_next zero entry = pure entry
walk_next (suc k) entry = do n ← load entry; walk_next k n.next

unfoldable pub walk_previous : ℕ → Ptr → Cmd Ptr
walk_previous zero entry = pure entry
walk_previous (suc k) entry = do n ← load entry; walk_previous k n.previous

-- From the nearer end.
unfoldable pub llist_get_entry : LList → ℕ → Cmd Ptr
unfolding walk_next walk_previous
llist_get_entry list index =
    if ltb index (list.size / 2)
    then walk_next index list.first
    else walk_previous (list.size - (index + 1)) list.last

unfoldable pub llist_contains : LList → ℕ → Cmd Bool
unfolding find_node
llist_contains list v = do
  entry ← find_node v (list.size + 1) list.first
  pure (not (entry == null))

unfoldable pub llist_size : LList → ℕ
llist_size list = list.size

unfoldable pub llist_clear : LList → Cmd LList
unfolding free_nodes
llist_clear list = free_nodes (list.size + 1) list.first >> pure llist_new

unfoldable pub llist_get : LList → ℕ → Cmd ℕ
unfolding llist_get_entry
llist_get list index =
    if leb list.size index
    then pure null
    else do entry ← llist_get_entry list index; n ← load entry; pure n.content

-- `entry->data = old_data`
unfoldable pub llist_set : LList → ℕ → ℕ → Cmd ℕ
unfolding llist_get_entry
llist_set list index v = if leb list.size index then pure null else do
  entry ← llist_get_entry list index
  n ← load entry
  set_content entry n.content
  pure n.content

unfoldable pub llist_add_at : (fresh : Ptr) → LList → ℕ → ℕ → Cmd LList
unfolding llist_get_entry llist_add_last_entry
llist_add_at fresh list index v =
    if ltb list.size index
    then pure list
    else if ltb index list.size
    then (do
      after ← llist_get_entry list index
      n ← load after
      store fresh (lnode v after n.previous)
      first ←
          if n.previous == null then pure fresh else set_next n.previous fresh >> pure list.first
      set_previous after fresh
      pure (llist first list.last (add32 list.size 1)))
    else llist_add_last_entry fresh list v

unfoldable pub llist_remove_at : LList → ℕ → Cmd (ℕ × LList)
unfolding llist_get_entry llist_remove_entry
llist_remove_at list index = if leb list.size index then pure (null, list) else do
  entry ← llist_get_entry list index
  n ← load entry
  list' ← llist_remove_entry list entry
  pure (n.content, list')

-- The place of the first node with the data, or the pattern of -1.
unfoldable pub index_from : ℕ → ℕ → (index : ℕ) → Ptr → Cmd ℕ
index_from v zero index entry = λ _. out_of_rounds
index_from v (suc k) index entry = if entry == null then pure minus_one else do
  n ← load entry
  if n.content == v then pure index else index_from v k (add32 index 1) n.next

unfoldable pub llist_index_of : LList → ℕ → Cmd ℕ
unfolding index_from
llist_index_of list v = index_from v (list.size + 1) 0 list.first

unfoldable pub last_index_from : ℕ → ℕ → (index : ℕ) → Ptr → Cmd ℕ
last_index_from v zero index entry = λ _. out_of_rounds
last_index_from v (suc k) index entry = if entry == null then pure minus_one else do
  n ← load entry
  if n.content == v then pure index else last_index_from v k (sub32 index 1) n.previous

unfoldable pub llist_last_index_of : LList → ℕ → Cmd ℕ
unfolding last_index_from
llist_last_index_of list v = last_index_from v (list.size + 1) (sub32 list.size 1) list.last

-- The loop of llist_to_array: the data in order.
unfoldable pub collect : ℕ → Ptr → Cmd (List ℕ)
collect zero entry = λ _. out_of_rounds
collect (suc k) entry =
    if entry == null
    then pure []
    else do n ← load entry; rest ← collect k n.next; pure (n.content ∷ rest)

unfoldable pub llist_to_array : LList → Cmd (List ℕ)
unfolding collect
llist_to_array list = collect (list.size + 1) list.first

unfoldable pub llist_is_empty : LList → Bool
llist_is_empty list = list.size == 0

-- The data of the two nodes is exchanged, from the ends inwards.
unfoldable pub reverse_loop : ℕ → (head tail : Ptr) → Cmd (Unit {0})
reverse_loop zero head tail = λ _. out_of_rounds
reverse_loop (suc k) head tail = if head == tail then pure tt else do
  n ← load head
  if n.previous == tail then pure tt else do
    m ← load tail
    set_content head m.content
    set_content tail n.content
    reverse_loop k n.next m.previous

unfoldable pub llist_reverse : LList → Cmd (Unit {0})
unfolding reverse_loop
llist_reverse list = reverse_loop (list.size + 1) list.first list.last
