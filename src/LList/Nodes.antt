-- ===== src/LList/Nodes.antt =====
-- src/common/llist.c: the functions on nodes, the iterator, and copies.
use regex_markup.Common.{
  ℕ, zero, suc, ◌+◌, List, [], ◌∷◌, ◌++◌, Bool, not, ◌==◌, if◌then◌else◌, add32,
}
use regex_markup.LList.Heap.{
  Ptr, null, lnode, Cmd, pure, fault, out_of_rounds, ◌>>=◌, ◌>>◌, load, store, set_next,
  set_previous,
}
use regex_markup.LList.{
  LList, llist, llist_add_first, llist_add_last, llist_remove_entry, llist_get_entry,
  llist_to_array,
}

unfoldable pub lnode_next : Ptr → Cmd Ptr
lnode_next node = do n ← load node; pure n.next

unfoldable pub lnode_previous : Ptr → Cmd Ptr
lnode_previous node = do n ← load node; pure n.previous

unfoldable pub lnode_data : Ptr → Cmd ℕ
lnode_data node = do n ← load node; pure n.content

unfoldable pub lnode_is_first : Ptr → Cmd Bool
lnode_is_first node = do n ← load node; pure (n.previous == null)

unfoldable pub lnode_is_last : Ptr → Cmd Bool
lnode_is_last node = do n ← load node; pure (n.next == null)

unfoldable pub lnode_remove : LList → Ptr → Cmd LList
unfolding llist_remove_entry
lnode_remove list node = llist_remove_entry list node

-- The new node, and the list. The tests for NULL at the new node's links are those of the code.
unfoldable pub lnode_add_after : (fresh : Ptr) → LList → Ptr → ℕ → Cmd (Ptr × LList)
unfolding llist_add_last
lnode_add_after fresh list node v = do
  n ← load node
  if n.next == null then (do list' ← llist_add_last fresh list v; pure (list'.last, list')) else do
    store fresh (lnode v n.next node)
    set_previous n.next fresh
    first ← if node == null then pure fresh else set_next node fresh >> pure list.first
    pure (fresh, llist first list.last (add32 list.size 1))

unfoldable pub lnode_add_before : (fresh : Ptr) → LList → Ptr → ℕ → Cmd (Ptr × LList)
unfolding llist_add_first
lnode_add_before fresh list node v = do
  n ← load node
  if n.previous == null
      then (do list' ← llist_add_first fresh list v; pure (list'.first, list'))
      else do
        store fresh (lnode v node n.previous)
        last ← if node == null then pure fresh else set_previous node fresh >> pure list.last
        set_next n.previous fresh
        pure (fresh, llist list.first last (add32 list.size 1))

unfoldable pub llist_to_null_terminated_array : LList → Cmd (List ℕ)
unfolding llist_to_array
llist_to_null_terminated_array list = do array ← llist_to_array list; pure (array ++ (null ∷ []))

-- The next node is read when the function has been called.
unfoldable pub iterate_from : (iterator_func : ℕ → Cmd (Unit {0})) → ℕ → Ptr → Cmd (Unit {0})
iterate_from iterator_func zero entry = λ _. out_of_rounds
iterate_from iterator_func (suc k) entry = if entry == null then pure tt else do
  n ← load entry
  iterator_func n.content
  after ← load entry
  iterate_from iterator_func k after.next

unfoldable pub llist_iterate : LList → (iterator_func : ℕ → Cmd (Unit {0})) → Cmd (Unit {0})
unfolding iterate_from
llist_iterate list iterator_func = iterate_from iterator_func (list.size + 1) list.first

-- The iterator of a list is the node that `next` returns the data of.
unfoldable pub llist_iterator : LList → Ptr
llist_iterator list = list.first

unfoldable pub llist_iterator_has_next : Ptr → Bool
llist_iterator_has_next entry = not (entry == null)

unfoldable pub llist_iterator_next : Ptr → Cmd (ℕ × Ptr)
llist_iterator_next entry = do n ← load entry; pure (n.content, n.next)

unfoldable pub llist_iterator_previous : LList → Ptr → Cmd (ℕ × Ptr)
llist_iterator_previous list entry = do
  entry' ← if entry == null then pure list.last else lnode_previous entry
  n ← load entry'
  pure (n.content, entry')

-- At the first node the program ends with a message; this is a fault here.
unfoldable pub llist_iterator_remove : LList → Ptr → Cmd LList
unfolding llist_remove_entry
llist_iterator_remove list entry =
    if list.first == entry
    then (λ _. fault)
    else if entry == null
    then llist_remove_entry list list.last
    else do n ← load entry; llist_remove_entry list n.previous

unfoldable pub llist_iterator_restart : LList → Ptr
llist_iterator_restart list = list.first

unfoldable pub llist_iterator_add : (fresh : Ptr) → LList → Ptr → ℕ → Cmd LList
unfolding llist_add_last
llist_iterator_add fresh list entry v = if entry == null then llist_add_last fresh list v else do
  n ← load entry
  store fresh (lnode v entry n.previous)
  set_previous entry fresh
  first ← if n.previous == null then pure fresh else set_next n.previous fresh >> pure list.first
  pure (llist first list.last (add32 list.size 1))

-- The data at the places from `c` on of the second list, which is another list than the first, is
-- added to the first; `fresh` are the addresses of the new nodes.
unfoldable pub llist_add_all : (fresh : List Ptr) → (c : ℕ) → LList → LList → Cmd LList
unfolding llist_add_last llist_get_entry
llist_add_all [] c list list2 = pure list
llist_add_all (p ∷ fresh) c list list2 = do
  entry ← llist_get_entry list2 c
  n ← load entry
  list' ← llist_add_last p list n.content
  llist_add_all fresh (c + 1) list' list2

-- The loop of llist_clone: `previous` is the node made last, `first` the first of the copy.
unfoldable pub clone_nodes :
    (junk : Ptr) (fresh : List Ptr) (first previous : Ptr) → (entry : Ptr) → Cmd (Ptr × Ptr)
clone_nodes junk [] first previous entry =
    if entry == null then pure (first, previous) else λ _. fault
clone_nodes junk (p ∷ fresh) first previous entry =
    if entry == null then pure (first, previous) else do
      n ← load entry
      store p (lnode n.content junk previous)
      first' ← if previous == null then pure p else set_next previous p >> pure first
      clone_nodes junk fresh first' p n.next

-- The copy, and the list itself. `junk` is what xmalloc leaves in
-- a field until it is set.
unfoldable pub llist_clone : (junk : Ptr) → (fresh : List Ptr) → LList → Cmd (LList × LList)
unfolding clone_nodes
llist_clone junk fresh list = do
  (first, previous) ← clone_nodes junk fresh junk null list.first
  if previous == null
      then pure (llist first previous list.size, record list { first = null })
      else do set_next previous null; pure (llist first previous list.size, list)
