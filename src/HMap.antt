-- ===== src/HMap.antt =====
-- src/common/hmap.c: a hash table with a list of entries in each bucket. A NULL key is `none`; a
-- function that returns NULL returns `none`. The load factor is three quarters.
pub mod Lookup
pub mod Others
pub mod Rehash
pub mod Buckets
pub mod Placed
use regex_markup.Common.{
  ℕ, zero, suc, ◌+◌, ◌-◌, ◌*◌, ◌/◌, ◌%◌, List, [], ◌∷◌, ◌++◌, Option, none, some, Bool, true, false,
  ltb, ◌==◌, if◌then◌else◌, length, get_or, set, replicate, add32, sub32, mul32, wrap32, u32, map,
}

-- A `char`, which is signed, in 32 bits.
abbrev pub char32 : ℕ → ℕ
char32 c = if ltb c 128 then c else c + (u32 - 256)

-- The default hash function, on a string without its null byte.
unfoldable pub strhash_from : ℕ → List ℕ → ℕ
strhash_from hash [] = hash
strhash_from hash (c ∷ str) = strhash_from (add32 (sub32 (mul32 hash 32) hash) (char32 c)) str

unfoldable pub strhash : List ℕ → ℕ
unfolding strhash_from
strhash str = strhash_from 0 str

abbrev pub default_capacity : ℕ
default_capacity = 11

-- `(uint32_t) (buckets_length * 0.75F)`, exact below 2 ^ 24 buckets.
abbrev pub threshold_of : ℕ → ℕ
threshold_of buckets_length = buckets_length * 3 / 4

pub record HMapEntry (K V : Type 0) : Type 0 where
  pub key : Option K
  pub value : V

-- `buckets_length` is the length of the list.
pub record HMap (K V : Type 0) : Type 0 where
  pub buckets : List (List (HMapEntry K V))
  pub threshold : ℕ
  pub size : ℕ

-- What an iterator has left: the bucket it is in, and the entries from its current one on.
pub record HMapIterator (K V : Type 0) : Type 0 where
  pub index : ℕ
  pub entry : List (HMapEntry K V)

-- The two functions that the map is given: `same key other` is `compare(key, other) == 0`.
module _ (K V : Type 0) (hash : K → ℕ) (same : K → Option K → Bool) where
  unfoldable pub hmap_hash : ℕ → Option K → ℕ
  hmap_hash buckets_length none = 0
  hmap_hash buckets_length (some key) = hash key % buckets_length

  unfoldable pub has_key : Option K → HMapEntry K V → Bool
  has_key none entry = elim entry.key [ none ↦ true | some k ↦ false ]
  has_key (some key) entry = same key entry.key

  abbrev pub bucket_of : HMap K V → Option K → List (HMapEntry K V)
  bucket_of m key = get_or m.buckets (hmap_hash (length m.buckets) key) []

  unfoldable pub hmap_new : HMap K V
  hmap_new = record {
    buckets = replicate default_capacity [];
    threshold = threshold_of default_capacity;
    size = 0;
  }

  -- `dest->next = entry` at the end of a bucket's list.
  unfoldable pub append_entry :
      List (List (HMapEntry K V)) → HMapEntry K V → List (List (HMapEntry K V))
  unfolding hmap_hash
  append_entry buckets entry =
      let index = hmap_hash (length buckets) entry.key in
      set buckets index (get_or buckets index [] ++ (entry ∷ []))

  unfoldable pub move_bucket :
      List (HMapEntry K V) → List (List (HMapEntry K V)) → List (List (HMapEntry K V))
  unfolding append_entry
  move_bucket [] buckets = buckets
  move_bucket (entry ∷ entries) buckets = move_bucket entries (append_entry buckets entry)

  unfoldable pub move_buckets :
      List (List (HMapEntry K V)) → List (List (HMapEntry K V)) → List (List (HMapEntry K V))
  unfolding move_bucket
  move_buckets [] buckets = buckets
  move_buckets (old ∷ olds) buckets = move_buckets olds (move_bucket old buckets)

  unfoldable pub hmap_rehash : HMap K V → HMap K V
  unfolding move_buckets
  hmap_rehash m =
      let buckets_length = wrap32 (length m.buckets * 2 + 1) in
      record m {
        buckets = move_buckets m.buckets (replicate buckets_length []);
        threshold = threshold_of buckets_length;
      }

  unfoldable pub find_entry : Option K → List (HMapEntry K V) → Option (HMapEntry K V)
  unfolding has_key
  find_entry key [] = none
  find_entry key (entry ∷ entries) =
      let rest = find_entry key entries in if has_key key entry then some entry else rest

  unfoldable pub hmap_get_entry : HMap K V → Option K → Option (HMapEntry K V)
  unfolding find_entry hmap_hash
  hmap_get_entry m key = find_entry key (bucket_of m key)

  unfoldable pub hmap_get : HMap K V → Option K → Option V
  unfolding hmap_get_entry
  hmap_get m key = elim (hmap_get_entry m key) [ none ↦ none | some entry ↦ some entry.value ]

  unfoldable pub hmap_contains_key : HMap K V → Option K → Bool
  unfolding hmap_get_entry
  hmap_contains_key m key = elim (hmap_get_entry m key) [ none ↦ false | some entry ↦ true ]

  -- The bucket with the value of its first entry for the key changed, and the old value.
  unfoldable pub change_value :
      Option K → V → List (HMapEntry K V) → Option (V × List (HMapEntry K V))
  unfolding has_key
  change_value key value [] = none
  change_value key value (entry ∷ entries) =
      let rest = change_value key value entries in
      if has_key key entry
      then some (entry.value, record entry { value = value } ∷ entries)
      else elim rest [ none ↦ none | some (old, entries') ↦ some (old, entry ∷ entries') ]

  -- A new entry, in front of its bucket.
  unfoldable pub add_entry : HMap K V → Option K → V → HMap K V
  unfolding hmap_hash
  add_entry m key value =
      let index = hmap_hash (length m.buckets) key in
      record m {
        buckets =
            set m.buckets index (record { key = key; value = value } ∷ get_or m.buckets index []);
      }

  unfoldable pub hmap_put : HMap K V → Option K → V → Option V × HMap K V
  unfolding change_value add_entry hmap_rehash hmap_hash
  hmap_put m key value =
      let index = hmap_hash (length m.buckets) key in
      elim (change_value key value (bucket_of m key)) [
        | some (old_value, bucket) ↦
            (some old_value, record m { buckets = set m.buckets index bucket })
        | none ↦
            let grown : HMap K V = record m { size = add32 m.size 1 } in
            (
              none,
              add_entry (if ltb grown.threshold grown.size then hmap_rehash grown else grown) key
                  value,
            )
      ]

  unfoldable pub take_entry : Option K → List (HMapEntry K V) → Option (V × List (HMapEntry K V))
  unfolding has_key
  take_entry key [] = none
  take_entry key (entry ∷ entries) =
      let rest = take_entry key entries in
      if has_key key entry
      then some (entry.value, entries)
      else elim rest [ none ↦ none | some (old, entries') ↦ some (old, entry ∷ entries') ]

  unfoldable pub hmap_remove : HMap K V → Option K → Option V × HMap K V
  unfolding take_entry hmap_hash
  hmap_remove m key =
      let index = hmap_hash (length m.buckets) key in
      elim (take_entry key (bucket_of m key)) [
        | none ↦ (none, m)
        | some (value, bucket) ↦
            (some value, record m { buckets = set m.buckets index bucket; size = sub32 m.size 1 })
      ]

  -- From the bucket `index` on, the first that is not empty, on as many rounds as there are buckets.
  unfoldable pub next_bucket : ℕ → List (List (HMapEntry K V)) → HMapIterator K V
  next_bucket index [] = record { index = index; entry = [] }
  next_bucket index ([] ∷ buckets) = next_bucket (suc index) buckets
  next_bucket index ((entry ∷ entries) ∷ buckets) = record {
    index = index;
    entry = entry ∷ entries;
  }

  unfoldable pub hmap_iterator : HMap K V → HMapIterator K V
  unfolding next_bucket
  hmap_iterator m = next_bucket 0 m.buckets

  unfoldable pub hmap_iterator_has_next : HMapIterator K V → Bool
  hmap_iterator_has_next it = elim it.entry [ [] ↦ false | entry ∷ entries ↦ true ]

  abbrev skip : ℕ → List (List (HMapEntry K V)) → List (List (HMapEntry K V))
  skip zero buckets = buckets
  skip (suc n) [] = []
  skip (suc n) (bucket ∷ buckets) = skip n buckets

  unfoldable pub hmap_iterator_next : HMap K V → HMapIterator K V → Option V × HMapIterator K V
  unfolding next_bucket
  hmap_iterator_next m it = elim it.entry [
    | [] ↦ (none, it)
    | entry ∷ [] ↦ (some entry.value, next_bucket (suc it.index) (skip (suc it.index) m.buckets))
    | entry ∷ next ∷ entries ↦ (some entry.value, record it { entry = next ∷ entries })
  ]

  -- The values, or the keys, that the function is called with, in the order of the calls.
  unfoldable pub hmap_foreach_value : HMap K V → List V
  hmap_foreach_value m = values_of m.buckets
    where
      values_of : List (List (HMapEntry K V)) → List V
      values_of [] = []
      values_of (bucket ∷ buckets) = map (λ entry. entry.value) bucket ++ values_of buckets

  unfoldable pub hmap_foreach_key : HMap K V → List (Option K)
  hmap_foreach_key m = keys_of m.buckets
    where
      keys_of : List (List (HMapEntry K V)) → List (Option K)
      keys_of [] = []
      keys_of (bucket ∷ buckets) = map (λ entry. entry.key) bucket ++ keys_of buckets

  unfoldable pub hmap_clear : HMap K V → HMap K V
  hmap_clear m = record m { buckets = map (λ bucket. []) m.buckets; size = 0 }

  unfoldable pub hmap_size : HMap K V → ℕ
  hmap_size m = m.size
