-- ===== src/HMap/Others.antt =====
-- src/common/hmap.c, hmap_put: what the other keys find, before and after it.
use regex_markup.Common.{
  ℕ, ◌<◌, ◌≡◌, ◌≢◌, refl, sym, ap, ◌∙◌, List, [], ◌∷◌, Option, none, some, Bool, true, false,
  length, get_or, set, Bool-cases, inl, inr, if◌then◌else◌, ◌==◌, ==_iff, ltb, add32, arith,
}
use regex_markup.HMap.{
  HMap, HMapEntry, hmap_hash, has_key, find_entry, hmap_get, hmap_put, hmap_rehash, add_entry,
  change_value,
}
use regex_markup.HMap.Lookup.{
  get_or-set, get_or-set_other, length-set, Buckets, lookup, value_in, value_in_get, hmap_hash-lt,
  rehash_positive,
}
use regex_markup.HMap.Rehash.{has_key-key, InBuckets, hmap_get-rehash}

module _ (K V : Type 0) (hash : K → ℕ) (same : K → Option K → Bool)
    (same_key : (key : K) (other : Option K) → same key other ≡ true → other ≡ some key)
    (key other : Option K) (apart : other ≢ key) where
  abbrev find : List (HMapEntry K V) → Option (HMapEntry K V)
  find = find_entry K V hash same other

  abbrev index : ℕ → Option K → ℕ
  index = hmap_hash K V hash same

  not_key : (e : HMapEntry K V) → e.key ≡ key → has_key K V hash same other e ≡ false
  not_key e at = elim (Bool-cases (has_key K V hash same other e)) [
    | inl its ↦ absurd (apart (sym (has_key-key K V hash same same_key other e its) ∙ at))
    | inr its_not ↦ its_not
  ]

  -- A bucket of the key is changed, and nothing that the other key finds.
  find-set :
      (bs : Buckets K V hash same) (bucket : List (HMapEntry K V))
      → 0 < length bs
      → find bucket ≡ find (lookup K V hash same bs key)
      → find (lookup K V hash same (set bs (index (length bs) key) bucket) other)
        ≡ find (lookup K V hash same bs other)
  find-set bs bucket h kept =
      let n : ℕ = length bs in
      let i : ℕ = index n key in
      let resized : lookup K V hash same (set bs i bucket) other
          ≡ get_or (set bs i bucket) (index n other) [] =
        ap (λ m. get_or (set bs i bucket) (index m other) []) (length-set bs i bucket) in
      ap find resized ∙ elim (Bool-cases (i == index n other)) [
        | inl here ↦
            let at : i ≡ index n other = (==_iff i (index n other)).0 here in
            ap (λ k. find (get_or (set bs i bucket) k [])) (sym at)
            ∙ ap find (get_or-set bs i bucket [] (hmap_hash-lt K V hash same n key h))
            ∙ kept
            ∙ ap (λ k. find (get_or bs k [])) at
        | inr elsewhere ↦
            let different : i ≢ index n other = λ q. absurd (ground arith) in
            ap find (get_or-set_other bs i (index n other) bucket [] different)
      ]

  get-add_entry_other :
      (m : HMap K V) (value : V)
      → 0 < length m.buckets
      → hmap_get K V hash same (add_entry K V hash same m key value) other
        ≡ hmap_get K V hash same m other
  unfolding add_entry find_entry
  get-add_entry_other m value h =
      let e : HMapEntry K V = record { key = key; value = value } in
      value_in_get K V hash same (add_entry K V hash same m key value) other
      ∙ ap (value_in K V hash same)
          (find-set m.buckets (e ∷ lookup K V hash same m.buckets key) h (rw (not_key e refl) refl))
      ∙ sym (value_in_get K V hash same m other)

  -- The other key finds the same in a bucket that was changed.
  abbrev Kept : List (HMapEntry K V) → Option (V × List (HMapEntry K V)) → Type 0
  Kept es none = Unit {0}
  Kept es (some (old, es')) = find es' ≡ find es

  Kept-step :
      (value : V) (e : HMapEntry K V) (es : List (HMapEntry K V))
      (rest : Option (V × List (HMapEntry K V))) (b : Bool)
      → has_key K V hash same key e ≡ b
      → Kept es rest
      → Kept (e ∷ es) (
          if b
          then some (e.value, record e { value = value } ∷ es)
          else elim rest [ none ↦ none | some (old, es') ↦ some (old, e ∷ es') ])
  unfolding find_entry
  Kept-step value e es rest true h c =
      let at : e.key ≡ key = has_key-key K V hash same same_key key e h in
      rw (not_key e at, not_key (record e { value = value }) at) refl
  Kept-step value e es none false h c = tt
  Kept-step value e es (some (old, es')) false h c =
      ap (λ o. if has_key K V hash same other e then some e else o) c

  change_value-Kept :
      (value : V) (es : List (HMapEntry K V)) → Kept es (change_value K V hash same key value es)
  unfolding change_value
  change_value-Kept value [] = tt
  change_value-Kept value (e ∷ es) =
      Kept-step value e es (change_value K V hash same key value es) (has_key K V hash same key e)
        refl (change_value-Kept value es)

  -- hmap_put changes nothing for another key, in a table that grew as in one that did not, where each
  -- entry was in the bucket of its key, keys that compare as equal are equal, and there is a bucket.
  pub hmap_get-put_other :
      (m : HMap K V) (value : V)
      → 0 < length m.buckets
      → InBuckets K V hash same same_key (length m.buckets) 0 m.buckets
      → hmap_get K V hash same (hmap_put K V hash same m key value).1 other
        ≡ hmap_get K V hash same m other
  unfolding hmap_put
  hmap_get-put_other m value h placed =
      go (change_value K V hash same key value (lookup K V hash same m.buckets key))
        (change_value-Kept value (lookup K V hash same m.buckets key))
    where
      grown : HMap K V
      grown = record m { size = add32 m.size 1 }

      resized :
          value_in K V hash same (find (lookup K V hash same grown.buckets other))
          ≡ hmap_get K V hash same m other
      resized = sym (value_in_get K V hash same m other)

      bigger :
          (b : Bool)
          → hmap_get K V hash same
              (add_entry K V hash same
                (if b then hmap_rehash K V hash same grown else grown)
                key
                value)
              other
            ≡ hmap_get K V hash same m other
      bigger true =
          get-add_entry_other (hmap_rehash K V hash same grown) value
            (rehash_positive K V hash same grown)
          ∙ hmap_get-rehash K V hash same same_key grown other placed
          ∙ value_in_get K V hash same grown other
          ∙ resized
      bigger false =
          get-add_entry_other grown value h ∙ value_in_get K V hash same grown other ∙ resized

      go :
          (o : Option (V × List (HMapEntry K V)))
          → Kept (lookup K V hash same m.buckets key) o
          → (let done : Option V × HMap K V = elim o [
            | some (old_value, bucket) ↦ (
              some old_value,
              record m { buckets = set m.buckets (index (length m.buckets) key) bucket },
            )
            | none ↦ (
              none,
              add_entry K V hash same
                  (if ltb grown.threshold grown.size
                    then hmap_rehash K V hash same grown
                    else grown)
                  key
                  value,
            )
          ] in
              hmap_get K V hash same done.1 other ≡ hmap_get K V hash same m other)
      go none c = bigger (ltb grown.threshold grown.size)
      go (some (old, bucket)) c =
          value_in_get K V hash same
            (record m { buckets = set m.buckets (index (length m.buckets) key) bucket }) other
          ∙ ap (value_in K V hash same) (find-set m.buckets bucket h c)
          ∙ sym (value_in_get K V hash same m other)
