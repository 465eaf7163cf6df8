-- ===== src/HMap/Rehash.antt =====
-- src/common/hmap.c, hmap_rehash: what every key finds, before and after it.
use regex_markup.Common.{
  ℕ, zero, suc, ◌+◌, ◌*◌, ◌<◌, ◌≡◌, ◌≢◌, refl, sym, ap, ◌∙◌, List, [], ◌∷◌, ◌++◌, Option, none,
  some, Bool, true, false, length, get_or, set, replicate, arith, wrap32, Bool-cases, inl, inr,
  ◌==◌, ==_iff,
}
use regex_markup.HMap.{
  HMap, HMapEntry, hmap_hash, has_key, find_entry, hmap_get, hmap_rehash, append_entry, move_bucket,
  move_buckets,
}
use regex_markup.HMap.Lookup.{
  get_or-set, get_or-set_other, length-set, length-replicated, Buckets, lookup, value_in,
  value_in_get, hmap_hash-lt, length-append_entry, length-move_bucket,
}

abbrev first {ℓ} : {A : Type ℓ} → Option A → Option A → Option A
first none other = other
first (some a) other = some a

first_assoc {ℓ} : {A : Type ℓ} (a b c : Option A) → first (first a b) c ≡ first a (first b c)
first_assoc none b c = refl
first_assoc (some a) b c = refl

first_none {ℓ} : {A : Type ℓ} (a : Option A) → first a none ≡ a
first_none none = refl
first_none (some a) = refl

abbrev all_entries {ℓ} : {A : Type ℓ} → List (List A) → List A
all_entries [] = []
all_entries (b ∷ bs) = b ++ all_entries bs

get_or-replicate {ℓ} : {A : Type ℓ} (n i : ℕ) (d : A) → get_or (replicate n d) i d ≡ d
get_or-replicate zero i d = refl
get_or-replicate (suc n) zero d = refl
get_or-replicate (suc n) (suc i) d = get_or-replicate n i d

module _ (K V : Type 0) (hash : K → ℕ) (same : K → Option K → Bool)
    (same_key : (key : K) (other : Option K) → same key other ≡ true → other ≡ some key) where
  abbrev find : Option K → List (HMapEntry K V) → Option (HMapEntry K V)
  find = find_entry K V hash same

  abbrev index : ℕ → Option K → ℕ
  index = hmap_hash K V hash same

  pub has_key-key :
      (key : Option K) (e : HMapEntry K V) → has_key K V hash same key e ≡ true → e.key ≡ key
  unfolding has_key
  has_key-key none e h = null e.key h
    where
      null : (o : Option K) → elim o [ none ↦ true | some k ↦ false ] ≡ true → o ≡ none
      null none h = refl
      null (some k) h = absurd (ground arith)
  has_key-key (some key) e h = same_key key e.key h

  find-append :
      (key : Option K) (xs ys : List (HMapEntry K V))
      → find key (xs ++ ys) ≡ first (find key xs) (find key ys)
  unfolding find_entry
  find-append key [] ys = refl
  find-append key (x ∷ xs) ys = elim (Bool-cases (has_key K V hash same key x)) [
    | inl yes_key ↦ rw yes_key refl
    | inr other ↦ rw other (find-append key xs ys)
  ]

  -- All the entries of a list belong to the bucket `i` of `n`.
  abbrev pub InBucket : ℕ → ℕ → List (HMapEntry K V) → Type 0
  InBucket n i [] = Unit {0}
  InBucket n i (e ∷ es) = (index n e.key ≡ i) × InBucket n i es

  abbrev pub InBuckets : ℕ → ℕ → Buckets K V hash same → Type 0
  InBuckets n i [] = Unit {0}
  InBuckets n i (b ∷ bs) = InBucket n i b × InBuckets n (suc i) bs

  find-elsewhere :
      (n i : ℕ) (key : Option K) (es : List (HMapEntry K V))
      → InBucket n i es
      → index n key ≢ i
      → find key es ≡ none
  unfolding find_entry
  find-elsewhere n i key [] h k = refl
  find-elsewhere n i key (e ∷ es) (at, h) k = elim (Bool-cases (has_key K V hash same key e)) [
    | inl its ↦ absurd (k (sym (ap (index n) (has_key-key key e its)) ∙ at))
    | inr other ↦ rw other (find-elsewhere n i key es h k)
  ]

  find-later :
      (n i : ℕ) (key : Option K) (bs : Buckets K V hash same)
      → InBuckets n i bs
      → index n key < i
      → find key (all_entries bs) ≡ none
  unfolding find_entry
  find-later n i key [] h k = refl
  find-later n i key (b ∷ bs) (h, hs) k =
      find-append key b (all_entries bs)
      ∙ ap (λ o. first o (find key (all_entries bs)))
          (find-elsewhere n i key b h (λ e. absurd (omega arith)))
      ∙ find-later n (suc i) key bs hs (omega arith)

  -- Looking through all the buckets is looking into the one of the key.
  find-all_entries :
      (n i j : ℕ) (key : Option K) (bs : Buckets K V hash same)
      → InBuckets n i bs
      → index n key ≡ i + j
      → find key (all_entries bs) ≡ find key (get_or bs j [])
  find-all_entries n i j key [] h k = refl
  find-all_entries n i zero key (b ∷ bs) (h, hs) k =
      find-append key b (all_entries bs)
      ∙ ap (first (find key b)) (find-later n (suc i) key bs hs (omega arith))
      ∙ first_none (find key b)
  find-all_entries n i (suc j) key (b ∷ bs) (h, hs) k =
      find-append key b (all_entries bs)
      ∙ ap (λ o. first o (find key (all_entries bs)))
          (find-elsewhere n i key b h (λ e. absurd (omega arith)))
      ∙ find-all_entries n (suc i) j key bs hs (omega arith)

  abbrev found : Option K → Buckets K V hash same → Option (HMapEntry K V)
  found key bs = find key (lookup K V hash same bs key)

  found-append_entry :
      (key : Option K) (bs : Buckets K V hash same) (e : HMapEntry K V)
      → 0 < length bs
      → found key (append_entry K V hash same bs e) ≡ first (found key bs) (find key (e ∷ []))
  unfolding append_entry
  found-append_entry key bs e h =
      let n : ℕ = length bs in
      let i : ℕ = index n e.key in
      let new : List (HMapEntry K V) = get_or bs i [] ++ (e ∷ []) in
      let resized : lookup K V hash same (set bs i new) key
          ≡ get_or (set bs i new) (index n key) [] =
        ap (λ m. get_or (set bs i new) (index m key) []) (length-set bs i new) in
      ap (find key) resized ∙ elim (Bool-cases (i == index n key)) [
        | inl here ↦
            let at : i ≡ index n key = (==_iff i (index n key)).0 here in
            ap (λ k. find key (get_or (set bs i new) k [])) (sym at)
            ∙ ap (find key) (get_or-set bs i new [] (hmap_hash-lt K V hash same n e.key h))
            ∙ find-append key (get_or bs i []) (e ∷ [])
            ∙ ap (λ k. first (find key (get_or bs k [])) (find key (e ∷ []))) at
        | inr elsewhere ↦
            let apart : i ≢ index n key = λ q. absurd (ground arith) in
            ap (find key) (get_or-set_other bs i (index n key) new [] apart)
            ∙ sym (first_none (found key bs))
            ∙ ap (first (found key bs))
                (sym (find-elsewhere n i key (e ∷ []) (refl, tt) (λ q. apart (sym q))))
      ]

  found-move_bucket :
      (key : Option K) (es : List (HMapEntry K V)) (bs : Buckets K V hash same)
      → 0 < length bs
      → found key (move_bucket K V hash same es bs) ≡ first (found key bs) (find key es)
  unfolding move_bucket find_entry
  found-move_bucket key [] bs h = sym (first_none (found key bs))
  found-move_bucket key (e ∷ es) bs h =
      found-move_bucket key es (append_entry K V hash same bs e)
        (omega (arith, length-append_entry K V hash same bs e))
      ∙ ap (λ o. first o (find key es)) (found-append_entry key bs e h)
      ∙ first_assoc (found key bs) (find key (e ∷ [])) (find key es)
      ∙ ap (first (found key bs)) (sym (find-append key (e ∷ []) es))

  found-move_buckets :
      (key : Option K) (olds bs : Buckets K V hash same)
      → 0 < length bs
      → found key (move_buckets K V hash same olds bs)
        ≡ first (found key bs) (find key (all_entries olds))
  unfolding move_buckets find_entry
  found-move_buckets key [] bs h = sym (first_none (found key bs))
  found-move_buckets key (old ∷ olds) bs h =
      found-move_buckets key olds (move_bucket K V hash same old bs)
        (omega (arith, length-move_bucket K V hash same old bs))
      ∙ ap (λ o. first o (find key (all_entries olds))) (found-move_bucket key old bs h)
      ∙ first_assoc (found key bs) (find key old) (find key (all_entries olds))
      ∙ ap (first (found key bs)) (sym (find-append key old (all_entries olds)))

  -- After hmap_rehash every key finds what it found before, where each entry was in the bucket of its
  -- key and keys that compare as equal are equal.
  pub hmap_get-rehash :
      (m : HMap K V) (key : Option K)
      → InBuckets (length m.buckets) 0 m.buckets
      → hmap_get K V hash same (hmap_rehash K V hash same m) key ≡ hmap_get K V hash same m key
  unfolding hmap_rehash find_entry
  hmap_get-rehash m key h =
      let n : ℕ = wrap32 (length m.buckets * 2 + 1) in
      let empty : Buckets K V hash same = replicate n [] in
      value_in_get K V hash same (hmap_rehash K V hash same m) key
      ∙ ap (value_in K V hash same) (
          found-move_buckets key m.buckets empty
            (omega (arith, length-replicated {A = List (HMapEntry K V)} n []))
          ∙ ap (λ es. first (find key es) (find key (all_entries m.buckets)))
              (get_or-replicate n (index (length empty) key) [])
          ∙ find-all_entries (length m.buckets) 0 (index (length m.buckets) key) key m.buckets h
              (omega arith))
      ∙ sym (value_in_get K V hash same m key)
