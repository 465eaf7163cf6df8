-- ===== src/HMap/Lookup.antt =====
-- What a key finds in a table of src/common/hmap.c that has got a value for it.
use regex_markup.Common.{
  ℕ, zero, suc, ◌<◌, ◌≡◌, ◌≢◌, refl, ap, ◌∙◌, List, [], ◌∷◌, Option, none, some, Bool, true, false,
  length, get_or, set, replicate, arith, wrap32, ◌*◌, ◌+◌, ltb, if◌then◌else◌, add32,
}
use native.Mathlib.Nat.{mod-lt}
use regex_markup.HMap.{
  HMap, HMapEntry, hmap_hash, has_key, find_entry, hmap_get, hmap_get_entry, hmap_put, change_value,
  add_entry, hmap_rehash, append_entry, move_bucket, move_buckets,
}

pub get_or-set {ℓ} :
    {A : Type ℓ} (xs : List A) (i : ℕ) (v d : A) → i < length xs → get_or (set xs i v) i d ≡ v
get_or-set [] i v d h = absurd (omega arith)
get_or-set (x ∷ xs) zero v d h = refl
get_or-set (x ∷ xs) (suc i) v d h = get_or-set xs i v d (omega arith)

pub get_or-set_other {ℓ} :
    {A : Type ℓ} (xs : List A) (i j : ℕ) (v d : A) → i ≢ j → get_or (set xs i v) j d ≡ get_or xs j d
get_or-set_other [] i j v d h = refl
get_or-set_other (x ∷ xs) zero zero v d h = absurd (h refl)
get_or-set_other (x ∷ xs) zero (suc j) v d h = refl
get_or-set_other (x ∷ xs) (suc i) zero v d h = refl
get_or-set_other (x ∷ xs) (suc i) (suc j) v d h = get_or-set_other xs i j v d (λ e. h (ap suc e))

pub length-set {ℓ} : {A : Type ℓ} (xs : List A) (i : ℕ) (v : A) → length (set xs i v) ≡ length xs
length-set [] i v = refl
length-set (x ∷ xs) zero v = refl
length-set (x ∷ xs) (suc i) v = ap suc (length-set xs i v)

pub length-replicated {ℓ} : {A : Type ℓ} (n : ℕ) (v : A) → length (replicate n v) ≡ n
length-replicated zero v = refl
length-replicated (suc n) v = ap suc (length-replicated n v)

module _ (K V : Type 0) (hash : K → ℕ) (same : K → Option K → Bool) where
  abbrev pub Buckets : Type 0
  Buckets = List (List (HMapEntry K V))

  -- The bucket of a key.
  abbrev pub lookup : Buckets → Option K → List (HMapEntry K V)
  lookup bs key = get_or bs (hmap_hash K V hash same (length bs) key) []

  abbrev pub value_in : Option (HMapEntry K V) → Option V
  value_in none = none
  value_in (some entry) = some entry.value

  pub hmap_hash-lt : (n : ℕ) (key : Option K) → 0 < n → hmap_hash K V hash same n key < n
  unfolding hmap_hash
  hmap_hash-lt n none h = h
  hmap_hash-lt n (some key) h = mod-lt (hash key) {m = n} h

  pub lookup-set :
      (bs : Buckets) (key : Option K) (bucket : List (HMapEntry K V))
      → 0 < length bs
      → lookup (set bs (hmap_hash K V hash same (length bs) key) bucket) key ≡ bucket
  lookup-set bs key bucket h =
      ap
        (λ n.
          get_or (set bs (hmap_hash K V hash same (length bs) key) bucket)
            (hmap_hash K V hash same n key) [])
        (length-set bs (hmap_hash K V hash same (length bs) key) bucket)
      ∙ get_or-set bs (hmap_hash K V hash same (length bs) key) bucket []
          (hmap_hash-lt (length bs) key h)

  pub length-append_entry :
      (bs : Buckets) (e : HMapEntry K V) → length (append_entry K V hash same bs e) ≡ length bs
  unfolding append_entry
  length-append_entry bs e = length-set bs _ _

  pub length-move_bucket :
      (es : List (HMapEntry K V)) (bs : Buckets)
      → length (move_bucket K V hash same es bs) ≡ length bs
  unfolding move_bucket
  length-move_bucket [] bs = refl
  length-move_bucket (e ∷ es) bs =
      length-move_bucket es (append_entry K V hash same bs e) ∙ length-append_entry bs e

  pub length-move_buckets :
      (olds bs : Buckets) → length (move_buckets K V hash same olds bs) ≡ length bs
  unfolding move_buckets
  length-move_buckets [] bs = refl
  length-move_buckets (old ∷ olds) bs =
      length-move_buckets olds (move_bucket K V hash same old bs) ∙ length-move_bucket old bs

  pub rehash_positive : (m : HMap K V) → 0 < length (hmap_rehash K V hash same m).buckets
  unfolding hmap_rehash
  rehash_positive m = omega (
    arith,
    length-move_buckets m.buckets (replicate (wrap32 (length m.buckets * 2 + 1)) []),
    length-replicated {A = List (HMapEntry K V)} (wrap32 (length m.buckets * 2 + 1)) [],
  )

  pub value_in_get :
      (m : HMap K V) (key : Option K)
      → hmap_get K V hash same m key
        ≡ value_in (find_entry K V hash same key (lookup m.buckets key))
  unfolding hmap_get hmap_get_entry
  value_in_get m key = go (find_entry K V hash same key (lookup m.buckets key))
    where
      go :
          (o : Option (HMapEntry K V))
          → elim o [ none ↦ none | some entry ↦ some entry.value ] ≡ value_in o
      go none = refl
      go (some entry) = refl

  module _ (finds_itself : (key : K) → same key (some key) ≡ true) where
    has_key-itself :
        (key : Option K) (value : V)
        → has_key K V hash same key (record { key = key; value = value }) ≡ true
    unfolding has_key
    has_key-itself none value = refl
    has_key-itself (some key) value = finds_itself key

    find_entry-front :
        (key : Option K) (value : V) (es : List (HMapEntry K V))
        → value_in (find_entry K V hash same key (record { key = key; value = value } ∷ es))
          ≡ some value
    unfolding find_entry
    find_entry-front key value es = rw (has_key-itself key value) refl

    hmap_get-add_entry :
        (m : HMap K V) (key : Option K) (value : V)
        → 0 < length m.buckets
        → hmap_get K V hash same (add_entry K V hash same m key value) key ≡ some value
    unfolding add_entry
    hmap_get-add_entry m key value h =
        value_in_get (add_entry K V hash same m key value) key
        ∙ ap (λ es. value_in (find_entry K V hash same key es))
            (lookup-set m.buckets key (record { key = key; value = value } ∷ lookup m.buckets key)
              h)
        ∙ find_entry-front key value (lookup m.buckets key)

    -- The value is found in the bucket, where one was changed.
    abbrev Changed : (key : Option K) (value : V) → Option (V × List (HMapEntry K V)) → Type 0
    Changed key value none = Unit {0}
    Changed key value (some (old, es)) = value_in (find_entry K V hash same key es) ≡ some value

    has_key-changed :
        (key : Option K) (value : V) (e : HMapEntry K V)
        → has_key K V hash same key (record e { value = value }) ≡ has_key K V hash same key e
    unfolding has_key
    has_key-changed none value e = refl
    has_key-changed (some key) value e = refl

    Changed-step :
        (key : Option K) (value : V) (e : HMapEntry K V) (es : List (HMapEntry K V))
        (rest : Option (V × List (HMapEntry K V))) (b : Bool)
        → has_key K V hash same key e ≡ b
        → Changed key value rest
        → Changed key value (
            if b
            then some (e.value, record e { value = value } ∷ es)
            else elim rest [ none ↦ none | some (old, es') ↦ some (old, e ∷ es') ])
    unfolding find_entry
    Changed-step key value e es rest true h c = rw (has_key-changed key value e, h) refl
    Changed-step key value e es none false h c = tt
    Changed-step key value e es (some (old, es')) false h c = rw h c

    change_value-Changed :
        (key : Option K) (value : V) (es : List (HMapEntry K V))
        → Changed key value (change_value K V hash same key value es)
    unfolding change_value
    change_value-Changed key value [] = tt
    change_value-Changed key value (e ∷ es) =
        Changed-step key value e es (change_value K V hash same key value es)
          (has_key K V hash same key e) refl (change_value-Changed key value es)

    -- After hmap_put a key has the value that was put, in a table that grew as in one that did
    -- not, where comparing a key with itself gives 0 and there is a bucket.
    pub hmap_get-put :
        (m : HMap K V) (key : Option K) (value : V)
        → 0 < length m.buckets
        → hmap_get K V hash same (hmap_put K V hash same m key value).1 key ≡ some value
    unfolding hmap_put
    hmap_get-put m key value h =
        go (change_value K V hash same key value (lookup m.buckets key))
          (change_value-Changed key value (lookup m.buckets key))
      where
        grown : HMap K V
        grown = record m { size = add32 m.size 1 }

        bigger :
            (b : Bool)
            → hmap_get K V hash same
                (add_entry K V hash same
                  (if b then hmap_rehash K V hash same grown else grown)
                  key
                  value)
                key
              ≡ some value
        bigger true =
            hmap_get-add_entry (hmap_rehash K V hash same grown) key value (rehash_positive grown)
        bigger false = hmap_get-add_entry grown key value h

        go :
            (o : Option (V × List (HMapEntry K V)))
            → Changed key value o
            → (let done : Option V × HMap K V = elim o [
              | some (old_value, bucket) ↦ (
                some old_value,
                record m {
                  buckets = set m.buckets (hmap_hash K V hash same (length m.buckets) key) bucket;
                },
              )
              | none ↦ (
                none,
                add_entry K V hash same
                    (if ltb grown.threshold grown.size
                      then hmap_rehash K V hash same grown
                      else grown)
                    key
                    value,
              )
            ] in
                hmap_get K V hash same done.1 key ≡ some value)
        go none c = bigger (ltb grown.threshold grown.size)
        go (some (old, bucket)) c =
            value_in_get
              (record m {
                buckets = set m.buckets (hmap_hash K V hash same (length m.buckets) key) bucket;
              })
              key
            ∙ ap (λ es. value_in (find_entry K V hash same key es))
                (lookup-set m.buckets key bucket h)
            ∙ c
