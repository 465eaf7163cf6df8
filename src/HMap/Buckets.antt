-- ===== src/HMap/Buckets.antt =====
-- src/common/hmap.c: entries in the buckets of their keys, and a table that grows.
use regex_markup.Common.{
  ℕ, zero, suc, ◌+◌, ◌<◌, ◌≡◌, refl, sym, ◌∙◌, subst, List, [], ◌∷◌, ◌++◌, Option, some, Bool, true,
  length, get_or, set, replicate, wrap32, ◌*◌, arith,
}
use regex_markup.HMap.{
  HMap, HMapEntry, hmap_hash, append_entry, move_bucket, move_buckets, hmap_rehash, add_entry,
}
use regex_markup.HMap.Lookup.{
  Buckets, length-set, length-replicated, length-append_entry, length-move_bucket,
  length-move_buckets, rehash_positive,
}
use regex_markup.HMap.Rehash.{InBucket, InBuckets}

module _ (K V : Type 0) (hash : K → ℕ) (same : K → Option K → Bool)
    (same_key : (key : K) (other : Option K) → same key other ≡ true → other ≡ some key) where
  abbrev pub index : ℕ → Option K → ℕ
  index = hmap_hash K V hash same

  abbrev pub Holds : ℕ → ℕ → List (HMapEntry K V) → Type 0
  Holds = InBucket K V hash same same_key

  abbrev pub AllHold : ℕ → ℕ → Buckets K V hash same → Type 0
  AllHold = InBuckets K V hash same same_key

  -- There is a bucket, and each entry is in that of its key.
  abbrev pub IsPlaced : HMap K V → Type 0
  IsPlaced m = (0 < length m.buckets) × AllHold (length m.buckets) 0 m.buckets

  Holds-get :
      (n i j : ℕ) (bs : Buckets K V hash same) → AllHold n i bs → Holds n (i + j) (get_or bs j [])
  Holds-get n i j [] h = _
  Holds-get n i zero (b ∷ bs) (h, hs) = subst (λ k. Holds n k b) (the_sum i) h
    where
      the_sum : (i : ℕ) → i ≡ i + 0
      the_sum i = omega arith
  Holds-get n i (suc j) (b ∷ bs) (h, hs) =
      subst (λ k. Holds n k (get_or bs j [])) (the_sum i j) (Holds-get n (suc i) j bs hs)
    where
      the_sum : (i j : ℕ) → suc i + j ≡ i + suc j
      the_sum i j = omega arith

  AllHold-set :
      (n i j : ℕ) (bs : Buckets K V hash same) (b : List (HMapEntry K V))
      → AllHold n i bs
      → Holds n (i + j) b
      → AllHold n i (set bs j b)
  AllHold-set n i j [] b h k = _
  AllHold-set n i zero (c ∷ bs) b (h, hs) k = (subst (λ l. Holds n l b) (the_sum i) k, hs)
    where
      the_sum : (i : ℕ) → i + 0 ≡ i
      the_sum i = omega arith
  AllHold-set n i (suc j) (c ∷ bs) b (h, hs) k =
      (h, AllHold-set n (suc i) j bs b hs (subst (λ l. Holds n l b) (the_sum i j) k))
    where
      the_sum : (i j : ℕ) → i + suc j ≡ suc i + j
      the_sum i j = omega arith

  pub Holds-bucket :
      (n j : ℕ) (bs : Buckets K V hash same) → AllHold n 0 bs → Holds n j (get_or bs j [])
  Holds-bucket n j bs h = subst (λ k. Holds n k (get_or bs j [])) (the_sum j) (Holds-get n 0 j bs h)
    where
      the_sum : (j : ℕ) → 0 + j ≡ j
      the_sum j = omega arith

  AllHold-bucket :
      (n j : ℕ) (bs : Buckets K V hash same) (b : List (HMapEntry K V))
      → AllHold n 0 bs
      → Holds n j b
      → AllHold n 0 (set bs j b)
  AllHold-bucket n j bs b h k = AllHold-set n 0 j bs b h (subst (λ l. Holds n l b) (the_sum j) k)
    where
      the_sum : (j : ℕ) → j ≡ 0 + j
      the_sum j = omega arith

  Holds-append :
      (n i : ℕ) (es fs : List (HMapEntry K V)) → Holds n i es → Holds n i fs → Holds n i (es ++ fs)
  Holds-append n i [] fs h k = k
  Holds-append n i (e ∷ es) fs (at, h) k = (at, Holds-append n i es fs h k)

  pub AllHold-replicate : (n i m : ℕ) → AllHold n i (replicate m [])
  AllHold-replicate n i zero = _
  AllHold-replicate n i (suc m) = (tt, AllHold-replicate n (suc i) m)

  append_entry-AllHold :
      (bs : Buckets K V hash same) (e : HMapEntry K V)
      → AllHold (length bs) 0 bs
      → AllHold (length bs) 0 (append_entry K V hash same bs e)
  unfolding append_entry
  append_entry-AllHold bs e h =
      let n : ℕ = length bs in
      let at : Holds n (index n e.key) (get_or bs (index n e.key) []) =
        Holds-bucket n (index n e.key) bs h in
      AllHold-bucket n (index n e.key) bs (get_or bs (index n e.key) [] ++ (e ∷ [])) h
        (Holds-append n (index n e.key) _ (e ∷ []) at (refl, tt))

  move_bucket-AllHold :
      (es : List (HMapEntry K V)) (bs : Buckets K V hash same) (n : ℕ)
      → length bs ≡ n
      → AllHold n 0 bs
      → AllHold n 0 (move_bucket K V hash same es bs)
  unfolding move_bucket
  move_bucket-AllHold [] bs n len h = h
  move_bucket-AllHold (e ∷ es) bs n len h =
      move_bucket-AllHold es (append_entry K V hash same bs e) n
        (length-append_entry K V hash same bs e ∙ len)
        (subst (λ k. AllHold k 0 (append_entry K V hash same bs e)) len
          (append_entry-AllHold bs e (subst (λ k. AllHold k 0 bs) (sym len) h)))

  move_buckets-AllHold :
      (olds bs : Buckets K V hash same) (n : ℕ)
      → length bs ≡ n
      → AllHold n 0 bs
      → AllHold n 0 (move_buckets K V hash same olds bs)
  unfolding move_buckets
  move_buckets-AllHold [] bs n len h = h
  move_buckets-AllHold (old ∷ olds) bs n len h =
      move_buckets-AllHold olds (move_bucket K V hash same old bs) n
        (length-move_bucket K V hash same old bs ∙ len) (move_bucket-AllHold old bs n len h)

  -- Wherever the entries stood before.
  pub hmap_rehash-IsPlaced : (m : HMap K V) → IsPlaced (hmap_rehash K V hash same m)
  unfolding hmap_rehash
  hmap_rehash-IsPlaced m =
      let n : ℕ = wrap32 (length m.buckets * 2 + 1) in
      let len : length (move_buckets K V hash same m.buckets (replicate n [])) ≡ n =
        length-move_buckets K V hash same m.buckets (replicate n []) ∙ length-replicated n [] in
      (
        rehash_positive K V hash same m,
        subst (λ k. AllHold k 0 (move_buckets K V hash same m.buckets (replicate n []))) (sym len)
            (move_buckets-AllHold m.buckets (replicate n []) n (length-replicated n [])
              (AllHold-replicate n 0 n)),
      )

  -- A new bucket for the key, in the place of the old one.
  pub set-IsPlaced :
      (m : HMap K V) (key : Option K) (b : List (HMapEntry K V))
      → IsPlaced m
      → Holds (length m.buckets) (index (length m.buckets) key) b
      → IsPlaced (record m { buckets = set m.buckets (index (length m.buckets) key) b })
  set-IsPlaced m key b (positive, h) k =
      let i : ℕ = index (length m.buckets) key in
      let len : length (set m.buckets i b) ≡ length m.buckets = length-set m.buckets i b in
      (
        omega (arith, len, positive),
        subst (λ l. AllHold l 0 (set m.buckets i b)) (sym len)
            (AllHold-bucket (length m.buckets) i m.buckets b h k),
      )

  pub add_entry-IsPlaced :
      (m : HMap K V) (key : Option K) (value : V)
      → IsPlaced m
      → IsPlaced (add_entry K V hash same m key value)
  unfolding add_entry
  add_entry-IsPlaced m key value (positive, h) =
      set-IsPlaced m key _ (positive, h)
        (refl, Holds-bucket (length m.buckets) (index (length m.buckets) key) m.buckets h)
