-- ===== src/HMap/Placed.antt =====
-- src/common/hmap.c: the buckets of the tables that hmap_new makes, and hmap_put, hmap_remove and
-- hmap_clear change.
use regex_markup.Common.{
  ℕ, ◌≡◌, refl, List, [], ◌∷◌, Option, none, some, Bool, true, false, ltb, if◌then◌else◌, length,
  set, replicate, add32, sub32, arith, map, suc, ap,
}
use regex_markup.HMap.{
  HMap, HMapEntry, default_capacity, has_key, hmap_new, hmap_rehash, change_value, add_entry,
  hmap_put, take_entry, hmap_remove, hmap_clear,
}
use regex_markup.HMap.Lookup.{lookup}
use regex_markup.HMap.Buckets.{
  IsPlaced, Holds, AllHold, index, Holds-bucket, AllHold-replicate, hmap_rehash-IsPlaced,
  set-IsPlaced, add_entry-IsPlaced,
}

module _ (K V : Type 0) (hash : K → ℕ) (same : K → Option K → Bool)
    (same_key : (key : K) (other : Option K) → same key other ≡ true → other ≡ some key) where
  abbrev OldHolds : ℕ → ℕ → Option (V × List (HMapEntry K V)) → Type 0
  OldHolds n i none = Unit {0}
  OldHolds n i (some (old, es)) = Holds K V hash same same_key n i es

  change_value-OldHolds :
      (n i : ℕ) (key : Option K) (value : V) (es : List (HMapEntry K V))
      → Holds K V hash same same_key n i es
      → OldHolds n i (change_value K V hash same key value es)
  unfolding change_value
  change_value-OldHolds n i key value [] h = _
  change_value-OldHolds n i key value (e ∷ es) (at, h) =
      step (has_key K V hash same key e) (change_value K V hash same key value es)
        (change_value-OldHolds n i key value es h)
    where
      step :
          (b : Bool) (rest : Option (V × List (HMapEntry K V)))
          → OldHolds n i rest
          → OldHolds n i (
              if b
              then some (e.value, record e { value = value } ∷ es)
              else elim rest [ none ↦ none | some (old, es') ↦ some (old, e ∷ es') ])
      step true rest k = (at, h)
      step false none k = _
      step false (some (old, es')) k = (at, k)

  take_entry-OldHolds :
      (n i : ℕ) (key : Option K) (es : List (HMapEntry K V))
      → Holds K V hash same same_key n i es
      → OldHolds n i (take_entry K V hash same key es)
  unfolding take_entry
  take_entry-OldHolds n i key [] h = _
  take_entry-OldHolds n i key (e ∷ es) (at, h) =
      step (has_key K V hash same key e) (take_entry K V hash same key es)
        (take_entry-OldHolds n i key es h)
    where
      step :
          (b : Bool) (rest : Option (V × List (HMapEntry K V)))
          → OldHolds n i rest
          → OldHolds n i (
              if b
              then some (e.value, es)
              else elim rest [ none ↦ none | some (old, es') ↦ some (old, e ∷ es') ])
      step true rest k = h
      step false none k = _
      step false (some (old, es')) k = (at, k)

  hmap_new-IsPlaced : IsPlaced K V hash same same_key (hmap_new K V hash same)
  unfolding hmap_new
  hmap_new-IsPlaced =
      let len : length (replicate {A = List (HMapEntry K V)} default_capacity [])
          ≡ default_capacity =
        refl in
      (
        omega (arith, len),
        AllHold-replicate K V hash same same_key default_capacity 0 default_capacity,
      )

  pub hmap_put-IsPlaced :
      (m : HMap K V) (key : Option K) (value : V)
      → IsPlaced K V hash same same_key m
      → IsPlaced K V hash same same_key (hmap_put K V hash same m key value).1
  unfolding hmap_put
  hmap_put-IsPlaced m key value (positive, h) =
      put (change_value K V hash same key value (lookup K V hash same m.buckets key)) (
        change_value-OldHolds (length m.buckets)
          (index K V hash same same_key (length m.buckets) key) key value _
          (Holds-bucket K V hash same same_key (length m.buckets)
            (index K V hash same same_key (length m.buckets) key) m.buckets h))
    where
      grown : HMap K V
      grown = record m { size = add32 m.size 1 }

      grow :
          (b : Bool)
          → IsPlaced K V hash same same_key (if b then hmap_rehash K V hash same grown else grown)
      grow true = hmap_rehash-IsPlaced K V hash same same_key grown
      grow false = (positive, h)

      put :
          (o : Option (V × List (HMapEntry K V)))
          → OldHolds (length m.buckets) (index K V hash same same_key (length m.buckets) key) o
          → IsPlaced K V hash same same_key
              (elim o as (λ x. Option V × HMap K V) [
                | some (old_value, bucket) ↦ (
                  some old_value,
                  record m {
                    buckets =
                        set m.buckets (index K V hash same same_key (length m.buckets) key) bucket;
                  },
                )
                | none ↦ (
                  none,
                  add_entry K V hash same
                      (if ltb grown.threshold grown.size
                        then hmap_rehash K V hash same grown
                        else grown)
                      key
                      value,
                )
              ]).1
      put (some (old_value, bucket)) k =
          set-IsPlaced K V hash same same_key m key bucket (positive, h) k
      put none k =
          add_entry-IsPlaced K V hash same same_key
            (if ltb grown.threshold grown.size then hmap_rehash K V hash same grown else grown) key
            value (grow (ltb grown.threshold grown.size))

  hmap_remove-IsPlaced :
      (m : HMap K V) (key : Option K)
      → IsPlaced K V hash same same_key m
      → IsPlaced K V hash same same_key (hmap_remove K V hash same m key).1
  unfolding hmap_remove
  hmap_remove-IsPlaced m key (positive, h) =
      remove (take_entry K V hash same key (lookup K V hash same m.buckets key)) (
        take_entry-OldHolds (length m.buckets) (index K V hash same same_key (length m.buckets) key)
          key _
          (Holds-bucket K V hash same same_key (length m.buckets)
            (index K V hash same same_key (length m.buckets) key) m.buckets h))
    where
      remove :
          (o : Option (V × List (HMapEntry K V)))
          → OldHolds (length m.buckets) (index K V hash same same_key (length m.buckets) key) o
          → IsPlaced K V hash same same_key
              (elim o as (λ x. Option V × HMap K V) [
                | none ↦ (none, m)
                | some (value, bucket) ↦ (
                  some value,
                  record m {
                    buckets =
                        set m.buckets (index K V hash same same_key (length m.buckets) key) bucket;
                    size = sub32 m.size 1;
                  },
                )
              ]).1
      remove none k = (positive, h)
      remove (some (value, bucket)) k =
          set-IsPlaced K V hash same same_key m key bucket (positive, h) k

  length-cleared :
      (bs : List (List (HMapEntry K V)))
      → length (map {B = List (HMapEntry K V)} (λ bucket. []) bs) ≡ length bs
  length-cleared [] = refl
  length-cleared (b ∷ bs) = ap suc (length-cleared bs)

  AllHold-cleared :
      (n i : ℕ) (bs : List (List (HMapEntry K V)))
      → AllHold K V hash same same_key n i (map (λ bucket. []) bs)
  AllHold-cleared n i [] = _
  AllHold-cleared n i (b ∷ bs) = (tt, AllHold-cleared n (suc i) bs)

  hmap_clear-IsPlaced :
      (m : HMap K V)
      → IsPlaced K V hash same same_key m
      → IsPlaced K V hash same same_key (hmap_clear K V hash same m)
  unfolding hmap_clear
  hmap_clear-IsPlaced m (positive, h) = (
    omega (arith, length-cleared m.buckets, positive),
    AllHold-cleared (length (map {B = List (HMapEntry K V)} (λ bucket. []) m.buckets)) 0 m.buckets,
  )

  -- The tables that a program can make.
  pub data Reached : HMap K V → Type 0 where
    reached_new : Reached (hmap_new K V hash same)
    reached_put :
        (m : HMap K V) (key : Option K) (value : V)
        → Reached m
        → Reached (hmap_put K V hash same m key value).1
    reached_removed :
        (m : HMap K V) (key : Option K) → Reached m → Reached (hmap_remove K V hash same m key).1
    reached_cleared : (m : HMap K V) → Reached m → Reached (hmap_clear K V hash same m)

  -- In every table that hmap_new makes, and hmap_put, hmap_remove and hmap_clear change, however
  -- often and whether it grew or not, there is a bucket, and each entry stands in the bucket of its key. Keys
  -- that compare as equal are equal.
  pub Reached-IsPlaced : (m : HMap K V) → Reached m → IsPlaced K V hash same same_key m
  Reached-IsPlaced m reached_new = hmap_new-IsPlaced
  Reached-IsPlaced m (reached_put m' key value r) =
      hmap_put-IsPlaced m' key value (Reached-IsPlaced m' r)
  Reached-IsPlaced m (reached_removed m' key r) =
      hmap_remove-IsPlaced m' key (Reached-IsPlaced m' r)
  Reached-IsPlaced m (reached_cleared m' r) = hmap_clear-IsPlaced m' (Reached-IsPlaced m' r)
