-- ===== src/Script/Names.antt =====
-- src/parser.y, the tables of names, before and after a definition.
use regex_markup.Common.{
  ℕ, ◌≡◌, ◌≢◌, refl, ap, ap₂, ◌∙◌, subst, List, [], ◌∷◌, Option, none, some, true, false, ◌==◌,
  ==_iff, arith,
}
use mathlib.Core.Option.{none-ne-some, some-injective}
use regex_markup.HMap.{HMap, HMapEntry, strhash, hmap_get, hmap_get_entry, hmap_contains_key}
use regex_markup.HMap.Lookup.{hmap_get-put}
use regex_markup.HMap.Others.{hmap_get-put_other}
use regex_markup.HMap.Buckets.{IsPlaced}
use regex_markup.HMap.Placed.{hmap_put-IsPlaced}
use regex_markup.Wrap.{same_string}
use regex_markup.Script.{same_name, get_name, has_name, put_name}

same_string-same : (s t : List ℕ) → same_string s t ≡ true → t ≡ s
same_string-same [] [] h = refl
same_string-same [] (d ∷ t) h = absurd (ground arith)
same_string-same (c ∷ s) [] h = absurd (ground arith)
same_string-same (c ∷ s) (d ∷ t) h =
    let here : d ≡ c = ground (arith, h) in
    let behind : same_string s t ≡ true = ground (arith, h) in
    ap₂ (λ e u. e ∷ u) here (same_string-same s t behind)

same_string-itself : (s : List ℕ) → same_string s s ≡ true
same_string-itself [] = refl
same_string-itself (c ∷ s) =
    let here : (c == c) ≡ true = (==_iff c c).1 refl in
    let behind : same_string s s ≡ true = same_string-itself s in ground (arith, here, behind)

pub same_name-key :
    (key : List ℕ) (other : Option (List ℕ)) → same_name key other ≡ true → other ≡ some key
same_name-key key none h = absurd (ground arith)
same_name-key key (some other) h = ap some (same_string-same key other h)

module _ {V : Type 0} where
  -- The table of names is as every table that the functions make.
  abbrev pub IsTable : HMap (List ℕ) V → Type 0
  IsTable m = IsPlaced (List ℕ) V strhash same_name same_name-key m

  -- Every name that the one table has, the other has with the same value.
  abbrev pub KeepsNames : (m m' : HMap (List ℕ) V) → Type 0
  KeepsNames m m' = (name : List ℕ) (v : V) → get_name m name ≡ some v → get_name m' name ≡ some v

  has_name-get :
      (m : HMap (List ℕ) V) (name : List ℕ) (v : V)
      → has_name m name ≡ false
      → get_name m name ≡ some v
      → ⊥
  unfolding hmap_contains_key hmap_get
  has_name-get m name v h g = found (hmap_get_entry (List ℕ) V strhash same_name m (some name)) h g
    where
      found :
          (o : Option (HMapEntry (List ℕ) V))
          → elim o [ none ↦ false | some entry ↦ true ] ≡ false
          → elim o [ none ↦ none | some entry ↦ some entry.value ] ≡ some v
          → ⊥
      found none h g = none-ne-some v g
      found (some entry) h g = ground arith

  pub put_name-KeepsNames :
      (m : HMap (List ℕ) V) (name : List ℕ) (value : V)
      → IsTable m
      → has_name m name ≡ false
      → KeepsNames m (put_name m name value)
  put_name-KeepsNames m name value (positive, placed) fresh other v g =
      let apart : some other ≢ some name = λ e.
        has_name-get m name v fresh
          (subst (λ n. get_name m n ≡ some v) (some-injective other name e) g) in
      hmap_get-put_other (List ℕ) V strhash same_name same_name-key (some name) (some other) apart m
        value positive placed
      ∙ g

  pub put_name-get :
      (m : HMap (List ℕ) V) (name : List ℕ) (value : V)
      → IsTable m
      → get_name (put_name m name value) name ≡ some value
  put_name-get m name value (positive, placed) =
      hmap_get-put (List ℕ) V strhash same_name same_string-itself m (some name) value positive

  pub put_name-IsTable :
      (m : HMap (List ℕ) V) (name : List ℕ) (value : V)
      → IsTable m
      → IsTable (put_name m name value)
  put_name-IsTable m name value h =
      hmap_put-IsPlaced (List ℕ) V strhash same_name same_name-key m (some name) value h
