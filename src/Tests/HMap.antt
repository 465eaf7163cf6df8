-- ===== src/Tests/HMap.antt =====
-- src/common/hmap.c with numbers as keys, which are their own hash values.
use regex_markup.Common.{
  ℕ, ◌≡◌, refl, ap, [], ◌∷◌, Option, none, some, Bool, true, false, ◌==◌, ==_iff, arith,
}
use regex_markup.HMap.{
  HMap, HMapEntry, hmap_new, hmap_remove, hmap_clear, hmap_hash, hmap_get, hmap_put, hmap_rehash,
}
use regex_markup.HMap.Lookup.{hmap_get-put}
use regex_markup.HMap.Others.{hmap_get-put_other}
use regex_markup.HMap.Buckets.{IsPlaced}
use regex_markup.HMap.Placed.{
  reached_new, reached_put, reached_removed, reached_cleared, Reached-IsPlaced,
}
use regex_markup.HMap.Rehash.{InBuckets, hmap_get-rehash}

abbrev same : ℕ → Option ℕ → Bool
same key none = false
same key (some other) = key == other

same-itself : (key : ℕ) → same key (some key) ≡ true
same-itself key = (==_iff key key).1 refl

same-key : (key : ℕ) (other : Option ℕ) → same key other ≡ true → other ≡ some key
same-key key none h = absurd (ground arith)
same-key key (some other) h = ap some (omega (arith, (==_iff key other).0 h))

abbrev entry : Option ℕ → ℕ → HMapEntry ℕ ℕ
entry key value = record { key = key; value = value }

-- Two buckets, at the size where the next key makes the table grow.
abbrev table : HMap ℕ ℕ
table = record {
  buckets = (entry none 7 ∷ entry (some 4) 8 ∷ []) ∷ (entry (some 3) 9 ∷ []) ∷ [];
  threshold = 3;
  size = 3;
}

table-InBuckets : InBuckets ℕ ℕ (λ k. k) same same-key 2 0 table.buckets
unfolding hmap_hash
table-InBuckets = ((refl, (refl, tt)), ((refl, tt), tt))

hmap_get-put_example :
    hmap_get ℕ ℕ (λ k. k) same (hmap_put ℕ ℕ (λ k. k) same table (some 6) 5).1 (some 6) ≡ some 5
hmap_get-put_example = hmap_get-put ℕ ℕ (λ k. k) same same-itself table (some 6) 5 (omega arith)

hmap_get-rehash_example :
    hmap_get ℕ ℕ (λ k. k) same (hmap_rehash ℕ ℕ (λ k. k) same table) (some 4)
    ≡ hmap_get ℕ ℕ (λ k. k) same table (some 4)
hmap_get-rehash_example = hmap_get-rehash ℕ ℕ (λ k. k) same same-key table (some 4) table-InBuckets

hmap_get-put_other_example :
    hmap_get ℕ ℕ (λ k. k) same (hmap_put ℕ ℕ (λ k. k) same table (some 6) 5).1 (some 4)
    ≡ hmap_get ℕ ℕ (λ k. k) same table (some 4)
hmap_get-put_other_example =
    hmap_get-put_other ℕ ℕ (λ k. k) same same-key (some 6) (some 4) (λ e. absurd (ground arith))
      table 5 (omega arith) table-InBuckets

-- Two keys of one bucket in a table that was cleared, and one of them taken out.
abbrev empty_table : HMap ℕ ℕ
empty_table = hmap_new ℕ ℕ (λ k. k) same

abbrev cleared : HMap ℕ ℕ
cleared = hmap_clear ℕ ℕ (λ k. k) same (hmap_put ℕ ℕ (λ k. k) same empty_table (some 5) 6).1

abbrev two_keys : HMap ℕ ℕ
two_keys =
    (hmap_put ℕ ℕ (λ k. k) same (hmap_put ℕ ℕ (λ k. k) same cleared (some 3) 7).1 (some 14) 8).1

Reached-IsPlaced_example :
    IsPlaced ℕ ℕ (λ k. k) same same-key (hmap_remove ℕ ℕ (λ k. k) same two_keys (some 3)).1
Reached-IsPlaced_example =
    Reached-IsPlaced ℕ ℕ (λ k. k) same same-key (hmap_remove ℕ ℕ (λ k. k) same two_keys (some 3)).1
      (reached_removed two_keys (some 3) (
        reached_put _ (some 14) 8
          (reached_put _ (some 3) 7 (reached_cleared _ (reached_put _ (some 5) 6 reached_new)))))
