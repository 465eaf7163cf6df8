-- ===== src/Ranges/Pieces.antt =====
-- What the three insort_style functions of src/execute.c make of a run of equal ranges.
use regex_markup.Common.{
  ℕ, suc, ◌≡◌, refl, ap, ◌∙◌, List, [], ◌∷◌, ◌++◌, arith, true, false, ◌==◌, append-nil, map,
  length, onto, onto-append, onto-onto, none, some, length-append,
}
use regex_markup.Ranges.{
  StyleRange, same_range, new_style_range, last_of_run, split_back, insort_style1, insort_style2,
  insort_style3,
}
use regex_markup.Ranges.Order.{AllSame, Differs}

abbrev pub cut_at : ℕ → StyleRange → StyleRange
cut_at p2 t = record t { eo = p2 }

abbrev pub piece : ℕ → ℕ → StyleRange → StyleRange
piece p q t = record { so = p; eo = q; style = t.style }

last_of_run-append :
    (x : StyleRange) (upto run rest : List StyleRange)
    → AllSame x run
    → Differs x rest
    → last_of_run x upto (run ++ rest) ≡ record { upto = onto run upto; after = rest }
unfolding last_of_run
last_of_run-append x upto [] [] same differs = refl
last_of_run-append x upto [] (y ∷ rest) same differs = rw differs
last_of_run-append x upto (y ∷ run) rest (s, same) differs =
    let is_same : same_range y x ≡ true = ground arith in
    rw is_same (last_of_run-append x (y ∷ upto) run rest same differs)

module _ (p2 p3 p4 : ℕ) (x : StyleRange) (before : List StyleRange) where
  -- `r` is the run behind `x`, last first.
  split_back-reversed :
      (r first second third : List StyleRange)
      → split_back (suc (length before)) p2 p3 p4 (r ++ (x ∷ before)) first second third ≡ record {
        before = before;
        first = cut_at p2 x ∷ onto (map (cut_at p2) r) first;
        second = piece p2 p3 x ∷ onto (map (piece p2 p3) r) second;
        third = piece p3 p4 x ∷ onto (map (piece p3 p4) r) third;
      }
  unfolding split_back new_style_range
  split_back-reversed [] first second third =
      let at_orig : (suc (length before) == suc (length before)) ≡ true = ground arith in rw at_orig
  split_back-reversed (t ∷ r) first second third =
      let not_yet : (suc (length (r ++ (x ∷ before))) == suc (length before)) ≡ false =
        ground (arith, length-append r (x ∷ before)) in
      rw not_yet (split_back-reversed r _ _ _)

map-onto {ℓ} :
    {A : Type ℓ} (f : A → A) (xs ys : List A) → map f (onto xs ys) ≡ onto (map f xs) (map f ys)
map-onto f [] ys = refl
map-onto f (x ∷ xs) ys = map-onto f xs (x ∷ ys)

-- Twice reversed.
onto-map-onto {ℓ} : {A : Type ℓ} (f : A → A) (xs : List A) → onto (map f (onto xs [])) [] ≡ map f xs
onto-map-onto f xs =
    ap (λ w. onto w []) (map-onto f xs []) ∙ onto-onto (map f xs) [] [] ∙ append-nil (map f xs)

split_back-run :
    (p2 p3 p4 : ℕ) (x : StyleRange) (before run : List StyleRange)
    → split_back (suc (length before)) p2 p3 p4 (onto run (x ∷ before)) [] [] [] ≡ record {
      before = before;
      first = map (cut_at p2) (x ∷ run);
      second = map (piece p2 p3) (x ∷ run);
      third = map (piece p3 p4) (x ∷ run);
    }
split_back-run p2 p3 p4 x before run =
    ap (λ w. split_back (suc (length before)) p2 p3 p4 w [] [] []) (onto-append run [] (x ∷ before))
    ∙ split_back-reversed p2 p3 p4 x before (onto run []) [] [] []
    ∙ rw
        (
          onto-map-onto (cut_at p2) run,
          onto-map-onto (piece p2 p3) run,
          onto-map-onto (piece p3 p4) run,
        )
        refl

-- The run of ranges equal to `x`, itself included, and what follows it.
module _ (x : StyleRange) (before run rest : List StyleRange) (same : AllSame x run)
    (differs : Differs x rest) where
  scanned :
      last_of_run x (x ∷ before) (run ++ rest)
      ≡ record { upto = onto run (x ∷ before); after = rest }
  scanned = last_of_run-append x (x ∷ before) run rest same differs

  pub insort_style1-run :
      (a : StyleRange)
      → insort_style1 (x ∷ before) (run ++ rest) x a
        ≡ record { upto = a ∷ onto run (x ∷ before); after = rest }
  unfolding insort_style1
  insort_style1-run a = rw scanned

  -- The list with the run cut at the new range's end, the new range, and the second pieces.
  pub insort_style2-run_first :
      (a : StyleRange)
      → insort_style2 (x ∷ before) (run ++ rest) x (some a) none ≡ record {
        upto =
            onto (map (piece a.eo x.eo) (x ∷ run)) (a ∷ onto (map (cut_at a.eo) (x ∷ run)) before);
        after = rest;
      }
  unfolding insort_style2
  insort_style2-run_first a = rw (scanned, split_back-run a.eo x.eo x.eo x before run)

  pub insort_style2-run_second :
      (b : StyleRange)
      → insort_style2 (x ∷ before) (run ++ rest) x none (some b) ≡ record {
        upto =
            b ∷ onto (map (piece b.so x.eo) (x ∷ run)) (onto (map (cut_at b.so) (x ∷ run)) before);
        after = rest;
      }
  unfolding insort_style2
  insort_style2-run_second b = rw (scanned, split_back-run b.so x.eo x.eo x before run)

  pub insort_style3-run :
      (b : StyleRange)
      → insort_style3 (x ∷ before) (run ++ rest) x b ≡ record {
        upto =
            b ∷ onto (map (piece b.so b.eo) (x ∷ run)) (onto (map (cut_at b.so) (x ∷ run)) before);
        after = map (piece b.eo x.eo) (x ∷ run) ++ rest;
      }
  unfolding insort_style3
  insort_style3-run b = rw (scanned, split_back-run b.so b.eo x.eo x before run)
