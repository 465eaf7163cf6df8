-- ===== src/Ranges/Parts.antt =====
-- The lists that the cases of insert_style in src/execute.c make, compared with the old list.
use regex_markup.Common.{
  ℕ, ◌≤◌, ◌<◌, ◌≡◌, ◌⊎◌, inr, sym, ap, ◌∙◌, List, [], ◌∷◌, ◌++◌, arith, append_assoc, map,
}
use regex_markup.Ranges.{StyleRange}
use regex_markup.Ranges.Order.{AllSame, AllFrom, Follows, After, AllFrom-After}
use regex_markup.Ranges.Pieces.{cut_at, piece}
use regex_markup.Ranges.Overlap.{
  behind_run, in_front_of_second, behind_second, in_front_of_third, part_in_front, all_in_front,
  beyond_run, beyond_second,
}
use regex_markup.Ranges.Covers.{
  on_between, covers, styles_of, covers-later, covers-run, covers-cut, covers-piece, AllSame-piece,
  AllSame-cut_at, After-run,
}

-- What the loop makes of the ranges from the node on.
pub record Inserted (p a : StyleRange) (after out : List StyleRange) : Type 0 where
  pub ordered : After p out
  pub covered : (i : ℕ) → covers i out ≡ covers i after ++ on_between i a.so a.eo (a.style ∷ [])

pub After-later :
    (z x : StyleRange) (xs : List StyleRange)
    → AllFrom x.eo xs
    → After x xs
    → z.eo ≤ x.eo
    → After z xs
After-later z x [] from a h = tt
After-later z x (y ∷ ys) (start, from) ((ok, f), a) h = ((ok, inr (omega arith)), a)

module _ (p a x : StyleRange) (run rest : List StyleRange) (f : Follows p x) (same : AllSame x run)
    (later : AllFrom x.eo rest) (after : After x rest) (proper : a.so ≤ a.eo)
    (from : p.eo ≤ a.so) where
  -- What the run and the ranges behind it give at an offset.
  at_offset :
      (i : ℕ)
      → covers i (x ∷ (run ++ rest)) ≡ on_between i x.so x.eo (styles_of (x ∷ run)) ++ covers i rest
  at_offset i = covers-run i x run rest same

  no_more : (i : ℕ) → i < x.eo → covers i rest ≡ []
  no_more i h = covers-later i x.eo rest later h

  After-ending : (z : StyleRange) → z.eo ≤ x.eo → After z rest
  After-ending z h = After-later z x rest later after h

  -- From an equation at each offset.
  inserted :
      (out : List StyleRange)
      → After p out
      → ((i : ℕ)
          → covers i out
            ≡ (on_between i x.so x.eo (styles_of (x ∷ run)) ++ covers i rest)
              ++ on_between i a.so a.eo (a.style ∷ []))
      → Inserted p a (x ∷ (run ++ rest)) out
  inserted out o eq = record {
    ordered = o;
    covered = λ i. eq i ∙ ap (◌++ on_between i a.so a.eo (a.style ∷ [])) (sym (at_offset i));
  }

  pub behind-Inserted :
      a.eo ≤ x.eo → Follows x a → Inserted p a (x ∷ (run ++ rest)) (x ∷ (run ++ (a ∷ rest)))
  behind-Inserted h g = inserted _ (After-run p x run (a ∷ rest) f same (g, After-ending a h)) λ i.
      covers-run i x run (a ∷ rest) same ∙ behind_run i x.so x.eo a.so a.eo _ _ _ (no_more i) f.0 h

  pub first-Inserted :
      (a.so ≡ x.so) ⊎ (a.so ≡ a.eo)
      → x.so ≤ a.so
      → a.so < x.eo
      → a.eo ≤ x.eo
      → Inserted p a
          (x ∷ (run ++ rest))
          (map (cut_at a.eo) (x ∷ run) ++ (a ∷ (map (piece a.eo x.eo) (x ∷ run) ++ rest)))
  first-Inserted d h k l =
      inserted _
        (After-run p (cut_at a.eo x) (map (cut_at a.eo) run) _ (ground arith)
          (AllSame-cut_at a.eo x run same)
          (
            ground arith,
            After-run a (piece a.eo x.eo x) (map (piece a.eo x.eo) run) rest (ground arith)
                (AllSame-piece a.eo x.eo x run) (After-ending _ (ground arith)),
          ))
        λ i.
          covers-cut i x run _ a.eo same
          ∙ ap
              (λ w.
                on_between i x.so a.eo (styles_of (x ∷ run))
                ++ (on_between i a.so a.eo (a.style ∷ []) ++ w))
              (covers-piece i x run rest a.eo x.eo)
          ∙ in_front_of_second i x.so x.eo a.so a.eo _ _ _ (no_more i) f.0 h proper l

  pub second-Inserted :
      x.so < a.so
      → a.so < a.eo
      → a.eo ≡ x.eo
      → Inserted p a
          (x ∷ (run ++ rest))
          (map (cut_at a.so) (x ∷ run) ++ (map (piece a.so x.eo) (x ∷ run) ++ (a ∷ rest)))
  second-Inserted h k l =
      inserted _
        (After-run p (cut_at a.so x) (map (cut_at a.so) run) _ (ground arith)
          (AllSame-cut_at a.so x run same)
          (After-run (cut_at a.so x) (piece a.so x.eo x) (map (piece a.so x.eo) run) (a ∷ rest)
            (ground arith) (AllSame-piece a.so x.eo x run)
            (ground arith, After-ending a (omega arith))))
        λ i.
          covers-cut i x run _ a.so same
          ∙ ap (on_between i x.so a.so (styles_of (x ∷ run)) ++◌)
              (covers-piece i x run (a ∷ rest) a.so x.eo)
          ∙ behind_second i x.so x.eo a.so a.eo _ _ _ (no_more i) f.0 (omega arith) (omega arith)
              (omega arith)

  pub third-Inserted :
      x.so < a.so
      → a.so < a.eo
      → a.eo < x.eo
      → Inserted p a (x ∷ (run ++ rest)) (
          map (cut_at a.so) (x ∷ run)
          ++ (map (piece a.so a.eo) (x ∷ run) ++ (a ∷ (map (piece a.eo x.eo) (x ∷ run) ++ rest))))
  third-Inserted h k l =
      inserted _
        (After-run p (cut_at a.so x) (map (cut_at a.so) run) _ (ground arith)
          (AllSame-cut_at a.so x run same)
          (After-run (cut_at a.so x) (piece a.so a.eo x) (map (piece a.so a.eo) run) _
            (ground arith) (AllSame-piece a.so a.eo x run)
            (
              ground arith,
              After-run a (piece a.eo x.eo x) (map (piece a.eo x.eo) run) rest (ground arith)
                  (AllSame-piece a.eo x.eo x run) (After-ending _ (ground arith)),
            )))
        λ i.
          covers-cut i x run _ a.so same
          ∙ ap (on_between i x.so a.so (styles_of (x ∷ run)) ++◌) (
              covers-piece i x run _ a.so a.eo
              ∙ ap
                  (λ w.
                    on_between i a.so a.eo (styles_of (x ∷ run))
                    ++ (on_between i a.so a.eo (a.style ∷ []) ++ w))
                  (covers-piece i x run rest a.eo x.eo))
          ∙ in_front_of_third i x.so x.eo a.so a.eo _ _ _ (no_more i) f.0 (omega arith)
              (omega arith) (omega arith)

  -- The new range goes on behind the run: `out` is made of the rest for what remains of it.
  module _ (out : List StyleRange)
      (covered : (i : ℕ)
        → covers i out ≡ covers i rest ++ on_between i x.eo a.eo (a.style ∷ [])) where
    pub beyond-Inserted :
        a.so ≡ x.so
        → x.eo ≤ a.eo
        → After (piece x.so x.eo a) out
        → Inserted p a (x ∷ (run ++ rest)) (x ∷ (run ++ (piece x.so x.eo a ∷ out)))
    beyond-Inserted h k o = inserted _ (After-run p x run _ f same (ground arith, o)) λ i.
        covers-run i x run _ same
        ∙ ap
            (λ w.
              on_between i x.so x.eo (styles_of (x ∷ run))
              ++ (on_between i x.so x.eo (a.style ∷ []) ++ w))
            (covered i)
        ∙ beyond_run i x.so x.eo a.so a.eo _ _ _ (no_more i) f.0 k
        ∙ ap
            (λ w.
              (on_between i x.so x.eo (styles_of (x ∷ run)) ++ covers i rest)
              ++ on_between i w a.eo (a.style ∷ []))
            (sym h)

    pub beyond_second-Inserted :
        x.so < a.so
        → a.so < x.eo
        → x.eo ≤ a.eo
        → After (piece a.so x.eo a) out
        → Inserted p a (x ∷ (run ++ rest)) (
            map (cut_at a.so) (x ∷ run)
            ++ (map (piece a.so x.eo) (x ∷ run) ++ (piece a.so x.eo a ∷ out)))
    beyond_second-Inserted h k l o =
        inserted _
          (After-run p (cut_at a.so x) (map (cut_at a.so) run) _ (ground arith)
            (AllSame-cut_at a.so x run same)
            (After-run (cut_at a.so x) (piece a.so x.eo x) (map (piece a.so x.eo) run) _
              (ground arith) (AllSame-piece a.so x.eo x run) (ground arith, o)))
          λ i.
            covers-cut i x run _ a.so same
            ∙ ap (on_between i x.so a.so (styles_of (x ∷ run)) ++◌) (
                covers-piece i x run _ a.so x.eo
                ∙ ap
                    (λ w.
                      on_between i a.so x.eo (styles_of (x ∷ run))
                      ++ (on_between i a.so x.eo (a.style ∷ []) ++ w))
                    (covered i))
            ∙ beyond_second i x.so x.eo a.so a.eo _ _ _ (no_more i) f.0 (omega arith) (omega arith)
                l

-- The part of the new range in front of the run, and what was made for the part from there on.
pub head-Inserted :
    (p a x : StyleRange) (after out : List StyleRange)
    → Follows p x
    → After x after
    → p.eo ≤ a.so
    → a.so < x.so
    → x.so < a.eo
    → Inserted (piece a.so x.so a) (record a { so = x.so }) (x ∷ after) out
    → Inserted p a (x ∷ after) (piece a.so x.so a ∷ out)
head-Inserted p a x after out f l h k m made = record {
  ordered = ((omega arith, inr h), made.ordered);
  covered = λ i.
      ap (on_between i a.so x.so (a.style ∷ []) ++◌) (made.covered i)
      ∙ part_in_front i x.so a.so a.eo _ _
          (covers-later i x.so (x ∷ after)
            (omega arith, AllFrom-After x.so x after (omega arith) f.0 l))
          (omega arith) (omega arith);
}

-- A range that the loop passes.
pub pass-Inserted :
    (p a x : StyleRange) (after out : List StyleRange)
    → Follows p x
    → Inserted x a after out
    → Inserted p a (x ∷ after) (x ∷ out)
pass-Inserted p a x after out f made = record {
  ordered = (f, made.ordered);
  covered = λ i.
      ap (on_between i x.so x.eo (x.style ∷ []) ++◌) (made.covered i)
      ∙ sym (append_assoc (on_between i x.so x.eo (x.style ∷ [])) (covers i after) _);
}

-- The new range ends before the node.
pub before-Inserted :
    (p a x : StyleRange) (after : List StyleRange)
    → Follows p x
    → After x after
    → a.so ≤ a.eo
    → p.eo ≤ a.so
    → a.eo ≤ x.so
    → Inserted p a (x ∷ after) (a ∷ x ∷ after)
before-Inserted p a x after f l proper from h = record {
  ordered = ((proper, inr from), ((f.0, inr h), l));
  covered = λ i.
      all_in_front i x.so a.so a.eo (a.style ∷ []) (covers i (x ∷ after))
        (covers-later i x.so (x ∷ after)
          (omega arith, AllFrom-After x.so x after (omega arith) f.0 l))
        h;
}
