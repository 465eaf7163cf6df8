-- ===== src/Ranges/Rounds.antt =====
-- One round of the loop of insert_style in src/execute.c, case by case.
use regex_markup.Common.{
  ℕ, suc, ◌≤◌, ◌<◌, ◌≡◌, inl, inr, refl, ap, ◌∙◌, List, [], ◌∷◌, ◌++◌, arith, ltb, map, Bool-cases,
  Option, some, length, onto, onto-onto, length-append,
}
use regex_markup.Ranges.{
  StyleRange, Placement, place, insert_loop, new_style_range, insort_style1, whole_list, at_end,
  inside, at_empty, before_it, equal, starts, ends, within, beyond_from, covers_end, surrounds,
  overlaps_start, overlaps_end, pass,
}
use regex_markup.Ranges.Order.{AllSame, AllFrom, Follows, After, Differs}
use regex_markup.Ranges.Pieces.{cut_at, piece, insort_style1-run, insort_style2-run_second}
use regex_markup.Ranges.Covers.{on_between, covers}
use regex_markup.Ranges.Parts.{
  Inserted, After-later, behind-Inserted, first-Inserted, second-Inserted, third-Inserted,
  beyond-Inserted, beyond_second-Inserted, head-Inserted, pass-Inserted, before-Inserted,
}
use regex_markup.Ranges.Whole.{Placed, placed, whole1, whole2, whole3, upto2}

-- The result of the loop, in front of it the nodes that it has passed.
abbrev pub Made :
    Option (List StyleRange) → List StyleRange → StyleRange → StyleRange → List StyleRange → Type 0
Made r before p a after =
    (out : List StyleRange) × (r ≡ some (onto before out)) × Inserted p a after out

module _ (p a x : StyleRange) (before run rest : List StyleRange) (same : AllSame x run)
    (later : AllFrom x.eo rest) (tail : After x rest) (differs : Differs x rest) (f : Follows p x)
    (l : After x (run ++ rest)) (proper : a.so ≤ a.eo) (from : p.eo ≤ a.so) (old_so fuel : ℕ)
    (again : (p' a' : StyleRange) (before' after' : List StyleRange)
      → After p' after'
      → a'.so ≤ a'.eo
      → p'.eo ≤ a'.so
      → length after' ≤ length (run ++ rest)
      → Made (insert_loop fuel old_so a' before' after') before' p' a' after') where
  abbrev pub Round : Type 0
  Round =
      Made (insert_loop (suc fuel) old_so a before (x ∷ (run ++ rest))) before p a
        (x ∷ (run ++ rest))

  -- What stands behind the new node, from what the loop makes of the rest.
  resumed :
      (b a' : StyleRange) (nodes : List StyleRange)
      → a'.so ≤ a'.eo
      → b.eo ≤ a'.so
      → b.eo ≤ x.eo
      → Made (insert_loop fuel old_so a' nodes rest) nodes b a' rest
  resumed b a' nodes h k m =
      again b a' nodes rest (After-later b x rest later tail m) h k
        (omega (arith, length-append run rest))

  -- The loop goes on behind a copy for the run.
  resumed1 :
      (nodes : List StyleRange) (a' : StyleRange)
      → a'.so ≤ a'.eo
      → x.eo ≤ a'.so
      → (out : List StyleRange) × ((let c =
              insort_style1 (x ∷ nodes) (run ++ rest) x (piece x.so x.eo a) in
            insert_loop fuel old_so a' c.upto c.after)
          ≡ some (onto nodes (x ∷ (run ++ (piece x.so x.eo a ∷ out)))))
        × Inserted (piece x.so x.eo a) a' rest out
  resumed1 nodes a' h k =
      let b : StyleRange = piece x.so x.eo a in
      let (out, made, is) = resumed b a' (b ∷ onto run (x ∷ nodes)) h k (omega arith) in
      (
        out,
        ap (λ c. insert_loop fuel old_so a' c.upto c.after)
              (insort_style1-run x nodes run rest same differs b)
            ∙ made
            ∙ ap some (onto-onto run (x ∷ nodes) (b ∷ out)),
        is,
      )

  RoundOf : Placement → Type 0
  RoundOf c = place a x ≡ c → Placed a x c → Round

  round_at_end : RoundOf at_end
  unfolding insert_loop RoundOf
  round_at_end e h = (
    x ∷ (run ++ (a ∷ rest)),
    rw (e, insert_loop) (ap some (whole1 x before run rest same differs a)),
    behind-Inserted p a x run rest f same later tail proper from (omega arith) (ground arith),
  )

  round_equal : RoundOf equal
  unfolding insert_loop RoundOf
  round_equal e h = (
    x ∷ (run ++ (a ∷ rest)),
    rw (e, insert_loop) (ap some (whole1 x before run rest same differs a)),
    behind-Inserted p a x run rest f same later tail proper from (omega arith) (ground arith),
  )

  round_inside : RoundOf inside
  unfolding insert_loop RoundOf
  round_inside e h = (
    _,
    rw (e, insert_loop) (ap some (whole2 x before run rest same differs a)),
    first-Inserted p a x run rest f same later tail proper from (inr h.0) (omega arith)
        (omega arith) (omega arith),
  )

  round_starts : RoundOf starts
  unfolding insert_loop RoundOf
  round_starts e h = (
    _,
    rw (e, insert_loop) (ap some (whole2 x before run rest same differs a)),
    first-Inserted p a x run rest f same later tail proper from (inl h.0) (omega arith)
        (omega arith) (omega arith),
  )

  round_ends : RoundOf ends
  unfolding insert_loop RoundOf
  round_ends e h = (
    _,
    rw (e, insert_loop)
        (ap some (
          ap (λ c. whole_list c) (insort_style2-run_second x before run rest same differs a)
          ∙ upto2 x before run rest same differs a rest)),
    second-Inserted p a x run rest f same later tail proper from (omega arith) (omega arith)
        (omega arith),
  )

  round_within : RoundOf within
  unfolding insert_loop RoundOf
  round_within e h = (
    _,
    rw (e, insert_loop) (ap some (whole3 x before run rest same differs a)),
    third-Inserted p a x run rest f same later tail proper from (omega arith) (omega arith)
        (omega arith),
  )

  round_before_it : RoundOf before_it
  unfolding insert_loop RoundOf
  round_before_it e h = (
    a ∷ x ∷ (run ++ rest),
    rw (e, insert_loop),
    before-Inserted p a x (run ++ rest) f l proper from h,
  )

  passed :
      x.eo ≤ a.so
      → Made (insert_loop fuel old_so a (x ∷ before) (run ++ rest)) before p a (x ∷ (run ++ rest))
  passed h =
      let (out, made, is) = again x a (x ∷ before) (run ++ rest) l proper h (omega arith) in
      (x ∷ out, made, pass-Inserted p a x (run ++ rest) out f is)

  round_pass : RoundOf pass
  unfolding insert_loop RoundOf
  round_pass e h = let (out, made, is) = passed h in (out, rw (e, insert_loop) made, is)

  round_at_empty : RoundOf at_empty
  unfolding insert_loop RoundOf new_style_range
  round_at_empty e h = elim (Bool-cases (ltb old_so a.so)) [
    | inl moved ↦
        let (out, made, is) = resumed1 before a proper (omega arith) in
        (
          x ∷ (run ++ (piece x.so x.eo a ∷ out)),
          rw (e, insert_loop, moved) made,
          beyond-Inserted p a x run rest f same later tail proper from out
              (λ i.
                is.covered i
                ∙ ap (λ w. covers i rest ++ on_between i w a.eo (a.style ∷ []))
                    (let q : a.so ≡ x.eo = omega arith in q))
              h.1 (omega arith) is.ordered,
        )
    | inr unmoved ↦
        let (out, made, is) = passed (omega arith) in (out, rw (e, insert_loop, unmoved) made, is)
  ]

  round_beyond_from : RoundOf beyond_from
  unfolding insert_loop RoundOf new_style_range
  round_beyond_from e h =
      let (out, made, is) = resumed1 before (record a { so = x.eo }) (omega arith) (omega arith) in
      (
        x ∷ (run ++ (piece x.so x.eo a ∷ out)),
        rw (e, insert_loop) made,
        beyond-Inserted p a x run rest f same later tail proper from out is.covered h.0
            (omega arith) is.ordered,
      )

  -- The part in front of the run, and the range from there on.
  front : StyleRange
  front = piece a.so x.so a

  onward : StyleRange
  onward = record a { so = x.so }

  with_front :
      a.so < x.so
      → x.so < a.eo
      → {r : Option (List StyleRange)} → Made r (front ∷ before) front onward (x ∷ (run ++ rest))
      → Made r before p a (x ∷ (run ++ rest))
  unfolding front onward
  with_front h k (out, made, is) =
      (front ∷ out, made, head-Inserted p a x (run ++ rest) out f l from h k is)

  behind_front : Follows front x
  unfolding front
  behind_front = (f.0, inr (omega arith))

  round_covers_end : RoundOf covers_end
  unfolding insert_loop RoundOf new_style_range front onward
  round_covers_end e h = with_front h.0 (omega arith) (
    x ∷ (run ++ (onward ∷ rest)),
    rw (e, insert_loop) (ap some (whole1 x (front ∷ before) run rest same differs onward)),
    behind-Inserted front onward x run rest behind_front same later tail (omega arith) (omega arith)
        (omega arith) (ground arith),
  )

  round_surrounds : RoundOf surrounds
  unfolding insert_loop RoundOf new_style_range front onward
  round_surrounds e h =
      let (out, made, is) =
        resumed1 (front ∷ before) (record a { so = x.eo }) (omega arith) (omega arith) in
      with_front h.0 (omega arith) (
        x ∷ (run ++ (piece x.so x.eo a ∷ out)),
        rw (e, insert_loop) made,
        beyond-Inserted front onward x run rest behind_front same later tail (omega arith)
            (omega arith) out is.covered refl (omega arith) is.ordered,
      )

  round_overlaps_start : RoundOf overlaps_start
  unfolding insert_loop RoundOf new_style_range front onward
  round_overlaps_start e h = with_front h.0 h.2 (
    _,
    rw (e, insert_loop) (ap some (whole2 x (front ∷ before) run rest same differs onward)),
    first-Inserted front onward x run rest behind_front same later tail (omega arith) (omega arith)
        (inl refl) (omega arith) (omega arith) (omega arith),
  )

  round_overlaps_end : RoundOf overlaps_end
  unfolding insert_loop RoundOf new_style_range
  round_overlaps_end e h =
      let b : StyleRange = piece a.so x.eo a in
      let nodes : List StyleRange =
        b ∷ onto (map (piece b.so x.eo) (x ∷ run)) (onto (map (cut_at b.so) (x ∷ run)) before) in
      let (out, made, is) =
        resumed b (record a { so = x.eo }) nodes (omega arith) (omega arith) (omega arith) in
      (
        _,
        rw (e, insert_loop)
            (ap (λ c. insert_loop fuel old_so (record a { so = x.eo }) c.upto c.after)
                (insort_style2-run_second x before run rest same differs b)
              ∙ made
              ∙ ap some (upto2 x before run rest same differs b out)),
        beyond_second-Inserted p a x run rest f same later tail proper from out is.covered h.0
            (omega arith) (omega arith) is.ordered,
      )

  -- One round of the loop, whichever case it takes.
  round_at : (c : Placement) → RoundOf c
  round_at at_end = round_at_end
  round_at inside = round_inside
  round_at at_empty = round_at_empty
  round_at before_it = round_before_it
  round_at equal = round_equal
  round_at starts = round_starts
  round_at ends = round_ends
  round_at within = round_within
  round_at beyond_from = round_beyond_from
  round_at covers_end = round_covers_end
  round_at surrounds = round_surrounds
  round_at overlaps_start = round_overlaps_start
  round_at overlaps_end = round_overlaps_end
  round_at pass = round_pass

  pub round_made : Round
  unfolding RoundOf
  round_made = round_at (place a x) refl (placed a x proper f.0)
