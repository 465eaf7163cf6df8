-- ===== src/Ranges/Overlap.antt =====
-- At one offset: the pieces that insert_style makes of a run (styles `s`) and the new range
-- (styles `t`) against the run and the range themselves. `r` is what is on there because of the
-- ranges behind the run, so nothing where the run still goes on.
use regex_markup.Common.{ℕ, ◌≤◌, ◌<◌, ◌≡◌, List, [], ◌++◌, arith, append_assoc, append-nil}
use regex_markup.Style.{Style}
use regex_markup.Ranges.Covers.{on_between}

module _ (i so eo aso aeo : ℕ) (s t r : List Style) (later : i < eo → r ≡ [])
    (proper : so ≤ eo) where
  pub behind_run :
      aeo ≤ eo
      → on_between i so eo s ++ (on_between i aso aeo t ++ r)
        ≡ (on_between i so eo s ++ r) ++ on_between i aso aeo t
  behind_run h = ground (arith, append-nil s, append-nil t, append-nil r, append-nil (s ++ r))

  pub in_front_of_second :
      so ≤ aso
      → aso ≤ aeo
      → aeo ≤ eo
      → on_between i so aeo s ++ (on_between i aso aeo t ++ (on_between i aeo eo s ++ r))
        ≡ (on_between i so eo s ++ r) ++ on_between i aso aeo t
  in_front_of_second h k l =
      ground (arith, append-nil s, append-nil t, append-nil r, append-nil (s ++ r))

  pub behind_second :
      so ≤ aso
      → aso ≤ eo
      → aeo ≤ eo
      → on_between i so aso s ++ (on_between i aso eo s ++ (on_between i aso aeo t ++ r))
        ≡ (on_between i so eo s ++ r) ++ on_between i aso aeo t
  behind_second h k l =
      ground (arith, append-nil s, append-nil t, append-nil r, append-nil (s ++ r))

  pub in_front_of_third :
      so ≤ aso
      → aso ≤ aeo
      → aeo ≤ eo
      → on_between i so aso s
          ++ (on_between i aso aeo s ++ (on_between i aso aeo t ++ (on_between i aeo eo s ++ r)))
        ≡ (on_between i so eo s ++ r) ++ on_between i aso aeo t
  in_front_of_third h k l =
      ground (arith, append-nil s, append-nil t, append-nil r, append-nil (s ++ r))

  pub beyond_run :
      eo ≤ aeo
      → on_between i so eo s ++ (on_between i so eo t ++ (r ++ on_between i eo aeo t))
        ≡ (on_between i so eo s ++ r) ++ on_between i so aeo t
  beyond_run h =
      ground
        (arith, append-nil s, append-nil t, append-nil r, append-nil (s ++ r), append_assoc s r t)

  pub beyond_second :
      so ≤ aso
      → aso ≤ eo
      → eo ≤ aeo
      → on_between i so aso s
          ++ (on_between i aso eo s ++ (on_between i aso eo t ++ (r ++ on_between i eo aeo t)))
        ≡ (on_between i so eo s ++ r) ++ on_between i aso aeo t
  beyond_second h k l =
      ground
        (arith, append-nil s, append-nil t, append-nil r, append-nil (s ++ r), append_assoc s r t)

-- `r` is what is on because of all the ranges from the node on.
module _ (i so aso aeo : ℕ) (t r : List Style) (later : i < so → r ≡ []) where
  pub part_in_front :
      aso ≤ so
      → so ≤ aeo
      → on_between i aso so t ++ (r ++ on_between i so aeo t) ≡ r ++ on_between i aso aeo t
  part_in_front h k = ground (arith, append-nil t, append-nil r)

  pub all_in_front : aeo ≤ so → on_between i aso aeo t ++ r ≡ r ++ on_between i aso aeo t
  all_in_front h = ground (arith, append-nil t, append-nil r)
