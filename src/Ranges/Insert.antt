-- ===== src/Ranges/Insert.antt =====
-- insert_style of src/execute.c as a whole: the order of its list, and the styles that are on.
use regex_markup.Common.{
  ℕ, zero, suc, ◌≤◌, ◌<◌, ◌≡◌, inr, refl, sym, ap, List, [], ◌∷◌, ◌++◌, arith, subst, append-nil,
  some, length,
}
use regex_markup.Ranges.{StyleRange, insert_loop, insert_style}
use regex_markup.Ranges.Order.{After, Run, Run-After}
use regex_markup.Ranges.Covers.{on_between, covers}
use regex_markup.Ranges.Rounds.{Made, round_made}

insert_loop-Made :
    (fuel old_so : ℕ) (p a : StyleRange) (before after : List StyleRange)
    → After p after
    → a.so ≤ a.eo
    → p.eo ≤ a.so
    → length after < fuel
    → Made (insert_loop fuel old_so a before after) before p a after
unfolding insert_loop
insert_loop-Made zero old_so p a before after l proper from enough = absurd (omega arith)
insert_loop-Made (suc fuel) old_so p a before [] l proper from enough =
    (a ∷ [], refl, record { ordered = ((proper, inr from), tt); covered = λ i. append-nil _ })
insert_loop-Made (suc fuel) old_so p a before (x ∷ after) (f, l) proper from enough =
    let r : Run x after = Run-After x x after (refl, refl) l in
    subst (λ w. Made (insert_loop (suc fuel) old_so a before (x ∷ w)) before p a (x ∷ w))
      (sym r.parts)
      (round_made p a x before r.run r.rest r.same r.later r.after r.differs f
        (subst (After x) r.parts l) proper from old_so fuel
        λ p' a' before' after' l' proper' from' shorter.
          insert_loop-Made fuel old_so p' a' before' after' l' proper' from'
            (omega (arith, ap length r.parts)))

-- Every range ends no earlier than it starts, and two ranges that follow one another are equal, or
-- the first ends before the second starts.
abbrev pub InOrder : List StyleRange → Type 0
InOrder [] = Unit {0}
InOrder (x ∷ xs) = (x.so ≤ x.eo) × After x xs

-- The empty range at the start of the line, that any list in order may follow.
abbrev origin : StyleRange → StyleRange
origin a = record { so = 0; eo = 0; style = a.style }

After-InOrder : (a : StyleRange) (l : List StyleRange) → InOrder l → After (origin a) l
After-InOrder a [] o = tt
After-InOrder a (x ∷ xs) (h, l) = ((h, inr (omega arith)), l)

InOrder-After : (a : StyleRange) (l : List StyleRange) → After (origin a) l → InOrder l
InOrder-After a [] o = tt
InOrder-After a (x ∷ xs) ((h, _), l) = (h, l)

-- insert_style on a list in order, with a range that ends no earlier than it starts: its loop ends
-- within a round for each node and one more, the new list is in order, and at every offset of the
-- line the styles that are on are those that were on, in their order, followed by the new style
-- exactly where the offset lies in the new range.
pub insert_style-covers :
    (styles : List StyleRange) (s1 : StyleRange)
    → InOrder styles
    → s1.so ≤ s1.eo
    → (out : List StyleRange) × (insert_style styles s1 ≡ some out)
      × InOrder out
      × ((i : ℕ) → covers i out ≡ covers i styles ++ on_between i s1.so s1.eo (s1.style ∷ []))
unfolding insert_style
insert_style-covers styles s1 o proper =
    let (out, made, is) =
      insert_loop-Made (suc (length styles)) s1.so (origin s1) s1 [] styles
        (After-InOrder s1 styles o) proper (omega arith) (omega arith) in
    (out, made, InOrder-After s1 out is.ordered, is.covered)
