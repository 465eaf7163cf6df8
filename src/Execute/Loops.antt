-- ===== src/Execute/Loops.antt =====
-- src/execute.c, execute_match_rule: the loops over the matches of a line, around a body that leaves
-- the text and the matches as they are.
use regex_markup.Common.{
  ℕ, zero, suc, ◌+◌, ◌<◌, ◌≡◌, refl, sym, subst, ap, ap₂, ◌∙◌, List, [], ◌∷◌, ◌⊎◌, inl, inr, length,
  get_or, wrap32, i32, arith,
}
use regex_markup.Ranges.Insert.{InOrder}
use regex_markup.Regex.{RegexLib, SubmatchSpec}
use regex_markup.Match.{Match, Frame, whole_match, no_match, matched, dies, try_match}
use regex_markup.Match.Found.{IsFound}
use regex_markup.Rule.{ActionType, action_continue, action_break, action_skip}
use regex_markup.Execute.{
  State, Result, ok, died, out_of_fuel, ◌>>=◌, current, leave, Executed, match_loop,
}

-- The ranges may have changed, and are in order.
pub record Marked (st st' : State) : Type 0 where
  pub same_text : st'.text ≡ st.text
  pub same_frames : st'.frames ≡ st.frames
  pub in_order : InOrder st'.styles

-- The program ends with its message for a wrong index, or there is a result, with the text and the
-- matches as they were and the ranges in order. The fuel is not used up.
abbrev pub Outcome : State → Result (ActionType × State) → Type 0
Outcome st r =
    (r ≡ died) ⊎ ((action : ActionType) × (st' : State) × (r ≡ ok (action, st')) × Marked st st')

-- The ranges are in order, and the match and its subexpressions lie in the text.
pub record Good (st : State) : Type 0 where
  pub ordered : InOrder st.styles
  pub found : IsFound (length st.text) (current st)
  pub small : length st.text < i32

pub Marked-same : (st : State) → Good st → Marked st st
Marked-same st good = record { same_text = refl; same_frames = refl; in_order = good.ordered }

pub Marked-then : (a b c : State) → Marked a b → Marked b c → Marked a c
Marked-then a b c f g = record {
  same_text = g.same_text ∙ f.same_text;
  same_frames = g.same_frames ∙ f.same_frames;
  in_order = g.in_order;
}

pub Outcome-then :
    (a b : State) (r : Result (ActionType × State)) → Marked a b → Outcome b r → Outcome a r
Outcome-then a b r f (inl e) = inl e
Outcome-then a b r f (inr (action, c, e, g)) = inr (action, c, e, Marked-then a b c f g)

pub Good-Marked : (a b : State) → Good a → Marked a b → Good b
Good-Marked a b good f = record {
  ordered = f.in_order;
  found =
      subst (λ text. IsFound (length text) (current b)) (sym f.same_text)
        (subst (λ frames. IsFound (length a.text) (get_or frames 0 [])) (sym f.same_frames)
          good.found);
  small = subst (λ text. length text < i32) (sym f.same_text) good.small;
}

-- The state of a match, entered and left again.
abbrev pub enter : Frame → State → State
enter frame st = record st { frames = frame ∷ st.frames }

Marked-leave :
    (frame : Frame) (st st' : State) → Marked (enter frame st) st' → Marked st (leave st')
Marked-leave frame st st' f = record {
  same_text = f.same_text;
  same_frames =
      ap (λ (frames : List Frame). elim frames [ [] ↦ [] | frame ∷ others ↦ others ]) f.same_frames;
  in_order = f.in_order;
}

module _ (lib : RegexLib) (body : Executed) (match : Match lib.Regex) where
  -- What follows the body, in a round.
  abbrev pub next_round :
      ℕ → (call : ℕ) → ActionType → ActionType × State → Result (ActionType × State)
  next_round f call outer (action_skip, st') = ok (action_skip, leave st')
  next_round f call outer (action_break, st') =
      match_loop lib f body match (whole_match (current st')).eo (wrap32 (call + 1)) action_break
        (leave st')
  next_round f call outer (action_continue, st') =
      match_loop lib f body match (whole_match (current st')).eo (wrap32 (call + 1)) outer
        (leave st')

  pub match_loop-round :
      (f so call : ℕ) (outer : ActionType) (st : State) (frame : Frame) (so' : ℕ)
      → try_match lib match st.text (current st) so call ≡ matched frame so'
      → match_loop lib (suc f) body match so call outer st
        ≡ (body (enter frame st) >>= next_round f call outer)
  unfolding match_loop
  match_loop-round f so call outer st frame so' e = rw (e, match_loop) (go (body (enter frame st)))
    where
      go :
          (r : Result (ActionType × State))
          → (r >>= λ (action, st'). elim action [
            | action_skip ↦ ok (action_skip, leave st')
            | action_break ↦
                match_loop lib f body match
                  (whole_match (current st')).eo
                  (wrap32 (call + 1))
                  action_break
                  (leave st')
            | action_continue ↦
                match_loop lib f body match
                  (whole_match (current st')).eo
                  (wrap32 (call + 1))
                  outer
                  (leave st')
          ])
            ≡ (r >>= next_round f call outer)
      go (ok (action_skip, st')) = refl
      go (ok (action_break, st')) = refl
      go (ok (action_continue, st')) = refl
      go died = refl
      go out_of_fuel = refl

  pub round_none :
      (f so call : ℕ) (outer : ActionType) (st : State)
      → try_match lib match st.text (current st) so call ≡ no_match
      → match_loop lib (suc f) body match so call outer st ≡ ok (outer, st)
  unfolding match_loop
  round_none f so call outer st e = rw (e, match_loop) refl

  round_dies :
      (f so call : ℕ) (outer : ActionType) (st : State)
      → try_match lib match st.text (current st) so call ≡ dies
      → match_loop lib (suc f) body match so call outer st ≡ died
  unfolding match_loop
  round_dies f so call outer st e = rw (e, match_loop) refl

  -- A round whose match is made, where the later rounds have an outcome.
  round_matched :
      (f call : ℕ) (outer : ActionType) (st : State) (frame : Frame)
      (r : Result (ActionType × State))
      → Outcome (enter frame st) r
      → ((action : ActionType) (st' : State)
          → Marked (enter frame st) st'
          → Outcome (leave st') (
              match_loop lib f body match
                (whole_match frame).eo
                (wrap32 (call + 1))
                action
                (leave st')))
      → Outcome st (r >>= next_round f call outer)
  round_matched f call outer st frame r (inl e) next = inl (ap (◌>>= next_round f call outer) e)
  round_matched f call outer st frame r (inr (action, st', e, marked)) next =
      subst (λ r. Outcome st (r >>= next_round f call outer)) (sym e) (by_action action marked)
    where
      at_end : whole_match (current st') ≡ whole_match frame
      at_end = ap (λ (frames : List Frame). whole_match (get_or frames 0 [])) marked.same_frames

      again :
          (action : ActionType)
          → Marked (enter frame st) st'
          → Outcome st (
              match_loop lib f body match
                (whole_match (current st')).eo
                (wrap32 (call + 1))
                action
                (leave st'))
      again action marked = Outcome-then st (leave st') _ (Marked-leave frame st st' marked) (
          subst
            (λ (m : SubmatchSpec).
              Outcome (leave st')
                (match_loop lib f body match m.eo (wrap32 (call + 1)) action (leave st')))
            (sym at_end) (next action st' marked))

      by_action :
          (action : ActionType)
          → Marked (enter frame st) st'
          → Outcome st (next_round f call outer (action, st'))
      by_action action_skip marked =
          inr (action_skip, leave st', refl, Marked-leave frame st st' marked)
      by_action action_break marked = again action_break marked
      by_action action_continue marked = again outer marked

  -- The loop over one match of a rule, where each round is followed by one with a smaller measure.
  module _ (text : List ℕ) (subv : Frame)
      (body-Outcome : (st : State) → Good st → st.text ≡ text → Outcome st (body st))
      (Invariant : ℕ → ℕ → Type 0) (measure : ℕ → ℕ → ℕ) where
    abbrev pub Round : ℕ → ℕ → Type 0
    Round so call =
        (try_match lib match text subv so call ≡ no_match)
        ⊎ ((try_match lib match text subv so call ≡ dies)
            ⊎ ((frame : Frame) × (so' : ℕ) × (try_match lib match text subv so call
                  ≡ matched frame so')
                × IsFound (length text) frame
                × Invariant (whole_match frame).eo (wrap32 (call + 1))
                × (measure (whole_match frame).eo (wrap32 (call + 1)) < measure so call)))

    pub match_loop-Outcome :
        (rounds : (so call : ℕ) → Invariant so call → Round so call) (f so call : ℕ)
        (outer : ActionType) (st : State)
        → Good st
        → st.text ≡ text
        → current st ≡ subv
        → Invariant so call
        → measure so call < f
        → Outcome st (match_loop lib f body match so call outer st)
    match_loop-Outcome rounds zero so call outer st good t c i m = absurd (omega arith)
    match_loop-Outcome rounds (suc f) so call outer st good t c i m =
        let here : try_match lib match st.text (current st) so call
            ≡ try_match lib match text subv so call =
          ap₂ (λ text subv. try_match lib match text subv so call) t c in
        elim (rounds so call i) [
          | inl e ↦ inr (outer, st, round_none f so call outer st (here ∙ e), Marked-same st good)
          | inr (inl e) ↦ inl (round_dies f so call outer st (here ∙ e))
          | inr (inr (frame, so', e, found, i', smaller)) ↦
              let inner : State = enter frame st in
              let entered : Good inner = record {
                ordered = good.ordered;
                found = subst (λ text. IsFound (length text) frame) (sym t) found;
                small = good.small;
              } in
              subst (Outcome st) (sym (match_loop-round f so call outer st frame so' (here ∙ e))) (
                round_matched f call outer st frame (body inner) (body-Outcome inner entered t)
                  (λ action st' marked.
                    match_loop-Outcome rounds f (whole_match frame).eo (wrap32 (call + 1)) action
                      (leave st')
                      (Good-Marked st (leave st') good (Marked-leave frame st st' marked))
                      (marked.same_text ∙ t)
                      (ap (λ frames. get_or frames 0 [])
                          (Marked-leave frame st st' marked).same_frames
                        ∙ c)
                      i' (omega (arith, m, smaller))))
        ]
