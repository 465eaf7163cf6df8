-- ===== src/Ranges/Order.antt =====
-- What is in order in a list of style ranges: ranges that follow one another are equal, or the
-- first ends before the second starts.
use regex_markup.Common.{
  ℕ, ◌≤◌, ◌≡◌, ◌⊎◌, inl, inr, refl, ap, List, [], ◌∷◌, ◌++◌, arith, false, Bool-cases,
}
use regex_markup.Ranges.{StyleRange, same_range}

abbrev pub Same : StyleRange → StyleRange → Type 0
Same x y = (x.so ≡ y.so) × (x.eo ≡ y.eo)

-- `y` may stand behind `x`.
abbrev pub Follows : StyleRange → StyleRange → Type 0
Follows x y = (y.so ≤ y.eo) × (Same y x ⊎ (x.eo ≤ y.so))

abbrev pub After : StyleRange → List StyleRange → Type 0
After x [] = Unit {0}
After x (y ∷ ys) = Follows x y × After y ys

-- From an offset on.
abbrev pub AllFrom : ℕ → List StyleRange → Type 0
AllFrom b [] = Unit {0}
AllFrom b (y ∷ ys) = (b ≤ y.so) × AllFrom b ys

abbrev pub AllSame : StyleRange → List StyleRange → Type 0
AllSame x [] = Unit {0}
AllSame x (y ∷ ys) = Same y x × AllSame x ys

pub AllFrom-After :
    (b : ℕ) (x : StyleRange) (xs : List StyleRange)
    → b ≤ x.so
    → b ≤ x.eo
    → After x xs
    → AllFrom b xs
AllFrom-After b x [] h k a = tt
AllFrom-After b x (y ∷ ys) h k ((ok, f), a) =
    let here : b ≤ y.so = omega arith in (here, AllFrom-After b y ys here (omega arith) a)

-- What comes next is not equal to `x`.
abbrev pub Differs : StyleRange → List StyleRange → Type 0
Differs x [] = Unit {0}
Differs x (y ∷ ys) = same_range y x ≡ false

-- The ranges behind `x` are those equal to it, and then others that start where it ends or later.
pub record Run (x : StyleRange) (xs : List StyleRange) : Type 0 where
  pub run : List StyleRange
  pub rest : List StyleRange
  pub parts : xs ≡ run ++ rest
  pub same : AllSame x run
  pub later : AllFrom x.eo rest
  pub after : After x rest
  pub differs : Differs x rest

pub Run-After : (x y : StyleRange) (xs : List StyleRange) → Same y x → After y xs → Run x xs
Run-After x y [] s a = record {
  run = [];
  rest = [];
  parts = refl;
  same = tt;
  later = tt;
  after = tt;
  differs = tt;
}
Run-After x y (z ∷ zs) s ((ok, f), a) = elim (Bool-cases (same_range z x)) [
  | inl eq ↦
      let e : Same z x = ground arith in
      let r = Run-After x z zs e a in
      record {
        run = z ∷ r.run;
        rest = r.rest;
        parts = ap (z ∷◌) r.parts;
        same = (e, r.same);
        later = r.later;
        after = r.after;
        differs = r.differs;
      }
  | inr ne ↦
      let far : x.eo ≤ z.so = ground arith in
      record {
        run = [];
        rest = z ∷ zs;
        parts = refl;
        same = tt;
        later = (far, AllFrom-After x.eo z zs far (omega arith) a);
        after = ((ok, inr far), a);
        differs = ne;
      }
]
