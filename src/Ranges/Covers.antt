-- ===== src/Ranges/Covers.antt =====
-- What a list of style ranges means: the styles that are on at each offset, outermost first.
use regex_markup.Common.{
  ℕ, ◌<◌, ◌≡◌, refl, sym, ap, ◌∙◌, List, [], ◌∷◌, ◌++◌, arith, ◌&&◌, ltb, leb, if◌then◌else◌,
  append_assoc, map,
}
use regex_markup.Style.{Style}
use regex_markup.Ranges.{StyleRange}
use regex_markup.Ranges.Order.{Same, AllSame, AllFrom, Follows, After}
use regex_markup.Ranges.Pieces.{cut_at, piece}

abbrev pub on_between : ℕ → ℕ → ℕ → List Style → List Style
on_between i so eo styles = if leb so i && ltb i eo then styles else []

abbrev pub covers : ℕ → List StyleRange → List Style
covers i [] = []
covers i (x ∷ xs) = on_between i x.so x.eo (x.style ∷ []) ++ covers i xs

abbrev pub styles_of : List StyleRange → List Style
styles_of = map (λ x. x.style)

pub covers-append :
    (i : ℕ) (xs ys : List StyleRange) → covers i (xs ++ ys) ≡ covers i xs ++ covers i ys
covers-append i [] ys = refl
covers-append i (x ∷ xs) ys =
    ap (on_between i x.so x.eo (x.style ∷ []) ++◌) (covers-append i xs ys)
    ∙ sym (append_assoc (on_between i x.so x.eo (x.style ∷ [])) (covers i xs) (covers i ys))

pub covers-later : (i b : ℕ) (xs : List StyleRange) → AllFrom b xs → i < b → covers i xs ≡ []
covers-later i b [] from h = refl
covers-later i b (x ∷ xs) (start, from) h = ground (arith, covers-later i b xs from h)

pub covers-same :
    (i : ℕ) (x : StyleRange) (xs : List StyleRange)
    → AllSame x xs
    → covers i xs ≡ on_between i x.so x.eo (styles_of xs)
covers-same i x [] same = ground arith
covers-same i x (y ∷ ys) (s, same) = ground (arith, covers-same i x ys same)

-- A run whose ranges are all given the same two ends.
pub AllSame-piece :
    (p q : ℕ) (x : StyleRange) (xs : List StyleRange) → AllSame (piece p q x) (map (piece p q) xs)
AllSame-piece p q x [] = tt
AllSame-piece p q x (y ∷ ys) = ((refl, refl), AllSame-piece p q x ys)

pub AllSame-cut_at :
    (q : ℕ) (x : StyleRange) (xs : List StyleRange)
    → AllSame x xs
    → AllSame (cut_at q x) (map (cut_at q) xs)
AllSame-cut_at q x [] same = tt
AllSame-cut_at q x (y ∷ ys) (s, same) = ((s.0, refl), AllSame-cut_at q x ys same)

styles_of-piece : (p q : ℕ) (xs : List StyleRange) → styles_of (map (piece p q) xs) ≡ styles_of xs
styles_of-piece p q [] = refl
styles_of-piece p q (x ∷ xs) = ap (x.style ∷◌) (styles_of-piece p q xs)

styles_of-cut_at : (q : ℕ) (xs : List StyleRange) → styles_of (map (cut_at q) xs) ≡ styles_of xs
styles_of-cut_at q [] = refl
styles_of-cut_at q (x ∷ xs) = ap (x.style ∷◌) (styles_of-cut_at q xs)

-- The three kinds of runs in front of a list.
module _ (i : ℕ) (x : StyleRange) (run tail : List StyleRange) where
  pub covers-run :
      AllSame x run
      → covers i (x ∷ (run ++ tail)) ≡ on_between i x.so x.eo (styles_of (x ∷ run)) ++ covers i tail
  covers-run same =
      covers-append i (x ∷ run) tail
      ∙ ap (◌++ covers i tail) (covers-same i x (x ∷ run) ((refl, refl), same))

  pub covers-cut :
      (q : ℕ)
      → AllSame x run
      → covers i (map (cut_at q) (x ∷ run) ++ tail)
        ≡ on_between i x.so q (styles_of (x ∷ run)) ++ covers i tail
  covers-cut q same =
      covers-append i (map (cut_at q) (x ∷ run)) tail
      ∙ ap (◌++ covers i tail) (
          covers-same i (cut_at q x) (map (cut_at q) (x ∷ run))
            ((refl, refl), AllSame-cut_at q x run same)
          ∙ ap (on_between i x.so q) (styles_of-cut_at q (x ∷ run)))

  pub covers-piece :
      (p q : ℕ)
      → covers i (map (piece p q) (x ∷ run) ++ tail)
        ≡ on_between i p q (styles_of (x ∷ run)) ++ covers i tail
  covers-piece p q =
      covers-append i (map (piece p q) (x ∷ run)) tail
      ∙ ap (◌++ covers i tail) (
          covers-same i (piece p q x) (map (piece p q) (x ∷ run))
            ((refl, refl), AllSame-piece p q x run)
          ∙ ap (on_between i p q) (styles_of-piece p q (x ∷ run)))

-- A run in order in front of a list in order.
After-Same : (x y : StyleRange) (xs : List StyleRange) → Same y x → After x xs → After y xs
After-Same x y [] s a = tt
After-Same x y (z ∷ zs) s (f, a) = (ground arith, a)

AllSame-Same : (x y : StyleRange) (xs : List StyleRange) → Same y x → AllSame x xs → AllSame y xs
AllSame-Same x y [] s same = tt
AllSame-Same x y (z ∷ zs) s (h, same) = (omega arith, AllSame-Same x y zs s same)

pub After-run :
    (p x : StyleRange) (run tail : List StyleRange)
    → Follows p x
    → AllSame x run
    → After x tail
    → After p (x ∷ (run ++ tail))
After-run p x [] tail f same a = (f, a)
After-run p x (y ∷ run) tail f (s, same) a = (
  f,
  After-run x y run tail (ground arith) (AllSame-Same x y run s same) (After-Same x y tail s a),
)
