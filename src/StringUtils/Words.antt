-- ===== src/StringUtils/Words.antt =====
-- src/common/string-utils.c: word_get, against the words of a string.
use regex_markup.Common.{
  ℕ, zero, suc, ◌+◌, ◌-◌, ◌<◌, ◌≤◌, ◌≡◌, refl, sym, ap, ◌∙◌, List, [], ◌∷◌, ◌++◌, append_assoc,
  Option, none, some, Bool, true, false, ◌==◌, if◌then◌else◌, length, length-append, arith, add32,
  sub32, slt32, minus_one, i32, Bool-cases, inl, inr,
}
use regex_markup.StringUtils.{word_loop, word_get, substring}
use regex_markup.StringUtils.Parts.{substring-middle}

abbrev pub nth : List (List ℕ) → ℕ → Option (List ℕ)
nth [] i = none
nth (word ∷ words) zero = some word
nth (word ∷ words) (suc i) = nth words i

module _ (isspace : ℕ → Bool) where
  -- The words of a string, behind the start of one that has been read.
  abbrev pub words_from : List ℕ → List ℕ → List (List ℕ)
  words_from [] [] = []
  words_from (c ∷ word) [] = (c ∷ word) ∷ []
  words_from [] (ch ∷ str) = if isspace ch then words_from [] str else words_from (ch ∷ []) str
  words_from (c ∷ word) (ch ∷ str) =
      if isspace ch then (c ∷ word) ∷ words_from [] str else words_from (c ∷ word ++ (ch ∷ [])) str

  -- The longest parts without a space.
  abbrev pub words : List ℕ → List (List ℕ)
  words str = words_from [] str

  abbrev as_word : Option (List ℕ) → Option (Option (List ℕ))
  as_word none = none
  as_word (some word) = some (some word)

  module _ (str : List ℕ) (idx : ℕ) where
    loop_end :
        (in_word : Bool) (w start c : ℕ)
        → word_loop isspace str idx in_word w start c []
          ≡ (if sub32 w 1 == idx then as_word (substring str start c) else some none)
    unfolding word_loop
    loop_end in_word w start c = refl

    space_outside :
        (w start c ch : ℕ) (rest : List ℕ)
        → isspace ch ≡ true
        → word_loop isspace str idx false w start c (ch ∷ rest)
          ≡ word_loop isspace str idx false w start (add32 c 1) rest
    unfolding word_loop
    space_outside w start c ch rest space = rw space refl

    letter_outside :
        (w start c ch : ℕ) (rest : List ℕ)
        → isspace ch ≡ false
        → word_loop isspace str idx false w start c (ch ∷ rest)
          ≡ word_loop isspace str idx true (add32 w 1) c (add32 c 1) rest
    unfolding word_loop
    letter_outside w start c ch rest letter = rw letter refl

    space_inside :
        (w start c ch : ℕ) (rest : List ℕ)
        → isspace ch ≡ true
        → word_loop isspace str idx true w start c (ch ∷ rest) ≡ (
            if slt32 idx w
            then as_word (substring str start c)
            else word_loop isspace str idx false w start (add32 c 1) rest)
    unfolding word_loop
    space_inside w start c ch rest space = rw space refl

    letter_inside :
        (w start c ch : ℕ) (rest : List ℕ)
        → isspace ch ≡ false
        → word_loop isspace str idx true w start c (ch ∷ rest)
          ≡ word_loop isspace str idx true w start (add32 c 1) rest
    unfolding word_loop
    letter_inside w start c ch rest letter = rw letter refl

  module _ (str : List ℕ) (idx : ℕ) (small : length str < i32) (small_idx : idx + 1 < i32) where
    abbrev Outside : List ℕ → Type 0
    Outside rest =
        (before : List ℕ) (w start c : ℕ)
        → str ≡ before ++ rest
        → c ≡ length before
        → w ≤ idx
        → word_loop isspace str idx false w start c rest ≡ some (nth (words_from [] rest) (idx - w))

    abbrev Inside : List ℕ → Type 0
    Inside rest =
        (before : List ℕ) (x : ℕ) (word : List ℕ) (w c : ℕ)
        → str ≡ before ++ ((x ∷ word) ++ rest)
        → c ≡ length before + length (x ∷ word)
        → w ≤ idx
        → word_loop isspace str idx true (suc w) (length before) c rest
          ≡ some (nth (words_from (x ∷ word) rest) (idx - w))

    next_place :
        (before : List ℕ) (ch : ℕ) (rest : List ℕ) (c : ℕ)
        → str ≡ before ++ (ch ∷ rest)
        → c ≡ length before
        → add32 c 1 ≡ c + 1
    next_place before ch rest c e at =
        let size : length str ≡ length before + suc (length rest) =
          ap length e ∙ length-append before (ch ∷ rest) in
        omega (arith, size, at, small)

    behind :
        (before : List ℕ) (ch : ℕ) (rest : List ℕ)
        → str ≡ before ++ (ch ∷ rest)
        → str ≡ (before ++ (ch ∷ [])) ++ rest
    behind before ch rest e = e ∙ sym (append_assoc before (ch ∷ []) rest)

    this_word :
        (before word rest : List ℕ) (c : ℕ)
        → str ≡ before ++ (word ++ rest)
        → c ≡ length before + length word
        → as_word (substring str (length before) c) ≡ some (some word)
    this_word before word rest c e at =
        ap (λ c. as_word (substring str (length before) c)) at
        ∙ ap as_word (substring-middle str before word rest e small)

    first_word :
        (x : ℕ) (word : List ℕ) (others : List (List ℕ)) (w : ℕ)
        → idx ≡ w
        → nth ((x ∷ word) ∷ others) (idx - w) ≡ some (x ∷ word)
    first_word x word others w e = let here : idx - w ≡ 0 = omega (arith, e) in rw here refl

    later_word :
        (word : List ℕ) (others : List (List ℕ)) (w : ℕ)
        → w < idx
        → nth (word ∷ others) (idx - w) ≡ nth others (idx - suc w)
    later_word word others w lt =
        let later : idx - w ≡ suc (idx - suc w) = omega (arith, lt) in rw later refl

    word_loop-words : (rest : List ℕ) → Outside rest × Inside rest
    word_loop-words [] = (
      λ before w start c e at le.
          let none_left : (sub32 w 1 == idx) ≡ false = ground (arith, le, small_idx) in
          loop_end str idx false w start c ∙ rw none_left refl,
      λ before x word w c e at le.
          let counted : sub32 (suc w) 1 ≡ w = omega (arith, le, small_idx) in
          loop_end str idx true (suc w) (length before) c
          ∙ rw counted (elim (Bool-cases (w == idx)) [
            | inl last ↦ rw last (
                this_word before (x ∷ word) [] c e at
                ∙ ap some (sym (first_word x word [] w (ground (arith, last)))))
            | inr more ↦
                rw more (ap some (sym (later_word (x ∷ word) [] w (ground (arith, more, le)))))
          ]),
    )
    word_loop-words (ch ∷ rest) =
        let (outside, inside) = word_loop-words rest in
        elim (Bool-cases (isspace ch)) [
          | inl space ↦ (
            λ before w start c e at le.
                space_outside str idx w start c ch rest space
                ∙ ap (λ c. word_loop isspace str idx false w start c rest)
                    (next_place before ch rest c e at)
                ∙ outside (before ++ (ch ∷ [])) w start (c + 1) (behind before ch rest e)
                    (omega (arith, at, length-append before (ch ∷ []))) le
                ∙ rw space refl,
            λ before x word w c e at le.
                let front : List ℕ = before ++ (x ∷ word) in
                let e' : str ≡ front ++ (ch ∷ rest) =
                  e ∙ sym (append_assoc before (x ∷ word) (ch ∷ rest)) in
                let at' : c ≡ length front = at ∙ sym (length-append before (x ∷ word)) in
                space_inside str idx (suc w) (length before) c ch rest space
                ∙ rw space (elim (Bool-cases (w == idx)) [
                  | inl last ↦
                      let returned : slt32 idx (suc w) ≡ true = ground (arith, last, small_idx) in
                      rw returned (
                        this_word before (x ∷ word) (ch ∷ rest) c e at
                        ∙ ap some (sym (first_word x word _ w (ground (arith, last)))))
                  | inr more ↦
                      let passed : slt32 idx (suc w) ≡ false =
                        ground (arith, more, le, small_idx) in
                      rw passed (
                        ap (λ c. word_loop isspace str idx false (suc w) (length before) c rest)
                          (next_place front ch rest c e' at')
                        ∙ outside (front ++ (ch ∷ [])) (suc w) (length before) (c + 1)
                            (behind front ch rest e')
                            (omega (arith, at', length-append front (ch ∷ [])))
                            (ground (arith, more, le))
                        ∙ ap some (sym (later_word (x ∷ word) _ w (ground (arith, more, le)))))
                ]),
          )
          | inr letter ↦ (
            λ before w start c e at le.
                letter_outside str idx w start c ch rest letter
                ∙ ap (λ k. word_loop isspace str idx true k c (add32 c 1) rest)
                    (omega (arith, le, small_idx))
                ∙ ap (λ s. word_loop isspace str idx true (suc w) s (add32 c 1) rest) at
                ∙ ap (λ c. word_loop isspace str idx true (suc w) (length before) c rest)
                    (next_place before ch rest c e at)
                ∙ inside before ch [] w (c + 1) e (omega (arith, at)) le
                ∙ rw letter refl,
            λ before x word w c e at le.
                let front : List ℕ = before ++ (x ∷ word) in
                let e' : str ≡ front ++ (ch ∷ rest) =
                  e ∙ sym (append_assoc before (x ∷ word) (ch ∷ rest)) in
                letter_inside str idx (suc w) (length before) c ch rest letter
                ∙ ap (λ c. word_loop isspace str idx true (suc w) (length before) c rest)
                    (next_place front ch rest c e' (at ∙ sym (length-append before (x ∷ word))))
                ∙ inside before x (word ++ (ch ∷ [])) w (c + 1)
                    (e ∙ ap (λ zs. before ++ (x ∷ zs)) (sym (append_assoc word (ch ∷ []) rest)))
                    (omega (arith, at, length-append word (ch ∷ []))) le
                ∙ rw letter refl,
          )
        ]

  -- word_get returns the word with the index, counted from 0, and NULL where the string has not so
  -- many; it never reads outside the string. The string has less than 2 ^ 31 characters, and the
  -- index is not negative and below 2 ^ 31 - 1.
  pub word_get-nth :
      (str : List ℕ) (idx : ℕ)
      → length str < i32
      → idx + 1 < i32
      → word_get isspace str idx ≡ some (nth (words str) idx)
  unfolding word_get
  word_get-nth str idx small small_idx =
      (word_loop-words str idx small small_idx str).0 [] 0 minus_one 0 refl refl (omega arith)
      ∙ ap (λ i. some (nth (words str) i)) (omega arith)
