-- ===== src/Cacheline.antt =====
-- src/cacheline.c: the newline of a line is written in front of the next one. The lines come from
-- getline; what is written is a list of characters.
use regex_markup.Common.{
  ℕ, zero, suc, ◌-◌, ◌≡◌, refl, sym, ap, ◌∙◌, List, [], ◌∷◌, ◌++◌, append_assoc, append-nil, Bool,
  true, false, ◌==◌, ltb, if◌then◌else◌, length, get_or, take, arith, Bool-cases, inl, inr, ==_iff,
}

abbrev pub newline : List ℕ
newline = b'\n' ∷ []

-- A round of the loop: what is written, and `keep`.
unfoldable pub put_line : (keep : Bool) → List ℕ → List ℕ × Bool
put_line keep buf =
    let linelen = length buf in
    let ends = get_or buf (linelen - 1) 0 == b'\n' in
    let front = if keep then newline else [] in
    if ltb 0 linelen
    then (if ends then (front ++ take (linelen - 1) buf, true) else (front ++ buf, false))
    else ([], keep)

unfoldable pub put_lines : (keep : Bool) → List (List ℕ) → List ℕ × Bool
unfolding put_line
put_lines keep [] = ([], keep)
put_lines keep (buf ∷ lines) =
    let (out, keep') = put_line keep buf in
    let (outs, keep'') = put_lines keep' lines in (out ++ outs, keep'')

abbrev pub joined : List (List ℕ) → List ℕ
joined [] = []
joined (line ∷ lines) = line ++ joined lines

-- A newline that is held back.
abbrev pub held : Bool → List ℕ
held true = newline
held false = []

last_newline :
    (n : ℕ) (buf : List ℕ)
    → length buf ≡ suc n
    → (get_or buf n 0 == b'\n') ≡ true
    → take n buf ++ newline ≡ buf
last_newline n [] size ends = absurd (omega arith)
last_newline zero (c ∷ []) size ends = ap (◌∷ []) (sym ((==_iff c b'\n').0 ends))
last_newline zero (c ∷ d ∷ buf) size ends = absurd (omega arith)
last_newline (suc n) (c ∷ buf) size ends = ap (c ∷◌) (last_newline n buf (omega arith) ends)

front_held : (keep : Bool) → (if keep then newline else []) ≡ held keep
front_held true = refl
front_held false = refl

-- A round writes the line, behind the newline that was held back, less the one that is now.
put_line-held :
    (keep : Bool) (buf : List ℕ)
    → (put_line keep buf).0 ++ held (put_line keep buf).1 ≡ held keep ++ buf
unfolding put_line
put_line-held keep [] = sym (append-nil (held keep))
put_line-held keep (c ∷ cs) =
    let buf : List ℕ = c ∷ cs in
    let some_text : ltb 0 (length buf) ≡ true = ground arith in
    elim (Bool-cases (get_or buf (length buf - 1) 0 == b'\n')) [
      | inl ends ↦
          rw (some_text, ends)
            (append_assoc (if keep then newline else []) (take (length buf - 1) buf) newline
              ∙ ap ((if keep then newline else []) ++◌)
                  (last_newline (length buf - 1) buf (omega arith) ends)
              ∙ ap (◌++ buf) (front_held keep))
      | inr unended ↦ rw (some_text, unended) (append-nil _ ∙ ap (◌++ buf) (front_held keep))
    ]

-- The last character is a newline.
abbrev pub ends_newline : List ℕ → Bool
ends_newline [] = false
ends_newline (c ∷ []) = c == b'\n'
ends_newline (c ∷ d ∷ s) = ends_newline (d ∷ s)

ends_newline-get_or :
    (c : ℕ) (s : List ℕ) → ends_newline (c ∷ s) ≡ (get_or (c ∷ s) (length s) 0 == b'\n')
ends_newline-get_or c [] = refl
ends_newline-get_or c (d ∷ s) = ends_newline-get_or d s

ends_newline-append :
    (xs : List ℕ) (c : ℕ) (s : List ℕ) → ends_newline (xs ++ (c ∷ s)) ≡ ends_newline (c ∷ s)
ends_newline-append [] c s = refl
ends_newline-append (x ∷ []) c s = refl
ends_newline-append (x ∷ y ∷ xs) c s = ends_newline-append (y ∷ xs) c s

ends_newline-held : (keep : Bool) → ends_newline (held keep ++ []) ≡ keep
ends_newline-held true = refl
ends_newline-held false = refl

-- What is held back tells of the text in front as much as that text does.
ends_newline-behind :
    (xs ys : List ℕ) → ends_newline (held (ends_newline xs) ++ ys) ≡ ends_newline (xs ++ ys)
ends_newline-behind xs [] =
    ends_newline-held (ends_newline xs) ∙ ap ends_newline (sym (append-nil xs))
ends_newline-behind xs (c ∷ s) =
    ends_newline-append (held (ends_newline xs)) c s ∙ sym (ends_newline-append xs c s)

-- A round holds a newline back if and only if the text ends with one.
put_line-ends_newline :
    (keep : Bool) (buf : List ℕ) → (put_line keep buf).1 ≡ ends_newline (held keep ++ buf)
unfolding put_line
put_line-ends_newline keep [] = sym (ends_newline-held keep)
put_line-ends_newline keep (c ∷ cs) =
    let some_text : ltb 0 (length (c ∷ cs)) ≡ true = ground arith in
    let size : length (c ∷ cs) - 1 ≡ length cs = omega arith in
    let here : ends_newline (held keep ++ (c ∷ cs)) ≡ (get_or (c ∷ cs) (length cs) 0 == b'\n') =
      ends_newline-append (held keep) c cs ∙ ends_newline-get_or c cs in
    elim (Bool-cases (get_or (c ∷ cs) (length cs) 0 == b'\n')) [
      | inl ends ↦ rw (some_text, size, ends) (sym (here ∙ ends))
      | inr unended ↦ rw (some_text, size, unended) (sym (here ∙ unended))
    ]

put_lines-ends_newline :
    (keep : Bool) (lines : List (List ℕ))
    → (put_lines keep lines).1 ≡ ends_newline (held keep ++ joined lines)
unfolding put_lines
put_lines-ends_newline keep [] = sym (ends_newline-held keep)
put_lines-ends_newline keep (buf ∷ lines) =
    put_lines-ends_newline (put_line keep buf).1 lines
    ∙ ap (λ b. ends_newline (held b ++ joined lines)) (put_line-ends_newline keep buf)
    ∙ ends_newline-behind (held keep ++ buf) (joined lines)
    ∙ ap ends_newline (append_assoc (held keep) buf (joined lines))

put_lines-all :
    (keep : Bool) (lines : List (List ℕ))
    → (put_lines keep lines).0 ++ held (put_lines keep lines).1 ≡ held keep ++ joined lines
unfolding put_lines
put_lines-all keep [] = sym (append-nil (held keep))
put_lines-all keep (buf ∷ lines) =
    let out : List ℕ = (put_line keep buf).0 in
    let keep' : Bool = (put_line keep buf).1 in
    append_assoc out (put_lines keep' lines).0 (held (put_lines keep' lines).1)
    ∙ ap (out ++◌) (put_lines-all keep' lines)
    ∙ sym (append_assoc out (held keep') (joined lines))
    ∙ ap (◌++ joined lines) (put_line-held keep buf)
    ∙ append_assoc (held keep) buf (joined lines)

-- cacheline writes the lines as they are, behind a newline that was held back before, less the
-- newline that is held back now: one is if and only if what was read ends with a newline.
pub put_lines-joined :
    (keep : Bool) (lines : List (List ℕ))
    → ((put_lines keep lines).0 ++ held (put_lines keep lines).1 ≡ held keep ++ joined lines)
      × ((put_lines keep lines).1 ≡ ends_newline (held keep ++ joined lines))
put_lines-joined keep lines = (put_lines-all keep lines, put_lines-ends_newline keep lines)
