-- ===== src/Expand/Escaped.antt =====
-- Replacement strings that src/match.c, expand_substitution, expands to a given text.
use regex_markup.Common.{
  ℕ, zero, suc, ◌<◌, ◌≡◌, refl, sym, ap, ◌∙◌, List, [], ◌∷◌, ◌++◌, some, false, ◌||◌, ◌==◌,
  if◌then◌else◌, length, append_assoc, append-nil, Bool-cases, inl, inr, arith,
}
use regex_markup.Match.{Frame}
use regex_markup.Expand.{backslash, expand_loop, expand_substitution}

-- A backslash in front of every `$` and every backslash.
abbrev pub escape : List ℕ → List ℕ
escape [] = []
escape (c ∷ s) = if c == b'$' || c == backslash then backslash ∷ c ∷ escape s else c ∷ escape s

module _ (text : List ℕ) (outer : Frame) (subv : Frame) where
  plain_step :
      (f c : ℕ) (s out : List ℕ)
      → (c == b'$') ≡ false
      → (c == backslash) ≡ false
      → expand_loop text outer subv (suc f) false (c ∷ s) out
        ≡ expand_loop text outer subv f false s (out ++ (c ∷ []))
  unfolding expand_loop
  plain_step f c s out dollar slash = rw (dollar, slash, expand_loop) refl

  escaped_step :
      (f c : ℕ) (s out : List ℕ)
      → expand_loop text outer subv (suc (suc f)) false (backslash ∷ c ∷ s) out
        ≡ expand_loop text outer subv f false s (out ++ (c ∷ []))
  unfolding expand_loop
  escaped_step f c s out = refl

  one_more :
      (f c : ℕ) (s out : List ℕ)
      → length (escape (c ∷ s)) < suc (suc f)
      → (length (escape s) < f
          → expand_loop text outer subv f false (escape s) (out ++ (c ∷ []))
            ≡ some (out ++ (c ∷ s)))
      → (length (escape s) < suc f
          → expand_loop text outer subv (suc f) false (escape s) (out ++ (c ∷ []))
            ≡ some (out ++ (c ∷ s)))
      → expand_loop text outer subv (suc (suc f)) false (escape (c ∷ s)) out ≡ some (out ++ (c ∷ s))
  one_more f c s out h behind after = elim (Bool-cases (c == b'$')) [
    | inl dollar ↦ rw dollar (escaped_step f c (escape s) out ∙ behind (ground arith))
    | inr no_dollar ↦ elim (Bool-cases (c == backslash)) [
      | inl slash ↦ rw (no_dollar, slash) (escaped_step f c (escape s) out ∙ behind (ground arith))
      | inr no_slash ↦
          rw (no_dollar, no_slash)
            (plain_step (suc f) c (escape s) out no_dollar no_slash ∙ after (ground arith))
    ]
  ]

  expand_loop-escape :
      (f : ℕ) (s out : List ℕ)
      → length (escape s) < f
      → expand_loop text outer subv f false (escape s) out ≡ some (out ++ s)
  unfolding expand_loop
  expand_loop-escape zero s out h = absurd (omega arith)
  expand_loop-escape (suc f) [] out h = ap some (sym (append-nil out))
  expand_loop-escape (suc zero) (c ∷ s) out h = absurd (ground arith)
  expand_loop-escape (suc (suc f)) (c ∷ s) out h =
      let behind : length (escape s) < f
          → expand_loop text outer subv f false (escape s) (out ++ (c ∷ []))
            ≡ some (out ++ (c ∷ s)) =
        λ k. expand_loop-escape f s (out ++ (c ∷ [])) k ∙ ap some (append_assoc out (c ∷ []) s) in
      let after : length (escape s) < suc f
          → expand_loop text outer subv (suc f) false (escape s) (out ++ (c ∷ []))
            ≡ some (out ++ (c ∷ s)) =
        λ k.
          expand_loop-escape (suc f) s (out ++ (c ∷ [])) k
          ∙ ap some (append_assoc out (c ∷ []) s) in
      one_more f c s out h behind after

  -- Where every `$` and every backslash of a text is escaped by a backslash, the replacement string
  -- expands to the text, whatever was matched.
  pub expand_substitution-escape :
      (s : List ℕ) → expand_substitution text outer subv (escape s) ≡ some s
  unfolding expand_substitution
  expand_substitution-escape s = expand_loop-escape (suc (length (escape s))) s [] (omega arith)
