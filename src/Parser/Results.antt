-- ===== src/Parser/Results.antt =====
-- Steps that can end the program or lack rounds: chains of them, and what their results satisfy.
use regex_markup.Common.{
  ◌≡◌, refl, ap, ◌∙◌, List, ◌∷◌, Option, none, some, Bool, true, false, if◌then◌else◌,
}
use regex_markup.Execute.{Result, ok, died, out_of_fuel, ◌>>=◌}

-- A step of the parser, with what it leaves behind, and the same step of the meaning.
pub bind_step {ℓ κ μ ν} :
    {A : Type ℓ} {B : Type κ} {C : Type μ} {D : Type ν} (m : Result A) (k : A → B)
    (parsed : Result B) (f : B → Result D) (g : A → Result C) (h : C → Result D)
    → parsed ≡ (m >>= λ a. ok (k a))
    → ((a : A) → f (k a) ≡ (g a >>= h))
    → (parsed >>= f) ≡ (m >>= g >>= h)
bind_step m k parsed f g h e rest = ap (λ p. p >>= f) e ∙ step m
  where
    step : (m : Result _) → ((m >>= λ a. ok (k a)) >>= f) ≡ (m >>= g >>= h)
    step (ok a) = rest a
    step died = refl
    step out_of_fuel = refl

-- The same where nothing follows.
pub bind_last {ℓ κ μ} :
    {A : Type ℓ} {B : Type κ} {C : Type μ} (m : Result A) (k : A → B) (parsed : Result B)
    (f : B → Result C) (g : A → Result C)
    → parsed ≡ (m >>= λ a. ok (k a))
    → ((a : A) → f (k a) ≡ g a)
    → (parsed >>= f) ≡ (m >>= g)
bind_last m k parsed f g e rest = ap (λ p. p >>= f) e ∙ step m
  where
    step : (m : Result _) → ((m >>= λ a. ok (k a)) >>= f) ≡ (m >>= g)
    step (ok a) = rest a
    step died = refl
    step out_of_fuel = refl

pub bind_same {ℓ κ μ} :
    {A : Type ℓ} {C : Type κ} {D : Type μ} (m : Result A) (f : A → Result D) (g : A → Result C)
    (h : C → Result D)
    → ((a : A) → f a ≡ (g a >>= h))
    → (m >>= f) ≡ (m >>= g >>= h)
bind_same (ok a) f g h rest = rest a
bind_same died f g h rest = refl
bind_same out_of_fuel f g h rest = refl

-- A list of items, as one step for each part of it.
pub bind_list {ℓ κ} :
    {A : Type ℓ} {C : Type κ} (m : Result A) (n : Result (List A)) (g : List A → Result C)
    → (m >>= (λ a. n >>= λ as'. ok (a ∷ as')) >>= g) ≡ (m >>= λ a. n >>= λ as'. g (a ∷ as'))
bind_list (ok a) (ok as') g = refl
bind_list (ok a) died g = refl
bind_list (ok a) out_of_fuel g = refl
bind_list died n g = refl
bind_list out_of_fuel n g = refl

-- A step that leaves the script as it is.
pub bind_kept {ℓ κ μ} :
    {A : Type ℓ} {B : Type κ} {S : Type μ} (m : Result A) (b : B) (script : S)
    → (let with_b : A × S → Result (A × B × S) = λ (a, script'). ok (a, b, script') in
        let with_script : A → Result (A × S) = λ a. ok (a, script) in
        (m >>= λ a. with_b (a, script)) ≡ (m >>= with_script >>= with_b))
bind_kept (ok a) b script = refl
bind_kept died b script = refl
bind_kept out_of_fuel b script = refl

-- A result that is no lack of rounds, and that `P` holds of where it is one.
abbrev pub Ends {ℓ} : {A : Type ℓ} → (A → Type 0) → Result A → Type 0
Ends P (ok a) = P a
Ends P died = Unit {0}
Ends P out_of_fuel = ⊥

pub Ends-bind {ℓ κ} :
    {A : Type ℓ} {B : Type κ} (P : A → Type 0) (Q : B → Type 0) (m : Result A) (f : A → Result B)
    → Ends P m
    → ((a : A) → P a → Ends Q (f a))
    → Ends Q (m >>= f)
Ends-bind P Q (ok a) f h k = k a h
Ends-bind P Q died f h k = h
Ends-bind P Q out_of_fuel f h k = absurd h

abbrev pub Any {ℓ} : {A : Type ℓ} → A → Type 0
Any a = Unit {0}

pub Ends-cond {ℓ} :
    {A : Type ℓ} (P : A → Type 0) (b : Bool) (m other : Result A)
    → Ends P m
    → Ends P other
    → Ends P (elim b [ true ↦ m | false ↦ other ])
Ends-cond P true m other h k = h
Ends-cond P false m other h k = k

pub Ends-if {ℓ} :
    {A : Type ℓ} (P : A → Type 0) (b : Bool) (m other : Result A)
    → Ends P m
    → Ends P other
    → Ends P (if b then m else other)
Ends-if P true m other h k = h
Ends-if P false m other h k = k

pub Ends-option {ℓ κ} :
    {A : Type ℓ} {V : Type κ} (P : A → Type 0) (o : Option V) (m : Result A) (f : V → Result A)
    → Ends P m
    → ((v : V) → Ends P (f v))
    → Ends P (elim o [ none ↦ m | some v ↦ f v ])
Ends-option P none m f h k = h
Ends-option P (some v) m f h k = k v

pub Ends-weaken {ℓ} :
    {A : Type ℓ} (P Q : A → Type 0) (m : Result A) → Ends P m → ((a : A) → P a → Q a) → Ends Q m
Ends-weaken P Q (ok a) h k = k a h
Ends-weaken P Q died h k = h
Ends-weaken P Q out_of_fuel h k = absurd h
