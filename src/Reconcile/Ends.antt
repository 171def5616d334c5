-- ===== src/Reconcile/Ends.antt =====
-- What holds of the result of a call of m2_conserving.go that may wait for a lock for ever.
use mathlib.Core.Path.{subst}
use payment_risk_engine.Prelude.{◌≡◌, refl, Bool, true, false, if◌then◌else◌, ◌⊎◌, inl, inr}
use payment_risk_engine.Ledger.{Call, blocked, returned, and_then}

-- What holds of a call's result if it returns.
abbrev pub Ends {ℓ} : {A : Type 0} → Call A → (A → Type ℓ) → Type ℓ
Ends blocked P = Unit
Ends (returned a) P = P a

pub Ends-result {ℓ} :
    {A : Type 0} (P : A → Type ℓ) {c : Call A} {a : A} → c ≡ returned a → Ends c P → P a
Ends-result P e h = subst (λ d. Ends d P) e h

pub Ends-and_then :
    {A B : Type 0} (P : A → Type 0) (Q : B → Type 0) (c : Call A) (f : A → Call B)
    → Ends c P
    → ((a : A) → P a → Ends (f a) Q)
    → Ends (and_then c f) Q
Ends-and_then P Q blocked f h k = tt
Ends-and_then P Q (returned a) f h k = k a h

-- Where what comes after returns anyway.
pub Ends-returned :
    {A B : Type 0} (Q : B → Type 0) (c : Call A) (f : A → B)
    → ((a : A) → Q (f a))
    → Ends (and_then c (λ a. returned (f a))) Q
Ends-returned Q blocked f k = tt
Ends-returned Q (returned a) f k = k a

pub Ends-weaken :
    {A : Type 0} (P Q : A → Type 0) (c : Call A) → Ends c P → ((a : A) → P a → Q a) → Ends c Q
Ends-weaken P Q blocked h k = tt
Ends-weaken P Q (returned a) h k = k a h

pub Ends-if :
    {A : Type 0} (P : A → Type 0) (b : Bool) (c d : Call A)
    → Ends c P
    → Ends d P
    → Ends (if b then c else d) P
Ends-if P true c d h k = h
Ends-if P false c d h k = k

-- The call returns.
abbrev pub Returns : {A : Type 0} → Call A → Type 0
Returns blocked = ⊥
Returns (returned a) = Unit

pub Returns-result : {A : Type 0} (c : Call A) → Returns c → (a : A) × (c ≡ returned a)
Returns-result blocked h = absurd h
Returns-result (returned a) h = (a, refl)

pub Returns-and_then :
    {A B : Type 0} (P : A → Type 0) (c : Call A) (f : A → Call B)
    → Returns c
    → Ends c P
    → ((a : A) → P a → Returns (f a))
    → Returns (and_then c f)
Returns-and_then P blocked f h e k = absurd h
Returns-and_then P (returned a) f h e k = k a e

pub Returns-if :
    {A : Type 0} (b : Bool) (c d : Call A) → Returns c → Returns d → Returns (if b then c else d)
Returns-if true c d h k = h
Returns-if false c d h k = k

pub Returns-map :
    {A B : Type 0} (c : Call A) (f : A → B) → Returns c → Returns (and_then c (λ a. returned (f a)))
Returns-map blocked f h = absurd h
Returns-map (returned a) f h = tt

-- To split on how a call ends and keep the equation.
pub Call-cases : {A : Type 0} (c : Call A) → (c ≡ blocked) ⊎ (a : A) × (c ≡ returned a)
Call-cases blocked = inl refl
Call-cases (returned a) = inr (a, refl)
