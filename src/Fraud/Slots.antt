-- ===== src/Fraud/Slots.antt =====
-- The buckets of compact_filter.go: what a write to a slot does to what they hold.
use payment_risk_engine.Prelude.{
  ℕ, zero, suc, ◌<◌, ◌≡◌, refl, ◌⊎◌, inl, inr, arith, true, false, List, [], ◌∷◌, some,
  Option-cases, Bool-cases, eqb, length,
}
use payment_risk_engine.Fraud.Filter.{Bucket, get_elem?, set, fill, has}

module _ {ℓ} {A : Type ℓ} where
  pub set_self :
      (xs : List A) (n : ℕ) (x y : A) → get_elem? xs n ≡ some x → get_elem? (set xs n y) n ≡ some y
  set_self [] n x y h = cc
  set_self (a ∷ xs) zero x y h = refl
  set_self (a ∷ xs) (suc n) x y h = set_self xs n x y h

  pub set_other :
      (xs : List A) (n m : ℕ) (y : A) → eqb n m ≡ false → get_elem? (set xs n y) m ≡ get_elem? xs m
  set_other [] n m y h = refl
  set_other (a ∷ xs) zero zero y h = ground (arith, h)
  set_other (a ∷ xs) zero (suc m) y h = refl
  set_other (a ∷ xs) (suc n) zero y h = refl
  set_other (a ∷ xs) (suc n) (suc m) y h = set_other xs n m y (ground (arith, h))

  pub length-set : (xs : List A) (n : ℕ) (y : A) → length (set xs n y) ≡ length xs
  length-set [] n y = refl
  length-set (a ∷ xs) zero y = refl
  length-set (a ∷ xs) (suc n) y = omega (arith, length-set xs n y)

  pub get_elem?_lt : (xs : List A) (n : ℕ) → n < length xs → (x : A) × (get_elem? xs n ≡ some x)
  get_elem?_lt [] n h = absurd (omega (arith, h))
  get_elem?_lt (a ∷ xs) zero h = (a, refl)
  get_elem?_lt (a ∷ xs) (suc n) h = get_elem?_lt xs n (omega (arith, h))

-- A fingerprint that is written is held.
pub has-set : (b : Bucket) (n g v : ℕ) → get_elem? b n ≡ some v → has (set b n g) g ≡ true
has-set [] n g v h = cc
has-set (s ∷ b) zero g v h = ground arith
has-set (s ∷ b) (suc n) g v h = ground (arith, has-set b n g v h)

-- One that was held still is, or it was in the slot.
pub has-set_other :
    (b : Bucket) (n f g v : ℕ)
    → get_elem? b n ≡ some v
    → has b g ≡ true
    → (has (set b n f) g ≡ true) ⊎ (g ≡ v)
has-set_other [] n f g v h held = cc
has-set_other (s ∷ b) zero f g v h held = ground (arith, h, held)
has-set_other (s ∷ b) (suc n) f g v h held = elim (Bool-cases (has b g)) [
  | inl deeper ↦ ground (arith, held, has-set_other b n f g v h deeper)
  | inr here ↦ inl (ground (arith, held, here))
]

pub has-fill : (b b' : Bucket) (g : ℕ) → fill b g ≡ some b' → has b' g ≡ true
unfolding fill
has-fill [] b' g h = cc
has-fill (s ∷ b) [] g h = elim (Option-cases (fill b g)) [
  | inl full ↦ absurd (ground (arith, h, full))
  | inr (more, free) ↦ absurd (ground (arith, h, free))
]
has-fill (s ∷ b) (t ∷ b') g h = elim (Option-cases (fill b g)) [
  | inl full ↦ ground (arith, h, full)
  | inr (more, free) ↦ ground (arith, h, free, has-fill b more g free)
]

-- A filled bucket holds what it held; 0 is no fingerprint.
pub has-fill_other :
    (b b' : Bucket) (f g : ℕ)
    → fill b f ≡ some b'
    → eqb g 0 ≡ false
    → has b g ≡ true
    → has b' g ≡ true
unfolding fill
has-fill_other [] b' f g h nonzero held = cc
has-fill_other (s ∷ b) [] f g h nonzero held = elim (Option-cases (fill b f)) [
  | inl full ↦ absurd (ground (arith, h, full))
  | inr (more, free) ↦ absurd (ground (arith, h, free))
]
has-fill_other (s ∷ b) (t ∷ b') f g h nonzero held = elim (Option-cases (fill b f)) [
  | inl full ↦ ground (arith, h, full, held, nonzero)
  | inr (more, free) ↦
      ground (arith, h, free, held, nonzero, has-fill_other b more f g free nonzero)
]
