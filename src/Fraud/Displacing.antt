-- ===== src/Fraud/Displacing.antt =====
-- One round of the displacement of compact_filter.go: no fingerprint is lost but the one in the hand.
use Prim.Native.Nat.{bit_and, bit_xor}
use payment_risk_engine.Prelude.{
  ℕ, ◌+◌, ◌-◌, ◌%◌, ◌^◌, ◌≡◌, refl, sym, ap, ◌∙◌, ◌⊎◌, inl, inr, arith, true, false, some,
  Bool-cases, eqb, low,
}
use payment_risk_engine.Fraud.Filter.{
  Bucket, CompactFilter, hash_fingerprint, masked, alternate, get_elem?, set, has,
}
use payment_risk_engine.Fraud.Slots.{set_self, set_other, has-set, has-set_other}
use payment_risk_engine.Fraud.Placing.{IsFilter, alternate_twice, holds, found, IsPlaced}

-- A fingerprint of the key with the first index j is in the filter, or in the hand for bucket i.
abbrev pub Covered : ℕ → ℕ → ℕ → ℕ → CompactFilter → Type 0
Covered j g i fp cf = (found j g cf ≡ true) ⊎ ((g ≡ fp) × ((j ≡ i) ⊎ (j ≡ alternate cf i fp)))

pub alternate_same :
    (cf cf' : CompactFilter) (i g : ℕ)
    → cf'.num_buckets ≡ cf.num_buckets
    → alternate cf' i g ≡ alternate cf i g
unfolding alternate masked
alternate_same cf cf' i g size =
    ap (λ n. bit_and (bit_xor i (hash_fingerprint g)) ((n + (2 ^ 32 - 1)) % 2 ^ 32)) size

moved :
    (cf : CompactFilter) (a b x y : ℕ) → a ≡ b → x ≡ y → holds b y cf ≡ true → holds a x cf ≡ true
moved cf a b x y e e' held = ap (λ n. holds n x cf) e ∙ ap (λ z. holds b z cf) e' ∙ held

pub found_first : (cf : CompactFilter) (j g : ℕ) → holds j g cf ≡ true → found j g cf ≡ true
found_first cf j g held = ground (arith, held)

found_second :
    (cf : CompactFilter) (j g : ℕ) → holds (alternate cf j g) g cf ≡ true → found j g cf ≡ true
found_second cf j g held = ground (arith, held)

module _ (cf : CompactFilter) (f : IsFilter cf) (j g i fp : ℕ) (index : low f.bits i ≡ i) where
  -- One of the key's two buckets is the one that the hand was put in.
  hand_found :
      (cf' : CompactFilter)
      → cf'.num_buckets ≡ cf.num_buckets
      → holds i fp cf' ≡ true
      → (g ≡ fp) × ((j ≡ i) ⊎ (j ≡ alternate cf i fp))
      → found j g cf' ≡ true
  hand_found cf' size held (same, inl here) =
      found_first cf' j g (moved cf' j i g fp here same held)
  hand_found cf' size held (same, inr there) =
      let back : alternate cf' j g ≡ i =
        alternate_same cf cf' j g size
        ∙ ap (λ n. alternate cf n g) there
        ∙ ap (alternate cf (alternate cf i fp)) same
        ∙ alternate_twice cf f i fp index in
      found_second cf' j g (moved cf' (alternate cf' j g) i g fp back same held)

  pub placed_found :
      (cf' : CompactFilter)
      → IsPlaced i fp cf cf'
      → eqb g 0 ≡ false
      → Covered j g i fp cf
      → found j g cf' ≡ true
  placed_found cf' p nonzero (inr hand) = hand_found cf' p.same_size p.placed hand
  placed_found cf' p nonzero (inl old) = ground (
    arith,
    old,
    p.kept j g nonzero,
    p.kept (alternate cf j g) g nonzero,
    found_first cf' j g,
    found_second cf' j g,
    ap (λ n. holds n g cf') (alternate_same cf cf' j g p.same_size),
  )

-- A round of the displacement: the hand's fingerprint goes in, and a victim comes out.
module _ (cf : CompactFilter) (f : IsFilter cf) (i fp slot v : ℕ) (index : low f.bits i ≡ i)
    (b : Bucket) (at : get_elem? cf.buckets i ≡ some b) (victim : get_elem? b slot ≡ some v) where
  abbrev pub swapped : CompactFilter
  swapped = record cf { buckets = set cf.buckets i (set b slot fp) }

  swapped-holds : holds i fp swapped ≡ true
  swapped-holds =
      ground (arith, set_self cf.buckets i b (set b slot fp) at, has-set b slot fp v victim)

  swapped_keeps : (m g : ℕ) → holds m g cf ≡ true → (holds m g swapped ≡ true) ⊎ ((m ≡ i) × (g ≡ v))
  swapped_keeps m g held = elim (Bool-cases (eqb i m)) [
    | inr other ↦ inl (ground (arith, held, set_other cf.buckets i m (set b slot fp) other))
    | inl same ↦
        let m_is : m ≡ i = ground (arith, same) in
        let here : holds i g cf ≡ true = moved cf i m g g (sym m_is) refl held in
        let inside : has b g ≡ true = ground (arith, here, at) in
        elim (has-set_other b slot fp g v victim inside) [
          | inr out ↦ inr (m_is, out)
          | inl still ↦
              let there : holds i g swapped ≡ true =
                ground (arith, still, set_self cf.buckets i b (set b slot fp) at) in
              inl (moved swapped m i g g m_is refl there)
        ]
  ]

  pub swapped-Covered :
      (j g : ℕ) → low f.bits j ≡ j → Covered j g i fp cf → Covered j g (alternate cf i v) v swapped
  swapped-Covered j g first (inr hand) =
      inl (hand_found cf f j g i fp index swapped refl swapped-holds hand)
  swapped-Covered j g first (inl old) = elim (Bool-cases (holds j g cf)) [
    | inl at_first ↦ elim (swapped_keeps j g at_first) [
      | inl still ↦ inl (found_first swapped j g still)
      | inr (here, out) ↦ inr (
        out,
        inr (
            here
            ∙ sym (
                alternate_same cf swapped (alternate cf i v) v refl
                ∙ alternate_twice cf f i v index)),
      )
    ]
    | inr not_first ↦
        let at_second : holds (alternate cf j g) g cf ≡ true = ground (arith, old, not_first) in
        elim (swapped_keeps (alternate cf j g) g at_second) [
          | inl still ↦ inl (
              found_second swapped j g (
                moved swapped (alternate swapped j g) (alternate cf j g) g g
                  (alternate_same cf swapped j g refl) refl still))
          | inr (here, out) ↦ inr (
            out,
            inl (
                sym (alternate_twice cf f j g first)
                ∙ ap (λ n. alternate cf n g) here
                ∙ ap (alternate cf i) out),
          )
        ]
  ]
