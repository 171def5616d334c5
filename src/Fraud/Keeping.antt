-- ===== src/Fraud/Keeping.antt =====
-- A key that was inserted into the filter of compact_filter.go is found until an insertion fails.

use mathlib.Core.Path.{subst}
use payment_risk_engine.Prelude.{
  ℕ, ◌%◌, ◌/◌, ◌^◌, ◌≡◌, sym, ap, ◌∙◌, ◌⊎◌, inl, inr, arith, String, Bool, true, false, List, [],
  ◌∷◌, some, Option-cases, eqb, length, if◌then◌else◌, low, low-low,
}
use payment_risk_engine.Fraud.Filter.{
  Bucket, CompactFilter, hash64, fingerprint, masked, first_index, alternate, get_elem?, set,
  insert_into_bucket, counted, kick, insert_key,
}
use payment_risk_engine.Fraud.Slots.{length-set}
use payment_risk_engine.Fraud.Placing.{
  IsFilter, alternate_twice, alternate-index, masked-low, found, IsPlaced,
  insert_into_bucket-IsPlaced, insert_into_bucket_full,
}
use payment_risk_engine.Fraud.Displacing.{Covered, placed_found, swapped, swapped-Covered}

-- What a run that ends with a free slot does: every key that was found or in the hand is found.
record IsKept (bits i fp : ℕ) (cf cf' : CompactFilter) : Type 0 where
  every : (j g : ℕ) → eqb g 0 ≡ false → low bits j ≡ j → Covered j g i fp cf → found j g cf' ≡ true
  size : cf'.num_buckets ≡ cf.num_buckets
  len : length cf'.buckets ≡ length cf.buckets

placed-IsKept :
    (cf : CompactFilter) (f : IsFilter cf) (i fp : ℕ)
    → low f.bits i ≡ i
    → (cf' : CompactFilter) → IsPlaced i fp cf cf'
    → IsKept f.bits i fp cf (counted cf')
unfolding alternate masked
placed-IsKept cf f i fp index cf' p = record {
  every = λ j g nonzero first covered. placed_found cf f j g i fp index cf' p nonzero covered;
  size = p.same_size;
  len = p.same_length;
}

-- A run after a round, with the victim in the hand, is a run from before the round.
module _ (cf : CompactFilter) (f : IsFilter cf) (i fp slot v : ℕ) (index : low f.bits i ≡ i)
    (b : Bucket) (at : get_elem? cf.buckets i ≡ some b) (victim : get_elem? b slot ≡ some v) where
  IsKept-swapped :
      (cf' : CompactFilter)
      → IsKept f.bits (alternate cf i v) v (swapped cf f i fp slot v index b at victim) cf'
      → IsKept f.bits i fp cf cf'
  IsKept-swapped cf' k = record {
    every = λ j g nonzero first covered.
        k.every j g nonzero first
          (swapped-Covered cf f i fp slot v index b at victim j g first covered);
    size = k.size;
    len = k.len ∙ length-set cf.buckets i (set b slot fp);
  }

kick-IsKept :
    (slots : List ℕ) (i fp : ℕ) (cf cf' : CompactFilter) (f : IsFilter cf)
    → low f.bits i ≡ i
    → kick slots i fp cf ≡ some (true, cf')
    → IsKept f.bits i fp cf cf'
unfolding kick alternate masked
kick-IsKept [] i fp cf cf' f index ran = absurd (ground (arith, ran))
kick-IsKept (slot ∷ slots) i fp cf cf' f index ran = elim (Option-cases (get_elem? cf.buckets i)) [
  | inl out ↦ absurd (ground (arith, ran, out))
  | inr (b, at) ↦ elim (Option-cases (get_elem? b slot)) [
    | inl out ↦ absurd (ground (arith, ran, at, out))
    | inr (v, victim) ↦
        let next = alternate cf i v in
        let sw = swapped cf f i fp slot v index b at victim in
        let sf : IsFilter sw = record {
          bits = f.bits;
          small = f.small;
          sized = f.sized;
          whole = length-set cf.buckets i (set b slot fp) ∙ f.whole;
        } in
        let next_index = alternate-index cf f i v in
        elim (Option-cases (insert_into_bucket next v sw)) [
          | inl out ↦ absurd (ground (arith, ran, at, victim, out))
          | inr ((true, done), put) ↦
              let same : counted done ≡ cf' = ground (arith, ran, at, victim, put) in
              let k =
                placed-IsKept sw sf next v next_index done
                  (insert_into_bucket-IsPlaced next v sw done put) in
              subst (IsKept f.bits i fp cf) same
                (IsKept-swapped cf f i fp slot v index b at victim (counted done) k)
          | inr ((false, full), put) ↦
              let rest : kick slots next v sw ≡ some (true, cf') =
                ap (kick slots next v) (sym (insert_into_bucket_full next v sw full put))
                ∙ ground (arith, ran, at, victim, put) in
              let k = kick-IsKept slots next v sw cf' sf next_index rest in
              IsKept-swapped cf f i fp slot v index b at victim cf' k
        ]
  ]
]

-- The same for a key with its first bucket i.
pub record IsStored (bits i fp : ℕ) (cf cf' : CompactFilter) : Type 0 where
  pub every :
      (j g : ℕ)
      → eqb g 0 ≡ false
      → low bits j ≡ j
      → (found j g cf ≡ true) ⊎ ((g ≡ fp) × (j ≡ i))
      → found j g cf' ≡ true
  pub size : cf'.num_buckets ≡ cf.num_buckets
  pub len : length cf'.buckets ≡ length cf.buckets

module _ (cf cf' : CompactFilter) (f : IsFilter cf) (i fp : ℕ) where
  IsStored-first : IsKept f.bits i fp cf cf' → IsStored f.bits i fp cf cf'
  IsStored-first k = record {
    every = λ j g nonzero first o.
        k.every j g nonzero first
          (elim o [ inl old ↦ inl old | inr (same, here) ↦ inr (same, inl here) ]);
    size = k.size;
    len = k.len;
  }

  IsStored-second :
      low f.bits i ≡ i → IsKept f.bits (alternate cf i fp) fp cf cf' → IsStored f.bits i fp cf cf'
  IsStored-second index k = record {
    every = λ j g nonzero first o. k.every j g nonzero first (elim o [
      | inl old ↦ inl old
      | inr (same, here) ↦ inr (same, inr (here ∙ sym (alternate_twice cf f i fp index)))
    ]);
    size = k.size;
    len = k.len;
  }

kicked_stores :
    (coin : Bool) (slots : List ℕ) (cf cf' : CompactFilter) (f : IsFilter cf) (i fp : ℕ)
    → low f.bits i ≡ i
    → kick slots (if coin then alternate cf i fp else i) fp cf ≡ some (true, cf')
    → IsStored f.bits i fp cf cf'
kicked_stores true slots cf cf' f i fp index ran =
    IsStored-second cf cf' f i fp index
      (kick-IsKept slots (alternate cf i fp) fp cf cf' f (alternate-index cf f i fp) ran)
kicked_stores false slots cf cf' f i fp index ran =
    IsStored-first cf cf' f i fp (kick-IsKept slots i fp cf cf' f index ran)

pub first_index-index :
    (cf : CompactFilter) (f : IsFilter cf) (h : ℕ)
    → low f.bits (first_index cf h) ≡ first_index cf h
unfolding first_index
first_index-index cf f h =
    let x = h / 2 ^ 16 % 2 ^ 32 in
    ap (low f.bits) (masked-low cf f x) ∙ low-low f.bits x ∙ sym (masked-low cf f x)

pub insert_key-IsStored :
    (coin : Bool) (slots : List ℕ) (key : String) (cf cf' : CompactFilter) (f : IsFilter cf)
    → insert_key coin slots key cf ≡ some (true, cf')
    → IsStored f.bits (first_index cf (hash64 key)) (fingerprint (hash64 key)) cf cf'
unfolding insert_key
insert_key-IsStored coin slots key cf cf' f ran =
    let h = hash64 key in
    let fp = fingerprint h in
    let i1 = first_index cf h in
    let i2 = alternate cf i1 fp in
    let index = first_index-index cf f h in
    let index2 = alternate-index cf f i1 fp in
    elim (Option-cases (insert_into_bucket i1 fp cf)) [
      | inl out ↦ absurd (ground (arith, ran, out))
      | inr ((true, done), put) ↦
          let same : counted done ≡ cf' = ground (arith, ran, put) in
          subst (IsStored f.bits i1 fp cf) same (
            IsStored-first cf (counted done) f i1 fp
              (placed-IsKept cf f i1 fp index done (insert_into_bucket-IsPlaced i1 fp cf done put)))
      | inr ((false, full), put) ↦
          let full_is = insert_into_bucket_full i1 fp cf full put in
          elim (Option-cases (insert_into_bucket i2 fp full)) [
            | inl out ↦ absurd (ground (arith, ran, put, out))
            | inr ((true, done), put2) ↦
                let same : counted done ≡ cf' = ground (arith, ran, put, put2) in
                let there = ap (insert_into_bucket i2 fp) (sym full_is) ∙ put2 in
                subst (IsStored f.bits i1 fp cf) same (
                  IsStored-second cf (counted done) f i1 fp index (
                    placed-IsKept cf f i2 fp index2 done
                      (insert_into_bucket-IsPlaced i2 fp cf done there)))
            | inr ((false, fuller), put2) ↦
                let fuller_is = insert_into_bucket_full i2 fp full fuller put2 ∙ full_is in
                let kicked : kick slots (if coin then i2 else i1) fp cf ≡ some (true, cf') =
                  ap (kick slots (if coin then i2 else i1) fp) (sym fuller_is)
                  ∙ ground (arith, ran, put, put2) in
                kicked_stores coin slots cf cf' f i1 fp index kicked
          ]
    ]
