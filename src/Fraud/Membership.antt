-- ===== src/Fraud/Membership.antt =====
-- `Contains` of compact_filter.go after `Insert` and `NewCompactFilter`.
use Prim.Native.Nat.{bit_and}
use native.Mathlib.Nat.{pow-le-pow_right, pow-suc}
use mathlib.Core.Option.{some-injective}
use payment_risk_engine.Prelude.{
  ltb, ◌*◌, ℕ, zero, suc, ◌+◌, ◌-◌, ◌%◌, ◌/◌, ◌^◌, ◌<◌, ◌≤◌, ◌≡◌, refl, sym, ap, ◌∙◌, ◌⊎◌, inl, inr,
  arith, String, Bool, true, false, List, some, Bool-cases, eqb, length, if◌then◌else◌, low, low_lt,
}
use payment_risk_engine.Fraud.Filter.{
  Bucket, CompactFilter, hash64, fingerprint, masked, first_index, alternate, insert_key, has,
  contains,
}
use payment_risk_engine.Fraud.Slots.{get_elem?_lt}
use payment_risk_engine.Fraud.Placing.{IsFilter, alternate-index, bucket_at, found}
use payment_risk_engine.Fraud.Filter.{grow, new_compact_filter, replicate, empty_bucket}
use payment_risk_engine.Fraud.Keeping.{IsStored, first_index-index, insert_key-IsStored}

module _ (cf : CompactFilter) (f : IsFilter cf) where
  pub index_in_range : (i : ℕ) → low f.bits i ≡ i → i < length cf.buckets
  index_in_range i index = omega (arith, low_lt f.bits i, index, f.sized, f.whole)

  contains-found :
      (key : String)
      → contains key cf ≡ some (found (first_index cf (hash64 key)) (fingerprint (hash64 key)) cf)
  unfolding contains
  contains-found key =
      let h = hash64 key in
      let fp = fingerprint h in
      let i1 = first_index cf h in
      let i2 = alternate cf i1 fp in
      let (b1, at1) = get_elem?_lt cf.buckets i1 (index_in_range i1 (first_index-index cf f h)) in
      let (b2, at2) = get_elem?_lt cf.buckets i2 (index_in_range i2 (alternate-index cf f i1 fp)) in
      ground (arith, at1, at2)

fingerprint_nonzero : (h : ℕ) → eqb (fingerprint h) 0 ≡ false
unfolding fingerprint
fingerprint_nonzero h = ground arith

first_index_same :
    (cf cf' : CompactFilter) (h : ℕ)
    → cf'.num_buckets ≡ cf.num_buckets
    → first_index cf' h ≡ first_index cf h
unfolding first_index masked
first_index_same cf cf' h size =
    ap (λ n. bit_and (h / 2 ^ 16 % 2 ^ 32) ((n + (2 ^ 32 - 1)) % 2 ^ 32)) size

stored-IsFilter :
    {i fp : ℕ} (cf cf' : CompactFilter) (f : IsFilter cf)
    → IsStored f.bits i fp cf cf'
    → IsFilter cf'
stored-IsFilter cf cf' f s = record {
  bits = f.bits;
  small = f.small;
  sized = s.size ∙ f.sized;
  whole = s.len ∙ f.whole ∙ sym s.size;
}

-- After an insertion that succeeds, the key is found, every key that was found before it still is,
-- and the filter is one for which this holds again, whatever the draws: no false negative.
pub insert_key-contains :
    (coin : Bool) (slots : List ℕ) (key : String) (cf cf' : CompactFilter)
    → IsFilter cf
    → insert_key coin slots key cf ≡ some (true, cf')
    → IsFilter cf'
      × (contains key cf' ≡ some true)
      × ((other : String) → contains other cf ≡ some true → contains other cf' ≡ some true)
insert_key-contains coin slots key cf cf' f ran =
    let s = insert_key-IsStored coin slots key cf cf' f ran in
    let f' = stored-IsFilter cf cf' f s in
    let kept : (k : String)
        → (found (first_index cf (hash64 k)) (fingerprint (hash64 k)) cf ≡ true)
          ⊎ ((fingerprint (hash64 k) ≡ fingerprint (hash64 key))
              × (first_index cf (hash64 k) ≡ first_index cf (hash64 key)))
        → contains k cf' ≡ some true =
      λ k o.
        contains-found cf' f' k
        ∙ ap (λ i. some (found i (fingerprint (hash64 k)) cf'))
            (first_index_same cf cf' (hash64 k) s.size)
        ∙ ap some (
            s.every (first_index cf (hash64 k)) (fingerprint (hash64 k))
              (fingerprint_nonzero (hash64 k)) (first_index-index cf f (hash64 k)) o) in
    (
      f',
      kept key (inr (refl, refl)),
      λ other before.
          kept other (inl (some-injective _ _ (sym (contains-found cf f other) ∙ before))),
    )

-- The loop that doubles reaches a power of two that is not too large.
grow_power :
    (fuel j target : ℕ)
    → target ≤ 2 ^ 30
    → j ≤ 30
    → 30 < fuel + j
    → (i : ℕ) × (i ≤ 30) × (grow fuel (2 ^ j) target ≡ 2 ^ i)
unfolding grow
grow_power zero j target t b e = absurd (omega arith)
grow_power (suc fuel) j target t b e = elim (Bool-cases (ltb (2 ^ j) target)) [
  | inr enough ↦ (j, b, ground (arith, enough))
  | inl more ↦
      let below : j < 30 = elim (Bool-cases (eqb j 30)) [
        | inr other ↦ ground (arith, other)
        | inl last ↦
            let j_is : j ≡ 30 = ground (arith, last) in
            let top : 2 ^ j ≡ 2 ^ 30 = ap (λ n. 2 ^ n) j_is in absurd (ground (arith, top, more, t))
      ] in
      let next : suc j ≤ 30 = omega (arith, below) in
      let bound : 2 ^ suc j ≤ 2 ^ 30 = pow-le-pow_right (omega arith) next in
      let doubled : 2 ^ j * 2 % 2 ^ 32 ≡ 2 ^ suc j = omega (arith, pow-suc 2 j, bound) in
      let (i, small, power) = grow_power fuel (suc j) target t (omega arith) (omega arith) in
      (i, small, ground (arith, more) ∙ ap (λ n. grow fuel n target) doubled ∙ power)
]

length-replicate : (n : ℕ) (b : Bucket) → length (replicate n b) ≡ n
length-replicate zero b = refl
length-replicate (suc n) b = omega (arith, length-replicate n b)

empty_holds_nothing :
    (n i g : ℕ) → eqb g 0 ≡ false → has (bucket_at i (replicate n empty_bucket)) g ≡ false
empty_holds_nothing zero i g nonzero = refl
empty_holds_nothing (suc n) zero g nonzero = ground (arith, nonzero)
empty_holds_nothing (suc n) (suc i) g nonzero = empty_holds_nothing n i g nonzero

pub new_compact_filter-IsFilter :
    (expected : ℕ) → expected ≤ 2 ^ 32 → IsFilter (new_compact_filter expected)
unfolding new_compact_filter
new_compact_filter-IsFilter expected bound =
    let capacity = if ltb expected 256 then 256 else expected in
    let fits : capacity ≤ 2 ^ 32 = ground (arith, bound) in
    let target = capacity / 4 % 2 ^ 32 in
    let (i, small, power) =
      grow_power 33 0 target (omega (arith, fits)) (omega arith) (omega arith) in
    let more : suc i ≤ 31 = omega (arith, small) in
    let top : 2 ^ suc i ≤ 2 ^ 31 = pow-le-pow_right (omega arith) more in
    record {
      bits = suc i;
      small = more;
      sized = omega (arith, power, pow-suc 2 i, top);
      whole = length-replicate (grow 33 1 target * 2 % 2 ^ 32) empty_bucket;
    }

-- A new filter for up to 2 ^ 32 keys is one, and finds no key.
pub new_compact_filter_finds_nothing :
    (expected : ℕ) (key : String)
    → expected ≤ 2 ^ 32
    → IsFilter (new_compact_filter expected)
      × (contains key (new_compact_filter expected) ≡ some false)
unfolding new_compact_filter
new_compact_filter_finds_nothing expected key bound =
    let f = new_compact_filter-IsFilter expected bound in
    let cf = new_compact_filter expected in
    let g = fingerprint (hash64 key) in
    let i = first_index cf (hash64 key) in
    (
      f,
      contains-found cf f key
          ∙ ap some (
              ground (
                arith,
                empty_holds_nothing cf.num_buckets i g (fingerprint_nonzero (hash64 key)),
                empty_holds_nothing cf.num_buckets (alternate cf i g) g
                    (fingerprint_nonzero (hash64 key)),
              )),
    )
