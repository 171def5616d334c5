-- ===== src/Fraud/Placing.antt =====
-- The indices of compact_filter.go, and `insertIntoBucket`.
use Prim.Native.Nat.{bit_and, bit_xor}
use mathlib.Core.Path.{subst}
use native.Mathlib.Nat.{pow-le-pow_right}
use payment_risk_engine.Prelude.{
  ℕ, ◌+◌, ◌-◌, ◌%◌, ◌^◌, ◌≤◌, ◌≡◌, refl, sym, ap, ◌∙◌, inl, inr, arith, Bool, true, false, ◌||◌,
  List, [], none, some, Option-cases, Bool-cases, eqb, length, low, low_lt, low-low, bit_and_mask,
  bit_xor_twice,
}
use payment_risk_engine.Fraud.Filter.{
  Bucket, CompactFilter, hash_fingerprint, masked, alternate, get_elem?, set, fill,
  insert_into_bucket, has,
}
use payment_risk_engine.Fraud.Slots.{set_self, set_other, length-set, has-fill, has-fill_other}

-- A filter as `NewCompactFilter` makes it: its number of buckets is a power of two.
pub record IsFilter (cf : CompactFilter) : Type 0 where
  pub bits : ℕ
  pub small : bits ≤ 31
  pub sized : cf.num_buckets ≡ 2 ^ bits
  pub whole : length cf.buckets ≡ cf.num_buckets

pub masked-low : (cf : CompactFilter) (f : IsFilter cf) (i : ℕ) → masked cf i ≡ low f.bits i
unfolding masked
masked-low cf f i =
    let bound : 2 ^ f.bits ≤ 2 ^ 31 = pow-le-pow_right (omega arith) f.small in
    let mask : (cf.num_buckets + (2 ^ 32 - 1)) % 2 ^ 32 ≡ 2 ^ f.bits - 1 =
      omega (arith, f.sized, bound, low_lt f.bits 0) in
    ap (bit_and i) mask ∙ bit_and_mask f.bits i

-- The bucket at an index, and where a fingerprint of a key is looked for.
abbrev pub bucket_at : ℕ → List Bucket → Bucket
bucket_at i bs = elim (get_elem? bs i) [ none ↦ [] | some b ↦ b ]

abbrev pub holds : ℕ → ℕ → CompactFilter → Bool
holds i g cf = has (bucket_at i cf.buckets) g

abbrev pub found : ℕ → ℕ → CompactFilter → Bool
found i g cf = holds i g cf || holds (alternate cf i g) g cf

-- The other bucket's other bucket is the first.
pub alternate_twice :
    (cf : CompactFilter) (f : IsFilter cf) (i g : ℕ)
    → low f.bits i ≡ i
    → alternate cf (alternate cf i g) g ≡ i
unfolding alternate
alternate_twice cf f i g index =
    let h = hash_fingerprint g in
    masked-low cf f (bit_xor (masked cf (bit_xor i h)) h)
    ∙ ap (λ j. low f.bits (bit_xor j h)) (masked-low cf f (bit_xor i h))
    ∙ bit_xor_twice f.bits i h
    ∙ index

pub alternate-index :
    (cf : CompactFilter) (f : IsFilter cf) (i g : ℕ)
    → low f.bits (alternate cf i g) ≡ alternate cf i g
unfolding alternate
alternate-index cf f i g =
    let x = bit_xor i (hash_fingerprint g) in
    ap (low f.bits) (masked-low cf f x) ∙ low-low f.bits x ∙ sym (masked-low cf f x)

-- A step that loses nothing, and after which the bucket has the fingerprint.
pub record IsPlaced (i fp : ℕ) (cf cf' : CompactFilter) : Type 0 where
  pub placed : holds i fp cf' ≡ true
  pub kept : (m g : ℕ) → eqb g 0 ≡ false → holds m g cf ≡ true → holds m g cf' ≡ true
  pub same_size : cf'.num_buckets ≡ cf.num_buckets
  pub same_length : length cf'.buckets ≡ length cf.buckets

filled-IsPlaced :
    (i fp : ℕ) (cf : CompactFilter) (b b' : Bucket)
    → get_elem? cf.buckets i ≡ some b
    → fill b fp ≡ some b'
    → IsPlaced i fp cf (record cf { buckets = set cf.buckets i b' })
filled-IsPlaced i fp cf b b' at free =
    let here = set_self cf.buckets i b b' at in
    record {
      placed = ground (arith, here, has-fill b b' fp free);
      kept = λ m g nonzero held. elim (Bool-cases (eqb i m)) [
        | inl same ↦
            let m_is : i ≡ m = ground (arith, same) in
            subst (λ j. holds j g (record cf { buckets = set cf.buckets i b' }) ≡ true) m_is
              (ground (
                arith,
                here,
                has-fill_other b b' fp g free nonzero,
                at,
                subst (λ j. holds j g cf ≡ true) (sym m_is) held,
              ))
        | inr other ↦ ground (arith, held, set_other cf.buckets i m b' other)
      ];
      same_size = refl;
      same_length = length-set cf.buckets i b';
    }

pub insert_into_bucket-IsPlaced :
    (i fp : ℕ) (cf cf' : CompactFilter)
    → insert_into_bucket i fp cf ≡ some (true, cf')
    → IsPlaced i fp cf cf'
unfolding insert_into_bucket
insert_into_bucket-IsPlaced i fp cf cf' ran = elim (Option-cases (get_elem? cf.buckets i)) [
  | inl out ↦ absurd (ground (arith, ran, out))
  | inr (b, at) ↦ elim (Option-cases (fill b fp)) [
    | inl full ↦ absurd (ground (arith, ran, at, full))
    | inr (b', free) ↦
        let same : record cf { buckets = set cf.buckets i b' } ≡ cf' =
          ground (arith, ran, at, free) in
        subst (IsPlaced i fp cf) same (filled-IsPlaced i fp cf b b' at free)
  ]
]

pub insert_into_bucket_full :
    (i fp : ℕ) (cf cf' : CompactFilter) → insert_into_bucket i fp cf ≡ some (false, cf') → cf' ≡ cf
unfolding insert_into_bucket
insert_into_bucket_full i fp cf cf' ran = elim (Option-cases (get_elem? cf.buckets i)) [
  | inl out ↦ absurd (ground (arith, ran, out))
  | inr (b, at) ↦ elim (Option-cases (fill b fp)) [
    | inl full ↦ ground (arith, ran, at, full)
    | inr (b', free) ↦ absurd (ground (arith, ran, at, free))
  ]
]
