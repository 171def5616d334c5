-- ===== src/Fraud/RoundTrip.antt =====
-- A filter of compact_filter.go that is written and read back.
use native.Mathlib.Nat.{pow-le-pow_right}
use payment_risk_engine.Prelude.{
  ℕ, ◌+◌, ◌*◌, ◌%◌, ◌^◌, ◌<◌, ◌≤◌, ◌≡◌, refl, sym, ap, ◌∙◌, arith, List, [], ◌∷◌, ◌++◌, none, some,
  length, take, drop, length-append, take-append, drop-append, put_be, read_be, length-put_be,
  read_be-put_be,
}
use payment_risk_engine.Host.{Bytes}
use payment_risk_engine.Fraud.Filter.{Bucket, CompactFilter}
use payment_risk_engine.Fraud.Encoding.{
  slot_bytes, bucket_bytes, serialize, read_slots, read_buckets, deserialize,
}
use payment_risk_engine.Fraud.Placing.{IsFilter}

-- Slots are uint16, and there are four in a bucket.
abbrev AreSlots : Bucket → Type 0
AreSlots [] = Unit
AreSlots (s ∷ slots) = (s < 65536) × AreSlots slots

abbrev pub AreBuckets : List Bucket → Type 0
AreBuckets [] = Unit
AreBuckets (b ∷ bs) = (length b ≡ 4) × AreSlots b × AreBuckets bs

read_slots-slot_bytes :
    (b : Bucket) (rest : Bytes)
    → AreSlots b
    → read_slots (length b) (slot_bytes b ++ rest) ≡ some (b, rest)
unfolding read_slots slot_bytes put_be read_be
read_slots-slot_bytes [] rest fits = refl
read_slots-slot_bytes (s ∷ b) rest (fits, more) = ground (arith, read_slots-slot_bytes b rest more)

append_assoc : (xs ys zs : Bytes) → (xs ++ ys) ++ zs ≡ xs ++ (ys ++ zs)
append_assoc [] ys zs = refl
append_assoc (x ∷ xs) ys zs = ap (λ r. x ∷ r) (append_assoc xs ys zs)

read_buckets-bucket_bytes :
    (bs : List Bucket) → AreBuckets bs → read_buckets (length bs) (bucket_bytes bs) ≡ some bs
unfolding read_buckets bucket_bytes
read_buckets-bucket_bytes [] fits = refl
read_buckets-bucket_bytes (b ∷ bs) (four, fits, more) =
    let first : read_slots 4 (slot_bytes b ++ bucket_bytes bs) ≡ some (b, bucket_bytes bs) =
      ap (λ n. read_slots n (slot_bytes b ++ bucket_bytes bs)) (sym four)
      ∙ read_slots-slot_bytes b (bucket_bytes bs) fits in
    ground (arith, first, read_buckets-bucket_bytes bs more)

length-slot_bytes : (b : Bucket) → length (slot_bytes b) ≡ length b * 2
unfolding slot_bytes put_be
length-slot_bytes [] = refl
length-slot_bytes (s ∷ b) = omega (arith, length-slot_bytes b)

length-bucket_bytes : (bs : List Bucket) → AreBuckets bs → length (bucket_bytes bs) ≡ length bs * 8
unfolding bucket_bytes
length-bucket_bytes [] fits = refl
length-bucket_bytes (b ∷ bs) (four, fits, more) = omega (
  arith,
  four,
  length-append (slot_bytes b) (bucket_bytes bs),
  length-slot_bytes b,
  length-bucket_bytes bs more,
)

-- Bytes of the length that their header says, whose buckets can be read.
deserialize_reads :
    (bytes : Bytes) (num count : ℕ) (buckets : List Bucket) (other : CompactFilter)
    → read_be 0 (take 4 bytes) ≡ num
    → read_be 0 (take 4 (drop 4 bytes)) ≡ count
    → length bytes ≡ 8 + num * 8
    → num ≤ 2 ^ 28
    → read_buckets num (drop 4 (drop 4 bytes)) ≡ some buckets
    → deserialize bytes other
      ≡ (none, record { buckets = buckets; num_buckets = num; count = count })
unfolding deserialize
deserialize_reads bytes num count buckets other num_is count_is long bounded rest =
    let read = ap (λ k. read_buckets k (drop 4 (drop 4 bytes))) num_is ∙ rest in
    let expected : (8 + read_be 0 (take 4 bytes) * 8 % 2 ^ 32) % 2 ^ 32 ≡ length bytes =
      omega (arith, num_is, long, bounded) in
    ground (arith, read, expected, num_is, count_is, long)

-- A filter of fewer than 2 ^ 29 buckets, as its array and its counters are in Go, is read back as it
-- was written, into any filter.
pub deserialize-serialize :
    (cf other : CompactFilter) (f : IsFilter cf)
    → f.bits ≤ 28
    → AreBuckets cf.buckets
    → cf.count < 2 ^ 32
    → deserialize (serialize cf) other ≡ (none, cf)
unfolding deserialize serialize
deserialize-serialize cf other f small fits counts =
    let bound : 2 ^ f.bits ≤ 2 ^ 28 = pow-le-pow_right (omega arith) small in
    let n = put_be 4 cf.num_buckets in
    let c = put_be 4 cf.count in
    let body = bucket_bytes cf.buckets in
    let take_num : take 4 (n ++ (c ++ body)) ≡ n =
      take-append 4 n (c ++ body) (sym (length-put_be 4 cf.num_buckets)) in
    let drop_num : drop 4 (n ++ (c ++ body)) ≡ c ++ body =
      drop-append 4 n (c ++ body) (sym (length-put_be 4 cf.num_buckets)) in
    let take_count : take 4 (c ++ body) ≡ c =
      take-append 4 c body (sym (length-put_be 4 cf.count)) in
    let drop_count : drop 4 (c ++ body) ≡ body =
      drop-append 4 c body (sym (length-put_be 4 cf.count)) in
    let num_is : read_be 0 (take 4 (serialize cf)) ≡ cf.num_buckets =
      ap (read_be 0) take_num ∙ read_be-put_be 4 cf.num_buckets (omega (arith, f.sized, bound)) in
    let count_is : read_be 0 (take 4 (drop 4 (serialize cf))) ≡ cf.count =
      ap (λ bs. read_be 0 (take 4 bs)) drop_num
      ∙ ap (read_be 0) take_count
      ∙ read_be-put_be 4 cf.count counts in
    let rest_is : drop 4 (drop 4 (serialize cf)) ≡ body = ap (drop 4) drop_num ∙ drop_count in
    let long : length (serialize cf) ≡ 8 + cf.num_buckets * 8 = omega (
      arith,
      length-append n (c ++ body),
      length-append c body,
      length-put_be 4 cf.num_buckets,
      length-put_be 4 cf.count,
      length-bucket_bytes cf.buckets fits,
      f.whole,
    ) in
    let body_read : read_buckets cf.num_buckets body ≡ some cf.buckets =
      ap (λ k. read_buckets k body) (sym f.whole) ∙ read_buckets-bucket_bytes cf.buckets fits in
    let bounded : cf.num_buckets ≤ 2 ^ 28 = omega (arith, f.sized, bound) in
    deserialize_reads (serialize cf) cf.num_buckets cf.count cf.buckets other num_is count_is long
      bounded (ap (read_buckets cf.num_buckets) rest_is ∙ body_read)
