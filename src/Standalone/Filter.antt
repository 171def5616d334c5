-- ===== src/Standalone/Filter.antt =====
-- The revocation filter of fs2601_all_in_one.go. Its buckets are those of compact_filter.go, and so is
-- the hash of a key; the fingerprint, the indices and the displacement are its own.
use Prim.Native.Nat.{bit_xor}
use payment_risk_engine.Prelude.{
  ℕ, zero, suc, ◌+◌, ◌*◌, ◌/◌, ◌%◌, ◌^◌, String, Bool, true, false, ◌||◌, List, Option, none, some,
  eqb, if◌then◌else◌,
}
use payment_risk_engine.Fraud.{Bucket, empty_bucket, replicate, hash64, get_elem?, set, fill, has}

-- `CuckooMaxKicks`
abbrev pub cuckoo_max_kicks : ℕ
cuckoo_max_kicks = 500

pub record CompactFilter : Type 0 where
  pub bucket_count : ℕ  -- uint32
  pub buckets : List Bucket
  pub count : ℕ  -- uint32

-- `NewCompactFilter`
unfoldable pub new_compact_filter : ℕ → CompactFilter
new_compact_filter capacity =
    let sized = if eqb capacity 0 then 1024 else capacity in
    let n = if eqb (sized / 4) 0 then 1 else sized / 4 in
    record { bucket_count = n; buckets = replicate n empty_bucket; count = 0 }

unfoldable pub fingerprint : ℕ → ℕ
fingerprint hash =
    let fp = bit_xor (hash / 2 ^ 32) (hash % 2 ^ 16) % 2 ^ 16 in if eqb fp 0 then 1 else fp

-- `hashFingerprint`, the 32-bit FNV-1a hash of the two bytes.
abbrev fnv32 : ℕ → ℕ → ℕ
fnv32 h b = bit_xor h b * 16777619 % 2 ^ 32

unfoldable pub hash_fingerprint : ℕ → ℕ
hash_fingerprint fp = fnv32 (fnv32 2166136261 (fp % 256)) (fp / 256)

-- The indices; a remainder by no buckets is a panic, which `NewCompactFilter` rules out.
unfoldable pub first_index : CompactFilter → ℕ → ℕ
first_index cf h = h % cf.bucket_count

unfoldable pub alternate : CompactFilter → ℕ → ℕ → ℕ
alternate cf i fp = bit_xor i (hash_fingerprint fp % cf.bucket_count) % cf.bucket_count

-- `insertIntoBucket`; `none` is an index out of range.
unfoldable pub insert_into_bucket : ℕ → ℕ → CompactFilter → Option (Bool × CompactFilter)
insert_into_bucket i fp cf = elim (get_elem? cf.buckets i) [
  | none ↦ none
  | some bucket ↦ elim (fill bucket fp) [
    | none ↦ some (false, cf)
    | some filled ↦ some (true, record cf { buckets = set cf.buckets i filled })
  ]
]

abbrev pub counted : CompactFilter → CompactFilter
counted cf = record cf { count = (cf.count + 1) % 2 ^ 32 }

-- The displacement: round k takes the slot k % 4.
unfoldable pub kick : ℕ → ℕ → ℕ → ℕ → CompactFilter → Option (Bool × CompactFilter)
kick zero k i fp cf = some (false, cf)
kick (suc rounds) k i fp cf = elim (get_elem? cf.buckets i) [
  | none ↦ none
  | some bucket ↦ elim (get_elem? bucket (k % 4)) [
    | none ↦ none
    | some displaced ↦
        let swapped = record cf { buckets = set cf.buckets i (set bucket (k % 4) fp) } in
        let next = alternate cf i displaced in
        elim (insert_into_bucket next displaced swapped) [
          | none ↦ none
          | some (true, done) ↦ some (true, counted done)
          | some (false, full) ↦ kick rounds (k + 1) next displaced full
        ]
  ]
]

-- `Insert`
unfoldable pub insert_key : String → CompactFilter → Option (Bool × CompactFilter)
insert_key key cf =
    let h = hash64 key in
    let fp = fingerprint h in
    let i1 = first_index cf h in
    let i2 = alternate cf i1 fp in
    elim (insert_into_bucket i1 fp cf) [
      | none ↦ none
      | some (true, done) ↦ some (true, counted done)
      | some (false, full) ↦ elim (insert_into_bucket i2 fp full) [
        | none ↦ none
        | some (true, done) ↦ some (true, counted done)
        | some (false, fuller) ↦ kick cuckoo_max_kicks 0 i1 fp fuller
      ]
    ]

-- `Contains`
unfoldable pub contains : String → CompactFilter → Option Bool
contains key cf =
    let h = hash64 key in
    let fp = fingerprint h in
    let i1 = first_index cf h in
    let i2 = alternate cf i1 fp in
    elim (get_elem? cf.buckets i1) [
      | none ↦ none
      | some b1 ↦ elim (get_elem? cf.buckets i2) [
        | none ↦ none
        | some b2 ↦ some (has b1 fp || has b2 fp)
      ]
    ]
