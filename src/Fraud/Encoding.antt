-- ===== src/Fraud/Encoding.antt =====
-- `Count`, `Serialize` and `Deserialize` of compact_filter.go.
use payment_risk_engine.Prelude.{
  ℕ, zero, suc, ◌+◌, ◌*◌, ◌%◌, ◌^◌, List, [], ◌∷◌, ◌++◌, Option, none, some, eqb, ltb, length, take,
  drop, put_be, read_be, if◌then◌else◌,
}
use payment_risk_engine.Host.{Bytes}
use payment_risk_engine.Fraud.Filter.{Bucket, CompactFilter}

unfoldable pub count_of : CompactFilter → ℕ
count_of cf = cf.count

-- The slots of a bucket, and the buckets, as the loop of `Serialize` writes them.
unfoldable pub slot_bytes : Bucket → Bytes
slot_bytes [] = []
slot_bytes (s ∷ slots) = put_be 2 s ++ slot_bytes slots

unfoldable pub bucket_bytes : List Bucket → Bytes
bucket_bytes [] = []
bucket_bytes (b ∷ bs) = slot_bytes b ++ bucket_bytes bs

-- `Serialize`: the writes into a buffer do not fail.
unfoldable pub serialize : CompactFilter → Bytes
serialize cf = put_be 4 cf.num_buckets ++ (put_be 4 cf.count ++ bucket_bytes cf.buckets)

-- The loops of `Deserialize`; `none` is the error of a read past the end.
unfoldable pub read_slots : ℕ → Bytes → Option (Bucket × Bytes)
read_slots zero bytes = some ([], bytes)
read_slots (suc n) [] = none
read_slots (suc n) (b ∷ []) = none
read_slots (suc n) (b ∷ c ∷ bytes) = elim (read_slots n bytes) [
  | none ↦ none
  | some (slots, rest) ↦ some (read_be 0 (b ∷ c ∷ []) ∷ slots, rest)
]

unfoldable pub read_buckets : ℕ → Bytes → Option (List Bucket)
read_buckets zero bytes = some []
read_buckets (suc n) bytes = elim (read_slots 4 bytes) [
  | none ↦ none
  | some (bucket, rest) ↦ elim (read_buckets n rest) [
    | none ↦ none
    | some buckets ↦ some (bucket ∷ buckets)
  ]
]

pub data DecodeError : Type 0 where
  invalid_filter_data : DecodeError
  read_past_end : DecodeError

-- `Deserialize`: an error leaves the filter as it was. The expected length is computed in a uint32.
unfoldable pub deserialize : Bytes → CompactFilter → Option DecodeError × CompactFilter
deserialize bytes cf =
    let num = read_be 0 (take 4 bytes) in
    let count = read_be 0 (take 4 (drop 4 bytes)) in
    if ltb (length bytes) 8
    then (some invalid_filter_data, cf)
    else if eqb (length bytes) ((8 + num * 8 % 2 ^ 32) % 2 ^ 32)
    then (elim (read_buckets num (drop 4 (drop 4 bytes))) [
      | none ↦ (some read_past_end, cf)
      | some buckets ↦ (none, record { buckets = buckets; num_buckets = num; count = count })
    ])
    else (some invalid_filter_data, cf)

-- `DeserializeCompactFilter`
unfoldable pub deserialize_compact_filter : Bytes → Option CompactFilter
deserialize_compact_filter bytes =
    let (err, cf) = deserialize bytes (record { buckets = []; num_buckets = 0; count = 0 }) in
    elim err [ none ↦ some cf | some e ↦ none ]
