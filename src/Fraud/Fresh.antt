-- ===== src/Fraud/Fresh.antt =====
-- The first `Insert` into a filter of `NewCompactFilter`, of compact_filter.go.
use payment_risk_engine.Prelude.{
  ℕ, zero, suc, ◌^◌, ◌<◌, ◌≤◌, ◌≡◌, refl, arith, String, Bool, true, List, [], ◌∷◌, some,
}
use payment_risk_engine.Fraud.Filter.{
  Bucket, CompactFilter, empty_bucket, replicate, get_elem?, set, counted, fill, new_compact_filter,
  hash64, fingerprint, first_index, insert_into_bucket, insert_key,
}
use payment_risk_engine.Fraud.Keeping.{first_index-index}
use payment_risk_engine.Fraud.Membership.{index_in_range, new_compact_filter-IsFilter}

get_elem?-replicate : (n i : ℕ) (b : Bucket) → i < n → get_elem? (replicate n b) i ≡ some b
get_elem?-replicate zero i b h = absurd (omega (arith, h))
get_elem?-replicate (suc n) zero b h = refl
get_elem?-replicate (suc n) (suc i) b h = get_elem?-replicate n i b (omega (arith, h))

insert_empty :
    (i fp : ℕ) (cf : CompactFilter)
    → get_elem? cf.buckets i ≡ some empty_bucket
    → (cf' : CompactFilter) × (insert_into_bucket i fp cf ≡ some (true, cf'))
unfolding insert_into_bucket fill
insert_empty i fp cf at = (
  record cf { buckets = set cf.buckets i (fp ∷ 0 ∷ 0 ∷ 0 ∷ []) },
  rw (at, insert_into_bucket) refl,
)

-- The first insertion into a new filter for up to 2 ^ 32 keys succeeds, whatever the draws.
pub insert_key_new :
    (coin : Bool) (slots : List ℕ) (key : String) (expected : ℕ)
    → expected ≤ 2 ^ 32
    → (cf' : CompactFilter) × (insert_key coin slots key (new_compact_filter expected)
        ≡ some (true, cf'))
unfolding insert_key new_compact_filter
insert_key_new coin slots key expected bound =
    let cf = new_compact_filter expected in
    let f = new_compact_filter-IsFilter expected bound in
    let i = first_index cf (hash64 key) in
    let below : i < cf.num_buckets =
      omega (arith, index_in_range cf f i (first_index-index cf f (hash64 key)), f.whole) in
    let (cf', put) =
      insert_empty i (fingerprint (hash64 key)) cf
        (get_elem?-replicate cf.num_buckets i empty_bucket below) in
    (counted cf', rw (put, insert_key) refl)
