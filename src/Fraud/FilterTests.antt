-- ===== src/Fraud/FilterTests.antt =====
-- Runs of the filter of compact_filter.go, and the theorems about it at concrete inputs.
use payment_risk_engine.Prelude.{◌≡◌, refl, true, none, some, [], ◌∷◌, String, arith, Option, Bool}
use payment_risk_engine.Fraud.{
  first_index, hash64, insert_into_bucket, masked, CompactFilter, empty_bucket, insert_key,
  contains, serialize, deserialize,
}
use payment_risk_engine.Fraud.Placing.{IsFilter}
use payment_risk_engine.Fraud.Membership.{insert_key-contains}
use payment_risk_engine.Fraud.RoundTrip.{deserialize-serialize}

abbrev empty_filter : CompactFilter
empty_filter = record { buckets = empty_bucket ∷ empty_bucket ∷ []; num_buckets = 2; count = 0 }

empty_filter-IsFilter : IsFilter empty_filter
empty_filter-IsFilter = record { bits = 1; small = omega arith; sized = refl; whole = refl }

abbrev result : Option (Bool × CompactFilter) → CompactFilter
result none = empty_filter
result (some (ok, cf)) = cf

-- The filter after the insertion of alice.
abbrev with_alice : CompactFilter
with_alice = result (insert_key true [] "alice" empty_filter)

alice_goes_in : insert_key true [] "alice" empty_filter ≡ some (true, with_alice)
unfolding insert_key insert_into_bucket first_index masked hash64
alice_goes_in = refl

insert_key-contains_example :
    IsFilter with_alice
    × (contains "alice" with_alice ≡ some true)
    × ((other : String)
        → contains other empty_filter ≡ some true
        → contains other with_alice ≡ some true)
insert_key-contains_example =
    insert_key-contains true [] "alice" empty_filter with_alice empty_filter-IsFilter alice_goes_in

abbrev stored : CompactFilter
stored = record { buckets = (513 ∷ 0 ∷ 0 ∷ 0 ∷ []) ∷ empty_bucket ∷ []; num_buckets = 2; count = 1 }

stored-IsFilter : IsFilter stored
stored-IsFilter = record { bits = 1; small = omega arith; sized = refl; whole = refl }

deserialize-serialize_example : deserialize (serialize stored) empty_filter ≡ (none, stored)
unfolding stored-IsFilter
deserialize-serialize_example =
    deserialize-serialize stored empty_filter stored-IsFilter (omega arith)
      (
        refl,
        (omega arith, (omega arith, (omega arith, (omega arith, tt)))),
        (refl, (omega arith, (omega arith, (omega arith, (omega arith, tt)))), tt),
      )
      (omega arith)
