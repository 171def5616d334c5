-- ===== src/Server/Seeding.antt =====
-- The revocation filter that `setupServer` of cmd/server/main.go makes.
use payment_risk_engine.Prelude.{ℕ, ◌≡◌, arith, Bool, true, some, List}
use payment_risk_engine.Fraud.{new_compact_filter, contains}
use payment_risk_engine.Fraud.Placing.{IsFilter}
use payment_risk_engine.Fraud.Membership.{insert_key-contains, new_compact_filter-IsFilter}
use payment_risk_engine.Fraud.Fresh.{insert_key_new}
use payment_risk_engine.Server.{seeded_filter}

-- Whatever the draws, the demo card is in the filter of a new server, which keeps what is inserted.
pub seeded_filter-IsFilter :
    (coin : Bool) (slots : List ℕ)
    → IsFilter (seeded_filter coin slots)
      × (contains "ACC-REVOKED-DEMO" (seeded_filter coin slots) ≡ some true)
unfolding seeded_filter
seeded_filter-IsFilter coin slots =
    let cf = new_compact_filter 16384 in
    let (cf', put) = insert_key_new coin slots "ACC-REVOKED-DEMO" 16384 (omega arith) in
    let (f, found, kept) =
      insert_key-contains coin slots "ACC-REVOKED-DEMO" cf cf'
        (new_compact_filter-IsFilter 16384 (omega arith)) put in
    rw (put, seeded_filter) (f, found)
