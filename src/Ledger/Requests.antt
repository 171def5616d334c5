-- ===== src/Ledger/Requests.antt =====
-- The calls that change the ledger, as data: any goroutine may make any of them, and each is one
-- step, since it holds the locks of the accounts it changes from its test to its last write.
use payment_risk_engine.Prelude.{String, ◌≡◌, arith, List, [], ◌∷◌, none, Int64}
use payment_risk_engine.Ledger.Types.{Time, ConservingLedger, Outcome}
use payment_risk_engine.Ledger.Accounts.{create_account, fund_account}
use payment_risk_engine.Ledger.Holds.{reserve_funds, commit_hold, direct_commit, release_hold}
use payment_risk_engine.Ledger.Offline.{allocate_offline_allowance, commit_offline_allowance}
use payment_risk_engine.Ledger.Deficit.{
  Call, blocked, returned, debit_deficit_reserve, record_deficit,
}

pub data Request : Type 0 where
  create fund : String → Int64 → Request
  allocate : String → Int64 → Request
  commit_offline : String → String → Int64 → String → Request
  reserve : String → Int64 → String → Request
  commit : String → String → Int64 → String → Request
  direct : String → String → Int64 → String → Request
  release : String → Int64 → String → Request
  debit_reserve : String → Int64 → String → Request
  overdraw : String → String → Int64 → String → Request

unfoldable pub perform : Time → Request → ConservingLedger → Call Outcome
perform now (create id initial) l = returned (none, create_account now id initial l)
perform now (fund id x) l = returned (fund_account now id x l)
perform now (allocate id x) l = returned (allocate_offline_allowance now id x l)
perform now (commit_offline id dest x tx) l = returned (commit_offline_allowance now id dest x tx l)
perform now (reserve id x tx) l =
    let (res, err, l') = reserve_funds now id x tx l in returned (err, l')
perform now (commit id dest x tx) l = returned (commit_hold now id dest x tx l)
perform now (direct id dest x tx) l = returned (direct_commit now id dest x tx l)
perform now (release id x tx) l = returned (release_hold now id x tx l)
perform now (debit_reserve merchant x tx) l = debit_deficit_reserve now merchant x tx l
perform now (overdraw id dest x tx) l = record_deficit now id dest x tx l

-- What the call leaves; a call that never returns leaves the balances as they were.
abbrev pub after : ConservingLedger → Call Outcome → ConservingLedger
after l blocked = l
after l (returned (err, l')) = l'

-- Any sequence of calls, in the order in which they take effect.
unfoldable pub run : List (Time × Request) → ConservingLedger → ConservingLedger
run [] l = l
run ((now, r) ∷ rest) l = run rest (after l (perform now r l))

-- No call renames the deficit reserve.
pub reserve_id-perform :
    (now : Time) (r : Request) (l : ConservingLedger)
    → (after l (perform now r l)).deficit_reserve_account_id ≡ l.deficit_reserve_account_id
unfolding perform create_account fund_account allocate_offline_allowance commit_offline_allowance
    reserve_funds commit_hold direct_commit release_hold debit_deficit_reserve record_deficit
reserve_id-perform now (create id x) l = ground arith
reserve_id-perform now (fund id x) l = ground arith
reserve_id-perform now (allocate id x) l = ground arith
reserve_id-perform now (commit_offline id dest x tx) l = ground arith
reserve_id-perform now (reserve id x tx) l = ground arith
reserve_id-perform now (commit id dest x tx) l = ground arith
reserve_id-perform now (direct id dest x tx) l = ground arith
reserve_id-perform now (release id x tx) l = ground arith
reserve_id-perform now (debit_reserve merchant x tx) l = ground arith
reserve_id-perform now (overdraw id dest x tx) l = ground arith
