-- ===== src/Ledger/Frame.antt =====
-- What the calls of m2_conserving.go leave alone: accounts that a call does not name, and every
-- balance when the call fails.
use payment_risk_engine.Prelude.{
  String, ◌≡◌, refl, ◌∙◌, ◌⊎◌, Bool, false, ◌||◌, some, arith, inl, inr, ◌==◌, lookup,
  lookup-adjust,
}
use payment_risk_engine.Ledger.Types.{
  Time, LedgerError, Account, ConservingLedger, credit_online, debit_online, debit_offline,
  debit_reserved, online_to_offline, online_to_reserved, reserved_to_online,
}
use payment_risk_engine.Ledger.Accounts.{create_account, on_account, fund_account}
use payment_risk_engine.Ledger.Holds.{
  settle, reserve_funds, commit_hold, direct_commit, release_hold,
}
use payment_risk_engine.Ledger.Offline.{allocate_offline_allowance, commit_offline_allowance}
use payment_risk_engine.Ledger.Deficit.{returned, debit_deficit_reserve, record_deficit}
use payment_risk_engine.Ledger.Requests.{
  Request, create, fund, allocate, commit_offline, reserve, commit, direct, release, debit_reserve,
  overdraw, perform, after,
}
use payment_risk_engine.Ledger.Creation.{lookup-create_account, lookup-create_account_old}

-- Whether the call may write to the account `j`.
abbrev pub writes : Request → String → ConservingLedger → Bool
writes (create id x) j l = id == j
writes (fund id x) j l = id == j
writes (allocate id x) j l = id == j
writes (commit_offline id dest x tx) j l = id == j || dest == j
writes (reserve id x tx) j l = id == j
writes (commit id dest x tx) j l = id == j || dest == j
writes (direct id dest x tx) j l = id == j || dest == j
writes (release id x tx) j l = id == j
writes (debit_reserve merchant x tx) j l = l.deficit_reserve_account_id == j || merchant == j
writes (overdraw id dest x tx) j l = id == j || dest == j

module _ (now : Time) (id dest j : String) (debit credit : Account → Account)
    (l : ConservingLedger) where
  lookup-settle :
      (id == j) ≡ false
      → (dest == j) ≡ false
      → lookup j (settle id debit dest credit l).accounts ≡ lookup j l.accounts
  unfolding settle on_account
  lookup-settle p q = ground (
    arith,
    lookup-adjust id j debit l.accounts,
    lookup-adjust dest j credit (on_account id debit l).accounts,
  )

lookup-settle_created :
    (now : Time) (id dest j : String) (debit credit : Account → Account) (l : ConservingLedger)
    → (id == j) ≡ false
    → (dest == j) ≡ false
    → lookup j (settle id debit dest credit (create_account now dest 0 l)).accounts
      ≡ lookup j l.accounts
lookup-settle_created now id dest j debit credit l p q =
    lookup-settle now id dest j debit credit (create_account now dest 0 l) p q
    ∙ lookup-create_account now dest 0 l j q

-- A call leaves every account that it does not name exactly as it was, version and time included.
pub lookup-perform :
    (now : Time) (r : Request) (j : String) (l : ConservingLedger)
    → writes r j l ≡ false
    → lookup j (after l (perform now r l)).accounts ≡ lookup j l.accounts
unfolding perform fund_account allocate_offline_allowance commit_offline_allowance reserve_funds
    commit_hold direct_commit release_hold debit_deficit_reserve record_deficit
lookup-perform now (create id x) j l h = lookup-create_account now id x l j h
lookup-perform now (fund id x) j l h =
    ground (arith, lookup-adjust id j (credit_online now x) l.accounts)
lookup-perform now (allocate id x) j l h =
    ground (arith, lookup-adjust id j (online_to_offline now x) l.accounts)
lookup-perform now (commit_offline id dest x tx) j l h = ground (
  arith,
  lookup-create_account now dest 0 l j,
  lookup-settle_created now id dest j (debit_offline now x) (credit_online now x) l,
)
lookup-perform now (reserve id x tx) j l h =
    ground (arith, lookup-adjust id j (online_to_reserved now x) l.accounts)
lookup-perform now (commit id dest x tx) j l h = ground (
  arith,
  lookup-create_account now dest 0 l j,
  lookup-settle_created now id dest j (debit_reserved now x) (credit_online now x) l,
)
lookup-perform now (direct id dest x tx) j l h = ground (
  arith,
  lookup-create_account now dest 0 l j,
  lookup-settle_created now id dest j (debit_online now x) (credit_online now x) l,
)
lookup-perform now (release id x tx) j l h =
    ground (arith, lookup-adjust id j (reserved_to_online now x) l.accounts)
lookup-perform now (debit_reserve merchant x tx) j l h =
    let reserve = l.deficit_reserve_account_id in
    ground (
      arith,
      lookup-create_account now reserve 0 l j,
      lookup-settle_created now reserve merchant j (debit_online now x) (credit_online now x)
          (create_account now reserve 0 l),
    )
lookup-perform now (overdraw id dest x tx) j l h = ground (
  arith,
  lookup-create_account now id 0 l j,
  lookup-settle_created now id dest j (debit_online now x) (credit_online now x)
      (create_account now id 0 l),
)

-- What a refused call may have done: create an empty account, and nothing else.
pub record IsRefused (l l' : ConservingLedger) : Type 0 where
  pub same_entries : l'.entries ≡ l.entries
  pub same_counter : l'.entry_counter ≡ l.entry_counter
  pub same_reservations : l'.reservations ≡ l.reservations
  pub same_accounts :
      (j : String) (a : Account) → lookup j l.accounts ≡ some a → lookup j l'.accounts ≡ some a

IsRefused-refl : (l : ConservingLedger) → IsRefused l l
IsRefused-refl l = record {
  same_entries = refl;
  same_counter = refl;
  same_reservations = refl;
  same_accounts = λ j a h. h;
}

IsRefused-create_account :
    (now : Time) (id : String) (l : ConservingLedger) → IsRefused l (create_account now id 0 l)
unfolding create_account
IsRefused-create_account now id l = record {
  same_entries = ground arith;
  same_counter = ground arith;
  same_reservations = ground arith;
  same_accounts = λ j a h. lookup-create_account_old now id 0 l j h;
}

IsRefused-at : {l l' m : ConservingLedger} → l' ≡ m → IsRefused l m → IsRefused l l'
IsRefused-at e h = rw e h

-- The account that a commit pays.
abbrev payee : Request → String
payee (commit_offline id dest x tx) = dest
payee (commit id dest x tx) = dest
payee (direct id dest x tx) = dest
payee r = ""

failed_cases :
    (now : Time) (r : Request) (l : ConservingLedger) {e : LedgerError} {l' : ConservingLedger}
    → perform now r l ≡ returned (some e, l')
    → (l' ≡ l) ⊎ (l' ≡ create_account now (payee r) 0 l)
unfolding perform fund_account allocate_offline_allowance commit_offline_allowance reserve_funds
    commit_hold direct_commit release_hold debit_deficit_reserve record_deficit
failed_cases now (create id x) l h = cc
failed_cases now (fund id x) l h = ground arith
failed_cases now (allocate id x) l h = ground arith
failed_cases now (commit_offline id dest x tx) l h = ground arith
failed_cases now (reserve id x tx) l h = ground arith
failed_cases now (commit id dest x tx) l h = ground arith
failed_cases now (direct id dest x tx) l h = ground arith
failed_cases now (release id x tx) l h = ground arith
failed_cases now (debit_reserve merchant x tx) l h = ground arith
failed_cases now (overdraw id dest x tx) l h = ground arith

-- A call that returns an error writes no entry and no reservation, and leaves every account that
-- existed exactly as it was.
pub perform-IsRefused :
    (now : Time) (r : Request) (l : ConservingLedger) {e : LedgerError} {l' : ConservingLedger}
    → perform now r l ≡ returned (some e, l')
    → IsRefused l l'
perform-IsRefused now r l h = elim (failed_cases now r l h) [
  | inl same ↦ IsRefused-at same (IsRefused-refl l)
  | inr made ↦ IsRefused-at made (IsRefused-create_account now (payee r) l)
]
