-- ===== src/Ledger/Journal.antt =====
-- The journal of m2_conserving.go, for calls that come one after another; Ledger.Numbering has those
-- that meet inside `appendEntry`.
use payment_risk_engine.Prelude.{
  ℕ, ◌+◌, ◌%◌, String, ◌≡◌, arith, [], ◌∷◌, ◌++◌, List, Int64, word, add64, length, length-append,
}
use payment_risk_engine.Ledger.Types.{
  Time, online_to_offline, online_to_reserved, reserved_to_online, credit_online, debit_online,
  debit_offline, debit_reserved, LedgerEntry, ConservingLedger, Account,
}
use payment_risk_engine.Ledger.Accounts.{
  fund_entry, create_account, append_entry, on_account, fund_account,
}
use payment_risk_engine.Ledger.Holds.{
  reserve_entry, add_reservation, commit_entry, direct_entry, release_entry, settle, reserve_funds,
  commit_hold, direct_commit, release_hold,
}
use payment_risk_engine.Ledger.Offline.{
  allocate_entry, settle_entry, allocate_offline_allowance, commit_offline_allowance,
}
use payment_risk_engine.Ledger.Deficit.{
  reserve_deficit_entry, overdraft_entry, debit_deficit_reserve, record_deficit,
}
use payment_risk_engine.Ledger.Requests.{
  Request, create, fund, allocate, commit_offline, reserve, commit, direct, release, debit_reserve,
  overdraw, perform, after, run,
}

-- The entries carry the numbers after `n`, in order, wrapped as the counter wraps.
abbrev IsNumbered : ℕ → List LedgerEntry → Type 0
IsNumbered n [] = Unit
IsNumbered n (e ∷ es) = (e.entry_id ≡ (n + 1) % word) × IsNumbered (n + 1) es

pub record IsJournal (l : ConservingLedger) : Type 0 where
  pub numbered : IsNumbered 0 l.entries
  pub counted : l.entry_counter ≡ length l.entries % word

IsNumbered-append :
    (n : ℕ) (es : List LedgerEntry) (e : LedgerEntry)
    → IsNumbered n es
    → e.entry_id ≡ (n + length es + 1) % word
    → IsNumbered n (es ++ e ∷ [])
IsNumbered-append n [] e h p = omega arith
IsNumbered-append n (d ∷ es) e h p = (h.0, IsNumbered-append (n + 1) es e h.1 (omega arith))

-- A property of the entries and the counter that every append keeps.
module _ (P : List LedgerEntry → Int64 → Type 0)
    (grows : (e : LedgerEntry) (es : List LedgerEntry) (c : Int64)
      → P es c
      → P (es ++ record e { entry_id = add64 c 1 } ∷ []) (add64 c 1)) where
  pub record Keeps (l : ConservingLedger) : Type 0 where
    pub kept : P l.entries l.entry_counter

  append_entry-Keeps : (e : LedgerEntry) (l : ConservingLedger) → Keeps l → Keeps (append_entry e l)
  unfolding append_entry
  append_entry-Keeps e l h = record { kept = grows e l.entries l.entry_counter h.kept }

  create_account-Keeps :
      (now : Time) (id : String) (x : Int64) (l : ConservingLedger)
      → Keeps l
      → Keeps (create_account now id x l)
  unfolding create_account
  create_account-Keeps now id x l h = ground arith

  on_account-Keeps :
      (id : String) (f : Account → Account) (l : ConservingLedger)
      → Keeps l
      → Keeps (on_account id f l)
  unfolding on_account
  on_account-Keeps id f l h = record { kept = h.kept }

  -- An entry for a debit and a credit, after the destination was created.
  settled-Keeps :
      (now : Time) (id dest : String) (debit credit : Account → Account) (e : LedgerEntry)
      (l : ConservingLedger)
      → Keeps l
      → Keeps (append_entry e (settle id debit dest credit (create_account now dest 0 l)))
  unfolding settle
  settled-Keeps now id dest debit credit e l h = append_entry-Keeps e _ (
      on_account-Keeps dest credit _
        (on_account-Keeps id debit _ (create_account-Keeps now dest 0 l h)))

  -- Whatever the call, the property is kept.
  pub perform-Keeps :
      (now : Time) (r : Request) (l : ConservingLedger)
      → Keeps l
      → Keeps (after l (perform now r l))
  unfolding perform fund_account allocate_offline_allowance commit_offline_allowance reserve_funds
      commit_hold direct_commit release_hold debit_deficit_reserve record_deficit
  perform-Keeps now (create id x) l h = create_account-Keeps now id x l h
  perform-Keeps now (fund id x) l h =
      ground
        (arith, append_entry-Keeps (fund_entry now id x) (on_account id (credit_online now x) l))
  perform-Keeps now (allocate id x) l h = ground (
    arith,
    append_entry-Keeps (allocate_entry now id x) (on_account id (online_to_offline now x) l),
  )
  perform-Keeps now (commit_offline id dest x tx) l h = ground (
    arith,
    create_account-Keeps now dest 0 l,
    settled-Keeps now id dest (debit_offline now x) (credit_online now x)
        (settle_entry now id dest x tx) l,
  )
  perform-Keeps now (reserve id x tx) l h = ground (
    arith,
    append_entry-Keeps (reserve_entry now id x tx l)
        (add_reservation now id x tx (on_account id (online_to_reserved now x) l)),
  )
  perform-Keeps now (commit id dest x tx) l h = ground (
    arith,
    create_account-Keeps now dest 0 l,
    settled-Keeps now id dest (debit_reserved now x) (credit_online now x)
        (commit_entry now dest x tx l) l,
  )
  perform-Keeps now (direct id dest x tx) l h = ground (
    arith,
    create_account-Keeps now dest 0 l,
    settled-Keeps now id dest (debit_online now x) (credit_online now x)
        (direct_entry now id dest x tx) l,
  )
  perform-Keeps now (release id x tx) l h = ground (
    arith,
    append_entry-Keeps (release_entry now id x tx l) (on_account id (reserved_to_online now x) l),
  )
  perform-Keeps now (debit_reserve merchant x tx) l h =
      let reserve = l.deficit_reserve_account_id in
      ground (
        arith,
        create_account-Keeps now reserve 0 l,
        settled-Keeps now reserve merchant (debit_online now x) (credit_online now x)
            (reserve_deficit_entry now merchant x tx l) (create_account now reserve 0 l),
      )
  perform-Keeps now (overdraw id dest x tx) l h = ground (
    arith,
    create_account-Keeps now id 0 l,
    settled-Keeps now id dest (debit_online now x) (credit_online now x)
        (overdraft_entry now id dest x tx) (create_account now id 0 l),
  )

abbrev InOrder : List LedgerEntry → Int64 → Type 0
InOrder es c = IsNumbered 0 es × (c ≡ length es % word)

InOrder-append :
    (e : LedgerEntry) (es : List LedgerEntry) (c : Int64)
    → InOrder es c
    → InOrder (es ++ record e { entry_id = add64 c 1 } ∷ []) (add64 c 1)
InOrder-append e es c h = (
  IsNumbered-append 0 es _ h.0 (omega (arith, h.1)),
  omega (arith, h.1, length-append {0} es (record e { entry_id = add64 c 1 } ∷ [])),
)

perform-IsJournal :
    (now : Time) (r : Request) (l : ConservingLedger)
    → IsJournal l
    → IsJournal (after l (perform now r l))
perform-IsJournal now r l h =
    let k =
      perform-Keeps InOrder InOrder-append now r l (record { kept = (h.numbered, h.counted) }) in
    record { numbered = k.kept.0; counted = k.kept.1 }

-- Calls that come one after another, each to its end before the next begins, leave a journal that
-- is in order in order.
pub run-IsJournal :
    (calls : List (Time × Request)) (l : ConservingLedger) → IsJournal l → IsJournal (run calls l)
unfolding run
run-IsJournal [] l h = h
run-IsJournal ((now, r) ∷ rest) l h =
    run-IsJournal rest (after l (perform now r l)) (perform-IsJournal now r l h)
