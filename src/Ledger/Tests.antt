-- ===== src/Ledger/Tests.antt =====
-- Runs of the ledger of m2_conserving.go, and the theorems about it at concrete inputs.
use payment_risk_engine.Prelude.{
  ◌≡◌, refl, ◌⊎◌, none, some, arith, [], ◌∷◌, ◌++◌, List, String, lookup, insert, adjust, add64,
  lt64,
}
use payment_risk_engine.Ledger.Types.{
  Time, hold_mismatch, LedgerEntry, ConservingLedger, credit_online, debit_online, debit_offline,
  debit_reserved, online_to_offline, online_to_reserved, reserved_to_online,
}
use payment_risk_engine.Ledger.Accounts.{
  append_entry, push_entry, fund_entry, on_account, create_account, fund_account, new_account,
  get_account, deficit_reserve_name,
}
use payment_risk_engine.Ledger.Holds.{
  settle, direct_entry, reserve_funds, commit_hold, direct_commit, release_hold,
}
use payment_risk_engine.Ledger.Offline.{allocate_offline_allowance, commit_offline_allowance}
use payment_risk_engine.Ledger.Deficit.{returned, debit_deficit_reserve, record_deficit}
use payment_risk_engine.Ledger.Audit.{audit_accounts, audit_conservation}
use payment_risk_engine.Ledger.Requests.{
  Request, fund, allocate, commit_offline, reserve, commit, direct, debit_reserve, perform, after,
  run,
}
use payment_risk_engine.Ledger.Conservation.{minted_by, total_balance-run}
use payment_risk_engine.Ledger.Solvency.{IsSolvent}
use payment_risk_engine.Ledger.NoOverdraft.{inflow_of, inflow_by, run-IsSolvent}
use payment_risk_engine.Ledger.Reserved.{reserved_of}
use payment_risk_engine.Ledger.Interleaving.{
  Payment, World, Reach, here, next, begin, IsBacked, Reach-IsBacked, commit_in_flight,
}
use payment_risk_engine.Ledger.Frame.{IsRefused, lookup-perform, perform-IsRefused}
use payment_risk_engine.Ledger.Journal.{IsJournal, run-IsJournal}
use payment_risk_engine.Ledger.Numbering
use payment_risk_engine.Ledger.Numbering.{Journal, take, push, ids, IsComplete, Reach-IsComplete}
use payment_risk_engine.Ledger.Locks.{IsOrdered, Waits, ordered_no_deadlock}

-- Alice has 100 cents, the shop none; the reserve was seeded with 50.
abbrev book : ConservingLedger
book = record {
  accounts =
      ("alice", new_account 1 "alice" 100)
      ∷ ("shop", new_account 1 "shop" 0)
      ∷ (deficit_reserve_name, new_account 1 deficit_reserve_name 50)
      ∷ [];
  reservations = [];
  entries = [];
  entry_counter = 0;
  escrow_account_id = "SYSTEM_ESCROW";
  clearing_account_id = "SYSTEM_CLEARING";
  deficit_reserve_account_id = deficit_reserve_name;
  account_deficit_reserve = deficit_reserve_name;
}

abbrev day : List (Time × Request)
day =
    (2, allocate "alice" 30)
    ∷ (3, reserve "alice" 50 "t1")
    ∷ (4, reserve "alice" 50 "t2")
    ∷ (5, commit "alice" "shop" 50 "t1")
    ∷ (6, commit_offline "alice" "kiosk" 25 "t3")
    ∷ (7, debit_reserve "shop" 10 "t4")
    ∷ (8, fund "shop" 5)
    ∷ []

-- What a test has to compute through.
ledger_code : Unit {0}
unfolding run perform get_account audit_conservation lookup insert adjust lt64 fund_account
    create_account debit_deficit_reserve record_deficit commit_offline_allowance commit_hold
    reserve_funds direct_commit release_hold allocate_offline_allowance online_to_offline
    online_to_reserved reserved_to_online debit_reserved debit_offline debit_online credit_online
    append_entry on_account audit_accounts settle
ledger_code = tt

day_totals :
    ((get_account "alice" (run day book)).0.online_available ≡ 20)
    × ((get_account "alice" (run day book)).0.offline_allowance ≡ 5)
    × ((get_account "shop" (run day book)).0.online_available ≡ 65)
    × ((get_account "kiosk" (run day book)).0.online_available ≡ 25)
    × ((get_account deficit_reserve_name (run day book)).0.online_available ≡ 40)
    × ((audit_conservation (run day book)).entry_count ≡ 6)
unfolding ledger_code
day_totals = (refl, refl, refl, refl, refl, refl)

total_balance-run_example :
    (audit_conservation (run day book)).total_balance
    ≡ add64 (audit_conservation book).total_balance (minted_by day book)
total_balance-run_example = total_balance-run day book

day_inflow : inflow_by day book ≡ 15
unfolding ledger_code inflow_by inflow_of
day_inflow = refl

run-IsSolvent_example : IsSolvent (run day book)
run-IsSolvent_example = run-IsSolvent day book (omega arith) (omega (arith, day_inflow))

lookup-perform_example :
    lookup "shop" (after book (perform 2 (allocate "alice" 30) book)).accounts
    ≡ lookup "shop" book.accounts
lookup-perform_example = lookup-perform 2 (allocate "alice" 30) "shop" book refl

-- The kiosk does not exist yet: the refused commit creates it.
abbrev opened : ConservingLedger
opened = record book {
  accounts =
      ("alice", new_account 1 "alice" 100)
      ∷ ("shop", new_account 1 "shop" 0)
      ∷ (deficit_reserve_name, new_account 1 deficit_reserve_name 50)
      ∷ ("kiosk", new_account 9 "kiosk" 0)
      ∷ [];
}

refused_commit :
    perform 9 (commit "alice" "kiosk" 10 "t5") book ≡ returned (some hold_mismatch, opened)
unfolding ledger_code
refused_commit = refl

perform-IsRefused_example : IsRefused book opened
perform-IsRefused_example = perform-IsRefused 9 (commit "alice" "kiosk" 10 "t5") book refused_commit

book-IsJournal : IsJournal book
book-IsJournal = record { numbered = tt; counted = refl }

day-IsJournal : IsJournal (run day book)
day-IsJournal = run-IsJournal day book book-IsJournal

abbrev first_entry : LedgerEntry
first_entry = direct_entry 3 "alice" "shop" 20 "t1"

abbrev second_entry : LedgerEntry
second_entry = fund_entry 3 "kiosk" 5

-- A payment and a deposit number their entries 1 and 2, and the deposit appends first.
abbrev crossed : Journal
crossed = record {
  ledger =
      push_entry (record first_entry { entry_id = 1 })
        (push_entry (record second_entry { entry_id = 2 }) (record book { entry_counter = 2 }));
  taken = [];
}

crossed_reached : Numbering.Reach (record { ledger = book; taken = [] }) crossed
crossed_reached =
    Numbering.next
      (Numbering.next
        (Numbering.next (Numbering.next Numbering.here (take first_entry)) (take second_entry))
        (push [] (record first_entry { entry_id = 1 } ∷ []) (record second_entry { entry_id = 2 })
          refl))
      (push [] [] (record first_entry { entry_id = 1 }) refl)

-- The journal is out of the order of its numbers then.
crossed_order : ids crossed.ledger.entries ≡ 2 ∷ 1 ∷ []
crossed_order = refl

Reach-IsComplete_example : IsComplete (crossed.ledger.entries ++ []) 2
Reach-IsComplete_example = Reach-IsComplete book refl refl crossed_reached

abbrev Crossing : Request → Type 0
Crossing r = (r ≡ commit "a" "b" 1 "t") ⊎ (r ≡ direct "b" "a" 2 "u")

Crossing-IsOrdered : (r : Request) → Crossing r → IsOrdered r
Crossing-IsOrdered (commit id dest x tx) h = tt
Crossing-IsOrdered (direct id dest x tx) h = tt
Crossing-IsOrdered r h = ground arith

ordered_no_deadlock_example : ¬ Waits book Crossing "a" "a"
ordered_no_deadlock_example = ordered_no_deadlock book Crossing Crossing-IsOrdered "a"

-- Alice's payment, reserved and not yet committed.
abbrev payment : Payment
payment = record { account_id = "alice"; merchant_id = "shop"; amount = 60; tx_id = "t1" }

abbrev waiting : World
waiting = record { ledger = (reserve_funds 3 "alice" 60 "t1" book).2; in_flight = payment ∷ [] }

waiting_reached : Reach (record { ledger = book; in_flight = [] }) waiting
unfolding ledger_code
waiting_reached = next here (
    begin 3 payment (reserve_funds 3 "alice" 60 "t1" book).0
      (reserve_funds 3 "alice" 60 "t1" book).2 (omega arith) refl refl)

none_held : (j : String) → reserved_of j book ≡ 0
unfolding lookup
none_held j = ground arith

Reach-IsBacked_example : IsBacked deficit_reserve_name waiting
Reach-IsBacked_example = Reach-IsBacked book (omega arith) none_held waiting_reached

commit_in_flight_example : (commit_hold 4 "alice" "shop" 60 "t1" waiting.ledger).0 ≡ none
commit_in_flight_example =
    commit_in_flight book (omega arith) none_held 4 [] [] payment waiting_reached refl
