-- ===== src/Ledger/Holds.antt =====
-- Reserving online funds, committing a hold, the direct commit, and the release.
use payment_risk_engine.Prelude.{
  String, Option, none, some, lookup, insert, Int64, lt64, le64, ◌⧺◌, decimal, if◌then◌else◌,
}
use payment_risk_engine.Ledger.Types.{
  Time, LedgerError, account_not_found, insufficient_funds, invalid_amount, hold_mismatch,
  entry_reserve, entry_commit, entry_release, LedgerEntry, Account, ConservingLedger, Outcome,
  credit_online, debit_online, debit_reserved, online_to_reserved, reserved_to_online,
}
use payment_risk_engine.Ledger.Accounts.{append_entry, on_account, create_account}

abbrev pub reservation_id : Time → String → String
reservation_id now tx_id = "RES-" ⧺ tx_id ⧺ "-" ⧺ decimal now

abbrev pub reserve_entry : Time → String → Int64 → String → ConservingLedger → LedgerEntry
reserve_entry now account_id amount tx_id l = record {
  entry_id = 0;
  tx_id = tx_id;
  entry_type = entry_reserve;
  debit_acc = account_id;
  credit_acc = l.escrow_account_id;
  amount = amount;
  timestamp = now;
  description = "Funds reserved under " ⧺ reservation_id now tx_id;
}

abbrev pub add_reservation : Time → String → Int64 → String → ConservingLedger → ConservingLedger
add_reservation now account_id amount tx_id l =
    let id = reservation_id now tx_id in
    record l {
      reservations =
          insert id
            (record {
              reservation_id = id;
              account_id = account_id;
              amount = amount;
              created_at = now;
            })
            l.reservations;
    }

-- `ReserveFunds`; the text that comes back is the reservation's id.
unfoldable pub reserve_funds :
    Time
    → String
    → Int64
    → String
    → ConservingLedger
    → String × Option LedgerError × ConservingLedger
unfolding append_entry on_account
reserve_funds now account_id amount tx_id l =
    if le64 amount 0 then ("", some invalid_amount, l) else elim (lookup account_id l.accounts) [
      | none ↦ ("", some account_not_found, l)
      | some acc ↦ if lt64 acc.online_available amount then ("", some insufficient_funds, l) else (
        reservation_id now tx_id,
        none,
        append_entry (reserve_entry now account_id amount tx_id l) (
            add_reservation now account_id amount tx_id
              (on_account account_id (online_to_reserved now amount) l)),
      )
    ]

abbrev pub commit_entry : Time → String → Int64 → String → ConservingLedger → LedgerEntry
commit_entry now dest amount tx_id l = record {
  entry_id = 0;
  tx_id = tx_id;
  entry_type = entry_commit;
  debit_acc = l.escrow_account_id;
  credit_acc = dest;
  amount = amount;
  timestamp = now;
  description = "Settlement committed to " ⧺ dest;
}

-- A debit, then a credit through the second pointer, which may be the first: the two updates
-- follow one another on the map.
unfoldable pub settle :
    String
    → (Account → Account)
    → String
    → (Account → Account)
    → ConservingLedger
    → ConservingLedger
unfolding on_account
settle account_id debit dest credit l = on_account dest credit (on_account account_id debit l)

-- `CommitHold`. A missing destination is created before the balance is tested.
unfoldable pub commit_hold : Time → String → String → Int64 → String → ConservingLedger → Outcome
unfolding append_entry settle
commit_hold now account_id dest amount tx_id l =
    if le64 amount 0 then (some invalid_amount, l) else elim (lookup account_id l.accounts) [
      | none ↦ (some account_not_found, l)
      | some acc ↦
          let l' = create_account now dest 0 l in
          if lt64 acc.reserved_balance amount then (some hold_mismatch, l') else (
            none,
            append_entry (commit_entry now dest amount tx_id l)
                (settle account_id (debit_reserved now amount) dest (credit_online now amount) l'),
          )
    ]

abbrev pub direct_entry : Time → String → String → Int64 → String → LedgerEntry
direct_entry now account_id dest amount tx_id = record {
  entry_id = 0;
  tx_id = tx_id;
  entry_type = entry_commit;
  debit_acc = account_id;
  credit_acc = dest;
  amount = amount;
  timestamp = now;
  description = "Direct authorization committed to " ⧺ dest;
}

-- `DirectCommit`
unfoldable pub direct_commit : Time → String → String → Int64 → String → ConservingLedger → Outcome
unfolding append_entry settle
direct_commit now account_id dest amount tx_id l =
    if le64 amount 0 then (some invalid_amount, l) else elim (lookup account_id l.accounts) [
      | none ↦ (some account_not_found, l)
      | some acc ↦
          let l' = create_account now dest 0 l in
          if lt64 acc.online_available amount then (some insufficient_funds, l') else (
            none,
            append_entry (direct_entry now account_id dest amount tx_id)
                (settle account_id (debit_online now amount) dest (credit_online now amount) l'),
          )
    ]

abbrev pub release_entry : Time → String → Int64 → String → ConservingLedger → LedgerEntry
release_entry now account_id amount tx_id l = record {
  entry_id = 0;
  tx_id = tx_id;
  entry_type = entry_release;
  debit_acc = l.escrow_account_id;
  credit_acc = account_id;
  amount = amount;
  timestamp = now;
  description = "Hold released for tx " ⧺ tx_id;
}

-- `ReleaseHold`, which does not test the sign of its amount.
unfoldable pub release_hold : Time → String → Int64 → String → ConservingLedger → Outcome
unfolding append_entry on_account
release_hold now account_id amount tx_id l = elim (lookup account_id l.accounts) [
  | none ↦ (some account_not_found, l)
  | some acc ↦ if lt64 acc.reserved_balance amount then (some hold_mismatch, l) else (
    none,
    append_entry (release_entry now account_id amount tx_id l)
        (on_account account_id (reserved_to_online now amount) l),
  )
]
