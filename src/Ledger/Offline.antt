-- ===== src/Ledger/Offline.antt =====
-- The offline allowance: its pre-reservation and its settlement.
use payment_risk_engine.Prelude.{
  String, none, some, lookup, Int64, lt64, le64, ◌⧺◌, decimal, if◌then◌else◌,
}
use payment_risk_engine.Ledger.Types.{
  Time, account_not_found, insufficient_funds, invalid_amount, entry_reserve, entry_commit,
  LedgerEntry, ConservingLedger, Outcome, credit_online, debit_offline, online_to_offline,
}
use payment_risk_engine.Ledger.Accounts.{append_entry, on_account, create_account}
use payment_risk_engine.Ledger.Holds.{settle}

abbrev pub allocate_entry : Time → String → Int64 → LedgerEntry
allocate_entry now account_id amount = record {
  entry_id = 0;
  tx_id = "ALLOC-" ⧺ account_id ⧺ "-" ⧺ decimal now;
  entry_type = entry_reserve;
  debit_acc = account_id ⧺ "_ONLINE";
  credit_acc = account_id ⧺ "_OFFLINE";
  amount = amount;
  timestamp = now;
  description = "Pre-reserved " ⧺ decimal amount ⧺ " cents to OfflineAllowance";
}

-- `AllocateOfflineAllowance`
unfoldable pub allocate_offline_allowance : Time → String → Int64 → ConservingLedger → Outcome
unfolding append_entry on_account
allocate_offline_allowance now account_id amount l =
    if le64 amount 0 then (some invalid_amount, l) else elim (lookup account_id l.accounts) [
      | none ↦ (some account_not_found, l)
      | some acc ↦ if lt64 acc.online_available amount then (some insufficient_funds, l) else (
        none,
        append_entry (allocate_entry now account_id amount)
            (on_account account_id (online_to_offline now amount) l),
      )
    ]

abbrev pub settle_entry : Time → String → String → Int64 → String → LedgerEntry
settle_entry now account_id dest amount tx_id = record {
  entry_id = 0;
  tx_id = tx_id;
  entry_type = entry_commit;
  debit_acc = account_id ⧺ "_OFFLINE";
  credit_acc = dest;
  amount = amount;
  timestamp = now;
  description = "Settled " ⧺ decimal amount ⧺ " cents from OfflineAllowance to " ⧺ dest;
}

-- `CommitOfflineAllowance`
unfoldable pub commit_offline_allowance :
    Time → String → String → Int64 → String → ConservingLedger → Outcome
unfolding append_entry settle
commit_offline_allowance now account_id dest amount tx_id l =
    if le64 amount 0 then (some invalid_amount, l) else elim (lookup account_id l.accounts) [
      | none ↦ (some account_not_found, l)
      | some acc ↦
          let l' = create_account now dest 0 l in
          if lt64 acc.offline_allowance amount then (some insufficient_funds, l') else (
            none,
            append_entry (settle_entry now account_id dest amount tx_id)
                (settle account_id (debit_offline now amount) dest (credit_online now amount) l'),
          )
    ]
