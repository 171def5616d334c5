-- ===== src/Ledger/Deficit.antt =====
-- The two ways to book a deficit. Both lock the two accounts one after the other without comparing
-- them, and Go's mutexes are not reentrant: on one account twice the call never returns.
use payment_risk_engine.Prelude.{String, ◌==◌, none, some, Int64, le64, ◌⧺◌, decimal, if◌then◌else◌}
use payment_risk_engine.Ledger.Types.{
  Time, invalid_amount, entry_deficit, LedgerEntry, ConservingLedger, Outcome, credit_online,
  debit_online,
}
use payment_risk_engine.Ledger.Accounts.{append_entry, create_account}
use payment_risk_engine.Ledger.Holds.{settle}

-- What a call that locks two accounts comes to.
pub data Call (A : Type 0) : Type 0 where
  blocked : Call A
  returned : A → Call A

-- One call after the other: nothing comes after a call that does not return.
abbrev pub and_then : {A B : Type 0} → Call A → (A → Call B) → Call B
and_then blocked f = blocked
and_then (returned a) f = f a

abbrev pub reserve_deficit_entry : Time → String → Int64 → String → ConservingLedger → LedgerEntry
reserve_deficit_entry now merchant_id amount tx_id l = record {
  entry_id = 0;
  tx_id = tx_id;
  entry_type = entry_deficit;
  debit_acc = l.deficit_reserve_account_id;
  credit_acc = merchant_id;
  amount = amount;
  timestamp = now;
  description =
      "Deficit liability of " ⧺ decimal amount ⧺ " cents charged to reserve for tx " ⧺ tx_id;
}

-- `DebitDeficitReserve`
unfoldable pub debit_deficit_reserve :
    Time → String → Int64 → String → ConservingLedger → Call Outcome
unfolding append_entry settle
debit_deficit_reserve now merchant_id amount tx_id l =
    let reserve = l.deficit_reserve_account_id in
    let l' = create_account now merchant_id 0 (create_account now reserve 0 l) in
    if le64 amount 0
    then returned (some invalid_amount, l)
    else if reserve == merchant_id
    then blocked
    else returned (
      none,
      append_entry (reserve_deficit_entry now merchant_id amount tx_id l)
          (settle reserve (debit_online now amount) merchant_id (credit_online now amount) l'),
    )

abbrev pub overdraft_entry : Time → String → String → Int64 → String → LedgerEntry
overdraft_entry now account_id dest amount tx_id = record {
  entry_id = 0;
  tx_id = tx_id;
  entry_type = entry_deficit;
  debit_acc = account_id;
  credit_acc = dest;
  amount = amount;
  timestamp = now;
  description = "Deficit settlement committed for partition tx " ⧺ tx_id;
}

-- `RecordDeficit`, which tests neither the sign of the amount nor the balance.
unfoldable pub record_deficit :
    Time → String → String → Int64 → String → ConservingLedger → Call Outcome
unfolding append_entry settle
record_deficit now account_id dest amount tx_id l =
    let l' = create_account now dest 0 (create_account now account_id 0 l) in
    if account_id == dest
    then blocked
    else returned (
      none,
      append_entry (overdraft_entry now account_id dest amount tx_id)
          (settle account_id (debit_online now amount) dest (credit_online now amount) l'),
    )
