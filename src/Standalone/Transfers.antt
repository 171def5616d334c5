-- ===== src/Standalone/Transfers.antt =====
-- The transfers of the ledger of fs2601_all_in_one.go: `DirectCommit`, `CommitOfflineAllowance` and
-- `DebitDeficitReserve`.
use payment_risk_engine.Prelude.{
  ℕ, ◌+◌, ◌%◌, String, ◌==◌, [], ◌∷◌, ◌++◌, Option, none, some, lookup, length, Int64, word, add64,
  sub64, lt64, le64, if◌then◌else◌,
}
use payment_risk_engine.Ledger.{Time}
use payment_risk_engine.Standalone.Answers.{account_deficit_reserve}
use payment_risk_engine.Standalone.Accounts.{
  Account, LedgerEntry, ConservingLedger, LedgerError, account_not_found, transfer_to_self,
  insufficient_online_funds, with_account, touched,
}

-- A debit of the online funds, and a credit to them.
unfoldable pub paid_out : Time → Int64 → Account → Account
paid_out now amount a =
    let online = sub64 a.online_available amount in
    touched now (record a {
      online_available = online;
      available_balance = online;
      total_balance = sub64 a.total_balance amount;
    })

unfoldable pub paid_in : Time → Int64 → Account → Account
paid_in now amount a =
    let online = add64 a.online_available amount in
    touched now (record a {
      online_available = online;
      available_balance = online;
      total_balance = add64 a.total_balance amount;
    })

-- The entry with the number `n + 1` where `n` precede it.
abbrev pub debit_entry : ℕ → Time → String → String → Int64 → LedgerEntry
debit_entry n now tx_id id amount = record {
  entry_id = (n + 1) % word;
  timestamp = now;
  tx_id = tx_id;
  account_id = id;
  debit = amount;
  credit = 0;
  description = "";
}

abbrev pub credit_entry : ℕ → Time → String → String → Int64 → LedgerEntry
credit_entry n now tx_id id amount = record {
  entry_id = (n + 1) % word;
  timestamp = now;
  tx_id = tx_id;
  account_id = id;
  debit = 0;
  credit = amount;
  description = "";
}

-- The two entries of a transfer: what the payer gives, and what the payee gets.
abbrev pub with_entries :
    Time → String → String → Int64 → String → Int64 → ConservingLedger → ConservingLedger
with_entries now tx_id from charge to amount l =
    let n = length l.entries in
    record l {
      entries =
          l.entries
          ++ (debit_entry n now tx_id from charge ∷ credit_entry (n + 1) now tx_id to amount ∷ []);
    }

abbrev pub direct_transfer :
    Time → String → String → Int64 → String → ConservingLedger → ConservingLedger
direct_transfer now from to amount tx_id l =
    with_entries now tx_id from amount to amount
      (with_account to (paid_in now amount) (with_account from (paid_out now amount) l))

-- `DirectCommit`
unfoldable pub direct_commit :
    Time
    → String
    → String
    → Int64
    → String
    → ConservingLedger
    → Option LedgerError × ConservingLedger
direct_commit now from to amount tx_id l = elim (lookup from l.accounts) [
  | none ↦ (some account_not_found, l)
  | some payer ↦ elim (lookup to l.accounts) [
    | none ↦ (some account_not_found, l)
    | some payee ↦
        if from == to
        then (some transfer_to_self, l)
        else if lt64 payer.online_available amount
        then (some insufficient_online_funds, l)
        else (none, direct_transfer now from to amount tx_id l)
  ]
]

-- `DebitDeficitReserve`
unfoldable pub debit_deficit_reserve : Time → Int64 → String → ConservingLedger → ConservingLedger
debit_deficit_reserve now amount tx_id l = elim (lookup account_deficit_reserve l.accounts) [
  | none ↦ l
  | some reserve ↦
      let l' = with_account account_deficit_reserve (paid_out now amount) l in
      record l' {
        entries =
            l.entries
            ++ debit_entry (length l.entries) now tx_id account_deficit_reserve amount ∷ [];
      }
]

-- How a call ends: a nil account panics, and a second lock of one account waits for ever.
pub data Ending (A : Type 0) : Type 0 where
  panics : Ending A
  blocks : Ending A
  ends : A → Ending A

-- What the customer is charged: the amount, or all of a smaller allowance.
unfoldable pub customer_charge : Int64 → Account → Int64
customer_charge amount a = if le64 amount a.offline_allowance then amount else a.offline_allowance

unfoldable pub deficit_delta : Int64 → Account → Int64
deficit_delta amount a =
    if le64 amount a.offline_allowance then 0 else sub64 amount a.offline_allowance

unfoldable pub offline_charged : Time → Int64 → Account → Account
offline_charged now amount a = touched now (record a {
  offline_allowance =
      if le64 amount a.offline_allowance then sub64 a.offline_allowance amount else 0;
  total_balance = sub64 a.total_balance (customer_charge amount a);
})

abbrev pub absorb : Time → Int64 → String → ConservingLedger → ConservingLedger
absorb now deficit tx_id l = if lt64 0 deficit then debit_deficit_reserve now deficit tx_id l else l

abbrev pub offline_transfer :
    Time → String → String → Int64 → String → Account → ConservingLedger → ConservingLedger
offline_transfer now from to amount tx_id payer l =
    with_entries now tx_id from (customer_charge amount payer) to amount (
      absorb now (deficit_delta amount payer) tx_id
        (with_account to (paid_in now amount) (with_account from (offline_charged now amount) l)))

-- `CommitOfflineAllowance`, which returns the deficit and no error.
unfoldable pub commit_offline_allowance :
    Time → String → String → Int64 → String → ConservingLedger → Ending (Int64 × ConservingLedger)
commit_offline_allowance now from to amount tx_id l = elim (lookup from l.accounts) [
  | none ↦ panics
  | some payer ↦ elim (lookup to l.accounts) [
    | none ↦ panics
    | some payee ↦
        if from == to
        then blocks
        else ends (deficit_delta amount payer, offline_transfer now from to amount tx_id payer l)
  ]
]
