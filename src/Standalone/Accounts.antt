-- ===== src/Standalone/Accounts.antt =====
-- The accounts of the ledger of fs2601_all_in_one.go.
use payment_risk_engine.Prelude.{
  ℕ, String, List, [], ◌∷◌, Option, none, some, Map, lookup, insert, adjust, length, Int64, add64,
  sub64, lt64, le64, ◌⧺◌, decimal, if◌then◌else◌,
}
use payment_risk_engine.Ledger.{Time}
use payment_risk_engine.Standalone.Answers.{account_deficit_reserve}

pub record Account : Type 0 where
  pub id : String
  pub available_balance : Int64
  pub online_available : Int64
  pub offline_allowance : Int64
  pub reserved_balance : Int64
  pub total_balance : Int64
  pub version : Int64
  pub updated_at : Time

pub record LedgerEntry : Type 0 where
  pub entry_id : Int64
  pub timestamp : Time
  pub tx_id : String
  pub account_id : String
  pub debit : Int64
  pub credit : Int64
  pub description : String

pub record ConservingLedger : Type 0 where
  pub accounts : Map Account
  pub entries : List LedgerEntry
  pub reservations : Map Int64

-- The errors, by their texts.
pub data LedgerError : Type 0 where
  account_not_found insufficient_online_balance invalid_amount insufficient_funds : LedgerError
  transfer_to_self insufficient_online_funds : LedgerError

abbrev pub opened : Time → String → Int64 → Account
opened now id balance = record {
  id = id;
  available_balance = balance;
  online_available = balance;
  offline_allowance = 0;
  reserved_balance = 0;
  total_balance = balance;
  version = 1;
  updated_at = now;
}

-- `CreateAccount`
unfoldable pub create_account : Time → String → Int64 → ConservingLedger → ConservingLedger
create_account now id initial l = elim (lookup id l.accounts) [
  | some acc ↦ l
  | none ↦ record l { accounts = insert id (opened now id initial) l.accounts }
]

abbrev pub with_account : String → (Account → Account) → ConservingLedger → ConservingLedger
with_account id write l = record l { accounts = adjust id write l.accounts }

-- The end of each update.
abbrev pub touched : Time → Account → Account
touched now a = record a { version = add64 a.version 1; updated_at = now }

unfoldable pub funded : Time → Int64 → Account → Account
funded now amount a = touched now (record a {
  online_available = add64 a.online_available amount;
  available_balance = add64 a.available_balance amount;
  total_balance = add64 a.total_balance amount;
})

-- `FundAccount`, which opens an account that is missing and returns no error.
unfoldable pub fund_account : Time → String → Int64 → ConservingLedger → ConservingLedger
fund_account now id amount l = with_account id (funded now amount) (create_account now id 0 l)

unfoldable pub allocated : Time → Int64 → Account → Account
allocated now amount a =
    let online = sub64 a.online_available amount in
    touched now (record a {
      online_available = online;
      available_balance = online;
      offline_allowance = add64 a.offline_allowance amount;
    })

-- `AllocateOfflineAllowance`
unfoldable pub allocate_offline_allowance :
    Time → String → Int64 → ConservingLedger → Option LedgerError × ConservingLedger
allocate_offline_allowance now id amount l = elim (lookup id l.accounts) [
  | none ↦ (some account_not_found, l)
  | some acc ↦
      if lt64 acc.online_available amount
      then (some insufficient_online_balance, l)
      else (none, with_account id (allocated now amount) l)
]

unfoldable pub held : Time → Int64 → Account → Account
held now amount a =
    let online = sub64 a.online_available amount in
    touched now (record a {
      online_available = online;
      available_balance = online;
      reserved_balance = add64 a.reserved_balance amount;
    })

abbrev hold_id : Time → String → String
hold_id now tx_id = "HOLD-" ⧺ tx_id ⧺ "-" ⧺ decimal now

abbrev pub with_hold : Time → String → Int64 → ConservingLedger → ConservingLedger
with_hold now tx_id amount l = record l {
  reservations = insert (hold_id now tx_id) amount l.reservations;
}

-- `ReserveFunds`: nothing in the program commits or releases a hold.
unfoldable pub reserve_funds :
    Time
    → String
    → Int64
    → String
    → ConservingLedger
    → String × Option LedgerError × ConservingLedger
reserve_funds now id amount tx_id l =
    if le64 amount 0 then ("", some invalid_amount, l) else elim (lookup id l.accounts) [
      | none ↦ ("", some account_not_found, l)
      | some acc ↦ if lt64 acc.online_available amount then ("", some insufficient_funds, l) else (
        hold_id now tx_id,
        none,
        with_hold now tx_id amount (with_account id (held now amount) l),
      )
    ]

-- `AuditConservation`: the sum of the totals, and the number of entries.
unfoldable pub audit_accounts : Int64 → Map Account → Int64
audit_accounts total [] = total
audit_accounts total ((key, a) ∷ m) = audit_accounts (add64 total a.total_balance) m

unfoldable pub audit_conservation : ConservingLedger → Int64 × ℕ
audit_conservation l = (audit_accounts 0 l.accounts, length l.entries)

-- `NewConservingLedger`
unfoldable pub new_conserving_ledger : Time → ConservingLedger
new_conserving_ledger now =
    create_account now account_deficit_reserve 100000000
      (record { accounts = []; entries = []; reservations = [] })
