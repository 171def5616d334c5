-- ===== src/Ledger/Types.antt =====
-- The types of m2_conserving.go, and the balance updates that its operations repeat.
-- A `time.Time` is a number of nanoseconds; an `error` is `Option LedgerError`, `none` for nil.
use payment_risk_engine.Prelude.{ℕ, String, List, Option, Map, Int64, add64, sub64}

abbrev pub Time : Type 0
Time = ℕ

pub data LedgerError : Type 0 where
  account_not_found insufficient_funds invalid_amount reservation_not_found hold_mismatch :
      LedgerError

pub data EntryType : Type 0 where
  entry_reserve entry_commit entry_release entry_deficit : EntryType

pub record LedgerEntry : Type 0 where
  pub entry_id : Int64
  pub tx_id : String
  pub entry_type : EntryType
  pub debit_acc : String
  pub credit_acc : String
  pub amount : Int64
  pub timestamp : Time
  pub description : String

pub record Account : Type 0 where
  pub id : String
  pub available_balance : Int64
  pub online_available : Int64
  pub offline_allowance : Int64
  pub reserved_balance : Int64
  pub version : Int64
  pub updated_at : Time

pub record AccountSnapshot : Type 0 where
  pub id : String
  pub available_balance : Int64
  pub online_available : Int64
  pub offline_allowance : Int64
  pub reserved_balance : Int64
  pub total_balance : Int64
  pub version : Int64
  pub updated_at : Time

pub record Reservation : Type 0 where
  pub reservation_id : String
  pub account_id : String
  pub amount : Int64
  pub created_at : Time

-- The locks are left out: an operation is one step, and its order of locking is in `Ledger.Locks`.
pub record ConservingLedger : Type 0 where
  pub accounts : Map Account
  pub reservations : Map Reservation
  pub entries : List LedgerEntry
  pub entry_counter : Int64
  pub escrow_account_id : String
  pub clearing_account_id : String
  pub deficit_reserve_account_id : String
  pub account_deficit_reserve : String

abbrev pub Outcome : Type 0
Outcome = Option LedgerError × ConservingLedger

abbrev touch : Time → Account → Account
touch now a = record a { version = add64 a.version 1; updated_at = now }

-- `OnlineAvailable += amount`, with the alias, the version and the time
unfoldable pub credit_online : Time → Int64 → Account → Account
credit_online now amount a =
    let online = add64 a.online_available amount in
    touch now (record a { online_available = online; available_balance = online })

-- `OnlineAvailable -= amount`
unfoldable pub debit_online : Time → Int64 → Account → Account
debit_online now amount a =
    let online = sub64 a.online_available amount in
    touch now (record a { online_available = online; available_balance = online })

-- `OfflineAllowance -= amount`
unfoldable pub debit_offline : Time → Int64 → Account → Account
debit_offline now amount a =
    touch now (record a { offline_allowance = sub64 a.offline_allowance amount })

-- `ReservedBalance -= amount`
unfoldable pub debit_reserved : Time → Int64 → Account → Account
debit_reserved now amount a =
    touch now (record a { reserved_balance = sub64 a.reserved_balance amount })

-- Online funds to the offline allowance.
unfoldable pub online_to_offline : Time → Int64 → Account → Account
online_to_offline now amount a =
    let online = sub64 a.online_available amount in
    touch now (record a {
      online_available = online;
      available_balance = online;
      offline_allowance = add64 a.offline_allowance amount;
    })

-- Online funds to a hold.
unfoldable pub online_to_reserved : Time → Int64 → Account → Account
online_to_reserved now amount a =
    let online = sub64 a.online_available amount in
    touch now (record a {
      online_available = online;
      available_balance = online;
      reserved_balance = add64 a.reserved_balance amount;
    })

-- A hold back to the online funds.
unfoldable pub reserved_to_online : Time → Int64 → Account → Account
reserved_to_online now amount a =
    let online = add64 a.online_available amount in
    touch now (record a {
      reserved_balance = sub64 a.reserved_balance amount;
      online_available = online;
      available_balance = online;
    })
