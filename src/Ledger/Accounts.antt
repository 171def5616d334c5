-- ===== src/Ledger/Accounts.antt =====
-- Creating, funding and reading accounts, and the journal of entries.
use payment_risk_engine.Prelude.{
  String, [], ◌∷◌, ◌++◌, Option, none, some, lookup, insert, adjust, Int64, add64, ◌⧺◌, decimal,
}
use payment_risk_engine.Ledger.Types.{
  Time, LedgerError, account_not_found, entry_commit, LedgerEntry, Account, AccountSnapshot,
  ConservingLedger, Outcome, credit_online,
}

-- The first statement of `appendEntry`: the counter goes up by one atomically, before the lock of the
-- entries is taken.
abbrev pub take_number : LedgerEntry → ConservingLedger → LedgerEntry × ConservingLedger
take_number entry l =
    let counter = add64 l.entry_counter 1 in
    (record entry { entry_id = counter }, record l { entry_counter = counter })

-- The rest of it: the numbered entry goes to the end, under the lock.
abbrev pub push_entry : LedgerEntry → ConservingLedger → ConservingLedger
push_entry entry l = record l { entries = l.entries ++ entry ∷ [] }

-- `appendEntry`, of a call that no other call meets between the two.
unfoldable pub append_entry : LedgerEntry → ConservingLedger → ConservingLedger
append_entry entry l = let (numbered, l') = take_number entry l in push_entry numbered l'

unfoldable pub on_account : String → (Account → Account) → ConservingLedger → ConservingLedger
on_account id f l = record l { accounts = adjust id f l.accounts }

abbrev pub new_account : Time → String → Int64 → Account
new_account now id initial = record {
  id = id;
  available_balance = initial;
  online_available = initial;
  offline_allowance = 0;
  reserved_balance = 0;
  version = 1;
  updated_at = now;
}

-- `CreateAccount`: the account that it returns is the one that the map then holds.
unfoldable pub create_account : Time → String → Int64 → ConservingLedger → ConservingLedger
create_account now id initial l = elim (lookup id l.accounts) [
  | some acc ↦ l
  | none ↦ record l { accounts = insert id (new_account now id initial) l.accounts }
]

abbrev pub deficit_reserve_name : String
deficit_reserve_name = "ACC_MERCHANT_DEFICIT_RESERVE"

abbrev empty_ledger : ConservingLedger
empty_ledger = record {
  accounts = [];
  reservations = [];
  entries = [];
  entry_counter = 0;
  escrow_account_id = "SYSTEM_ESCROW";
  clearing_account_id = "SYSTEM_CLEARING";
  deficit_reserve_account_id = deficit_reserve_name;
  account_deficit_reserve = deficit_reserve_name;
}

-- `NewConservingLedger`
unfoldable pub new_conserving_ledger : Time → ConservingLedger
unfolding create_account
new_conserving_ledger now =
    let l = empty_ledger in
    create_account now l.deficit_reserve_account_id 0
      (create_account now l.clearing_account_id 0 (create_account now l.escrow_account_id 0 l))

abbrev pub fund_entry : Time → String → Int64 → LedgerEntry
fund_entry now id amount = record {
  entry_id = 0;
  tx_id = "FUND-" ⧺ id ⧺ "-" ⧺ decimal now;
  entry_type = entry_commit;
  debit_acc = "SYSTEM_CAPITAL";
  credit_acc = id;
  amount = amount;
  timestamp = now;
  description = "Funded " ⧺ decimal amount ⧺ " cents to " ⧺ id;
}

-- `FundAccount`
unfoldable pub fund_account : Time → String → Int64 → ConservingLedger → Outcome
unfolding append_entry on_account
fund_account now id amount l = elim (lookup id l.accounts) [
  | none ↦ (some account_not_found, l)
  | some acc ↦
      (none, append_entry (fund_entry now id amount) (on_account id (credit_online now amount) l))
]

abbrev pub snapshot : Account → AccountSnapshot
snapshot acc = record {
  id = acc.id;
  available_balance = acc.online_available;
  online_available = acc.online_available;
  offline_allowance = acc.offline_allowance;
  reserved_balance = acc.reserved_balance;
  total_balance = add64 (add64 acc.online_available acc.offline_allowance) acc.reserved_balance;
  version = acc.version;
  updated_at = acc.updated_at;
}

-- The zero value `AccountSnapshot{}`; the zero time is 0 here.
abbrev pub empty_snapshot : AccountSnapshot
empty_snapshot = record {
  id = "";
  available_balance = 0;
  online_available = 0;
  offline_allowance = 0;
  reserved_balance = 0;
  total_balance = 0;
  version = 0;
  updated_at = 0;
}

-- `GetAccount`
unfoldable pub get_account : String → ConservingLedger → AccountSnapshot × Option LedgerError
get_account id l = elim (lookup id l.accounts) [
  | none ↦ (empty_snapshot, some account_not_found)
  | some acc ↦ (snapshot acc, none)
]

-- `GetAccountSnapshot`
unfoldable pub get_account_snapshot : String → ConservingLedger → AccountSnapshot
unfolding get_account
get_account_snapshot id l = (get_account id l).0
