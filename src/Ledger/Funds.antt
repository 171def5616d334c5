-- ===== src/Ledger/Funds.antt =====
-- The sum of all buckets of all accounts, under each update of the map.
use payment_risk_engine.Prelude.{
  ℕ, ◌+◌, ◌%◌, String, ◌≡◌, arith, [], ◌∷◌, Map, sum_by, Int64, word, add64,
}
use payment_risk_engine.Ledger.Types.{
  Time, Account, ConservingLedger, credit_online, debit_online, debit_offline, debit_reserved,
  online_to_offline, online_to_reserved, reserved_to_online,
}
use payment_risk_engine.Ledger.Audit.{audit_accounts, audit_conservation}

-- The three buckets of one account, as patterns.
abbrev pub buckets : String → Account → ℕ
buckets k a = a.online_available + a.offline_allowance + a.reserved_balance

abbrev pub funds : ConservingLedger → ℕ
funds l = sum_by buckets l.accounts

audit_accounts_lem :
    (av rs : Int64) (m : Map Account)
    → (((audit_accounts av rs m).0 + (audit_accounts av rs m).1) % word)
      ≡ ((av + rs + sum_by buckets m) % word)
unfolding audit_accounts
audit_accounts_lem av rs [] = omega arith
audit_accounts_lem av rs ((k, a) ∷ m) = omega (
  arith,
  audit_accounts_lem (add64 av (add64 a.online_available a.offline_allowance))
      (add64 rs a.reserved_balance) m,
)

-- The audit's total is the sum of the buckets, wrapped.
pub total_balance-funds :
    (l : ConservingLedger) → (audit_conservation l).total_balance ≡ funds l % word
unfolding audit_conservation
total_balance-funds l = omega (arith, audit_accounts_lem 0 0 l.accounts)

module _ (now : Time) (x : Int64) (a : Account) (k : String) where
  pub buckets-online_to_offline :
      (buckets k (online_to_offline now x a) % word) ≡ (buckets k a % word)
  unfolding online_to_offline
  buckets-online_to_offline = omega arith

  pub buckets-online_to_reserved :
      (buckets k (online_to_reserved now x a) % word) ≡ (buckets k a % word)
  unfolding online_to_reserved
  buckets-online_to_reserved = omega arith

  pub buckets-reserved_to_online :
      (buckets k (reserved_to_online now x a) % word) ≡ (buckets k a % word)
  unfolding reserved_to_online
  buckets-reserved_to_online = omega arith

  pub buckets-credit_online :
      (buckets k (credit_online now x a) % word) ≡ ((buckets k a + x) % word)
  unfolding credit_online
  buckets-credit_online = omega arith

  pub buckets-debit_online : ((buckets k (debit_online now x a) + x) % word) ≡ (buckets k a % word)
  unfolding debit_online
  buckets-debit_online = omega arith

  pub buckets-debit_offline :
      ((buckets k (debit_offline now x a) + x) % word) ≡ (buckets k a % word)
  unfolding debit_offline
  buckets-debit_offline = omega arith

  pub buckets-debit_reserved :
      ((buckets k (debit_reserved now x a) + x) % word) ≡ (buckets k a % word)
  unfolding debit_reserved
  buckets-debit_reserved = omega arith
