-- ===== src/Ledger/Exact.antt =====
-- The balance updates of m2_conserving.go where nothing wraps: the exact change of the buckets.
use payment_risk_engine.Prelude.{◌+◌, ◌≤◌, ◌<◌, String, ◌≡◌, arith, Int64, half_word}
use payment_risk_engine.Ledger.Types.{
  Time, Account, credit_online, debit_online, debit_offline, debit_reserved, online_to_offline,
  online_to_reserved, reserved_to_online,
}
use payment_risk_engine.Ledger.Funds.{buckets}

module _ (now : Time) (x : Int64) (k : String) (a : Account) where
  pub exact_credit_online :
      buckets k a + x < half_word → buckets k (credit_online now x a) ≡ buckets k a + x
  unfolding credit_online
  exact_credit_online h = omega arith

  module _ (h : buckets k a < half_word) where
    pub exact_debit_online :
        x ≤ a.online_available → buckets k (debit_online now x a) + x ≡ buckets k a
    unfolding debit_online
    exact_debit_online c = omega arith

    pub exact_debit_offline :
        x ≤ a.offline_allowance → buckets k (debit_offline now x a) + x ≡ buckets k a
    unfolding debit_offline
    exact_debit_offline c = omega arith

    pub exact_debit_reserved :
        x ≤ a.reserved_balance → buckets k (debit_reserved now x a) + x ≡ buckets k a
    unfolding debit_reserved
    exact_debit_reserved c = omega arith

    pub exact_online_to_offline :
        x ≤ a.online_available → buckets k (online_to_offline now x a) ≡ buckets k a
    unfolding online_to_offline
    exact_online_to_offline c = omega arith

    pub exact_online_to_reserved :
        x ≤ a.online_available → buckets k (online_to_reserved now x a) ≡ buckets k a
    unfolding online_to_reserved
    exact_online_to_reserved c = omega arith

    pub exact_reserved_to_online :
        x ≤ a.reserved_balance → buckets k (reserved_to_online now x a) ≡ buckets k a
    unfolding reserved_to_online
    exact_reserved_to_online c = omega arith
