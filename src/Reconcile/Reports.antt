-- ===== src/Reconcile/Reports.antt =====
-- The records of m6_engine.go: deficits, the report, and the reconciler.
use payment_risk_engine.Prelude.{ℕ, String, Bool, false, List, [], Map, Int64}
use payment_risk_engine.Ledger.{Time, ConservingLedger}

pub record DeficitRecord : Type 0 where
  pub tx_id : String
  pub account_id : String
  pub merchant_id : String
  pub amount : Int64
  pub available_on_core : Int64
  pub deficit_amount : Int64
  pub flagged_for_alert : Bool
  pub created_at : Time
  pub reason : String

-- The counts are no larger than the slice replayed, so that they do not wrap.
pub record ReconciliationReport : Type 0 where
  pub total_processed : ℕ
  pub successful_count : ℕ
  pub deficit_count : ℕ
  pub duplicate_count : ℕ
  pub total_amount_reconciled : Int64
  pub total_deficit_amount : Int64
  pub deficit_records : List DeficitRecord
  pub started_at : Time
  pub completed_at : Time

pub record Reconciler : Type 0 where
  pub ledger : ConservingLedger
  pub seen_hashes : Map Bool
  pub deficit_logs : List DeficitRecord
  pub use_deficit_reserve : Bool

-- `NewReconciler`
unfoldable pub new_reconciler : ConservingLedger → Reconciler
new_reconciler core_ledger = record {
  ledger = core_ledger;
  seen_hashes = [];
  deficit_logs = [];
  use_deficit_reserve = false;
}

-- `SetUseDeficitReserve`
unfoldable pub set_use_deficit_reserve : Bool → Reconciler → Reconciler
set_use_deficit_reserve enabled r = record r { use_deficit_reserve = enabled }

-- `GetDeficitLogs`
unfoldable pub get_deficit_logs : Reconciler → List DeficitRecord
get_deficit_logs r = r.deficit_logs
