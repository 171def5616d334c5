-- ===== src/Ledger/Audit.antt =====
-- The two audits of the ledger.
use payment_risk_engine.Prelude.{
  ℕ, String, [], ◌∷◌, List, Option, none, some, Map, Int64, add64, eqb, ◌⧺◌, decimal, length,
  if◌then◌else◌,
}
use payment_risk_engine.Ledger.Types.{LedgerEntry, Account, ConservingLedger}

-- The loop of `CheckGlobalInvariant`: both sums grow by the same field.
unfoldable pub sum_entries : Int64 → Int64 → List LedgerEntry → Int64 × Int64
sum_entries debits credits [] = (debits, credits)
sum_entries debits credits (entry ∷ rest) =
    sum_entries (add64 debits entry.amount) (add64 credits entry.amount) rest

-- `CheckGlobalInvariant`; `none` is the nil error.
unfoldable pub check_global_invariant : ConservingLedger → Option String
unfolding sum_entries
check_global_invariant l =
    let (debits, credits) = sum_entries 0 0 l.entries in
    if eqb debits credits
    then none
    else some
        ("debit sum (" ⧺ decimal debits ⧺ ") does not match credit sum (" ⧺ decimal credits ⧺ ")")

-- The loop of `AuditConservation`.
unfoldable pub audit_accounts : Int64 → Int64 → Map Account → Int64 × Int64
audit_accounts available reserved [] = (available, reserved)
audit_accounts available reserved ((k, acc) ∷ rest) =
    audit_accounts (add64 available (add64 acc.online_available acc.offline_allowance))
      (add64 reserved acc.reserved_balance) rest

pub record AuditTotals : Type 0 where
  pub total_available : Int64
  pub total_reserved : Int64
  pub total_balance : Int64
  pub entry_count : ℕ

-- `AuditConservation`
unfoldable pub audit_conservation : ConservingLedger → AuditTotals
unfolding audit_accounts
audit_conservation l =
    let (available, reserved) = audit_accounts 0 0 l.accounts in
    record {
      total_available = available;
      total_reserved = reserved;
      total_balance = add64 available reserved;
      entry_count = length l.entries;
    }
