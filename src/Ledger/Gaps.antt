-- ===== src/Ledger/Gaps.antt =====
-- Where m2_conserving.go promises more than it does: its global check, and the release of a hold.
use payment_risk_engine.Prelude.{
  ℕ, ◌-◌, ◌<◌, String, ◌≡◌, refl, none, some, arith, [], ◌∷◌, List, eq_iff, lookup, lookup-adjust,
  Int64, word, half_word, true, IsNonneg, add64, lt64,
}
use payment_risk_engine.Ledger.Types.{
  Time, LedgerEntry, Account, ConservingLedger, reserved_to_online,
}
use payment_risk_engine.Ledger.Holds.{release_hold}
use payment_risk_engine.Ledger.Audit.{sum_entries, check_global_invariant}

sum_entries_same :
    (s : Int64) (es : List LedgerEntry) → (sum_entries s s es).0 ≡ (sum_entries s s es).1
unfolding sum_entries
sum_entries_same s [] = refl
sum_entries_same s (e ∷ es) = sum_entries_same (add64 s e.amount) es

-- `CheckGlobalInvariant` returns nil for every ledger at all, whatever its entries and balances.
pub check_global_invariant_vacuous : (l : ConservingLedger) → check_global_invariant l ≡ none
unfolding check_global_invariant
check_global_invariant_vacuous l = ground (arith, sum_entries_same 0 l.entries)

-- With the amount -m, where m exceeds the online funds, `ReleaseHold` succeeds on an account whose
-- balances are 0 or more and leaves its online balance below zero.
pub release_hold_overdraws :
    (now : Time) (id tx : String) (m : ℕ) (l : ConservingLedger) (a : Account)
    → lookup id l.accounts ≡ some a
    → IsNonneg a.online_available
    → IsNonneg a.reserved_balance
    → a.online_available < m
    → m < half_word
    → ((release_hold now id (word - m) tx l).0 ≡ none)
      × ((b : Account) × (lookup id (release_hold now id (word - m) tx l).1.accounts ≡ some b)
          × (lt64 b.online_available 0 ≡ true))
unfolding release_hold reserved_to_online lt64
release_hold_overdraws now id tx m l a h on res short small = (
  ground arith,
  (
    reserved_to_online now (word - m) a,
    ground
        (arith, eq_iff id id, lookup-adjust id id (reserved_to_online now (word - m)) l.accounts),
    ground arith,
  ),
)
