-- ===== src/Reconcile/Within.antt =====
-- How much one transaction of a replay (m6_engine.go) can bring to the customers in the reserve mode.
use payment_risk_engine.Prelude.{
  ℕ, ◌+◌, ◌≤◌, ◌<◌, ◌≡◌, refl, ap, ◌∙◌, inl, inr, arith, String, false, ◌==◌, Bool-cases, Int64,
  word, half_word, sub64, lt64, le64, ◌⧺◌,
}
use payment_risk_engine.Edge.{QueuedTransaction}
use payment_risk_engine.Ledger.{
  Time, AccountSnapshot, ConservingLedger, Outcome, Call, blocked, returned, direct_commit,
  debit_deficit_reserve,
}
use payment_risk_engine.Ledger.Requests.{
  Request, commit_offline, direct, debit_reserve, perform, after, reserve_id-perform,
}
use payment_risk_engine.Ledger.Solvency.{customer_funds}
use payment_risk_engine.Ledger.NoOverdraft.{IsGuarded, inflow_of, customer_funds-perform}
use payment_risk_engine.Reconcile.Ends.{Ends}
use payment_risk_engine.Reconcile.Engine.{
  try_offline, try_online, try_funds, customer_covered, kept, charge_reserve,
}
use payment_risk_engine.Reconcile.Transfers.{covered_part}

-- The customers have at most n more, and the reserve is the same account.
pub record IsWithin (n : ℕ) (l l' : ConservingLedger) : Type 0 where
  pub funds : customer_funds l' ≤ customer_funds l + n
  pub same : l'.deficit_reserve_account_id ≡ l.deficit_reserve_account_id

pub IsWithin-refl : (n : ℕ) (l : ConservingLedger) → IsWithin n l l
IsWithin-refl n l = record { funds = omega arith; same = refl }

pub IsWithin-trans :
    {m n : ℕ} {a b c : ConservingLedger} → IsWithin m a b → IsWithin n b c → IsWithin (m + n) a c
IsWithin-trans p q = record { funds = omega (arith, p.funds, q.funds); same = q.same ∙ p.same }

-- One call of the ledger.
perform-IsWithin :
    (now : Time) (r : Request) (l : ConservingLedger)
    → IsGuarded r
    → customer_funds l + inflow_of r l < half_word
    → IsWithin (inflow_of r l) l (after l (perform now r l))
perform-IsWithin now r l g b = record {
  funds = customer_funds-perform now r l g b;
  same = reserve_id-perform now r l;
}

module _ (now : Time) (tx : QueuedTransaction) (snap : AccountSnapshot) (l : ConservingLedger)
    (apart : (tx.account_id == l.deficit_reserve_account_id) ≡ false)
    (bound : customer_funds l < half_word) where
  direct-IsWithin :
      (x : Int64) (id : String)
      → x < word
      → IsWithin 0 l (direct_commit now tx.account_id tx.merchant_id x id l).1
  unfolding perform inflow_of
  direct-IsWithin x id w =
      let p =
        perform-IsWithin now (direct tx.account_id tx.merchant_id x id) l w
          (ground (arith, apart, bound)) in
      record { funds = ground (arith, p.funds, apart); same = p.same }

  offline-IsWithin : tx.amount < word → IsWithin 0 l (try_offline now tx snap l).1
  unfolding try_offline perform inflow_of
  offline-IsWithin w = elim (Bool-cases (le64 tx.amount snap.offline_allowance)) [
    | inr e ↦ rw e (IsWithin-refl 0 l)
    | inl e ↦
        let p =
          perform-IsWithin now (commit_offline tx.account_id tx.merchant_id tx.amount tx.tx_id) l w
            (ground (arith, apart, bound)) in
        rw e (record { funds = ground (arith, p.funds, apart); same = p.same })
  ]

  online-IsWithin : tx.amount < word → IsWithin 0 l (try_online now tx snap l).1
  unfolding try_online
  online-IsWithin w = elim (Bool-cases (le64 tx.amount snap.online_available)) [
    | inr e ↦ rw e (IsWithin-refl 0 l)
    | inl e ↦ rw e (direct-IsWithin tx.amount tx.tx_id w)
  ]

kept-IsWithin :
    (l l1 : ConservingLedger) (c : Call Outcome) (n : ℕ)
    → IsWithin n l (after l1 c)
    → Ends (kept c) (IsWithin n l)
kept-IsWithin l l1 blocked n q = tt
kept-IsWithin l l1 (returned (err, l')) n q = q

-- The reserve is another account than the payer after a call, too.
pub apart_after :
    (tx : QueuedTransaction) {n : ℕ} {l l' : ConservingLedger}
    → IsWithin n l l'
    → (tx.account_id == l.deficit_reserve_account_id) ≡ false
    → (tx.account_id == l'.deficit_reserve_account_id) ≡ false
apart_after tx p apart = ap (λ id. tx.account_id == id) p.same ∙ apart

module _ (now : Time) (tx : QueuedTransaction) (snap : AccountSnapshot) (l : ConservingLedger)
    (apart : (tx.account_id == l.deficit_reserve_account_id) ≡ false) where
  pub try_funds-IsWithin :
      customer_funds l < half_word → tx.amount < word → IsWithin 0 l (try_funds now tx snap l).1
  unfolding try_funds
  try_funds-IsWithin bound w =
      let p = offline-IsWithin now tx snap l apart bound w in
      elim (Bool-cases (try_offline now tx snap l).0) [
        | inl e ↦ rw e p
        | inr e ↦ rw e (
            IsWithin-trans p (
              online-IsWithin now tx snap (try_offline now tx snap l).1 (apart_after tx p apart)
                (omega (arith, p.funds, bound)) w))
      ]

  covered_part-IsWithin :
      customer_funds l < half_word
      → snap.online_available < word
      → tx.amount < word
      → IsWithin 0 l (covered_part now tx snap l)
  unfolding covered_part customer_covered
  covered_part-IsWithin bound have w =
      let x = customer_covered snap.online_available tx.amount in
      elim (Bool-cases (lt64 0 x)) [
        | inr e ↦ rw e (IsWithin-refl 0 l)
        | inl e ↦ rw e (
            direct-IsWithin now tx snap l apart bound x (tx.tx_id ⧺ "-USER")
              (ground (arith, have, w)))
      ]

  -- What the reserve pays is at most the amount.
  uncovered_le :
      snap.online_available < word
      → tx.amount < half_word
      → sub64 tx.amount (customer_covered snap.online_available tx.amount) ≤ tx.amount
  unfolding customer_covered lt64
  uncovered_le have w = ground (arith, have, w)

  pub charge_reserve-IsWithin :
      customer_funds l + tx.amount < half_word
      → snap.online_available < word
      → Ends (charge_reserve now tx snap l) (IsWithin tx.amount l)
  unfolding charge_reserve covered_part perform inflow_of
  charge_reserve-IsWithin bound have =
      let rest = sub64 tx.amount (customer_covered snap.online_available tx.amount) in
      let id = tx.tx_id ⧺ "-RESERVE" in
      let small = uncovered_le have (omega (arith, bound)) in
      let p = covered_part-IsWithin (omega (arith, bound)) have (omega (arith, bound)) in
      let l1 = covered_part now tx snap l in
      elim (Bool-cases (lt64 0 rest)) [
        | inr e ↦ rw e (record { funds = omega (arith, p.funds); same = p.same })
        | inl e ↦ rw e (
            kept-IsWithin l l1 (debit_deficit_reserve now tx.merchant_id rest id l1) tx.amount (
              let q =
                perform-IsWithin now (debit_reserve tx.merchant_id rest id) l1 tt
                  (omega (arith, p.funds, bound, small)) in
              record { funds = omega (arith, p.funds, q.funds, small); same = q.same ∙ p.same }))
      ]
