-- ===== src/Standalone/Soundness.antt =====
-- The transfers of fs2601_all_in_one.go keep the reserve's account and the signs of the allowances,
-- on which the conservation of the total rests.
use payment_risk_engine.Prelude.{
  ◌%◌, String, ◌≡◌, refl, sym, ◌∙◌, inl, inr, arith, ◌==◌, Bool-cases, Option-cases, List, [], ◌∷◌,
  lookup, Int64, word, IsNonneg, lt64, add64, Each, Each-adjust, All,
}
use mathlib.Core.Path.{subst}
use payment_risk_engine.Prelude.Sorting.{insertion_sort}
use payment_risk_engine.Prelude.Sorting.Elements.{All-insertion_sort}
use payment_risk_engine.Ledger.{Time}
use payment_risk_engine.Standalone.{
  Account, ConservingLedger, account_deficit_reserve, with_account, paid_out, paid_in,
  direct_commit, debit_deficit_reserve, deficit_delta, offline_charged, absorb, offline_transfer,
  commit_offline_allowance, ends, QueuedTx, goes_before, sort_queue, replay_each, replay,
}
use payment_risk_engine.Standalone.Existing.{
  with_account-SameAccounts, offline_transfer-SameAccounts,
}
use payment_risk_engine.Standalone.Payable.{
  commit_offline_ends, commit_offline_result, Ending-cases, ends-injective,
}
use payment_risk_engine.Standalone.Total.{IsSound, totals, totals-offline_transfer}

abbrev Allowances : ConservingLedger → Type 0
Allowances l = Each (λ a. IsNonneg a.offline_allowance) l.accounts

module _ (now : Time) (x : Int64) where
  paid_in-Allowances :
      (id : String) (l : ConservingLedger)
      → Allowances l
      → Allowances (with_account id (paid_in now x) l)
  unfolding paid_in
  paid_in-Allowances id l h = Each-adjust _ id (paid_in now x) l.accounts (λ a n. n) h

  paid_out-Allowances :
      (id : String) (l : ConservingLedger)
      → Allowances l
      → Allowances (with_account id (paid_out now x) l)
  unfolding paid_out
  paid_out-Allowances id l h = Each-adjust _ id (paid_out now x) l.accounts (λ a n. n) h

  charged-Allowances :
      (id : String) (l : ConservingLedger)
      → IsNonneg x
      → Allowances l
      → Allowances (with_account id (offline_charged now x) l)
  unfolding offline_charged lt64
  charged-Allowances id l nonneg h =
      Each-adjust _ id (offline_charged now x) l.accounts (λ a n. ground (arith, n)) h

  absorb-Allowances :
      (tx : String) (l : ConservingLedger) → Allowances l → Allowances (absorb now x tx l)
  unfolding debit_deficit_reserve
  absorb-Allowances tx l h = elim (Bool-cases (lt64 0 x)) [
    | inr e ↦ rw e h
    | inl e ↦ elim (Option-cases (lookup account_deficit_reserve l.accounts)) [
      | inl new ↦ rw (e, new, debit_deficit_reserve) h
      | inr (a, old) ↦
          rw (e, old, debit_deficit_reserve) (paid_out-Allowances account_deficit_reserve l h)
    ]
  ]

module _ (now : Time) (x : Int64) (tx : String) (from to : String) (l : ConservingLedger)
    (s : IsSound l) where
  offline_transfer-IsSound :
      IsNonneg x → (payer : Account) → IsSound (offline_transfer now from to x tx payer l)
  offline_transfer-IsSound nonneg payer =
      let l1 = with_account from (offline_charged now x) l in
      let l2 = with_account to (paid_in now x) l1 in
      record {
        has_reserve =
            sym (offline_transfer-SameAccounts now from to x tx payer l account_deficit_reserve)
            ∙ s.has_reserve;
        allowances =
            absorb-Allowances now (deficit_delta x payer) tx l2 (
              paid_in-Allowances now x to l1 (charged-Allowances now x from l nonneg s.allowances));
      }

  pub direct_commit-IsSound : IsSound (direct_commit now from to x tx l).1
  unfolding direct_commit
  direct_commit-IsSound = elim (Option-cases (lookup from l.accounts)) [
    | inl new ↦ rw (new, direct_commit) s
    | inr (a, ha) ↦ elim (Option-cases (lookup to l.accounts)) [
      | inl new ↦ rw (ha, new, direct_commit) s
      | inr (d, hd) ↦ elim (Bool-cases (from == to)) [
        | inl same ↦ rw (ha, hd, same, direct_commit) s
        | inr apart ↦ elim (Bool-cases (lt64 a.online_available x)) [
          | inl short ↦ rw (ha, hd, apart, short, direct_commit) s
          | inr enough ↦
              rw (ha, hd, apart, enough, direct_commit)
                (record {
                  has_reserve =
                      sym (
                        with_account-SameAccounts from (paid_out now x) l account_deficit_reserve
                        ∙ with_account-SameAccounts to (paid_in now x)
                            (with_account from (paid_out now x) l) account_deficit_reserve)
                      ∙ s.has_reserve;
                  allowances =
                      paid_in-Allowances now x to (with_account from (paid_out now x) l)
                        (paid_out-Allowances now x from l s.allowances);
                })
        ]
      ]
    ]
  ]

replay_each-totals :
    (now : Time) (txs : List QueuedTx) (count total : Int64) (l : ConservingLedger)
    (r : Int64 × Int64 × ConservingLedger)
    → IsSound l
    → All (λ t. IsNonneg t.amount) txs
    → replay_each now txs count total l ≡ ends r
    → IsSound r.2 × ((totals r.2 % word) ≡ (totals l % word))
unfolding replay_each
replay_each-totals now [] count total l r s n h =
    subst (λ q. IsSound q.2 × ((totals q.2 % word) ≡ (totals l % word))) (ends-injective h)
      (s, refl)
replay_each-totals now (t ∷ txs) count total l r s n h =
    elim (Ending-cases
      (commit_offline_allowance now t.account_id t.merchant_id t.amount t.tx_id l)) [
        | inl e ↦ absurd (ground (arith, e, h))
        | inr (inl e) ↦ absurd (ground (arith, e, h))
        | inr (inr ((d, l'), e)) ↦
            let (p, q) =
              commit_offline_result now t.account_id t.merchant_id t.amount t.tx_id l e in
            let done = offline_transfer now t.account_id t.merchant_id t.amount t.tx_id p.payer l in
            let (s', m) =
              replay_each-totals now txs (add64 count 1) (add64 total t.amount) done r
                (offline_transfer-IsSound now t.amount t.tx_id t.account_id t.merchant_id l s n.0
                  p.payer)
                n.1
                (ground (
                  arith,
                  commit_offline_ends now t.account_id t.merchant_id t.amount t.tx_id l p,
                  h,
                )) in
            (s', m ∙ totals-offline_transfer now t.amount t.tx_id t.account_id t.merchant_id l s p)
      ]

-- A Replay of amounts that are not negative leaves the total as it was.
pub replay-totals :
    (now : Time) (txs : List QueuedTx) (l : ConservingLedger) (r : Int64 × Int64 × ConservingLedger)
    → IsSound l
    → All (λ t. IsNonneg t.amount) txs
    → replay now txs l ≡ ends r
    → IsSound r.2 × ((totals r.2 % word) ≡ (totals l % word))
unfolding replay sort_queue
replay-totals now txs l r s n h =
    replay_each-totals now (insertion_sort goes_before txs) 0 0 l r s
      (All-insertion_sort (λ t. IsNonneg t.amount) goes_before txs n) h
