-- ===== src/Standalone/Replaying.antt =====
-- When `Replay` of fs2601_all_in_one.go ends, and what it reports.
use payment_risk_engine.Prelude.{
  ◌+◌, ◌*◌, ◌%◌, ◌≤◌, ◌<◌, ◌≡◌, ◌↔◌, refl, sym, ◌∙◌, inl, inr, arith, List, [], ◌∷◌, length, Int64,
  word, add64, All,
}
use payment_risk_engine.Prelude.Sorting.{insertion_sort}
use payment_risk_engine.Prelude.Sorting.Elements.{All-insertion_sort, All-of_insertion_sort}
use payment_risk_engine.Prelude.Sorting.Sums.{sum_of, sum-insertion_sort}
use payment_risk_engine.Ledger.{Time}
use payment_risk_engine.Standalone.{
  ConservingLedger, offline_transfer, commit_offline_allowance, ends, QueuedTx, goes_before,
  sort_queue, replay_each, replay,
}
use payment_risk_engine.Standalone.Existing.{
  SameAccounts, offline_transfer-SameAccounts, length-offline_transfer, Payable, All-Payable-same,
}
use payment_risk_engine.Standalone.Payable.{
  Ending-cases, commit_offline_ends, commit_offline_result,
}

-- What the loop leaves: the counts, the same accounts, and at least two entries for each transaction.
pub record IsReplayed (txs : List QueuedTx) (count total : Int64) (l : ConservingLedger)
    (r : Int64 × Int64 × ConservingLedger) : Type 0 where
  pub counted : r.0 ≡ (count + length txs) % word
  pub summed : r.1 ≡ (total + sum_of (λ t. t.amount) txs) % word
  pub same : SameAccounts l r.2
  pub entered : length l.entries + 2 * length txs ≤ length r.2.entries

replay_each-IsReplayed :
    (now : Time) (txs : List QueuedTx) (count total : Int64) (l : ConservingLedger)
    → count < word
    → total < word
    → All (Payable l) txs
    → (r : Int64 × Int64 × ConservingLedger) × (replay_each now txs count total l ≡ ends r)
      × IsReplayed txs count total l r
unfolding replay_each
replay_each-IsReplayed now [] count total l c s p = (
  (count, total, l),
  refl,
  record { counted = omega arith; summed = omega arith; same = λ id. refl; entered = omega arith },
)
replay_each-IsReplayed now (t ∷ txs) count total l c s p =
    let l' = offline_transfer now t.account_id t.merchant_id t.amount t.tx_id p.0.payer l in
    let same =
      offline_transfer-SameAccounts now t.account_id t.merchant_id t.amount t.tx_id p.0.payer l in
    let (r, e, q) =
      replay_each-IsReplayed now txs (add64 count 1) (add64 total t.amount) l' (omega arith)
        (omega arith) (All-Payable-same l l' txs same p.1) in
    (
      r,
      rw (commit_offline_ends now t.account_id t.merchant_id t.amount t.tx_id l p.0, replay_each) e,
      record {
        counted = omega (arith, q.counted);
        summed = omega (arith, q.summed);
        same = λ id. same id ∙ q.same id;
        entered = omega (
          arith,
          q.entered,
          length-offline_transfer now t.account_id t.merchant_id t.amount t.tx_id p.0.payer l,
        );
      },
    )

replay_each-Payable :
    (now : Time) (txs : List QueuedTx) (count total : Int64) (l : ConservingLedger)
    (r : Int64 × Int64 × ConservingLedger)
    → replay_each now txs count total l ≡ ends r
    → All (Payable l) txs
unfolding replay_each
replay_each-Payable now [] count total l r h = tt
replay_each-Payable now (t ∷ txs) count total l r h =
    elim (Ending-cases
      (commit_offline_allowance now t.account_id t.merchant_id t.amount t.tx_id l)) [
        | inl e ↦ absurd (ground (arith, e, h))
        | inr (inl e) ↦ absurd (ground (arith, e, h))
        | inr (inr ((d, l'), e)) ↦
            let (p, q) =
              commit_offline_result now t.account_id t.merchant_id t.amount t.tx_id l e in
            let done = offline_transfer now t.account_id t.merchant_id t.amount t.tx_id p.payer l in
            let same =
              offline_transfer-SameAccounts now t.account_id t.merchant_id t.amount t.tx_id p.payer
                l in
            (
              p,
              All-Payable-same done l txs (λ id. sym (same id))
                  (replay_each-Payable now txs (add64 count 1) (add64 total t.amount) done r (
                    ground (
                      arith,
                      commit_offline_ends now t.account_id t.merchant_id t.amount t.tx_id l p,
                      h,
                    ))),
            )
      ]

length-sum_of : {A : Type 0} (xs : List A) → sum_of (λ x. 1) xs ≡ length xs
length-sum_of [] = refl
length-sum_of (x ∷ xs) = omega (arith, length-sum_of xs)

module _ (now : Time) (txs : List QueuedTx) (l : ConservingLedger) where
  pub replay-IsReplayed :
      All (Payable l) txs
      → (r : Int64 × Int64 × ConservingLedger) × (replay now txs l ≡ ends r)
        × IsReplayed txs 0 0 l r
  unfolding replay sort_queue
  replay-IsReplayed p =
      let sorted = insertion_sort goes_before txs in
      let (r, e, q) =
        replay_each-IsReplayed now sorted 0 0 l (omega arith) (omega arith)
          (All-insertion_sort (Payable l) goes_before txs p) in
      let kept : length sorted ≡ length txs = omega (
        arith,
        length-sum_of sorted,
        length-sum_of txs,
        sum-insertion_sort (λ t. 1) goes_before txs,
      ) in
      (
        r,
        e,
        record {
          counted = omega (arith, q.counted, kept);
          summed = omega (arith, q.summed, sum-insertion_sort (λ t. t.amount) goes_before txs);
          same = q.same;
          entered = omega (arith, q.entered, kept);
        },
      )

  pub replay-Payable :
      (r : Int64 × Int64 × ConservingLedger) → replay now txs l ≡ ends r → All (Payable l) txs
  unfolding replay sort_queue
  replay-Payable r h =
      All-of_insertion_sort (Payable l) goes_before txs
        (replay_each-Payable now (insertion_sort goes_before txs) 0 0 l r h)

  -- A Replay ends exactly if each of its transactions has an account for its payer and one for its
  -- payee, and not one for both.
  pub replay_ends_iff :
      ((r : Int64 × Int64 × ConservingLedger) × (replay now txs l ≡ ends r)) ↔ All (Payable l) txs
  replay_ends_iff =
      (λ h. replay-Payable h.0 h.1, λ p. let (r, e, q) = replay-IsReplayed p in (r, e))
