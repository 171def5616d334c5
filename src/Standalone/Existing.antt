-- ===== src/Standalone/Existing.antt =====
-- The calls of a `Replay` in fs2601_all_in_one.go open and close no account.
use payment_risk_engine.Prelude.{
  ◌+◌, ◌≤◌, String, ◌≡◌, ◌∙◌, inl, inr, arith, true, false, Bool, Option-cases, none, some, List,
  [], ◌∷◌, length, length-append, lookup, lookup-adjust, Int64, All,
}
use payment_risk_engine.Ledger.{Time}
use payment_risk_engine.Standalone.{
  Account, ConservingLedger, with_account, account_deficit_reserve, debit_deficit_reserve,
  debit_entry, paid_out, paid_in, offline_charged, absorb, offline_transfer, deficit_delta,
  QueuedTx,
}
use payment_risk_engine.Standalone.Payable.{IsPayable}

abbrev pub is_open : String → ConservingLedger → Bool
is_open id l = elim (lookup id l.accounts) [ none ↦ false | some a ↦ true ]

-- The two ledgers have the same accounts.
abbrev pub SameAccounts : ConservingLedger → ConservingLedger → Type 0
SameAccounts l l' = (id : String) → is_open id l ≡ is_open id l'

pub with_account-SameAccounts :
    (id : String) (write : Account → Account) (l : ConservingLedger)
    → SameAccounts l (with_account id write l)
with_account-SameAccounts id write l asked = elim (Option-cases (lookup asked l.accounts)) [
  | inl new ↦ ground (arith, new, lookup-adjust id asked write l.accounts)
  | inr (a, old) ↦ ground (arith, old, lookup-adjust id asked write l.accounts)
]

module _ (now : Time) (x : Int64) (tx : String) (l : ConservingLedger) where
  absorb-SameAccounts : SameAccounts l (absorb now x tx l)
  unfolding debit_deficit_reserve
  absorb-SameAccounts id = elim (Option-cases (lookup account_deficit_reserve l.accounts)) [
    | inl new ↦ ground (arith, new)
    | inr (a, old) ↦
        ground (arith, old, with_account-SameAccounts account_deficit_reserve (paid_out now x) l id)
  ]

  length-absorb : length l.entries ≤ length (absorb now x tx l).entries
  unfolding debit_deficit_reserve
  length-absorb = elim (Option-cases (lookup account_deficit_reserve l.accounts)) [
    | inl new ↦ ground (arith, new)
    | inr (a, old) ↦ ground (
      arith,
      old,
      length-append l.entries
          (debit_entry (length l.entries) now tx account_deficit_reserve x ∷ []),
    )
  ]

module _ (now : Time) (from to : String) (x : Int64) (tx : String) (payer : Account)
    (l : ConservingLedger) where
  abbrev moved : ConservingLedger
  moved = with_account to (paid_in now x) (with_account from (offline_charged now x) l)

  pub offline_transfer-SameAccounts : SameAccounts l (offline_transfer now from to x tx payer l)
  offline_transfer-SameAccounts id =
      with_account-SameAccounts from (offline_charged now x) l id
      ∙ with_account-SameAccounts to (paid_in now x) (with_account from (offline_charged now x) l)
          id
      ∙ absorb-SameAccounts now (deficit_delta x payer) tx moved id

  pub length-offline_transfer :
      length l.entries + 2 ≤ length (offline_transfer now from to x tx payer l).entries
  length-offline_transfer =
      let l' = absorb now (deficit_delta x payer) tx moved in
      omega (arith, length-absorb now (deficit_delta x payer) tx moved, length-append l'.entries _)

-- The payer and the payee of a transaction have accounts, and two different ones.
abbrev pub Payable : ConservingLedger → QueuedTx → Type 0
Payable l t = IsPayable t.account_id t.merchant_id l

pub is_open-lookup :
    (id : String) (l : ConservingLedger)
    → is_open id l ≡ true
    → (a : Account) × (lookup id l.accounts ≡ some a)
is_open-lookup id l h = elim (Option-cases (lookup id l.accounts)) [
  | inl new ↦ absurd (ground (arith, new, h))
  | inr r ↦ r
]

IsPayable-same :
    (from to : String) {l l' : ConservingLedger}
    → SameAccounts l l'
    → IsPayable from to l
    → IsPayable from to l'
IsPayable-same from to {l} {l'} same p =
    let (a, ha) = is_open-lookup from l' (ground (arith, p.has_payer, same from)) in
    let (d, hd) = is_open-lookup to l' (ground (arith, p.has_payee, same to)) in
    record { payer = a; payee = d; has_payer = ha; has_payee = hd; apart = p.apart }

pub All-Payable-same :
    (l l' : ConservingLedger) (txs : List QueuedTx)
    → SameAccounts l l'
    → All (Payable l) txs
    → All (Payable l') txs
All-Payable-same l l' [] same p = tt
All-Payable-same l l' (t ∷ txs) same p =
    (IsPayable-same t.account_id t.merchant_id same p.0, All-Payable-same l l' txs same p.1)
