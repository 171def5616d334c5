-- ===== src/Standalone/Payable.antt =====
-- When `CommitOfflineAllowance` of fs2601_all_in_one.go ends, and with what.
use payment_risk_engine.Prelude.{
  String, ◌≡◌, ◌⊎◌, refl, sym, ap, ◌∙◌, inl, inr, arith, false, ◌==◌, Bool-cases, Option-cases,
  some, lookup, Int64,
}
use payment_risk_engine.Ledger.{Time}
use payment_risk_engine.Standalone.{
  Account, ConservingLedger, offline_transfer, deficit_delta, commit_offline_allowance, Ending,
  panics, blocks, ends,
}

-- The payer and the payee have accounts, and two different ones.
pub record IsPayable (from to : String) (l : ConservingLedger) : Type 0 where
  pub payer : Account
  pub payee : Account
  pub has_payer : lookup from l.accounts ≡ some payer
  pub has_payee : lookup to l.accounts ≡ some payee
  pub apart : (from == to) ≡ false

ended : {A : Type 0} → A → Ending A → A
ended other (ends a) = a
ended other e = other

pub ends-injective : {A : Type 0} {a b : A} → ends a ≡ ends b → a ≡ b
unfolding ended
ends-injective {a} p = ap (ended a) p

module _ (now : Time) (from to : String) (x : Int64) (tx : String) (l : ConservingLedger) where
  pub commit_offline_ends :
      (p : IsPayable from to l)
      → commit_offline_allowance now from to x tx l
        ≡ ends (deficit_delta x p.payer, offline_transfer now from to x tx p.payer l)
  unfolding commit_offline_allowance
  commit_offline_ends p = rw (p.has_payer, p.has_payee, p.apart, commit_offline_allowance) refl

  pub ends-IsPayable :
      {r : Int64 × ConservingLedger}
      → commit_offline_allowance now from to x tx l ≡ ends r
      → IsPayable from to l
  unfolding commit_offline_allowance
  ends-IsPayable h = elim (Option-cases (lookup from l.accounts)) [
    | inl new ↦ absurd (ground (arith, new, h))
    | inr (a, ha) ↦ elim (Option-cases (lookup to l.accounts)) [
      | inl new ↦ absurd (ground (arith, ha, new, h))
      | inr (d, hd) ↦ elim (Bool-cases (from == to)) [
        | inl same ↦ absurd (ground (arith, ha, hd, same, h))
        | inr apart ↦ record { payer = a; payee = d; has_payer = ha; has_payee = hd; apart = apart }
      ]
    ]
  ]

  pub commit_offline_result :
      {r : Int64 × ConservingLedger}
      → commit_offline_allowance now from to x tx l ≡ ends r
      → (p : IsPayable from to l) × (r
          ≡ (deficit_delta x p.payer, offline_transfer now from to x tx p.payer l))
  commit_offline_result h =
      let p = ends-IsPayable h in (p, ends-injective (sym h ∙ commit_offline_ends p))

pub Ending-cases :
    {A : Type 0} (e : Ending A) → (e ≡ panics) ⊎ (e ≡ blocks) ⊎ (a : A) × (e ≡ ends a)
Ending-cases panics = inl refl
Ending-cases blocks = inr (inl refl)
Ending-cases (ends a) = inr (inr (a, refl))
