-- ===== src/Ledger/Reserved.antt =====
-- The reserved bucket of each account under the calls of m2_conserving.go: only a reservation, a
-- commit of a hold and a release move it.
use payment_risk_engine.Prelude.{
  ℕ, ◌+◌, ◌≤◌, ◌<◌, String, ◌≡◌, refl, ◌∙◌, false, none, some, Option, arith, inl, inr, ◌==◌,
  eq_iff, if◌then◌else◌, Option-cases, lookup, lookup-adjust, Int64, word, lt64-nonneg,
  positive_guard,
}
use payment_risk_engine.Ledger.Types.{
  Time, Account, ConservingLedger, credit_online, debit_online, debit_offline, debit_reserved,
  online_to_offline, online_to_reserved,
}
use payment_risk_engine.Ledger.Accounts.{create_account, on_account, fund_account}
use payment_risk_engine.Ledger.Holds.{settle, reserve_funds, commit_hold, direct_commit}
use payment_risk_engine.Ledger.Offline.{allocate_offline_allowance, commit_offline_allowance}
use payment_risk_engine.Ledger.Deficit.{debit_deficit_reserve}
use payment_risk_engine.Ledger.Requests.{
  Request, create, fund, allocate, commit_offline, direct, debit_reserve, perform, after,
}
use payment_risk_engine.Ledger.Creation.{
  lookup-create_account, lookup-create_account_self, lookup-create_account_old,
}
use payment_risk_engine.Ledger.Solvency.{IsSolvent, IsSolvent-nonneg, covered}

abbrev pub reserved_in : Option Account → ℕ
reserved_in none = 0
reserved_in (some a) = a.reserved_balance

-- The reserved bucket of `j`, 0 where there is no such account.
abbrev pub reserved_of : String → ConservingLedger → ℕ
reserved_of j l = reserved_in (lookup j l.accounts)

module _ (j : String) where
  reserved-create_account :
      (now : Time) (id : String) (x : Int64) (l : ConservingLedger)
      → reserved_of j (create_account now id x l) ≡ reserved_of j l
  reserved-create_account now id x l = ground (
    arith,
    eq_iff id j,
    lookup-create_account now id x l j,
    lookup-create_account_self now id x l,
  )

  -- An update that keeps the bucket of one account keeps that of all.
  reserved-on_account :
      (id : String) (f : Account → Account) (l : ConservingLedger)
      → ((a : Account) → (f a).reserved_balance ≡ a.reserved_balance)
      → reserved_of j (on_account id f l) ≡ reserved_of j l
  unfolding on_account
  reserved-on_account id f l keeps = elim (Option-cases (lookup j l.accounts)) [
    | inl new ↦ ground (arith, lookup-adjust id j f l.accounts)
    | inr (a, old) ↦ ground (arith, lookup-adjust id j f l.accounts, keeps a)
  ]

  reserved-credit :
      (now : Time) (id : String) (x : Int64) (l : ConservingLedger)
      → reserved_of j (on_account id (credit_online now x) l) ≡ reserved_of j l
  reserved-credit now id x l =
      reserved-on_account id (credit_online now x) l (λ a. unfold credit_online in refl)

reserved-debit :
    (j : String) (now : Time) (id : String) (x : Int64) (l : ConservingLedger) (a : Account)
    → lookup id l.accounts ≡ some a
    → x ≤ a.reserved_balance
    → a.reserved_balance < word
    → reserved_of j (on_account id (debit_reserved now x) l) + (if id == j then x else 0)
      ≡ reserved_of j l
unfolding on_account debit_reserved
reserved-debit j now id x l a h le fits =
    ground (arith, eq_iff id j, lookup-adjust id j (debit_reserved now x) l.accounts)

module _ (j : String) (now : Time) (id dest : String) (debit : Account → Account) (x : Int64)
    (keeps : (a : Account) → (debit a).reserved_balance ≡ a.reserved_balance)
    (l : ConservingLedger) where
  reserved-settle :
      reserved_of j (settle id debit dest (credit_online now x) (create_account now dest 0 l))
      ≡ reserved_of j l
  unfolding settle
  reserved-settle =
      reserved-credit j now dest x (on_account id debit (create_account now dest 0 l))
      ∙ reserved-on_account j id debit (create_account now dest 0 l) keeps
      ∙ reserved-create_account j now dest 0 l

-- The calls that do not handle holds.
abbrev pub IsQuiet : Request → Type 0
IsQuiet (create id x) = Unit
IsQuiet (fund id x) = Unit
IsQuiet (allocate id x) = Unit
IsQuiet (commit_offline id dest x tx) = Unit
IsQuiet (direct id dest x tx) = Unit
IsQuiet (debit_reserve merchant x tx) = Unit
IsQuiet r = ⊥

-- Those calls move no reserved bucket of any account.
pub reserved-perform :
    (j : String) (now : Time) (r : Request) (l : ConservingLedger)
    → IsQuiet r
    → reserved_of j (after l (perform now r l)) ≡ reserved_of j l
unfolding perform fund_account allocate_offline_allowance commit_offline_allowance direct_commit
    debit_deficit_reserve
reserved-perform j now (create id x) l q = reserved-create_account j now id x l
reserved-perform j now (fund id x) l q = ground (arith, reserved-credit j now id x l)
reserved-perform j now (allocate id x) l q = ground (
  arith,
  reserved-on_account j id (online_to_offline now x) l (λ a. unfold online_to_offline in refl),
)
reserved-perform j now (commit_offline id dest x tx) l q = ground (
  arith,
  reserved-create_account j now dest 0 l,
  reserved-settle j now id dest (debit_offline now x) x (λ a. unfold debit_offline in refl) l,
)
reserved-perform j now (direct id dest x tx) l q = ground (
  arith,
  reserved-create_account j now dest 0 l,
  reserved-settle j now id dest (debit_online now x) x (λ a. unfold debit_online in refl) l,
)
reserved-perform j now (debit_reserve merchant x tx) l q =
    let reserve = l.deficit_reserve_account_id in
    ground (
      arith,
      reserved-create_account j now reserve 0 l,
      reserved-settle j now reserve merchant (debit_online now x) x
          (λ a. unfold debit_online in refl) (create_account now reserve 0 l),
    )
reserved-perform j now r l q = absurd q

-- A reservation that succeeds adds its amount to the reserved bucket of its account, exactly.
pub reserved-reserve_funds :
    (j : String) (now : Time) (id : String) (x : Int64) (tx res : String) (l l' : ConservingLedger)
    → IsSolvent l
    → (id == l.deficit_reserve_account_id) ≡ false
    → x < word
    → reserve_funds now id x tx l ≡ (res, none, l')
    → reserved_of j l' ≡ reserved_of j l + (if id == j then x else 0)
unfolding reserve_funds online_to_reserved
reserved-reserve_funds j now id x tx res l l' s ne fits e =
    elim (Option-cases (lookup id l.accounts)) [
      | inl new ↦ ground arith
      | inr (a, old) ↦ ground (
        arith,
        eq_iff id j,
        IsSolvent-nonneg l id a s old,
        covered a.online_available x,
        lookup-adjust id j (online_to_reserved now x) l.accounts,
      )
    ]

-- A commit that succeeds takes its amount from the reserved bucket of its account, exactly.
pub reserved-commit_hold :
    (j : String) (now : Time) (id dest : String) (x : Int64) (tx : String) (l l' : ConservingLedger)
    → IsSolvent l
    → (id == l.deficit_reserve_account_id) ≡ false
    → x < word
    → commit_hold now id dest x tx l ≡ (none, l')
    → reserved_of j l' + (if id == j then x else 0) ≡ reserved_of j l
unfolding commit_hold settle
reserved-commit_hold j now id dest x tx l l' s ne fits e =
    elim (Option-cases (lookup id l.accounts)) [
      | inl new ↦ ground arith
      | inr (a, old) ↦
          let m = create_account now dest 0 l in
          ground (
            arith,
            eq_iff id j,
            IsSolvent-nonneg l id a s old,
            covered a.reserved_balance x,
            reserved-credit j now dest x (on_account id (debit_reserved now x) m),
            reserved-create_account j now dest 0 l,
            lookup-create_account_old now dest 0 l id old,
            reserved-debit j now id x m a,
          )
    ]

-- A commit succeeds on an amount above 0 that the reserved bucket covers.
pub commit_hold_succeeds :
    (now : Time) (id dest : String) (x : Int64) (tx : String) (l : ConservingLedger)
    → IsSolvent l
    → (id == l.deficit_reserve_account_id) ≡ false
    → 0 < x
    → x ≤ reserved_of id l
    → (commit_hold now id dest x tx l).0 ≡ none
unfolding commit_hold
commit_hold_succeeds now id dest x tx l s ne pos enough =
    elim (Option-cases (lookup id l.accounts)) [
      | inl new ↦ ground arith
      | inr (a, old) ↦ ground (
        arith,
        IsSolvent-nonneg l id a s old,
        positive_guard x pos,
        lt64-nonneg a.reserved_balance x,
      )
    ]
