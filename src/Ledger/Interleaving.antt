-- ===== src/Ledger/Interleaving.antt =====
-- Online payments of many clients at once. Each is a reservation and later a commit, two separate
-- calls of m2_conserving.go; between them come the calls of other clients that move no reserved bucket
-- (`other`). The legacy overdraft and ReleaseHold are not among those.
use payment_risk_engine.Prelude.{
  ℕ, ◌+◌, ◌≤◌, ◌<◌, String, ◌≡◌, refl, ◌∙◌, true, false, none, arith, [], ◌∷◌, ◌++◌, List, ◌==◌,
  eq_iff, if◌then◌else◌, Int64, word, half_word, positive_of_guard,
}
use payment_risk_engine.Ledger.Types.{Time, ConservingLedger}
use payment_risk_engine.Ledger.Holds.{reserve_funds, commit_hold}
use payment_risk_engine.Ledger.Requests.{
  Request, reserve, commit, perform, after, reserve_id-perform,
}
use payment_risk_engine.Ledger.Solvency.{IsSolvent, customer_funds}
use payment_risk_engine.Ledger.NoOverdraft.{IsGuarded, inflow_of, customer_funds-perform}
use payment_risk_engine.Ledger.Reserved.{
  reserved_of, IsQuiet, reserved-perform, reserved-reserve_funds, reserved-commit_hold,
  commit_hold_succeeds,
}

pub record Payment : Type 0 where
  pub account_id : String
  pub merchant_id : String
  pub amount : Int64
  pub tx_id : String

-- The ledger, and the payments that have reserved and not yet committed.
pub record World : Type 0 where
  pub ledger : ConservingLedger
  pub in_flight : List Payment

-- One call takes effect. A payment is not made out of the deficit reserve.
pub data Step (w : World) : World → Type 0 where
  begin :
      (now : Time) (p : Payment) (res : String) (l' : ConservingLedger)
      → p.amount < word
      → (p.account_id == w.ledger.deficit_reserve_account_id) ≡ false
      → reserve_funds now p.account_id p.amount p.tx_id w.ledger ≡ (res, none, l')
      → Step w (record { ledger = l'; in_flight = p ∷ w.in_flight })
  finish :
      (now : Time) (earlier later : List Payment) (p : Payment) (l' : ConservingLedger)
      → w.in_flight ≡ earlier ++ p ∷ later
      → commit_hold now p.account_id p.merchant_id p.amount p.tx_id w.ledger ≡ (none, l')
      → Step w (record { ledger = l'; in_flight = earlier ++ later })
  other :
      (now : Time) (r : Request)
      → IsQuiet r
      → IsGuarded r
      → customer_funds w.ledger + inflow_of r w.ledger < half_word
      → Step w (record w { ledger = after w.ledger (perform now r w.ledger) })

pub data Reach (w : World) : World → Type 0 where
  here : Reach w w
  next : {u v : World} → Reach w u → Step u v → Reach w v

-- What the payments in flight hold of the account `j`.
abbrev pub held : String → List Payment → ℕ
held j [] = 0
held j (p ∷ ps) = (if p.account_id == j then p.amount else 0) + held j ps

held-append :
    (j : String) (ps qs : List Payment) (p : Payment)
    → held j (ps ++ p ∷ qs) ≡ (if p.account_id == j then p.amount else 0) + held j (ps ++ qs)
held-append j [] qs p = refl
held-append j (q ∷ ps) qs p = omega (arith, held-append j ps qs p)

abbrev IsPayable : String → List Payment → Type 0
IsPayable name [] = Unit
IsPayable name (p ∷ ps) =
    (p.amount < half_word) × (0 < p.amount) × ((p.account_id == name) ≡ false) × IsPayable name ps

-- What holds between any two calls.
pub record IsBacked (name : String) (w : World) : Type 0 where
  pub solvent : IsSolvent w.ledger
  pub named : w.ledger.deficit_reserve_account_id ≡ name
  pub payable : IsPayable name w.in_flight
  -- The reserved bucket of every account is what the payments in flight hold of it.
  pub backed : (j : String) → reserved_of j w.ledger ≡ held j w.in_flight

IsPayable-middle :
    (name : String) (ps qs : List Payment) (p : Payment)
    → IsPayable name (ps ++ p ∷ qs)
    → (p.amount < half_word)
      × (0 < p.amount)
      × ((p.account_id == name) ≡ false)
      × IsPayable name (ps ++ qs)
IsPayable-middle name [] qs p h = h
IsPayable-middle name (q ∷ ps) qs p h =
    let rest = IsPayable-middle name ps qs p h.3 in
    (rest.0, rest.1, rest.2, (h.0, h.1, h.2, rest.3))

-- A reservation that succeeds had an amount above 0.
reserve_funds_positive :
    (now : Time) (id : String) (x : Int64) (tx res : String) (l l' : ConservingLedger)
    → x < word
    → reserve_funds now id x tx l ≡ (res, none, l')
    → (0 < x) × (x < half_word)
unfolding reserve_funds
reserve_funds_positive now id x tx res l l' fits e = ground (arith, positive_of_guard x)

begin-IsBacked :
    (name : String) (w : World) (now : Time) (p : Payment) (res : String) (l' : ConservingLedger)
    → p.amount < word
    → (p.account_id == w.ledger.deficit_reserve_account_id) ≡ false
    → reserve_funds now p.account_id p.amount p.tx_id w.ledger ≡ (res, none, l')
    → IsBacked name w
    → IsBacked name (record { ledger = l'; in_flight = p ∷ w.in_flight })
begin-IsBacked name w now p res l' fits ne e h =
    let r = reserve p.account_id p.amount p.tx_id in
    let same : after w.ledger (perform now r w.ledger) ≡ l' = unfold perform in ground arith in
    let funds =
      customer_funds-perform now r w.ledger fits (unfold inflow_of in omega (arith, h.solvent)) in
    record {
      solvent = unfold inflow_of in ground (arith, funds, same, h.solvent);
      named = ground (arith, reserve_id-perform now r w.ledger, same, h.named);
      payable = ground (
        arith,
        reserve_funds_positive now p.account_id p.amount p.tx_id res w.ledger l' fits e,
        h.payable,
        h.named,
      );
      backed = λ j. ground (
        arith,
        reserved-reserve_funds j now p.account_id p.amount p.tx_id res w.ledger l' h.solvent ne fits
            e,
        h.backed j,
      );
    }

finish-IsBacked :
    (name : String) (w : World) (now : Time) (ps qs : List Payment) (p : Payment)
    (l' : ConservingLedger)
    → w.in_flight ≡ ps ++ p ∷ qs
    → commit_hold now p.account_id p.merchant_id p.amount p.tx_id w.ledger ≡ (none, l')
    → IsBacked name w
    → IsBacked name (record { ledger = l'; in_flight = ps ++ qs })
finish-IsBacked name w now ps qs p l' at e h =
    let r = commit p.account_id p.merchant_id p.amount p.tx_id in
    let pay = IsPayable-middle name ps qs p (rw at at h.payable) in
    let ne : (p.account_id == w.ledger.deficit_reserve_account_id) ≡ false = rw h.named pay.2 in
    let fits : p.amount < word = omega (arith, pay.0) in
    let same : after w.ledger (perform now r w.ledger) ≡ l' = unfold perform in ground arith in
    let funds =
      customer_funds-perform now r w.ledger fits
        (unfold inflow_of in ground (arith, ne, h.solvent)) in
    record {
      solvent = unfold inflow_of in ground (arith, funds, same, ne, h.solvent);
      named = ground (arith, reserve_id-perform now r w.ledger, same, h.named);
      payable = pay.3;
      backed = λ j. ground (
        arith,
        reserved-commit_hold j now p.account_id p.merchant_id p.amount p.tx_id w.ledger l' h.solvent
            ne fits e,
        h.backed j,
        held-append j ps qs p,
        at,
      );
    }

other-IsBacked :
    (name : String) (w : World) (now : Time) (r : Request)
    → IsQuiet r
    → IsGuarded r
    → customer_funds w.ledger + inflow_of r w.ledger < half_word
    → IsBacked name w
    → IsBacked name (record w { ledger = after w.ledger (perform now r w.ledger) })
other-IsBacked name w now r q g b h = record {
  solvent = omega (arith, customer_funds-perform now r w.ledger g b);
  named = reserve_id-perform now r w.ledger ∙ h.named;
  payable = h.payable;
  backed = λ j. reserved-perform j now r w.ledger q ∙ h.backed j;
}

Step-IsBacked : (name : String) {w v : World} → Step w v → IsBacked name w → IsBacked name v
Step-IsBacked name (begin now p res l' fits ne e) h = begin-IsBacked name _ now p res l' fits ne e h
Step-IsBacked name (finish now ps qs p l' at e) h = finish-IsBacked name _ now ps qs p l' at e h
Step-IsBacked name (other now r q g b) h = other-IsBacked name _ now r q g b h

-- From a solvent ledger with no holds, however payments of others than the deficit reserve interleave
-- with one another and with guarded calls that move no reserved bucket and whose inflow fits in an
-- int64 beside the customers' funds: the customers stay solvent, and each account's reserved bucket is
-- exactly what the payments in flight hold.
pub Reach-IsBacked :
    (l : ConservingLedger)
    → IsSolvent l
    → ((j : String) → reserved_of j l ≡ 0)
    → {w : World} → Reach (record { ledger = l; in_flight = [] }) w
    → IsBacked l.deficit_reserve_account_id w
Reach-IsBacked l s none_held here = record {
  solvent = s;
  named = refl;
  payable = tt;
  backed = none_held;
}
Reach-IsBacked l s none_held (next r st) =
    Step-IsBacked l.deficit_reserve_account_id st (Reach-IsBacked l s none_held r)

held_middle :
    (j : String) (ps qs : List Payment) (p : Payment)
    → (p.account_id == j) ≡ true
    → p.amount ≤ held j (ps ++ p ∷ qs)
held_middle j ps qs p e = ground (arith, held-append j ps qs p)

-- In every world that is reached so, each payment in flight can commit: `CommitHold` does not fail
-- for it, whatever those calls of the other clients were since it reserved.
pub commit_in_flight :
    (l : ConservingLedger)
    → IsSolvent l
    → ((j : String) → reserved_of j l ≡ 0)
    → {w : World} (now : Time) (ps qs : List Payment) (p : Payment)
    → Reach (record { ledger = l; in_flight = [] }) w
    → w.in_flight ≡ ps ++ p ∷ qs
    → (commit_hold now p.account_id p.merchant_id p.amount p.tx_id w.ledger).0 ≡ none
commit_in_flight l s none_held {w} now ps qs p reach at =
    let h = Reach-IsBacked l s none_held reach in
    let pay = IsPayable-middle l.deficit_reserve_account_id ps qs p (rw at at h.payable) in
    let ne : (p.account_id == w.ledger.deficit_reserve_account_id) ≡ false = rw h.named pay.2 in
    commit_hold_succeeds now p.account_id p.merchant_id p.amount p.tx_id w.ledger h.solvent ne pay.1
      (ground (
        arith,
        h.backed p.account_id,
        at,
        eq_iff p.account_id p.account_id,
        held_middle p.account_id ps qs p,
      ))
