-- ===== src/Server/Conserved.antt =====
-- The money in the server of cmd/server/main.go, over any sequence of requests to its handlers.

use payment_risk_engine.Prelude.{
  ℕ, ◌≡◌, refl, sym, ap, ◌∙◌, arith, String, Bool, Option, none, some, List, Int64, add64,
}
use payment_risk_engine.Ledger.{Time, returned}
use payment_risk_engine.Reconcile.{set_use_deficit_reserve}
use payment_risk_engine.Reconcile.Ends.{Ends-result}
use payment_risk_engine.Gateway.{Ambient, PaymentRequest, NetworkStatus, ledger_of}
use payment_risk_engine.Server.{
  Server, Reply, IssueRequest, CreateRequest, handle_pay, handle_network_toggle, handle_reconcile,
  handle_issue_token, handle_allocate_allowance, handle_toggle_reserve, handle_reset_fraud,
  handle_create_account, handle_revocation_add,
}
use payment_risk_engine.Server.Totals.{
  total, server_after, opening, handle_pay-total, handle_reconcile-total,
  handle_network_toggle-total, handle_allocate_allowance-total, handle_create_account-total,
  handle_revocation_add-total, audit-lt,
}

-- One request to a handler that can change the state, and what it brings in. It does not panic, and
-- does not wait for ever.
pub data Step (s : Server) : Int64 → Server → Type 0 where
  pay :
      (a : Ambient) (req : Option PaymentRequest) (reply : Reply) (s' : Server)
      → handle_pay a req s ≡ some (reply, s')
      → Step s 0 s'
  toggle :
      (a : Ambient) (status : Option NetworkStatus) (reply : Reply) (s' : Server)
      → handle_network_toggle a status s ≡ returned (reply, s')
      → Step s 0 s'
  reconcile :
      (a : Ambient) (reply : Reply) (s' : Server)
      → handle_reconcile a s ≡ returned (reply, s')
      → Step s 0 s'
  set_aside :
      (now : Time) (req : Option (String × Int64))
      → Step s 0 (handle_allocate_allowance now req s).1
  open_account :
      (now : Time) (req : Option CreateRequest)
      → Step s (opening s req) (handle_create_account now req s).1
  issue : (a : Ambient) (req : Option IssueRequest) → Step s 0 (handle_issue_token a req s).1
  switch_mode : (enabled : Option Bool) → Step s 0 (handle_toggle_reserve enabled s).1
  forget : (now : Time) → Step s 0 (handle_reset_fraud now s).1
  revoke :
      (coin : Bool) (slots : List ℕ) (id : Option String) (reply : Reply) (s' : Server)
      → handle_revocation_add coin slots id s ≡ some (reply, s')
      → Step s 0 s'

pub data Reach (s : Server) : Int64 → Server → Type 0 where
  here : Reach s 0 s
  next : {m n : Int64} {u v : Server} → Reach s m u → Step u n v → Reach s (add64 m n) v

plus_zero : (s s' : Server) → total s' ≡ total s → total s' ≡ add64 (total s) 0
plus_zero s s' e = omega (arith, e, audit-lt (ledger_of s.gw))

Step-total : {s s' : Server} {n : Int64} → Step s n s' → total s' ≡ add64 (total s) n
unfolding handle_issue_token handle_toggle_reserve handle_reset_fraud set_use_deficit_reserve
Step-total {s} (pay a req reply s' h) =
    plus_zero s s' (ap (λ o. total (server_after s o)) (sym h) ∙ handle_pay-total a s req)
Step-total {s} (toggle a status reply s' h) =
    plus_zero s s'
      (Ends-result (λ r. total r.1 ≡ total s) h (handle_network_toggle-total a s status))
Step-total {s} (reconcile a reply s' h) =
    plus_zero s s' (Ends-result (λ r. total r.1 ≡ total s) h (handle_reconcile-total a s))
Step-total {s} (set_aside now req) =
    plus_zero s (handle_allocate_allowance now req s).1 (handle_allocate_allowance-total now s req)
Step-total {s} (open_account now req) = handle_create_account-total now s req
Step-total {s} (issue a none) = plus_zero s s refl
Step-total {s} (issue a (some req)) = plus_zero s (handle_issue_token a (some req) s).1 refl
Step-total {s} (switch_mode none) = plus_zero s s refl
Step-total {s} (switch_mode (some enabled)) =
    plus_zero s (handle_toggle_reserve (some enabled) s).1 refl
Step-total {s} (forget now) = plus_zero s (handle_reset_fraud now s).1 refl
Step-total {s} (revoke coin slots id reply s' h) =
    plus_zero s s'
      (ap (λ o. total (server_after s o)) (sym h) ∙ handle_revocation_add-total coin slots id s)

-- Over any sequence of requests the total that the server's audit reports changes by exactly the
-- balances of the accounts that are opened.
pub Reach-total : {s s' : Server} {n : Int64} → Reach s n s' → total s' ≡ add64 (total s) n
Reach-total {s} here = omega (arith, audit-lt (ledger_of s.gw))
Reach-total {s} (next r t) = omega (arith, Reach-total r, Step-total t)
