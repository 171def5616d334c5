-- ===== src/Gateway/Partition.antt =====
-- The payments of m1_api.go while the network is cut: `handleOfflinePayment`.
use mathlib.Core.Path.{subst}
use mathlib.Core.Option.{some-injective}
use payment_risk_engine.Prelude.{
  ◌≡◌, refl, sym, ap, ◌∙◌, inl, inr, arith, String, false, ◌==◌, Option-cases, none, some, lookup,
  Int64, add64,
}
use payment_risk_engine.Telemetry.{PaymentResponse, new_decline_response}
use payment_risk_engine.Edge.{
  QueuedTransaction, WalError, with_hash, append, OfflineAuthorizationToken, OfflineAuthDecision,
  EdgeAuthorizer, authorize_offline, spend, approval,
}
use payment_risk_engine.Edge.Appending.{append_succeeds}
use payment_risk_engine.Edge.Granting.{
  IsGenuine, authorize_offline-cases, authorize_offline_approves,
}
use payment_risk_engine.Gateway.{
  Ambient, unix_seconds, PaymentRequest, PaymentGateway, ledger_of, queued_transaction,
  queue_payment, follow_decision, handle_offline_payment,
}

-- What an authorization at the edge leaves.
pub record IsQueued (a : Ambient) (req : PaymentRequest) (gw gw' : PaymentGateway) : Type 0 where
  pub token : OfflineAuthorizationToken
  pub given : req.offline_token ≡ some token
  pub genuine : IsGenuine a.host (unix_seconds a) token req.amount gw.edge_authorizer
  pub charged : gw'.edge_authorizer ≡ spend token.token_id req.amount gw.edge_authorizer
  pub fresh : lookup req.tx_id gw.edge_wal.tx_map ≡ none
  -- What the log then has under the id of the request, field by field.
  pub tx : QueuedTransaction
  pub logged : lookup req.tx_id gw'.edge_wal.tx_map ≡ some tx
  pub named : tx.tx_id ≡ req.tx_id
  pub paid_by : tx.account_id ≡ req.account_id
  pub paid_to : tx.merchant_id ≡ req.merchant_id
  pub at_terminal : tx.terminal_id ≡ req.terminal_id
  pub amount : tx.amount ≡ req.amount
  pub at_time : tx.client_timestamp ≡ req.client_timestamp
  pub clock : tx.vector_clock ≡ req.vector_clock
  pub seq_no : tx.seq_no ≡ req.seq_no
  pub sequence : tx.sequence_num ≡ add64 gw.edge_authorizer.sequence_num 1
  pub under_token : tx.token_id ≡ token.token_id
  pub signature : tx.signature ≡ token.signature
  pub pending : tx.status ≡ "PENDING"
  pub ledger_same : ledger_of gw' ≡ ledger_of gw

module _ (a : Ambient) (req : PaymentRequest) (token : OfflineAuthorizationToken)
    (given : req.offline_token ≡ some token) (gw : PaymentGateway) where
  -- The answer to a genuine token is the one of the log, whose authorizer is charged already.
  handle_offline_payment_genuine :
      IsGenuine a.host (unix_seconds a) token req.amount gw.edge_authorizer
      → handle_offline_payment a req gw
        ≡ some (
            queue_payment a req token
              (add64 gw.edge_authorizer.sequence_num 1)
              (record gw { edge_authorizer = spend token.token_id req.amount gw.edge_authorizer }))
  unfolding handle_offline_payment follow_decision spend queue_payment approval queued_transaction
  handle_offline_payment_genuine g =
      rw
        (
          given,
          authorize_offline_approves a.host (unix_seconds a) token req.amount gw.edge_authorizer g,
          handle_offline_payment,
        )
        refl

  pub handle_offline_payment_refused :
      {d : OfflineAuthDecision} {ea : EdgeAuthorizer}
      → authorize_offline a.host (unix_seconds a) token req.amount gw.edge_authorizer ≡ some (d, ea)
      → d.approved ≡ false
      → handle_offline_payment a req gw
        ≡ some (new_decline_response d.reason_code d.message 0, record gw { edge_authorizer = ea })
  unfolding handle_offline_payment follow_decision
  handle_offline_payment_refused {d} decided refused =
      rw (given, decided, refused, handle_offline_payment) refl

  queue_payment_fails :
      (seq : Int64) (gw' : PaymentGateway) (e : WalError)
      → (append a.host a.codec a.wal_outcome
          (queued_transaction a.host req token seq)
          gw'.edge_wal).0
        ≡ some e
      → ((queue_payment a req token seq gw').0.status ≡ "DECLINED")
        × ((queue_payment a req token seq gw').1.edge_authorizer ≡ gw'.edge_authorizer)
  unfolding queue_payment
  queue_payment_fails seq gw' e bad = ground (arith, bad)

  queue_payment_succeeds :
      (seq : Int64) (gw' : PaymentGateway)
      → (queue_payment a req token seq gw').0.status ≡ "OFFLINE_AUTHORIZED"
      → ((append a.host a.codec a.wal_outcome
            (queued_transaction a.host req token seq)
            gw'.edge_wal).0
          ≡ none)
        × ((queue_payment a req token seq gw').1 ≡ record gw' {
          edge_wal =
              (append a.host a.codec a.wal_outcome
                (queued_transaction a.host req token seq)
                gw'.edge_wal).1;
        })
  unfolding queue_payment
  queue_payment_succeeds seq gw' ok =
      elim (Option-cases
        (append a.host a.codec a.wal_outcome (queued_transaction a.host req token seq)
          gw'.edge_wal).0) [
            | inl fine ↦ (fine, rw (fine, queue_payment) refl)
            | inr (e, bad) ↦
                let f = queue_payment_fails seq gw' e bad in
                ground (arith, ap (λ (t : String). t == "DECLINED") (sym ok ∙ f.0))
          ]

not_declined :
    (resp : PaymentResponse) → resp.status ≡ "OFFLINE_AUTHORIZED" → resp.status ≡ "DECLINED" → ⊥
not_declined resp ok bad = ground (arith, ap (λ (t : String). t == "DECLINED") (sym bad ∙ ok))

status_missing :
    (a : Ambient) (req : PaymentRequest) (gw : PaymentGateway) (resp : PaymentResponse)
    (gw' : PaymentGateway)
    → req.offline_token ≡ none
    → handle_offline_payment a req gw ≡ some (resp, gw')
    → resp.status ≡ "DECLINED"
unfolding handle_offline_payment
status_missing a req gw resp gw' missing ran =
    let answer =
      subst (λ o. handle_offline_payment a (record req { offline_token = o }) gw ≡ some (resp, gw'))
        missing ran in
    ap (λ (r : PaymentResponse × PaymentGateway). r.0.status) (sym (some-injective _ _ answer))

queue_payment-IsQueued :
    (a : Ambient) (req : PaymentRequest) (gw : PaymentGateway) (token : OfflineAuthorizationToken)
    → req.offline_token ≡ some token
    → IsGenuine a.host (unix_seconds a) token req.amount gw.edge_authorizer
    → let q =
        queue_payment a req token
          (add64 gw.edge_authorizer.sequence_num 1)
          (record gw { edge_authorizer = spend token.token_id req.amount gw.edge_authorizer }) in
      q.0.status ≡ "OFFLINE_AUTHORIZED" → IsQueued a req gw q.1
unfolding spend queued_transaction
queue_payment-IsQueued a req gw token given g ok =
    let seq = add64 gw.edge_authorizer.sequence_num 1 in
    let (appended, next) =
      queue_payment_succeeds a req token given gw seq
        (record gw { edge_authorizer = spend token.token_id req.amount gw.edge_authorizer }) ok in
    let (fresh, there) =
      append_succeeds a.host a.codec a.wal_outcome (queued_transaction a.host req token seq)
        gw.edge_wal appended in
    subst (IsQueued a req gw) (sym next) (record {
      token = token;
      given = given;
      genuine = g;
      charged = refl;
      fresh = fresh;
      tx = with_hash a.host (queued_transaction a.host req token seq);
      logged = there;
      named = ground arith;
      paid_by = ground arith;
      paid_to = ground arith;
      at_terminal = ground arith;
      amount = ground arith;
      at_time = ground arith;
      clock = ground arith;
      seq_no = ground arith;
      sequence = ground arith;
      under_token = ground arith;
      signature = ground arith;
      pending = ground arith;
      ledger_same = refl;
    })

-- A payment that is authorized while the network is cut came with a genuine token that allows it,
-- its amount is charged to the token, the log has a pending transaction under its id, which was new
-- there, with the account, merchant, terminal, amount, time and clocks of the request and with the
-- id and the signature of the token, and the ledger is as it was.
pub handle_offline_payment-IsQueued :
    (a : Ambient) (req : PaymentRequest) (resp : PaymentResponse) (gw gw' : PaymentGateway)
    → handle_offline_payment a req gw ≡ some (resp, gw')
    → resp.status ≡ "OFFLINE_AUTHORIZED"
    → IsQueued a req gw gw'
unfolding handle_offline_payment
handle_offline_payment-IsQueued a req resp gw gw' ran ok = elim (Option-cases req.offline_token) [
  | inl missing ↦ absurd (not_declined resp ok (status_missing a req gw resp gw' missing ran))
  | inr (token, given) ↦
      elim (Option-cases
        (authorize_offline a.host (unix_seconds a) token req.amount gw.edge_authorizer)) [
          | inl panics ↦ absurd (ground (arith, given, panics, ran))
          | inr ((d, ea), decided) ↦
              elim (authorize_offline-cases a.host (unix_seconds a) token req.amount
                gw.edge_authorizer decided) [
                  | inl (refused, same) ↦
                      let answer = some-injective _ _ (
                        sym (handle_offline_payment_refused a req token given gw decided refused)
                        ∙ ran) in
                      let declined : resp.status ≡ "DECLINED" =
                        ap (λ (r : PaymentResponse × PaymentGateway). r.0.status) (sym answer) in
                      absurd (not_declined resp ok declined)
                  | inr (g, approved, charged) ↦
                      let same =
                        some-injective _ _
                          (sym (handle_offline_payment_genuine a req token given gw g) ∙ ran) in
                      subst
                        (λ (r : PaymentResponse × PaymentGateway).
                          r.0.status ≡ "OFFLINE_AUTHORIZED" → IsQueued a req gw r.1)
                        same (queue_payment-IsQueued a req gw token given g) ok
                ]
        ]
]

-- The reverse of the medal: where the log refuses the transaction of a genuine token, the payment is
-- declined, and the token is charged with its amount all the same.
pub handle_offline_payment_charges :
    (a : Ambient) (req : PaymentRequest) (resp : PaymentResponse) (gw gw' : PaymentGateway)
    (token : OfflineAuthorizationToken) (e : WalError)
    → req.offline_token ≡ some token
    → IsGenuine a.host (unix_seconds a) token req.amount gw.edge_authorizer
    → (append a.host a.codec a.wal_outcome
        (queued_transaction a.host req token (add64 gw.edge_authorizer.sequence_num 1))
        gw.edge_wal).0
      ≡ some e
    → handle_offline_payment a req gw ≡ some (resp, gw')
    → (resp.status ≡ "DECLINED")
      × (gw'.edge_authorizer ≡ spend token.token_id req.amount gw.edge_authorizer)
handle_offline_payment_charges a req resp gw gw' token e given g bad ran =
    let charged = record gw {
      edge_authorizer = spend token.token_id req.amount gw.edge_authorizer;
    } in
    let same =
      some-injective _ _ (sym (handle_offline_payment_genuine a req token given gw g) ∙ ran) in
    subst
      (λ (r : PaymentResponse × PaymentGateway).
        (r.0.status ≡ "DECLINED")
        × (r.1.edge_authorizer ≡ spend token.token_id req.amount gw.edge_authorizer))
      same
      (queue_payment_fails a req token given gw (add64 gw.edge_authorizer.sequence_num 1) charged e
        bad)
