-- ===== src/Gateway/Idempotency.antt =====
-- The idempotency keys of `ProcessPayment` of m1_api.go.
use mathlib.Core.Path.{subst}
use payment_risk_engine.Prelude.{
  ◌≡◌, refl, inl, inr, arith, String, false, ◌==◌, eq_iff, Bool-cases, Option-cases, Option, none,
  some, List, [], ◌∷◌, Map, lookup, lookup-insert, if◌then◌else◌,
}
use payment_risk_engine.Telemetry.{PaymentResponse}
use payment_risk_engine.Fraud.{screen_transaction}
use payment_risk_engine.Edge.{
  OfflineAuthorizationToken, OfflineAuthDecision, append, authorize_offline,
}
use payment_risk_engine.Gateway.{
  Ambient, unix_seconds, PaymentRequest, PaymentGateway, settle_screened, handle_online_payment,
  screened_event, queued_transaction, queue_payment, follow_decision, handle_offline_payment,
  fill_request, count_request, cached_response, remember, check_request_qr, handle_payment,
  process_fresh, process_payment,
}

-- The gateway when the call is over. A panic, which the HTTP server recovers from, comes from the
-- revocation filter, when the request has only been counted.
abbrev pub gateway_after :
    PaymentGateway → Option (PaymentResponse × PaymentGateway) → PaymentGateway
gateway_after gw none = count_request gw
gateway_after gw (some (resp, gw')) = gw'

-- The cache of a result; `m` where there is none.
abbrev cache_after :
    Map PaymentResponse → Option (PaymentResponse × PaymentGateway) → Map PaymentResponse
cache_after m none = m
cache_after m (some (resp, gw')) = gw'.idempotency

-- The requests of a run, one after the other.
unfoldable pub serve : List (Ambient × PaymentRequest) → PaymentGateway → PaymentGateway
serve [] gw = gw
serve ((a, req) ∷ rest) gw = serve rest (gateway_after gw (process_payment a req gw))

module _ (a : Ambient) (req : PaymentRequest) where
  idempotency-follow_decision :
      (token : OfflineAuthorizationToken) (d : OfflineAuthDecision) (gw : PaymentGateway)
      → (follow_decision a req token d gw).1.idempotency ≡ gw.idempotency
  unfolding follow_decision queue_payment
  idempotency-follow_decision token d gw =
      elim (Option-cases
        (append a.host a.codec a.wal_outcome (queued_transaction a.host req token d.sequence_num)
          gw.edge_wal).0) [ inl ok ↦ ground (arith, ok) | inr (e, bad) ↦ ground (arith, bad) ]

  idempotency-handle_offline_payment :
      (gw : PaymentGateway)
      → cache_after gw.idempotency (handle_offline_payment a req gw) ≡ gw.idempotency
  unfolding handle_offline_payment
  idempotency-handle_offline_payment gw = elim (Option-cases req.offline_token) [
    | inl missing ↦ ground (arith, missing)
    | inr (token, given) ↦
        elim (Option-cases
          (authorize_offline a.host (unix_seconds a) token req.amount gw.edge_authorizer)) [
            | inl panics ↦ ground (arith, given, panics)
            | inr (r, decided) ↦ ground (
              arith,
              given,
              decided,
              idempotency-follow_decision token r.0 (record gw { edge_authorizer = r.1 }),
            )
          ]
  ]

  idempotency-handle_online_payment :
      (gw : PaymentGateway) → (handle_online_payment a req gw).1.idempotency ≡ gw.idempotency
  unfolding handle_online_payment settle_screened
  idempotency-handle_online_payment gw = elim (Option-cases gw.fraud_engine) [
    | inl missing ↦ ground (arith, missing)
    | inr (g, there) ↦
        let (d, g') = screen_transaction a.host (screened_event a.now req) req.qr_payload g in
        elim (Bool-cases d.approved) [
          | inl ok ↦ ground (arith, there, ok)
          | inr refused ↦ ground (arith, there, refused)
        ]
  ]

  idempotency-handle_payment :
      (gw : PaymentGateway) → cache_after gw.idempotency (handle_payment a req gw) ≡ gw.idempotency
  unfolding handle_payment
  idempotency-handle_payment gw =
      ground (arith, idempotency-handle_online_payment gw, idempotency-handle_offline_payment gw)

lookup-remember :
    (key asked : String) (resp : PaymentResponse) (gw : PaymentGateway)
    → (asked == "") ≡ false
    → lookup asked (remember key resp gw).idempotency
      ≡ (if key == asked then some resp else lookup asked gw.idempotency)
unfolding remember
lookup-remember key asked resp gw named = ground (
  arith,
  lookup-insert key asked resp gw.idempotency,
  eq_iff key asked,
  eq_iff key "",
  eq_iff asked "",
)

-- What a result stores: the response under the request's key, and nothing else.
abbrev Stores :
    String → String → PaymentGateway → Option (PaymentResponse × PaymentGateway) → Type 0
Stores key asked gw none = Unit
Stores key asked gw (some (resp, gw')) =
    lookup asked gw'.idempotency ≡ (if key == asked then some resp else lookup asked gw.idempotency)

process_fresh-Stores :
    (a : Ambient) (req : PaymentRequest) (asked : String) (gw : PaymentGateway)
    → (asked == "") ≡ false
    → Stores req.idempotency_key asked gw (process_fresh a req gw)
unfolding process_fresh
process_fresh-Stores a req asked gw named = elim (Option-cases (check_request_qr a req gw)) [
  | inr (resp, refused) ↦
      rw (refused, process_fresh) (lookup-remember req.idempotency_key asked resp gw named)
  | inl passes ↦
      let same = idempotency-handle_payment a req gw in
      elim (Option-cases (handle_payment a req gw)) [
        | inl panics ↦ rw (passes, panics, process_fresh) tt
        | inr ((resp, gw'), ran) ↦
            rw (passes, ran, process_fresh)
              (ground (arith, ran, same, lookup-remember req.idempotency_key asked resp gw' named))
      ]
]

-- A response that is cached stays, whatever request is processed.
cached-process_payment :
    (a : Ambient) (req : PaymentRequest) (key : String) (resp : PaymentResponse)
    (gw : PaymentGateway)
    → cached_response key gw ≡ some resp
    → cached_response key (gateway_after gw (process_payment a req gw)) ≡ some resp
unfolding process_payment cached_response count_request fill_request
cached-process_payment a req key resp gw hit = elim (Bool-cases (key == "")) [
  | inl empty ↦ ground (arith, hit, empty)
  | inr named ↦
      let filled = fill_request a req in
      let counted = count_request gw in
      let stored = process_fresh-Stores a filled key counted named in
      elim (Option-cases (cached_response req.idempotency_key gw)) [
        | inr (r, again) ↦ ground (arith, hit, again)
        | inl miss ↦ elim (Option-cases (process_fresh a filled counted)) [
          | inl panics ↦ rw (miss, process_payment) (rw (panics) hit)
          | inr ((r, gw'), ran) ↦ ground (
            arith,
            hit,
            miss,
            ran,
            named,
            subst (Stores req.idempotency_key key counted) ran stored,
            eq_iff req.idempotency_key key,
            eq_iff key "",
            eq_iff req.idempotency_key "",
          )
        ]
      ]
]

cached-serve :
    (requests : List (Ambient × PaymentRequest)) (key : String) (resp : PaymentResponse)
    (gw : PaymentGateway)
    → cached_response key gw ≡ some resp
    → cached_response key (serve requests gw) ≡ some resp
unfolding serve
cached-serve [] key resp gw hit = hit
cached-serve ((a, req) ∷ rest) key resp gw hit =
    cached-serve rest key resp (gateway_after gw (process_payment a req gw))
      (cached-process_payment a req key resp gw hit)

-- The answer of a request that is not anonymous is cached.
cached-answer :
    (a : Ambient) (req : PaymentRequest) (resp : PaymentResponse) (gw gw' : PaymentGateway)
    → (req.idempotency_key == "") ≡ false
    → process_payment a req gw ≡ some (resp, gw')
    → cached_response req.idempotency_key gw' ≡ some resp
unfolding process_payment cached_response count_request fill_request
cached-answer a req resp gw gw' named ran =
    elim (Option-cases (cached_response req.idempotency_key gw)) [
      | inr (r, again) ↦ ground (arith, named, again, ran)
      | inl miss ↦
          let filled = fill_request a req in
          let counted = count_request gw in
          let fresh : process_fresh a filled counted ≡ some (resp, gw') =
            ground (arith, named, miss, ran) in
          ground (
            arith,
            named,
            subst (Stores req.idempotency_key req.idempotency_key counted) fresh
                (process_fresh-Stores a filled req.idempotency_key counted named),
            eq_iff req.idempotency_key req.idempotency_key,
          )
    ]

-- A payment that is sent again under its key, whatever the second request says and whatever was
-- processed in between, gets the first answer, and is only counted: no balance, no allowance, no log
-- and no screening state changes for it.
pub process_payment_again :
    (a b : Ambient) (req again : PaymentRequest) (between : List (Ambient × PaymentRequest))
    (resp : PaymentResponse) (gw gw' : PaymentGateway)
    → (req.idempotency_key == "") ≡ false
    → again.idempotency_key ≡ req.idempotency_key
    → process_payment a req gw ≡ some (resp, gw')
    → process_payment b again (serve between gw') ≡ some (resp, count_request (serve between gw'))
unfolding process_payment
process_payment_again a b req again between resp gw gw' named same ran =
    let hit =
      cached-serve between req.idempotency_key resp gw'
        (cached-answer a req resp gw gw' named ran) in
    let found : cached_response again.idempotency_key (serve between gw') ≡ some resp =
      rw same hit in
    rw (found, process_payment) refl
