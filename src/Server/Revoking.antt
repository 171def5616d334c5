-- ===== src/Server/Revoking.antt =====
-- A card that the server revokes, at the authorizer: cmd/server/main.go, compact_filter.go,
-- m4_offline_auth.go and m1_api.go together.
use payment_risk_engine.Prelude.{ℕ, ◌≡◌, refl, arith, Bool, true, some, List, Int64}
use payment_risk_engine.Telemetry.{code_revoked_account_edge, new_decline_response}
use payment_risk_engine.Edge.{OfflineAuthorizationToken, EdgeAuthorizer, revoked}
use payment_risk_engine.Edge.Granting.{authorize_offline-revoked}
use payment_risk_engine.Fraud.{CompactFilter, contains}
use payment_risk_engine.Fraud.Placing.{IsFilter}
use payment_risk_engine.Gateway.{Ambient, unix_seconds, PaymentRequest, handle_offline_payment}
use payment_risk_engine.Gateway.Partition.{handle_offline_payment_refused}
use payment_risk_engine.Server.{Server, ok, revocation, handle_revocation_add}
use payment_risk_engine.Server.Conserved.{Reach}
use payment_risk_engine.Server.Standing.{AllAnswered, revocation-IsStanding, Reach-IsStanding}

revoked-contains :
    (token : OfflineAuthorizationToken) (ea : EdgeAuthorizer) (cf : CompactFilter)
    → ea.revocation_filter ≡ some cf
    → contains token.account_id cf ≡ some true
    → revoked token ea ≡ some true
unfolding revoked
revoked-contains token ea cf there found = ground (arith, there, found)

-- After the server, whose filter is sound, has answered that it has inserted an account, and after
-- any further requests that neither panic nor wait for ever and none of whose revocations is
-- answered with false: the offline path of a payment declines every token of that account as
-- revoked, whatever else the request says, and changes nothing.
pub revoked_account_declined :
    (a : Ambient) (coin : Bool) (slots : List ℕ) (s u s' : Server) (filter : CompactFilter) (n : ℕ)
    (brought : Int64) (req : PaymentRequest) (token : OfflineAuthorizationToken)
    → s.gw.edge_authorizer.revocation_filter ≡ some filter
    → IsFilter filter
    → handle_revocation_add coin slots (some token.account_id) s
      ≡ some (ok (revocation token.account_id true n), u)
    → (later : Reach u brought s') → AllAnswered later
    → req.offline_token ≡ some token
    → handle_offline_payment a req s'.gw
      ≡ some (
        new_decline_response code_revoked_account_edge
            "Account or card token revoked at edge (Lost/Stolen Card)." 0,
        s'.gw,
      )
revoked_account_declined a coin slots s u s' filter n brought req token has_filter f ran later k
      given =
    let put = revocation-IsStanding coin slots token.account_id s u filter n has_filter f ran in
    let h = Reach-IsStanding token.account_id later k put.0 in
    let gone = revoked-contains token s'.gw.edge_authorizer h.filter h.held h.listed in
    let answer =
      authorize_offline-revoked a.host (unix_seconds a) token req.amount s'.gw.edge_authorizer
        gone in
    handle_offline_payment_refused a req token given s'.gw answer refl
