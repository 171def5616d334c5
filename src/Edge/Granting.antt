-- ===== src/Edge/Granting.antt =====
-- What an approval of `AuthorizeOffline` (m4_offline_auth.go) says of the token, and what a call
-- leaves behind.
use mathlib.Core.Option.{some-injective}
use payment_risk_engine.Prelude.{
  ◌≡◌, sym, ap, ◌∙◌, arith, ◌⊎◌, inl, inr, true, false, none, some, Option-cases, length, Int64,
  add64, le64,
}
use payment_risk_engine.Host.{Host, Bytes, signature_size}
use payment_risk_engine.Telemetry.{code_revoked_account_edge}
use payment_risk_engine.Edge.Token.{OfflineAuthorizationToken, digest}
use payment_risk_engine.Edge.Authorizer.{
  EdgeAuthorizer, OfflineAuthDecision, refusal, revoked, at_terminal, check_signature, check_amount,
  check_token, spent, spend, approval, authorize_offline,
}

-- The signature is hexadecimal, of the right length, and one of the token's digest.
pub record IsSigned (host : Host) (token : OfflineAuthorizationToken) (key : Bytes) : Type 0 where
  pub sig : Bytes
  pub decoded : host.hex_decode token.signature ≡ some sig
  pub sized : length sig ≡ signature_size
  pub verified : host.verify key (digest host token) sig ≡ true

-- All that is asked of a token before it is spent.
pub record IsGenuine (host : Host) (now : Int64) (token : OfflineAuthorizationToken)
    (amount : Int64) (ea : EdgeAuthorizer) : Type 0 where
  pub unrevoked : revoked token ea ≡ some false
  pub unexpired : le64 now token.expiration_time ≡ true
  pub here : at_terminal token ea ≡ true
  pub signed : IsSigned host token ea.public_key
  pub in_floor : le64 amount token.max_floor_amount ≡ true
  pub in_limit : le64 amount 5000 ≡ true
  pub in_allowance : le64 (add64 (spent token.token_id ea) amount) token.max_floor_amount ≡ true

check_signature-IsSigned :
    (host : Host) (token : OfflineAuthorizationToken) (ea : EdgeAuthorizer)
    → check_signature host token ea ≡ none
    → IsSigned host token ea.public_key
unfolding check_signature
check_signature-IsSigned host token ea e = elim (Option-cases (host.hex_decode token.signature)) [
  | inl bad ↦ absurd (ground (arith, bad))
  | inr (sig, good) ↦ record {
    sig = sig;
    decoded = good;
    sized = ground (arith, good);
    verified = ground (arith, good);
  }
]

check_signature_passes :
    (host : Host) (token : OfflineAuthorizationToken) (ea : EdgeAuthorizer)
    → IsSigned host token ea.public_key
    → check_signature host token ea ≡ none
unfolding check_signature
check_signature_passes host token ea s = ground (arith, s.decoded, s.sized, s.verified)

check_token-IsGenuine :
    (host : Host) (now : Int64) (token : OfflineAuthorizationToken) (amount : Int64)
    (ea : EdgeAuthorizer)
    → revoked token ea ≡ some false
    → check_token host now token amount ea ≡ none
    → IsGenuine host now token amount ea
unfolding check_token check_amount
check_token-IsGenuine host now token amount ea r e =
    elim (Option-cases (check_signature host token ea)) [
      | inr (refused, bad) ↦ absurd (ground (arith, bad))
      | inl good ↦ record {
        unrevoked = r;
        unexpired = ground (arith, good);
        here = ground (arith, good);
        signed = check_signature-IsSigned host token ea good;
        in_floor = ground (arith, good);
        in_limit = ground (arith, good);
        in_allowance = ground (arith, good);
      }
    ]

check_signature_refuses :
    (host : Host) (token : OfflineAuthorizationToken) (ea : EdgeAuthorizer)
    {d : OfflineAuthDecision}
    → check_signature host token ea ≡ some d
    → d.approved ≡ false
unfolding check_signature
check_signature_refuses host token ea {d} e =
    elim (Option-cases (host.hex_decode token.signature)) [
      | inl bad ↦ ground (arith, bad)
      | inr (sig, good) ↦ ground (arith, good)
    ]

check_token_refuses :
    (host : Host) (now : Int64) (token : OfflineAuthorizationToken) (amount : Int64)
    (ea : EdgeAuthorizer) {d : OfflineAuthDecision}
    → check_token host now token amount ea ≡ some d
    → d.approved ≡ false
unfolding check_token check_amount
check_token_refuses host now token amount ea {d} e =
    elim (Option-cases (check_signature host token ea)) [
      | inr (refused, bad) ↦ ground (arith, bad, check_signature_refuses host token ea bad)
      | inl good ↦ ground (arith, good)
    ]

check_token_passes :
    (host : Host) (now : Int64) (token : OfflineAuthorizationToken) (amount : Int64)
    (ea : EdgeAuthorizer)
    → IsGenuine host now token amount ea
    → check_token host now token amount ea ≡ none
unfolding check_token check_amount
check_token_passes host now token amount ea g = ground (
  arith,
  check_signature_passes host token ea g.signed,
  g.unexpired,
  g.here,
  g.in_floor,
  g.in_limit,
  g.in_allowance,
)

-- A genuine token is approved, and charged.
pub authorize_offline_approves :
    (host : Host) (now : Int64) (token : OfflineAuthorizationToken) (amount : Int64)
    (ea : EdgeAuthorizer)
    → IsGenuine host now token amount ea
    → authorize_offline host now token amount ea
      ≡ some (approval token (spend token.token_id amount ea), spend token.token_id amount ea)
unfolding authorize_offline
authorize_offline_approves host now token amount ea g =
    ground (arith, g.unrevoked, check_token_passes host now token amount ea g)

module _ (host : Host) (now : Int64) (token : OfflineAuthorizationToken) (amount : Int64)
    (ea : EdgeAuthorizer) where
  pub authorize_offline-revoked :
      revoked token ea ≡ some true
      → authorize_offline host now token amount ea
        ≡ some (
          refusal code_revoked_account_edge
              "Account or card token revoked at edge (Lost/Stolen Card).",
          ea,
        )
  unfolding authorize_offline
  authorize_offline-revoked gone = rw (gone, authorize_offline)

  authorize_offline_refuses :
      {refused : OfflineAuthDecision}
      → revoked token ea ≡ some false
      → check_token host now token amount ea ≡ some refused
      → authorize_offline host now token amount ea ≡ some (refused, ea)
  unfolding authorize_offline
  authorize_offline_refuses r bad = rw (r, bad, authorize_offline)

-- Conversely, an answer is a refusal that changes nothing, or the approval of a genuine token.
pub authorize_offline-cases :
    (host : Host) (now : Int64) (token : OfflineAuthorizationToken) (amount : Int64)
    (ea : EdgeAuthorizer) {d : OfflineAuthDecision} {next : EdgeAuthorizer}
    → authorize_offline host now token amount ea ≡ some (d, next)
    → ((d.approved ≡ false) × (next ≡ ea))
      ⊎ (IsGenuine host now token amount ea
          × (d ≡ approval token (spend token.token_id amount ea))
          × (next ≡ spend token.token_id amount ea))
unfolding authorize_offline
authorize_offline-cases host now token amount ea {d} {next} e =
    let Answer : Type 0 = OfflineAuthDecision × EdgeAuthorizer in
    elim (Option-cases (revoked token ea)) [
      | inl bad ↦ absurd (ground (arith, bad))
      | inr (true, gone) ↦
          let same =
            some-injective _ _ (sym e ∙ authorize_offline-revoked host now token amount ea gone) in
          inl (ap (λ (a : Answer). a.0.approved) same, ap (λ (a : Answer). a.1) same)
      | inr (false, r) ↦ elim (Option-cases (check_token host now token amount ea)) [
        | inl passed ↦
            let g = check_token-IsGenuine host now token amount ea r passed in
            let same =
              some-injective _ _ (sym e ∙ authorize_offline_approves host now token amount ea g) in
            inr (g, ap (λ (a : Answer). a.0) same, ap (λ (a : Answer). a.1) same)
        | inr (refused, bad) ↦
            let same =
              some-injective _ _
                (sym e ∙ authorize_offline_refuses host now token amount ea r bad) in
            inl (
              ap (λ (a : Answer). a.0.approved) same
                  ∙ check_token_refuses host now token amount ea bad,
              ap (λ (a : Answer). a.1) same,
            )
      ]
    ]
