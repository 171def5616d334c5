-- ===== src/Edge/Issuing.antt =====
-- Tokens of `IssueToken` before `AuthorizeOffline`, both of m4_offline_auth.go.
use payment_risk_engine.Prelude.{
  ℕ, ◌-◌, ◌≤◌, ◌<◌, ◌≡◌, refl, arith, true, ◌||◌, some, String, ◌==◌, eq_iff, length, Int64,
  IsNonneg, word, add64, lt64, le64, lookup, lookup-insert,
}
use payment_risk_engine.Host.{Host, Bytes, signature_size}
use payment_risk_engine.Edge.Token.{
  OfflineAuthorizationToken, TokenAuthority, digest, digest_input, issue_token, unsigned_token,
}
use payment_risk_engine.Edge.Authorizer.{
  EdgeAuthorizer, new_edge_authorizer, revoked, spent, spend, approval, authorize_offline,
}
use payment_risk_engine.Edge.Granting.{IsSigned, IsGenuine, authorize_offline_approves}

-- What the crypto packages document, at a pair of keys: a signature has its size and verifies, and
-- its hexadecimal text decodes to it.
pub record IsKeyPair (host : Host) (ta : TokenAuthority) : Type 0 where
  pub decodes :
      (message : Bytes)
      → host.hex_decode (host.hex_encode (host.sign ta.private_key message))
        ≡ some (host.sign ta.private_key message)
  pub sized : (message : Bytes) → length (host.sign ta.private_key message) ≡ signature_size
  pub verifies :
      (message : Bytes)
      → host.verify ta.public_key message (host.sign ta.private_key message) ≡ true

-- No token has a floor above the limit.
pub issue_token_floor :
    (host : Host) (account : String) (floor issued_at expires : Int64) (terminal : String)
    (ta : TokenAuthority)
    → le64 (issue_token host account floor issued_at expires terminal ta).0.max_floor_amount 5000
      ≡ true
unfolding issue_token lt64
issue_token_floor host account floor issued_at expires terminal ta = ground arith

issue_token-IsSigned :
    (host : Host) (account : String) (floor issued_at expires : Int64) (terminal : String)
    (ta : TokenAuthority)
    → IsKeyPair host ta
    → IsSigned host (issue_token host account floor issued_at expires terminal ta).0 ta.public_key
unfolding issue_token digest digest_input
issue_token-IsSigned host account floor issued_at expires terminal ta keys =
    let token = unsigned_token account floor issued_at expires terminal (add64 ta.counter 1) in
    record {
      sig = host.sign ta.private_key (digest host token);
      decoded = keys.decodes (digest host token);
      sized = keys.sized (digest host token);
      verified = keys.verifies (digest host token);
    }

-- A token just issued is approved by a fresh authorizer that knows the authority's key, at the
-- token's terminal or any if it says so, until it expires, for any amount up to its floor.
pub issued_token_approved :
    (host : Host) (account : String) (floor issued_at expires : Int64) (terminal here : String)
    (ta : TokenAuthority) (now : Int64) (amount : Int64)
    → IsKeyPair host ta
    → le64 now expires ≡ true
    → (terminal == "*" || terminal == here) ≡ true
    → IsNonneg floor
    → amount ≤ floor
    → amount ≤ 5000
    → let token = (issue_token host account floor issued_at expires terminal ta).0 in
      let ea = new_edge_authorizer ta.public_key here in
      authorize_offline host now token amount ea
      ≡ some (approval token (spend token.token_id amount ea), spend token.token_id amount ea)
unfolding issue_token new_edge_authorizer revoked spent lt64 lookup
issued_token_approved host account floor issued_at expires terminal here ta now amount keys fresh
      place nonneg in_floor in_limit =
    let token = (issue_token host account floor issued_at expires terminal ta).0 in
    authorize_offline_approves host now token amount (new_edge_authorizer ta.public_key here)
      (record {
        unrevoked = refl;
        unexpired = fresh;
        here = place;
        signed = issue_token-IsSigned host account floor issued_at expires terminal ta keys;
        in_floor = ground arith;
        in_limit = ground arith;
        in_allowance = ground arith;
      })

-- A negative amount is approved on any token that would take a purchase of nothing, and is taken off what
-- was spent: the allowance grows.
pub negative_amount_approved :
    (host : Host) (now : Int64) (token : OfflineAuthorizationToken) (cents : ℕ)
    (ea : EdgeAuthorizer)
    → IsGenuine host now token 0 ea
    → 0 < cents
    → cents ≤ 5000
    → IsNonneg token.max_floor_amount
    → spent token.token_id ea ≤ token.max_floor_amount
    → cents ≤ spent token.token_id ea
    → (authorize_offline host now token (word - cents) ea
        ≡ some (
          approval token (spend token.token_id (word - cents) ea),
          spend token.token_id (word - cents) ea,
        ))
      × (spent token.token_id (spend token.token_id (word - cents) ea)
          ≡ spent token.token_id ea - cents)
unfolding spent spend lt64
negative_amount_approved host now token cents ea g some_cents few floor_nonneg below covered = (
  authorize_offline_approves host now token (word - cents) ea (record {
    unrevoked = g.unrevoked;
    unexpired = g.unexpired;
    here = g.here;
    signed = g.signed;
    in_floor = ground arith;
    in_limit = ground arith;
    in_allowance = ground (arith, covered);
  }),
  ground (
    arith,
    lookup-insert token.token_id token.token_id (add64 (spent token.token_id ea) (word - cents))
        ea.spent_by_token,
    eq_iff token.token_id token.token_id,
  ),
)
