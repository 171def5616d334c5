-- ===== src/Edge/Token.antt =====
-- Offline tokens and the `TokenAuthority` of m4_offline_auth.go.
use payment_risk_engine.Prelude.{String, Int64, ◌⧺◌, decimal, add64, lt64, if◌then◌else◌}
use payment_risk_engine.Host.{Host, Bytes}

abbrev pub max_offline_floor_limit_cents : Int64
max_offline_floor_limit_cents = 5000

pub record OfflineAuthorizationToken : Type 0 where
  pub token_id : String
  pub account_id : String
  pub max_floor_amount : Int64
  pub expiration_time : Int64
  pub terminal_id : String
  pub sequence_counter : Int64
  pub signature : String

-- The text that `Digest` hashes.
unfoldable pub digest_input : OfflineAuthorizationToken → String
digest_input t =
    t.token_id
    ⧺ ":"
    ⧺ t.account_id
    ⧺ ":"
    ⧺ decimal t.max_floor_amount
    ⧺ ":"
    ⧺ decimal t.expiration_time
    ⧺ ":"
    ⧺ t.terminal_id
    ⧺ ":"
    ⧺ decimal t.sequence_counter

-- `Digest`
unfoldable pub digest : Host → OfflineAuthorizationToken → Bytes
digest host t = host.sha256 (digest_input t)

pub record TokenAuthority : Type 0 where
  pub public_key : Bytes
  pub private_key : Bytes
  pub counter : Int64

-- `NewTokenAuthority`, of the pair of keys that it generates.
unfoldable pub new_token_authority : Bytes → Bytes → TokenAuthority
new_token_authority public_key private_key = record {
  public_key = public_key;
  private_key = private_key;
  counter = 0;
}

abbrev pub clamped_floor : Int64 → Int64
clamped_floor floor =
    if lt64 max_offline_floor_limit_cents floor then max_offline_floor_limit_cents else floor

-- The token before it is signed.
abbrev pub unsigned_token :
    String → Int64 → Int64 → Int64 → String → Int64 → OfflineAuthorizationToken
unsigned_token account floor issued_at expires terminal seq = record {
  token_id = "TOK-" ⧺ account ⧺ "-" ⧺ decimal issued_at ⧺ "-" ⧺ decimal seq;
  account_id = account;
  max_floor_amount = clamped_floor floor;
  expiration_time = expires;
  terminal_id = terminal;
  sequence_counter = seq;
  signature = "";
}

-- `IssueToken`. The two readings of the clock are `time.Now().UnixNano()` and
-- `time.Now().Add(duration).Unix()`.
unfoldable pub issue_token :
    Host
    → String
    → Int64
    → Int64
    → Int64
    → String
    → TokenAuthority
    → OfflineAuthorizationToken × TokenAuthority
issue_token host account floor issued_at expires terminal ta =
    let seq = add64 ta.counter 1 in
    let token = unsigned_token account floor issued_at expires terminal seq in
    (
      record token { signature = host.hex_encode (host.sign ta.private_key (digest host token)) },
      record ta { counter = seq },
    )
