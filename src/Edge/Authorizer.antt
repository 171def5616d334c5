-- ===== src/Edge/Authorizer.antt =====
-- The `EdgeAuthorizer` of m4_offline_auth.go.
use payment_risk_engine.Prelude.{
  String, Bool, true, false, not, ◌||◌, ◌==◌, Option, none, some, [], Map, lookup, insert, length,
  eqb, Int64, ◌⧺◌, decimal, add64, sub64, lt64, if◌then◌else◌,
}
use payment_risk_engine.Host.{Host, Bytes, signature_size}
use payment_risk_engine.Telemetry.{
  ReasonCode, code_approved, code_floor_limit_exceeded, code_offline_token_invalid,
  code_revoked_account_edge, map_reason_to_iso8583,
}
use payment_risk_engine.Fraud.{CompactFilter, contains}
use payment_risk_engine.Edge.Token.{
  OfflineAuthorizationToken, digest, max_offline_floor_limit_cents,
}

pub record EdgeAuthorizer : Type 0 where
  pub public_key : Bytes
  pub terminal_id : String
  pub spent_by_token : Map Int64
  pub sequence_num : Int64
  pub revocation_filter : Option CompactFilter

-- `NewEdgeAuthorizer`
unfoldable pub new_edge_authorizer : Bytes → String → EdgeAuthorizer
new_edge_authorizer public_key terminal = record {
  public_key = public_key;
  terminal_id = terminal;
  spent_by_token = [];
  sequence_num = 0;
  revocation_filter = none;
}

-- `SetRevocationFilter`
unfoldable pub set_revocation_filter : CompactFilter → EdgeAuthorizer → EdgeAuthorizer
set_revocation_filter filter ea = record ea { revocation_filter = some filter }

-- `ResetSpentCache`
unfoldable pub reset_spent_cache : EdgeAuthorizer → EdgeAuthorizer
reset_spent_cache ea = record ea { spent_by_token = [] }

pub record OfflineAuthDecision : Type 0 where
  pub approved : Bool
  pub reason_code : ReasonCode
  pub iso8583 : String
  pub sequence_num : Int64
  pub remaining_floor : Int64
  pub message : String

abbrev pub refusal : ReasonCode → String → OfflineAuthDecision
refusal code message = record {
  approved = false;
  reason_code = code;
  iso8583 = map_reason_to_iso8583 code;
  sequence_num = 0;
  remaining_floor = 0;
  message = message;
}

-- Step 0: whether the filter has the account or the token; `none` is its panic.
unfoldable pub revoked : OfflineAuthorizationToken → EdgeAuthorizer → Option Bool
revoked token ea = elim ea.revocation_filter [
  | none ↦ some false
  | some filter ↦ elim (contains token.account_id filter) [
    | none ↦ none
    | some true ↦ some true
    | some false ↦ contains token.token_id filter
  ]
]

abbrev pub at_terminal : OfflineAuthorizationToken → EdgeAuthorizer → Bool
at_terminal token ea = token.terminal_id == "*" || token.terminal_id == ea.terminal_id

-- Step 3: the signature. `none` passes.
unfoldable pub check_signature :
    Host → OfflineAuthorizationToken → EdgeAuthorizer → Option OfflineAuthDecision
check_signature host token ea = elim (host.hex_decode token.signature) [
  | none ↦ some (refusal code_offline_token_invalid "Malformed or tampered token signature.")
  | some sig ↦
      if eqb (length sig) signature_size
      then (if host.verify ea.public_key (digest host token) sig
          then none
          else some (refusal code_offline_token_invalid "Cryptographic token verification failed."))
      else some (refusal code_offline_token_invalid "Malformed or tampered token signature.")
]

-- `ea.spentByToken[tokenID]`
unfoldable pub spent : String → EdgeAuthorizer → Int64
spent id ea = elim (lookup id ea.spent_by_token) [ none ↦ 0 | some cents ↦ cents ]

-- Steps 4 and 5: the floor limit, and what was spent under the token. `none` passes.
unfoldable pub check_amount :
    OfflineAuthorizationToken → Int64 → EdgeAuthorizer → Option OfflineAuthDecision
check_amount token amount ea =
    if lt64 token.max_floor_amount amount || lt64 max_offline_floor_limit_cents amount
    then some (
        refusal code_floor_limit_exceeded (
          "Transaction amount "
          ⧺ decimal amount
          ⧺ " cents exceeds floor ceiling "
          ⧺ decimal token.max_floor_amount
          ⧺ " cents ($50 max)"))
    else if lt64 token.max_floor_amount (add64 (spent token.token_id ea) amount)
    then some (
        refusal code_floor_limit_exceeded (
          "Cumulative spent "
          ⧺ decimal (spent token.token_id ea)
          ⧺ " + "
          ⧺ decimal amount
          ⧺ " exceeds token allowance "
          ⧺ decimal token.max_floor_amount))
    else none

-- Steps 1 to 5 in their order: the first refusal.
unfoldable pub check_token :
    Host → Int64 → OfflineAuthorizationToken → Int64 → EdgeAuthorizer → Option OfflineAuthDecision
check_token host now token amount ea =
    if lt64 token.expiration_time now
    then some (refusal code_offline_token_invalid "Offline authorization token has expired.")
    else if not (at_terminal token ea)
    then some (
        refusal code_offline_token_invalid (
          "Token restricted to terminal " ⧺ token.terminal_id ⧺ " (current: " ⧺ ea.terminal_id
          ⧺ ")"))
    else elim (check_signature host token ea) [
      | some refused ↦ some refused
      | none ↦ check_amount token amount ea
    ]

-- What a granted authorization leaves, and its answer.
unfoldable pub spend : String → Int64 → EdgeAuthorizer → EdgeAuthorizer
spend id amount ea = record ea {
  spent_by_token = insert id (add64 (spent id ea) amount) ea.spent_by_token;
  sequence_num = add64 ea.sequence_num 1;
}

unfoldable pub approval : OfflineAuthorizationToken → EdgeAuthorizer → OfflineAuthDecision
approval token ea = record {
  approved = true;
  reason_code = code_approved;
  iso8583 = map_reason_to_iso8583 code_approved;
  sequence_num = ea.sequence_num;
  remaining_floor = sub64 token.max_floor_amount (spent token.token_id ea);
  message = "Offline authorization granted under cryptographic floor limit.";
}

-- `AuthorizeOffline` at a time in seconds; `none` is a panic of the filter.
unfoldable pub authorize_offline :
    Host
    → Int64
    → OfflineAuthorizationToken
    → Int64
    → EdgeAuthorizer
    → Option (OfflineAuthDecision × EdgeAuthorizer)
authorize_offline host now token amount ea = elim (revoked token ea) [
  | none ↦ none
  | some true ↦ some (
    refusal code_revoked_account_edge "Account or card token revoked at edge (Lost/Stolen Card).",
    ea,
  )
  | some false ↦ elim (check_token host now token amount ea) [
    | some refused ↦ some (refused, ea)
    | none ↦ let granted = spend token.token_id amount ea in some (approval token granted, granted)
  ]
]
