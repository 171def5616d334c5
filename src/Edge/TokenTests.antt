-- ===== src/Edge/TokenTests.antt =====
-- Runs of the token authority and the authorizer of m4_offline_auth.go, and the theorems about
-- them at concrete inputs.
use payment_risk_engine.Prelude.{
  ◌⊎◌, ◌≡◌, refl, insert, decimal, ◌==◌, true, false, none, some, List, [], ◌∷◌, String, ℕ, ◌+◌,
  ◌≤◌, arith, eqb, length, lookup, lt64, le64, if◌then◌else◌,
}
use payment_risk_engine.Host.{Host, Bytes}
use payment_risk_engine.Fraud.{replicate}
use payment_risk_engine.Edge.{
  OfflineAuthorizationToken, TokenAuthority, issue_token, EdgeAuthorizer, new_edge_authorizer,
  revoked, spent, spend, approval, authorize_offline, check_signature, check_amount, check_token,
}
use payment_risk_engine.Edge.Granting.{IsGenuine, authorize_offline-cases}
use payment_risk_engine.Edge.Allowance.{Attempt, approved_total, approved_total_le, answer}
use payment_risk_engine.Edge.Issuing.{IsKeyPair, issue_token_floor, issued_token_approved}

abbrev seal : Bytes
seal = replicate 64 7

-- Every signature is the seal, whose text is "seal".
abbrev host : Host
host = record {
  sha256 = λ text. [];
  hex_encode = λ bytes. "seal";
  hex_decode = λ text. if text == "seal" then some seal else none;
  sign = λ key message. seal;
  hmac_sha256 = λ key message. [];
  verify = λ key message sig. eqb (length sig) 64;
}

abbrev authority : TokenAuthority
authority = record { public_key = 1 ∷ []; private_key = 2 ∷ []; counter = 0 }

keys : IsKeyPair host authority
keys = record { decodes = λ message. refl; sized = λ message. refl; verifies = λ message. refl }

-- A token for 30 dollars, at any terminal, until second 100.
abbrev token : OfflineAuthorizationToken
token = record {
  token_id = "TOK-alice-1-1";
  account_id = "alice";
  max_floor_amount = 3000;
  expiration_time = 100;
  terminal_id = "*";
  sequence_counter = 1;
  signature = "seal";
}

abbrev authorizer : EdgeAuthorizer
authorizer = new_edge_authorizer (1 ∷ []) "POS-1"

issued : (issue_token host "alice" 3000 1 100 "*" authority).0 ≡ token
unfolding issue_token lt64 decimal
issued = refl

issue_token_floor_example :
    le64 (issue_token host "alice" 9000 1 100 "*" authority).0.max_floor_amount 5000 ≡ true
issue_token_floor_example = issue_token_floor host "alice" 9000 1 100 "*" authority

-- Twenty dollars and eleven more: the second is over the floor.
abbrev purchases : List Attempt
purchases =
    (record { now = 50; token = token; amount = 2000 })
    ∷ (record { now = 51; token = token; amount = 1100 })
    ∷ []

abbrev ceiling : String → ℕ
ceiling id = 3000

purchases_total : approved_total host "TOK-alice-1-1" purchases authorizer ≡ 2000
unfolding answer authorize_offline revoked new_edge_authorizer check_token lt64 check_signature
    check_amount spent lookup approval spend insert
purchases_total = refl

approved_total_le_example :
    spent "TOK-alice-1-1" authorizer + approved_total host "TOK-alice-1-1" purchases authorizer
    ≤ 3000
unfolding spent lookup new_edge_authorizer
approved_total_le_example =
    approved_total_le host ceiling (λ id. omega arith) "TOK-alice-1-1" purchases authorizer
      (
        record { amount_nonneg = omega arith; floor_in_ceiling = omega arith },
        (record { amount_nonneg = omega arith; floor_in_ceiling = omega arith }, tt),
      )
      (λ key. omega arith)

issued_token_approved_example :
    authorize_offline host 50 (issue_token host "alice" 3000 1 100 "*" authority).0 2000 authorizer
    ≡ some (
      approval
          (issue_token host "alice" 3000 1 100 "*" authority).0
          (spend (issue_token host "alice" 3000 1 100 "*" authority).0.token_id 2000 authorizer),
      spend (issue_token host "alice" 3000 1 100 "*" authority).0.token_id 2000 authorizer,
    )
unfolding lt64
issued_token_approved_example =
    issued_token_approved host "alice" 3000 1 100 "*" "POS-1" authority 50 2000 keys refl refl
      (omega arith) (omega arith) (omega arith)

abbrev after : EdgeAuthorizer
after = spend "TOK-alice-1-1" 2000 authorizer

first_purchase :
    authorize_offline host 50 token 2000 authorizer ≡ some (approval token after, after)
unfolding authorize_offline revoked new_edge_authorizer check_token lt64 check_signature
    check_amount spent lookup
first_purchase = refl

genuine : IsGenuine host 51 token 0 after
unfolding revoked spend new_edge_authorizer lt64 spent lookup insert
genuine = record {
  unrevoked = refl;
  unexpired = refl;
  here = refl;
  signed = record { sig = seal; decoded = refl; sized = refl; verified = refl };
  in_floor = refl;
  in_limit = refl;
  in_allowance = refl;
}

-- A purchase in order is in the second case.
authorize_offline-cases_example :
    ((approval token after).approved ≡ false) × (after ≡ authorizer)
    ⊎ (IsGenuine host 50 token 2000 authorizer
        × (approval token after ≡ approval token after)
        × (after ≡ after))
authorize_offline-cases_example =
    authorize_offline-cases host 50 token 2000 authorizer first_purchase
