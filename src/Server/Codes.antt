-- ===== src/Server/Codes.antt =====
-- The handlers of cmd/server/main.go for the revocation filter and the dynamic QR codes.
use payment_risk_engine.Prelude.{
  ℕ, String, Bool, ◌==◌, Option, none, some, List, length, sub64, if◌then◌else◌,
}
use payment_risk_engine.Host.{Bytes}
use payment_risk_engine.Fraud.{
  CompactFilter, insert_key, count_of, serialize, DynamicQrPayload, sign_dynamic_qr,
  compute_qr_digest,
}
use payment_risk_engine.Gateway.{Ambient, unix_seconds}
use payment_risk_engine.Server.Types.{
  Server, revocation, revocation_stats, qr_code, Reply, ok, bad_request,
}

abbrev pub with_filter : CompactFilter → Server → Server
with_filter cf s =
    let gw = s.gw in
    record s {
      gw = record gw {
        edge_authorizer = record (gw.edge_authorizer) { revocation_filter = some cf };
      };
    }

-- `handleRevocationAdd`, on the filter that the authorizer has; `none` is a panic. The coin and the
-- slots are the draws of `Insert`.
unfoldable pub handle_revocation_add :
    Bool → List ℕ → Option String → Server → Option (Reply × Server)
handle_revocation_add coin slots none s = some (bad_request "invalid request", s)
handle_revocation_add coin slots (some id) s = elim s.gw.edge_authorizer.revocation_filter [
  | none ↦ none
  | some filter ↦ elim (insert_key coin slots id filter) [
    | none ↦ none
    | some (inserted, cf) ↦ some (ok (revocation id inserted (count_of cf)), with_filter cf s)
  ]
]

-- `handleRevocationStats`: the number of keys, and of bytes.
unfoldable pub handle_revocation_stats : Server → Option Reply
handle_revocation_stats s = elim s.gw.edge_authorizer.revocation_filter [
  | none ↦ none
  | some cf ↦ some (ok (revocation_stats (count_of cf) (length (serialize cf))))
]

pub record QrRequest : Type 0 where
  pub merchant_id : String
  pub terminal_id : String
  pub tamper_mode : String

-- The code that is signed again with an old time.
abbrev expired_code : Ambient → Bytes → DynamicQrPayload → DynamicQrPayload
expired_code a key payload =
    let old = sub64 (unix_seconds a) 120 in
    record payload {
      epoch_salt = old;
      signature = a.host.hex_encode (
          a.host.sign key
            (compute_qr_digest a.host payload.merchant_id payload.terminal_id old payload.nonce));
    }

-- `handleGenerateQR`; a body that cannot be decoded counts as an empty one. The key is the one that
-- is generated for a forged code.
unfoldable pub handle_generate_qr : Ambient → Bytes → QrRequest → Server → Reply
handle_generate_qr a fake_key req s =
    let merchant = if req.merchant_id == "" then "MERCHANT-POS-01" else req.merchant_id in
    let terminal = if req.terminal_id == "" then "TERM-001" else req.terminal_id in
    let signed =
      sign_dynamic_qr a.host s.terminal_priv_key (unix_seconds a) a.random_bytes merchant
        terminal in
    ok (
      qr_code (
        if req.tamper_mode == "EXPIRED"
        then expired_code a s.terminal_priv_key signed
        else if req.tamper_mode == "STICKER_MISMATCH"
        then sign_dynamic_qr a.host s.terminal_priv_key (unix_seconds a) a.random_bytes
            "ATTACKER-EVIL-MERCHANT" terminal
        else if req.tamper_mode == "FORGED"
        then sign_dynamic_qr a.host fake_key (unix_seconds a) a.random_bytes merchant terminal
        else signed))
