-- ===== src/Standalone/Codes.antt =====
-- The dynamic QR codes of fs2601_all_in_one.go, with separators, a merchant check and a time limit of
-- their own.
use payment_risk_engine.Prelude.{
  ◌-◌, ◌*◌, ◌/◌, not, ◌||◌, String, ◌==◌, Bool, true, false, Option, none, some, Int64, word, sub64,
  lt64, eqb, length, ◌⧺◌, decimal, if◌then◌else◌,
}
use payment_risk_engine.Host.{Host, Bytes, signature_size}

pub record DynamicQrPayload : Type 0 where
  pub merchant_id : String
  pub terminal_id : String
  pub epoch_salt : Int64
  pub nonce : String
  pub signature : String

-- `ComputeQRDigest`
unfoldable pub compute_qr_digest : Host → String → String → Int64 → String → Bytes
compute_qr_digest host merchant terminal epoch nonce =
    host.sha256 (merchant ⧺ ":" ⧺ terminal ⧺ ":" ⧺ decimal epoch ⧺ ":" ⧺ nonce)

-- `SignDynamicQR`, at a time in seconds after 1970.
unfoldable pub sign_dynamic_qr : Host → Bytes → Int64 → Bytes → String → String → DynamicQrPayload
sign_dynamic_qr host private_key now nonce_bytes merchant terminal =
    let epoch = now / 30 * 30 in
    let nonce = host.hex_encode nonce_bytes in
    record {
      merchant_id = merchant;
      terminal_id = terminal;
      epoch_salt = epoch;
      nonce = nonce;
      signature =
          host.hex_encode
            (host.sign private_key (compute_qr_digest host merchant terminal epoch nonce));
    }

-- The signature's part of `VerifyDynamicQR`.
unfoldable pub verify_signature : Host → Bytes → DynamicQrPayload → Bool × String
verify_signature host public_key qr = elim (host.hex_decode qr.signature) [
  | none ↦ (false, "Invalid signature encoding")
  | some sig ↦
      if not (eqb (length sig) signature_size)
      then (false, "Invalid signature encoding")
      else if not (
          host.verify public_key
            (compute_qr_digest host qr.merchant_id qr.terminal_id qr.epoch_salt qr.nonce) sig)
      then (false, "Ed25519 signature verification failed")
      else (true, "")
]

-- `VerifyDynamicQR`; `none` is a nil payload.
unfoldable pub verify_dynamic_qr :
    Host → Int64 → Bytes → Option DynamicQrPayload → String → Bool × String
verify_dynamic_qr host now public_key none expected = (false, "Missing dynamic QR payload")
verify_dynamic_qr host now public_key (some qr) expected =
    let skew = sub64 now qr.epoch_salt in
    if not (qr.merchant_id == expected)
    then (false, "Merchant ID mismatch: expected " ⧺ expected ⧺ ", got " ⧺ qr.merchant_id)
    else if lt64 skew (word - 60) || lt64 60 skew
    then (false, "Epoch salt expired: skew " ⧺ decimal skew ⧺ "s exceeds 60s limit")
    else verify_signature host public_key qr
