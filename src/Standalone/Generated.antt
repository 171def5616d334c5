-- ===== src/Standalone/Generated.antt =====
-- Whose payments a code of the route /api/v1/qr/generate of fs2601_all_in_one.go lets through.
use payment_risk_engine.Prelude.{
  ◌+◌, ◌*◌, ◌/◌, ◌≤◌, ◌<◌, ◌≡◌, arith, String, true, ◌==◌, none, some, lookup, Int64, half_word,
  lt64, if◌then◌else◌,
}
use payment_risk_engine.Host.{Host, Bytes}
use payment_risk_engine.Ledger.{Time}
use payment_risk_engine.Fraud.Handshake.{IsTerminalPair}
use payment_risk_engine.Standalone.{
  compute_qr_digest, sign_dynamic_qr, verify_signature, verify_dynamic_qr, GraphEngine, tampered,
  check_qr, generate_qr,
}

module _ (host : Host) (public_key private_key nonce_bytes : Bytes)
    (keys : IsTerminalPair host public_key private_key) where
  signature_verifies :
      (merchant terminal : String) (now : Int64)
      → verify_signature host public_key
          (sign_dynamic_qr host private_key now nonce_bytes merchant terminal)
        ≡ (true, "")
  unfolding verify_signature sign_dynamic_qr
  signature_verifies merchant terminal now =
      let message =
        compute_qr_digest host merchant terminal (now / 30 * 30) (host.hex_encode nonce_bytes) in
      ground (arith, keys.decodes message, keys.sized message, keys.verifies message)

  signed_code-verifies :
      (merchant terminal expected : String) (now later : Int64)
      → now ≤ later
      → later ≤ now + 31
      → later < half_word
      → (verify_dynamic_qr host later public_key
          (some (sign_dynamic_qr host private_key now nonce_bytes merchant terminal))
          expected).0
        ≡ (merchant == expected)
  unfolding verify_dynamic_qr sign_dynamic_qr lt64
  signed_code-verifies merchant terminal expected now later after soon small =
      ground (arith, signature_verifies merchant terminal now, after, soon, small)

  module _ (now later : Time) (fe : GraphEngine) where
    -- A code of this terminal lets a payment to its merchant through to the other checks for 31
    -- seconds, and a payment to anyone else is refused as tampering.
    pub generated_code_binds :
        lookup "TERM-001" fe.terminal_pub_keys ≡ some public_key
        → now ≤ later
        → later / 1000000000 ≤ now / 1000000000 + 31
        → later / 1000000000 < half_word
        → (to : String)
        → check_qr host later (some (generate_qr host private_key now nonce_bytes)) to fe
          ≡ (if "MERCHANT-POS-01" == to then none else some tampered)
    unfolding check_qr generate_qr sign_dynamic_qr
    generated_code_binds key after soon small to = ground (
      arith,
      key,
      signed_code-verifies "MERCHANT-POS-01" "TERM-001" to (now / 1000000000) (later / 1000000000)
          (omega (arith, after)) soon small,
    )
