-- ===== src/Fraud/Qr.antt =====
-- `DynamicQRPayload` and `VerifyDynamicQR` of qr_verifier.go.
use payment_risk_engine.Prelude.{
  ℕ, zero, suc, ◌-◌, ◌+◌, ◌*◌, ◌/◌, ◌%◌, ◌^◌, ◌||◌, ◌&&◌, String, Bool, true, false, none, some,
  Int64, word, half_word, sub64, lt64, eqb, ltb, length, ◌⧺◌, decimal, if◌then◌else◌,
}
use payment_risk_engine.Host.{Host, Bytes, signature_size}

abbrev pub epoch_interval_seconds : Int64
epoch_interval_seconds = 30

abbrev pub max_epoch_skew_seconds : Int64
max_epoch_skew_seconds = 60

pub record DynamicQrPayload : Type 0 where
  pub merchant_id : String
  pub terminal_id : String
  pub epoch_salt : Int64
  pub nonce : String
  pub signature : String

-- `CurrentEpochSalt`, at a time after 1970.
unfoldable pub current_epoch_salt : Int64 → Int64
current_epoch_salt now = now / epoch_interval_seconds * epoch_interval_seconds

-- `ComputeQRDigest`
unfoldable pub compute_qr_digest : Host → String → String → Int64 → String → Bytes
compute_qr_digest host merchant terminal epoch nonce =
    host.sha256 (merchant ⧺ "||" ⧺ terminal ⧺ "||" ⧺ decimal epoch ⧺ "||" ⧺ nonce)

-- `SignDynamicQR`; the nonce is what the random bytes encode to.
unfoldable pub sign_dynamic_qr : Host → Bytes → Int64 → Bytes → String → String → DynamicQrPayload
sign_dynamic_qr host private_key now nonce_bytes merchant terminal =
    let epoch = current_epoch_salt now in
    let nonce = host.hex_encode nonce_bytes in
    record {
      merchant_id = merchant;
      terminal_id = terminal;
      epoch_salt = epoch;
      nonce = nonce;
      signature =
          host.hex_encode
            (host.sign private_key (compute_qr_digest host merchant terminal epoch nonce));
    }

-- How many low bits a float64 cannot hold of a number below 2 ^ 64.
unfoldable pub excess : ℕ → ℕ → ℕ
excess zero n = 0
excess (suc fuel) n = let more = excess fuel (n / 2) in if ltb n (2 ^ 53) then 0 else suc more

-- To the nearest number with 53 significant bits, and to the even one between two.
abbrev pub round_to : ℕ → ℕ → ℕ
round_to unit n =
    let q = n / unit in
    let up = ltb unit (2 * (n % unit)) || (eqb (2 * (n % unit)) unit && eqb (q % 2) 1) in
    if up then (q + 1) * unit else q * unit

-- `int64(math.Abs(float64(x)))`. A magnitude of 2 ^ 63 is no int64: the conversion gives the least
-- one, as on amd64.
unfoldable pub magnitude : Int64 → Int64
unfolding excess
magnitude x = let n = if ltb x half_word then x else word - x in round_to (2 ^ excess 11 n) n

-- `VerifyDynamicQR`: valid, or the reason why not.
unfoldable pub verify_dynamic_qr : Host → Int64 → DynamicQrPayload → Bytes → Bool × String
verify_dynamic_qr host now payload public_key =
    let skew = magnitude (sub64 now payload.epoch_salt) in
    if lt64 max_epoch_skew_seconds skew
    then (
      false,
      "Dynamic QR epoch expired (skew "
          ⧺ decimal skew
          ⧺ " seconds > "
          ⧺ decimal max_epoch_skew_seconds
          ⧺ " seconds max)",
    )
    else elim (host.hex_decode payload.signature) [
      | none ↦ (false, "Malformed or invalid signature format")
      | some sig ↦
          if eqb (length sig) signature_size
          then (if host.verify public_key
                (compute_qr_digest host payload.merchant_id payload.terminal_id payload.epoch_salt
                  payload.nonce)
                sig
              then (true, "")
              else (
                false, "Ed25519 signature mismatch: physical QR overlay sticker tampering detected",
              ))
          else (false, "Malformed or invalid signature format")
    ]
