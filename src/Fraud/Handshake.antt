-- ===== src/Fraud/Handshake.antt =====
-- How long a code of `SignDynamicQR` passes `VerifyDynamicQR`, both of qr_verifier.go.
use payment_risk_engine.Prelude.{
  ℕ, zero, suc, ◌+◌, ◌-◌, ◌*◌, ◌/◌, ◌^◌, ◌≤◌, ◌<◌, ◌≡◌, refl, ap, ◌∙◌, arith, String, true, false,
  some, Int64, word, half_word, sub64, lt64, ltb, length, if◌then◌else◌,
}
use payment_risk_engine.Host.{Host, Bytes, signature_size}
use payment_risk_engine.Fraud.Qr.{
  current_epoch_salt, compute_qr_digest, sign_dynamic_qr, magnitude, excess, round_to,
  verify_dynamic_qr,
}

-- What the crypto packages document, at the pair of keys of a terminal.
pub record IsTerminalPair (host : Host) (public_key private_key : Bytes) : Type 0 where
  pub decodes :
      (message : Bytes)
      → host.hex_decode (host.hex_encode (host.sign private_key message))
        ≡ some (host.sign private_key message)
  pub sized : (message : Bytes) → length (host.sign private_key message) ≡ signature_size
  pub verifies :
      (message : Bytes) → host.verify public_key message (host.sign private_key message) ≡ true

excess_small : (fuel n : ℕ) → n < 2 ^ 53 → excess fuel n ≡ 0
unfolding excess
excess_small zero n small = refl
excess_small (suc fuel) n small = ground (arith, small)

round_to_one : (n : ℕ) → round_to 1 n ≡ n
round_to_one n = ground arith

-- The rounding leaves a number of seconds that a float64 holds as it is.
magnitude_small : (x : Int64) → x < 2 ^ 53 → magnitude x ≡ x
unfolding magnitude
magnitude_small x small =
    let plain : (if ltb x half_word then x else word - x) ≡ x = ground (arith, small) in
    ap (λ n. round_to (2 ^ excess 11 n) n) plain
    ∙ ap (λ e. round_to (2 ^ e) x) (excess_small 11 x small)
    ∙ round_to_one x

module _ (now later : Int64) (after : now ≤ later) (small : later < 2 ^ 53) where
  -- The skew of a code that was signed at `now`.
  skew_of_epoch : (magnitude (sub64 later (current_epoch_salt now)) ≡ later - now / 30 * 30)
  unfolding current_epoch_salt
  skew_of_epoch =
      let plain : sub64 later (now / 30 * 30) ≡ later - now / 30 * 30 =
        omega (arith, after, small) in
      ap magnitude plain ∙ magnitude_small (later - now / 30 * 30) (omega (arith, small))

  skew_in_time :
      later ≤ now + 31 → lt64 60 (magnitude (sub64 later (current_epoch_salt now))) ≡ false
  unfolding lt64
  skew_in_time soon = ground (arith, skew_of_epoch, soon, after, small)

  skew_too_late :
      now + 61 ≤ later → lt64 60 (magnitude (sub64 later (current_epoch_salt now))) ≡ true
  unfolding lt64
  skew_too_late late = ground (arith, skew_of_epoch, late, after, small)

module _ (host : Host) (public_key private_key nonce_bytes : Bytes) (merchant terminal : String)
    (now later : Int64) where
  -- A code passes the check with its terminal's key for 31 seconds after it was signed.
  pub signed_code_accepted :
      IsTerminalPair host public_key private_key
      → now ≤ later
      → later ≤ now + 31
      → later < 2 ^ 53
      → verify_dynamic_qr host later
          (sign_dynamic_qr host private_key now nonce_bytes merchant terminal)
          public_key
        ≡ (true, "")
  unfolding verify_dynamic_qr sign_dynamic_qr
  signed_code_accepted keys after soon small =
      let message =
        compute_qr_digest host merchant terminal (current_epoch_salt now)
          (host.hex_encode nonce_bytes) in
      ground (
        arith,
        skew_in_time now later after small soon,
        keys.decodes message,
        keys.sized message,
        keys.verifies message,
      )

  -- From 61 seconds on it is refused, whatever the key.
  pub old_code_refused :
      now + 61 ≤ later
      → later < 2 ^ 53
      → (verify_dynamic_qr host later
          (sign_dynamic_qr host private_key now nonce_bytes merchant terminal)
          public_key).0
        ≡ false
  unfolding verify_dynamic_qr sign_dynamic_qr
  old_code_refused late small =
      ground (arith, skew_too_late now later (omega (arith, late)) small late)
