-- ===== src/Host.antt =====
-- What the program takes from Go's crypto packages: SHA-256, HMAC, Ed25519 and hexadecimal text, as
-- functions that are arguments of the model. Nothing is assumed of them here; a theorem that relies
-- on a documented law states it as a hypothesis.
use payment_risk_engine.Prelude.{ℕ, String, Option, List, Bool}

abbrev pub Bytes : Type 0
Bytes = List ℕ

pub record Host : Type 0 where
  -- `sha256.Sum256([]byte(text))`
  pub sha256 : String → Bytes
  -- `hex.EncodeToString` and `hex.DecodeString`
  pub hex_encode : Bytes → String
  pub hex_decode : String → Option Bytes
  -- `hmac.New(sha256.New, []byte(key))`, written to and summed
  pub hmac_sha256 : String → String → Bytes
  -- `ed25519.Sign(privateKey, message)` and `ed25519.Verify(publicKey, message, sig)`
  pub sign : Bytes → Bytes → Bytes
  pub verify : Bytes → Bytes → Bytes → Bool

-- `ed25519.SignatureSize`
abbrev pub signature_size : ℕ
signature_size = 64
