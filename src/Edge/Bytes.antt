-- ===== src/Edge/Bytes.antt =====
-- The checksum of a WAL frame: CRC-32 (hash/crc32).
use Prim.Native.Nat.{bit_xor}
use payment_risk_engine.Prelude.{
  ℕ, ◌/◌, ◌%◌, ◌^◌, ◌<◌, ◌≡◌, refl, arith, [], ◌∷◌, eqb, if◌then◌else◌,
}
use payment_risk_engine.Host.{Bytes}

-- One bit of the CRC-32 of IEEE, reflected.
abbrev crc_bit : ℕ → ℕ
crc_bit c = if eqb (c % 2) 1 then bit_xor (c / 2) 0xedb88320 else c / 2

abbrev crc_byte : ℕ → ℕ → ℕ
crc_byte c b =
    crc_bit (crc_bit (crc_bit (crc_bit (crc_bit (crc_bit (crc_bit (crc_bit (bit_xor c b))))))))

crc_bytes : ℕ → Bytes → ℕ
crc_bytes c [] = c
crc_bytes c (b ∷ bs) = crc_bytes (crc_byte c b) bs

-- `crc32.ChecksumIEEE`, a uint32.
unfoldable pub crc32 : Bytes → ℕ
unfolding crc_bytes
crc32 bs = bit_xor (crc_bytes 0xffffffff bs) 0xffffffff % 2 ^ 32

-- The check value of the CRC-32: of the text 123456789.
crc32_check : crc32 (49 ∷ 50 ∷ 51 ∷ 52 ∷ 53 ∷ 54 ∷ 55 ∷ 56 ∷ 57 ∷ []) ≡ 0xcbf43926
unfolding crc32
crc32_check = refl

pub crc32-lt : (bs : Bytes) → crc32 bs < 2 ^ 32
unfolding crc32
crc32-lt bs = omega arith
