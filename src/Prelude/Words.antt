-- ===== src/Prelude/Words.antt =====
-- Go's int64 as its bit pattern, a number below 2 ^ 64. Sums and differences wrap, and comparisons
-- read the top bit as a sign: adding 2 ^ 63 turns the signed order into that of the numbers.
use Prim.Native.Nat.{ℕ, ◌+◌, ◌-◌, ◌%◌, ◌<◌}
use mathlib.Core.Path.{◌≡◌}
use mathlib.Core.Bool.{Bool, true, not}
use native.Mathlib.Omega.{arith}
use payment_risk_engine.Prelude.Tests.{ltb}

abbrev pub Int64 : Type 0
Int64 = ℕ

-- 2 ^ 64 and 2 ^ 63
abbrev pub word : ℕ
word = 18446744073709551616

abbrev pub half_word : ℕ
half_word = 9223372036854775808

abbrev pub add64 : Int64 → Int64 → Int64
add64 a b = (a + b) % word

abbrev pub sub64 : Int64 → Int64 → Int64
sub64 a b = (a + (word - b % word)) % word

abbrev bias : Int64 → ℕ
bias a = (a + half_word) % word

-- a < b, signed
unfoldable pub lt64 : Int64 → Int64 → Bool
lt64 a b = ltb (bias a) (bias b)

-- a <= b, signed
abbrev pub le64 : Int64 → Int64 → Bool
le64 a b = not (lt64 b a)

-- A pattern that stands for a number of 0 or more.
abbrev pub IsNonneg : Int64 → Type 0
IsNonneg a = a < half_word

module _ (a b : Int64) (ha : IsNonneg a) (hb : IsNonneg b) where
  -- Between patterns without a sign the signed order is that of the numbers.
  pub lt64-nonneg : lt64 a b ≡ ltb a b
  unfolding lt64
  lt64-nonneg = ground arith

-- The guard `amount <= 0` lets through only patterns without a sign.
pub positive_of_guard : (a : Int64) → a < word → lt64 0 a ≡ true → (0 < a) × IsNonneg a
unfolding lt64
positive_of_guard a w h = ground arith

pub positive_guard : (a : Int64) → 0 < a → IsNonneg a → lt64 0 a ≡ true
unfolding lt64
positive_guard a p h = ground arith
