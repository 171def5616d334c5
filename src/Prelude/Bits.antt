-- ===== src/Prelude/Bits.antt =====
-- The lowest digits of a number, and the bitwise operations of Go on them: `&` with a mask of ones,
-- and `^`.
use Prim.Native.Nat.{bit_and, bit_xor, digits, differ, bit_and-bitwise, bit_xor-bitwise}
use Prim.Native.Nat.{ℕ, zero, suc, ◌+◌, ◌-◌, ◌*◌, ◌/◌, ◌%◌, ◌^◌, ◌≤◌, ◌<◌, min}
use mathlib.Core.Path.{◌≡◌, refl, ap}
use native.Mathlib.Nat.{pow-suc}
use native.Mathlib.Omega.{arith}

-- The number of the k lowest digits.
unfoldable pub low : ℕ → ℕ → ℕ
low zero a = 0
low (suc k) a = low k (a / 2) * 2 + a % 2

pub low_lt : (k a : ℕ) → low k a < 2 ^ k
unfolding low
low_lt zero a = omega arith
low_lt (suc k) a = omega (arith, pow-suc 2 k, low_lt k (a / 2))

pub low-low : (k a : ℕ) → low k (low k a) ≡ low k a
unfolding low
low-low zero a = refl
low-low (suc k) a =
    let half : (low k (a / 2) * 2 + a % 2) / 2 ≡ low k (a / 2) = omega arith in
    omega (arith, ap (low k) half, low-low k (a / 2))

-- An operation on digits does not depend on the count of digits, as long as it is enough.
digits_enough :
    (z : ℕ → ℕ) (f : ℕ → ℕ → ℕ) (n m a b : ℕ) → a ≤ n → a ≤ m → digits z f n a b ≡ digits z f m a b
digits_enough z f zero zero zero b p q = refl
digits_enough z f zero (suc m) zero b p q = refl
digits_enough z f (suc n) zero zero b p q = refl
digits_enough z f (suc n) (suc m) zero b p q = refl
digits_enough z f zero m (suc a) b p q = absurd (omega arith)
digits_enough z f (suc n) zero (suc a) b p q = absurd (omega arith)
digits_enough z f (suc n) (suc m) (suc a) b p q =
    omega (arith, digits_enough z f n m (suc a / 2) (b / 2) (omega arith) (omega arith))

digits-zero : (n a : ℕ) → digits (λ b. zero) min n a 0 ≡ 0
digits-zero zero a = refl
digits-zero (suc n) zero = refl
digits-zero (suc n) (suc a) = omega (arith, digits-zero n (suc a / 2))

differ_bits : (x y : ℕ) → x < 2 → y < 2 → differ x y ≡ (x + y) % 2
differ_bits zero y p q = omega arith
differ_bits (suc zero) zero p q = refl
differ_bits (suc zero) (suc zero) p q = refl
differ_bits (suc zero) (suc (suc y)) p q = absurd (omega arith)
differ_bits (suc (suc x)) y p q = absurd (omega arith)

-- One digit at a time.
bit_and_digit : (a b : ℕ) → bit_and a b ≡ bit_and (a / 2) (b / 2) * 2 + min (a % 2) (b % 2)
bit_and_digit zero b = omega (arith, bit_and-bitwise 0 b, bit_and-bitwise 0 (b / 2))
bit_and_digit (suc a) b = omega (
  arith,
  bit_and-bitwise (suc a) b,
  bit_and-bitwise (suc a / 2) (b / 2),
  digits_enough (λ b. zero) min a (suc a / 2) (suc a / 2) (b / 2) (omega arith) (omega arith),
)

bit_xor_digit : (a b : ℕ) → bit_xor a b ≡ bit_xor (a / 2) (b / 2) * 2 + (a + b) % 2
bit_xor_digit zero b = omega (arith, bit_xor-bitwise 0 b, bit_xor-bitwise 0 (b / 2))
bit_xor_digit (suc a) b = omega (
  arith,
  bit_xor-bitwise (suc a) b,
  bit_xor-bitwise (suc a / 2) (b / 2),
  digits_enough (λ b. b) differ a (suc a / 2) (suc a / 2) (b / 2) (omega arith) (omega arith),
  differ_bits (suc a % 2) (b % 2) (omega arith) (omega arith),
)

-- A mask of k ones keeps the k lowest digits.
pub bit_and_mask : (k a : ℕ) → bit_and a (2 ^ k - 1) ≡ low k a
unfolding low
bit_and_mask zero a = omega (arith, bit_and-bitwise a 0, digits-zero a a)
bit_and_mask (suc k) a =
    let half : (2 ^ suc k - 1) / 2 ≡ 2 ^ k - 1 = omega (arith, pow-suc 2 k, low_lt k 0) in
    omega (
      arith,
      bit_and_digit a (2 ^ suc k - 1),
      ap (bit_and (a / 2)) half,
      bit_and_mask k (a / 2),
      pow-suc 2 k,
      low_lt k 0,
    )

-- Twice the same exclusive or, on the lowest digits.
pub bit_xor_twice : (k a h : ℕ) → low k (bit_xor (low k (bit_xor a h)) h) ≡ low k a
unfolding low
bit_xor_twice zero a h = refl
bit_xor_twice (suc k) a h =
    let x = bit_xor a h in
    let y = low (suc k) x in
    let half_x : x / 2 ≡ bit_xor (a / 2) (h / 2) = omega (arith, bit_xor_digit a h) in
    let half_y : y / 2 ≡ low k (bit_xor (a / 2) (h / 2)) = omega (arith, ap (low k) half_x) in
    let half : bit_xor y h / 2 ≡ bit_xor (low k (bit_xor (a / 2) (h / 2))) (h / 2) =
      omega (arith, bit_xor_digit y h, ap (λ i. bit_xor i (h / 2)) half_y) in
    omega (
      arith,
      ap (low k) half,
      bit_xor_twice k (a / 2) (h / 2),
      bit_xor_digit a h,
      bit_xor_digit y h,
    )
