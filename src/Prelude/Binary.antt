-- ===== src/Prelude/Binary.antt =====
-- Big-endian numbers (encoding/binary), as the write-ahead log and the filter write and read them.
use Prim.Native.Nat.{ℕ, zero, suc, ◌+◌, ◌*◌, ◌/◌, ◌%◌, ◌^◌, ◌<◌}
use mathlib.Core.Path.{◌≡◌, refl}
use mathlib.Core.List.{List, [], ◌∷◌, ◌++◌}
use native.Mathlib.Nat.{pow-suc}
use native.Mathlib.Omega.{arith}
use payment_risk_engine.Prelude.Lists.{length, length-append}

-- `binary.BigEndian.PutUint64` and `PutUint32`, as the bytes that they write: k of them.
unfoldable pub put_be : ℕ → ℕ → List ℕ
put_be zero n = []
put_be (suc k) n = put_be k (n / 256) ++ (n % 256) ∷ []

-- `binary.BigEndian.Uint64` and `Uint32` of all the bytes given.
unfoldable pub read_be : ℕ → List ℕ → ℕ
read_be acc [] = acc
read_be acc (b ∷ bs) = read_be (acc * 256 + b) bs

pub length-put_be : (k n : ℕ) → length (put_be k n) ≡ k
unfolding put_be
length-put_be zero n = refl
length-put_be (suc k) n =
    omega
      (arith, length-append {0} (put_be k (n / 256)) ((n % 256) ∷ []), length-put_be k (n / 256))

read_be-append :
    (acc : ℕ) (bs : List ℕ) (b : ℕ) → read_be acc (bs ++ b ∷ []) ≡ read_be acc bs * 256 + b
unfolding read_be
read_be-append acc [] b = refl
read_be-append acc (c ∷ bs) b = read_be-append (acc * 256 + c) bs b

-- Reading back what was written gives the number, if it fits.
pub read_be-put_be : (k n : ℕ) → n < 256 ^ k → read_be 0 (put_be k n) ≡ n
unfolding put_be read_be
read_be-put_be zero n h = omega arith
read_be-put_be (suc k) n h = omega (
  arith,
  read_be-append 0 (put_be k (n / 256)) (n % 256),
  read_be-put_be k (n / 256) (omega (arith, pow-suc 256 k)),
)
