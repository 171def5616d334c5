-- ===== src/Prelude/Texts.antt =====
-- Texts: `fmt.Sprintf` with `%s` and `%d`, and tests on texts.
use Prim.Native.Nat.{ℕ, zero, suc, ◌-◌, ◌/◌, ◌%◌}
use Prim.Native.String.{String}
use Prim.Native.String
use mathlib.Core.Path.{◌≡◌, refl}
use mathlib.Core.Logic.{◌≢◌}
use mathlib.Core.Bool.{true, false}
use native.Mathlib.Omega.{arith}
use text.Mathlib.Text.{◌==◌}
use text.Mathlib.TextEquality.{eq_iff}
use payment_risk_engine.Prelude.Tests.{ltb, eqb, if◌then◌else◌}
use payment_risk_engine.Prelude.Words.{Int64, word, half_word}

infixr 64 ◌⧺◌
abbrev pub ◌⧺◌ : String → String → String
a ⧺ b = String.◌++◌ a b

abbrev digit : ℕ → String
digit d =
    if eqb d 0
    then "0"
    else if eqb d 1
    then "1"
    else if eqb d 2
    then "2"
    else if eqb d 3
    then "3"
    else if eqb d 4
    then "4"
    else if eqb d 5
    then "5"
    else if eqb d 6
    then "6"
    else if eqb d 7
    then "7"
    else if eqb d 8
    then "8"
    else "9"

-- The digits of a number below 10 ^ fuel, in front of `rest`.
digits : ℕ → ℕ → String → String
digits zero n rest = rest
digits (suc fuel) n rest =
    let more = digits fuel (n / 10) (digit (n % 10) ⧺ rest) in
    if ltb n 10 then digit n ⧺ rest else more

-- `%d` of an int64: at most 20 digits, behind a sign.
unfoldable pub decimal : Int64 → String
unfolding digits
decimal a = if ltb a half_word then digits 20 a "" else "-" ⧺ digits 20 (word - a) ""

-- `%d` of a uint64.
unfoldable pub decimal_unsigned : ℕ → String
unfolding digits
decimal_unsigned n = digits 20 n ""

decimal_reads : decimal 1205 ⧺ decimal (word - 7) ≡ "1205-7"
unfolding decimal
decimal_reads = refl

pub ne→eq_false : (s t : String) → s ≢ t → (s == t) ≡ false
ne→eq_false s t h = ground (arith, eq_iff s t)

pub eq→ne : (s t : String) → (s == t) ≡ false → s ≢ t
eq→ne s t h = ground (arith, eq_iff s t)

pub same_text : (s t : String) → (s == t) ≡ true → s ≡ t
same_text s t h = (eq_iff s t).0 h
