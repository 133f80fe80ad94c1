-- ===== src/Common/Decimal.antt =====
-- The decimal text of a number, as code points, and its reading back.
use Prim.Native.Nat.{ℕ, zero, suc, ◌+◌, ◌-◌, ◌*◌, ◌/◌, ◌%◌, ◌<◌}
use mathlib.Core.List.{List, [], ◌∷◌}
use mathlib.Core.Path.{◌≡◌}
use native.Mathlib.Omega.{arith}
use governed_analytics_agent.Common.Tests.{ltb, if◌then◌else◌, Bool-cases}
use mathlib.Core.Logic.{inl, inr}

-- The digits of `n` in front of `rest`; the fuel bounds the number of digits.
unfoldable pub digits_before : ℕ → ℕ → List ℕ → List ℕ
digits_before zero n rest = rest
digits_before (suc fuel) n rest =
    let more = digits_before fuel (n / 10) ((b'0' + n % 10) ∷ rest) in
    if ltb n 10 then (b'0' + n) ∷ rest else more

-- `str(n)`
unfoldable pub decimal : ℕ → List ℕ
unfolding digits_before
decimal n = digits_before (suc n) n []

-- `int(text)` of a text of ASCII digits.
unfoldable pub value_from : ℕ → List ℕ → ℕ
value_from acc [] = acc
value_from acc (c ∷ cs) = value_from (acc * 10 + (c - b'0')) cs

value_from-digits_before :
    (fuel n : ℕ) (rest : List ℕ)
    → n < fuel
    → value_from 0 (digits_before fuel n rest) ≡ value_from n rest
unfolding digits_before value_from
value_from-digits_before zero n rest h = elim h [ ]
value_from-digits_before (suc fuel) n rest h = elim (Bool-cases (ltb n 10)) [
  | inl small ↦ ground arith
  | inr large ↦ ground (arith, value_from-digits_before fuel (n / 10) ((b'0' + n % 10) ∷ rest))
]

-- Enough fuel is given, so every digit is written, and the number is read back.
pub value_from-decimal : (n : ℕ) → value_from 0 (decimal n) ≡ n
unfolding decimal value_from
value_from-decimal n = value_from-digits_before (suc n) n [] (omega arith)
