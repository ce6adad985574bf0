-- ===== src/Common/Number.antt =====
-- A value of JavaScript's type `number`, as far as the guards of the code tell values apart:
-- `Number.isInteger(x)` holds of `nat` and `neg`, and `x < 0` of `neg` alone among those. Amounts
-- are far below 2 ^ 53, where sums and products of integers are exact.
use Prim.Native.Nat.{ℕ}

pub data Num : Type 0 where
  nat : ℕ → Num
  -- The integer -(n + 1).
  neg : ℕ → Num
  -- A fraction, an infinity or NaN.
  fractional : Num
