-- ===== src/Domain/Money.antt =====
-- Amounts in the smallest unit of the currency: src/domain/money.ts.
pub mod Rounding
use mealdirectbackend.Common.{
  ℕ, ◌+◌, ◌*◌, ◌/◌, String, List, [], ◌∷◌, ltb, Num, nat, Result, ok, err, ◌>>=◌, if◌then◌else◌,
}

-- The `RangeError`s of src/domain, by their messages.
pub data RangeError : Type 0 where
  not_integer_cents : String → RangeError
  bad_basis_points no_order_lines bad_quantity discount_exceeds_gross bad_spoon_count : RangeError
  bad_order_count bad_cutoff_minutes bad_requested_spoons bad_max_spoons : RangeError

unfoldable pub assert_integer_cents : Num → String → Result RangeError ℕ
assert_integer_cents (nat n) label = ok n
assert_integer_cents _ label = err (not_integer_cents label)

-- The `reduce` of `addCents`, from the total so far.
unfoldable pub add_cents_from : ℕ → List Num → Result RangeError ℕ
unfolding assert_integer_cents
add_cents_from total [] = ok total
add_cents_from total (value ∷ values) =
    assert_integer_cents value "amount" >>= λ cents. add_cents_from (total + cents) values

unfoldable pub add_cents : List Num → Result RangeError ℕ
unfolding add_cents_from
add_cents values = add_cents_from 0 values

unfoldable pub assert_basis_points : Num → Result RangeError ℕ
assert_basis_points (nat n) = if ltb 10000 n then err bad_basis_points else ok n
assert_basis_points _ = err bad_basis_points

-- `Math.round(x / 10_000)` of an integer x that is not negative: to the nearest, halves upwards.
abbrev pub round_div_10000 : ℕ → ℕ
round_div_10000 x = (x + 5000) / 10000

unfoldable pub calculate_basis_points_amount : Num → Num → Result RangeError ℕ
unfolding assert_integer_cents assert_basis_points
calculate_basis_points_amount amount_cents basis_points = do
  amount ← assert_integer_cents amount_cents "amountCents"
  points ← assert_basis_points basis_points
  ok (round_div_10000 (amount * points))
