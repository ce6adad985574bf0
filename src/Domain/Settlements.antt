-- ===== src/Domain/Settlements.antt =====
-- What riders and vendors are owed: src/domain/settlements.ts.
use mealdirectbackend.Common.{
  ℕ, ◌+◌, ◌-◌, ◌*◌, ◌≤◌, ◌<◌, ◌≡◌, ◌⊎◌, List, [], ◌∷◌, Option, some, Num, nat, ok, err, arith,
  or_else, map, sum, ltb, Result, ◌>>=◌, if◌then◌else◌,
}
use mealdirectbackend.Domain.Money.Rounding.{calculate_basis_points_amount_inv}
use mealdirectbackend.Domain.Money.{
  RangeError, assert_integer_cents, calculate_basis_points_amount, round_div_10000, bad_order_count,
}

pub record DeliveryEarningsInput : Type 0 where
  pub base_fee_cents : Num
  pub per_order_fee_cents : Num
  pub order_count : Num
  pub distance_fee_cents : Option Num
  pub bonus_cents : Option Num
  pub penalty_cents : Option Num

pub record VendorSettlementInput : Type 0 where
  pub food_gross_cents : Num
  pub commission_basis_points : Num
  pub refund_cents : Option Num
  pub adjustment_cents : Option Num

pub record RiderSettlementInput : Type 0 where
  pub delivery_earnings_cents : List Num
  pub bonus_cents : Option Num
  pub penalty_cents : Option Num

pub record VendorSettlement : Type 0 where
  pub gross_cents : ℕ
  pub commission_cents : ℕ
  pub refund_cents : ℕ
  pub adjustment_cents : ℕ
  pub net_payable_cents : ℕ

pub record RiderSettlement : Type 0 where
  pub gross_earnings_cents : ℕ
  pub bonus_cents : ℕ
  pub penalty_cents : ℕ
  pub net_payable_cents : ℕ

-- `!Number.isInteger(orderCount) || orderCount <= 0`
unfoldable pub assert_order_count : Num → Result RangeError ℕ
assert_order_count (nat n) = if ltb 0 n then ok n else err bad_order_count
assert_order_count _ = err bad_order_count

unfoldable pub calculate_delivery_earnings : DeliveryEarningsInput → Result RangeError ℕ
unfolding assert_integer_cents assert_order_count
calculate_delivery_earnings input = do
  base_fee ← assert_integer_cents input.base_fee_cents "baseFeeCents"
  per_order_fee ← assert_integer_cents input.per_order_fee_cents "perOrderFeeCents"
  distance_fee ← assert_integer_cents (or_else input.distance_fee_cents (nat 0)) "distanceFeeCents"
  bonus ← assert_integer_cents (or_else input.bonus_cents (nat 0)) "bonusCents"
  penalty ← assert_integer_cents (or_else input.penalty_cents (nat 0)) "penaltyCents"
  order_count ← assert_order_count input.order_count
  ok (base_fee + per_order_fee * order_count + distance_fee + bonus - penalty)

-- The additions come before the subtractions, so that the difference stops at 0 where the source
-- takes `Math.max(0, …)` of the whole.
unfoldable pub calculate_vendor_settlement :
    VendorSettlementInput → Result RangeError VendorSettlement
unfolding assert_integer_cents
calculate_vendor_settlement input = do
  gross ← assert_integer_cents input.food_gross_cents "foodGrossCents"
  commission ← calculate_basis_points_amount (nat gross) input.commission_basis_points
  refund ← assert_integer_cents (or_else input.refund_cents (nat 0)) "refundCents"
  adjustment ← assert_integer_cents (or_else input.adjustment_cents (nat 0)) "adjustmentCents"
  ok (record {
    gross_cents = gross;
    commission_cents = commission;
    refund_cents = refund;
    adjustment_cents = adjustment;
    net_payable_cents = gross + adjustment - (commission + refund);
  })

-- The `reduce` over the earnings, from the total so far.
unfoldable pub earnings_from : ℕ → List Num → Result RangeError ℕ
unfolding assert_integer_cents
earnings_from total [] = ok total
earnings_from total (amount ∷ amounts) =
    assert_integer_cents amount "deliveryEarningsCents" >>= λ cents.
    earnings_from (total + cents) amounts

unfoldable pub calculate_rider_settlement : RiderSettlementInput → Result RangeError RiderSettlement
unfolding assert_integer_cents
calculate_rider_settlement input = do
  gross ← earnings_from 0 input.delivery_earnings_cents
  bonus ← assert_integer_cents (or_else input.bonus_cents (nat 0)) "bonusCents"
  penalty ← assert_integer_cents (or_else input.penalty_cents (nat 0)) "penaltyCents"
  ok (record {
    gross_earnings_cents = gross;
    bonus_cents = bonus;
    penalty_cents = penalty;
    net_payable_cents = gross + bonus - penalty;
  })

-- In every vendor settlement that is computed the commission is the rate's share of the gross
-- amount, rounded to the nearest unit and at most the gross amount. The payable amount, the
-- commission and the refund add up to the gross amount and the adjustment, unless commission and
-- refund are more than these: then nothing is payable.
pub calculate_vendor_settlement_balance :
    (input : VendorSettlementInput) {points : ℕ} (s : VendorSettlement)
    → input.commission_basis_points ≡ nat points
    → calculate_vendor_settlement input ≡ ok s
    → (s.commission_cents ≡ round_div_10000 (s.gross_cents * points))
      × (s.commission_cents ≤ s.gross_cents)
      × ((s.net_payable_cents + s.commission_cents + s.refund_cents
            ≡ s.gross_cents + s.adjustment_cents)
          ⊎ ((s.net_payable_cents ≡ 0)
              × (s.gross_cents + s.adjustment_cents < s.commission_cents + s.refund_cents)))
unfolding calculate_vendor_settlement
calculate_vendor_settlement_balance input s e h = ground (
  arith,
  calculate_basis_points_amount_inv s.gross_cents input.commission_basis_points s.commission_cents,
)

earnings_from_nat :
    (total : ℕ) (xs : List ℕ) → earnings_from total (map nat xs) ≡ ok (total + sum xs)
unfolding earnings_from
earnings_from_nat total [] = ground arith
earnings_from_nat total (x ∷ xs) = ground (arith, earnings_from_nat (total + x) xs)

-- A rider with earnings, a bonus and a penalty that are amounts is settled at the sum of the
-- earnings plus the bonus, less the penalty, and never below 0.
pub calculate_rider_settlement_net :
    (earnings : List ℕ) (bonus penalty : ℕ)
    → calculate_rider_settlement (record {
      delivery_earnings_cents = map nat earnings;
      bonus_cents = some (nat bonus);
      penalty_cents = some (nat penalty);
    })
      ≡ ok (record {
        gross_earnings_cents = sum earnings;
        bonus_cents = bonus;
        penalty_cents = penalty;
        net_payable_cents = sum earnings + bonus - penalty;
      })
unfolding calculate_rider_settlement
calculate_rider_settlement_net earnings bonus penalty = ground (arith, earnings_from_nat 0 earnings)

-- The earnings of a batch grow with its orders: each further order adds the fee for one order, if
-- the penalty was already covered.
pub calculate_delivery_earnings_step :
    (base fee count distance bonus penalty : ℕ)
    → 0 < count
    → penalty ≤ base + fee * count + distance + bonus
    → let batch : ℕ → DeliveryEarningsInput = λ n. record {
      base_fee_cents = nat base;
      per_order_fee_cents = nat fee;
      order_count = nat n;
      distance_fee_cents = some (nat distance);
      bonus_cents = some (nat bonus);
      penalty_cents = some (nat penalty);
    } in
      (e : ℕ) × (calculate_delivery_earnings (batch count) ≡ ok e)
      × (calculate_delivery_earnings (batch (count + 1)) ≡ ok (e + fee))
      × (e + penalty ≡ base + fee * count + distance + bonus)
unfolding calculate_delivery_earnings
calculate_delivery_earnings_step base fee count distance bonus penalty h k =
    (base + fee * count + distance + bonus - penalty, ground arith, ground arith, omega arith)
