-- ===== src/Domain/Pricing.antt =====
-- The price of an order: src/domain/pricing.ts.
pub mod Lines
pub mod Surcharges
pub mod Totals
use mealdirectbackend.Common.{
  ℕ, ◌+◌, ◌-◌, ◌*◌, List, [], ◌∷◌, Bool, true, false, Option, none, some, ltb, leb, Num, nat,
  Result, ok, err, ◌>>=◌, ◌>>◌, throw_if, if◌then◌else◌, or_else, map_result, map,
}
use mealdirectbackend.Domain.Money.{
  RangeError, assert_integer_cents, add_cents, calculate_basis_points_amount, no_order_lines,
  bad_quantity, discount_exceeds_gross, bad_spoon_count,
}

pub record OrderLinePriceInput : Type 0 where
  pub unit_price_cents : Num
  pub quantity : Num
  pub spoon_count : Option Num

pub record OrderPricingInput : Type 0 where
  pub lines : List OrderLinePriceInput
  pub delivery_fee_cents : Num
  pub service_fee_cents : Option Num
  pub discount_cents : Option Num
  pub large_order_threshold_cents : Option Num
  pub large_order_surcharge_bps : Option Num
  pub large_order_surcharge_flat_cents : Option Num

pub record OrderPricing : Type 0 where
  pub subtotal_cents : ℕ
  pub delivery_fee_cents : ℕ
  pub service_fee_cents : ℕ
  pub discount_cents : ℕ
  pub large_order_surcharge_cents : ℕ
  pub exceeds_large_order_threshold : Bool
  pub total_cents : ℕ
  pub spoon_count : ℕ

unfoldable pub assert_positive_quantity : Num → Result RangeError ℕ
assert_positive_quantity (nat n) = if ltb 0 n then ok n else err bad_quantity
assert_positive_quantity _ = err bad_quantity

unfoldable pub line_total : OrderLinePriceInput → Result RangeError ℕ
unfolding assert_integer_cents assert_positive_quantity
line_total line = do
  price ← assert_integer_cents line.unit_price_cents "unitPriceCents"
  quantity ← assert_positive_quantity line.quantity
  ok (price * quantity)

-- One step of the `reduce` that adds the spoons up.
unfoldable pub add_spoons : ℕ → Num → Result RangeError ℕ
add_spoons total (nat requested) = ok (total + requested)
add_spoons total _ = err bad_spoon_count

unfoldable pub spoons_from : ℕ → List OrderLinePriceInput → Result RangeError ℕ
unfolding add_spoons
spoons_from total [] = ok total
spoons_from total (line ∷ lines) =
    add_spoons total (or_else line.spoon_count (nat 0)) >>= λ more. spoons_from more lines

pub record Surcharge : Type 0 where
  pub large_order_surcharge_cents : ℕ
  pub exceeds_large_order_threshold : Bool

abbrev pub no_surcharge : Surcharge
no_surcharge = record { large_order_surcharge_cents = 0; exceeds_large_order_threshold = false }

-- The part of `calculateLargeOrderSurcharge` behind its threshold.
unfoldable pub surcharge_above : ℕ → OrderPricingInput → Result RangeError Surcharge
surcharge_above pre_surcharge_total_cents input = do
  flat_cents ←
      assert_integer_cents (or_else input.large_order_surcharge_flat_cents (nat 0))
        "largeOrderSurchargeFlatCents"
  bps_amount_cents ←
      calculate_basis_points_amount (nat pre_surcharge_total_cents)
        (or_else input.large_order_surcharge_bps (nat 0))
  ok (record {
    large_order_surcharge_cents = bps_amount_cents + flat_cents;
    exceeds_large_order_threshold = true;
  })

unfoldable pub surcharge_over : ℕ → OrderPricingInput → Num → Result RangeError Surcharge
surcharge_over pre_surcharge_total_cents input threshold =
    assert_integer_cents threshold "largeOrderThresholdCents" >>= λ threshold_cents.
    if leb pre_surcharge_total_cents threshold_cents
    then ok no_surcharge
    else surcharge_above pre_surcharge_total_cents input

unfoldable pub calculate_large_order_surcharge : ℕ → OrderPricingInput → Result RangeError Surcharge
unfolding surcharge_over surcharge_above
calculate_large_order_surcharge pre_surcharge_total_cents input =
    elim input.large_order_threshold_cents [
      | none ↦ ok no_surcharge
      | some threshold ↦ surcharge_over pre_surcharge_total_cents input threshold
    ]

abbrev pub is_empty : List OrderLinePriceInput → Bool
is_empty [] = true
is_empty (line ∷ lines) = false

unfoldable pub calculate_order_pricing : OrderPricingInput → Result RangeError OrderPricing
calculate_order_pricing input = do
  throw_if (is_empty input.lines) no_order_lines
  line_totals ← map_result line_total input.lines
  subtotal_cents ← add_cents (map nat line_totals)
  delivery_fee_cents ← assert_integer_cents input.delivery_fee_cents "deliveryFeeCents"
  service_fee_cents ←
      assert_integer_cents (or_else input.service_fee_cents (nat 0)) "serviceFeeCents"
  discount_cents ← assert_integer_cents (or_else input.discount_cents (nat 0)) "discountCents"
  let gross_cents = subtotal_cents + delivery_fee_cents + service_fee_cents
  throw_if (ltb gross_cents discount_cents) discount_exceeds_gross
  spoon_count ← spoons_from 0 input.lines
  let pre_surcharge_total_cents = gross_cents - discount_cents
  surcharge ← calculate_large_order_surcharge pre_surcharge_total_cents input
  ok (record {
    subtotal_cents = subtotal_cents;
    delivery_fee_cents = delivery_fee_cents;
    service_fee_cents = service_fee_cents;
    discount_cents = discount_cents;
    large_order_surcharge_cents = surcharge.large_order_surcharge_cents;
    exceeds_large_order_threshold = surcharge.exceeds_large_order_threshold;
    total_cents = pre_surcharge_total_cents + surcharge.large_order_surcharge_cents;
    spoon_count = spoon_count;
  })
