-- ===== src/Domain/Refunds.antt =====
-- How much of a captured payment a refund returns: src/domain/refunds.ts.
use mealdirectbackend.Common.{
  ℕ, ◌+◌, ◌-◌, ◌≤◌, ◌<◌, ◌≡◌, ◌⊎◌, Option, Num, nat, ok, arith, or_else, Result, ◌>>=◌, min,
}
use mealdirectbackend.Domain.Money.{RangeError, assert_integer_cents}

pub record RefundInput : Type 0 where
  pub captured_amount_cents : Num
  pub item_refund_cents : Num
  pub delivery_refund_cents : Option Num
  pub service_fee_refund_cents : Option Num
  pub penalty_cents : Option Num

pub record Refund : Type 0 where
  pub requested_refund_cents : ℕ
  pub penalty_cents : ℕ
  pub refundable_cents : ℕ

-- `Math.max(0, a - b)` of two integers that are not negative is `a - b`, which stops at 0.
unfoldable pub calculate_refund : RefundInput → Result RangeError Refund
unfolding assert_integer_cents
calculate_refund input = do
  captured ← assert_integer_cents input.captured_amount_cents "capturedAmountCents"
  item ← assert_integer_cents input.item_refund_cents "itemRefundCents"
  delivery ←
      assert_integer_cents (or_else input.delivery_refund_cents (nat 0)) "deliveryRefundCents"
  service ←
      assert_integer_cents (or_else input.service_fee_refund_cents (nat 0)) "serviceFeeRefundCents"
  penalty ← assert_integer_cents (or_else input.penalty_cents (nat 0)) "penaltyCents"
  let requested = item + delivery + service
  ok (record {
    requested_refund_cents = requested;
    penalty_cents = penalty;
    refundable_cents = min captured requested - penalty;
  })

-- A refund that is computed returns at most what was captured and at most what was asked for. With
-- the penalty it accounts for all that was both captured and asked for, unless the penalty alone is
-- more than that: then nothing is returned.
pub calculate_refund_bounds :
    (input : RefundInput) {captured : ℕ} (r : Refund)
    → input.captured_amount_cents ≡ nat captured
    → calculate_refund input ≡ ok r
    → (r.refundable_cents ≤ captured)
      × (r.refundable_cents ≤ r.requested_refund_cents)
      × ((r.refundable_cents + r.penalty_cents ≡ min captured r.requested_refund_cents)
          ⊎ ((r.refundable_cents ≡ 0) × (min captured r.requested_refund_cents < r.penalty_cents)))
unfolding calculate_refund
calculate_refund_bounds input r e h = ground arith
