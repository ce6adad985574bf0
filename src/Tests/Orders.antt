-- ===== src/Tests/Orders.antt =====
-- Prices, promotions, cutoffs and the life of an order at concrete inputs.
use mathlib.Core.List.{Memᴰ}
use mealdirectbackend.Common.{
  ltb, ◌+◌, ◌-◌, Bool, ℕ, ◌≤◌, ◌≡◌, refl, ◌↔◌, List, [], ◌∷◌, true, Option, none, some, nat, ok,
  String, ℤ, pos, str_eq, if◌then◌else◌,
}
use mealdirectbackend.Domain.Routes.{
  order_by_nearest_neighbour, visit_nearest, nearest_from, splice, located, unlocated,
}
use mealdirectbackend.Domain.Pricing.{OrderPricingInput, OrderPricing, calculate_order_pricing}
use mealdirectbackend.Domain.Pricing.Totals.{IsPrice, calculate_order_pricing_iff}
use mealdirectbackend.Domain.Promotions.{
  AtMost, EndsAfter, IsDiscount, Promotion, percent, evaluate_promotion, evaluate_promotion_iff,
}
use mealdirectbackend.Domain.OrderStatus.{
  OrderStatus, pending_payment, paid, ready, out_for_delivery, delivered, refunded,
  assert_allowed_order_status_transition,
}
use mealdirectbackend.Domain.OrderStatus.History.{replay, replay_paid}

abbrev two_lines : OrderPricingInput
two_lines = record {
  lines =
      record { unit_price_cents = nat 1500; quantity = nat 2; spoon_count = some (nat 2) }
      ∷ record { unit_price_cents = nat 700; quantity = nat 1; spoon_count = none }
      ∷ [];
  delivery_fee_cents = nat 500;
  service_fee_cents = some (nat 100);
  discount_cents = some (nat 300);
  large_order_threshold_cents = some (nat 3000);
  large_order_surcharge_bps = some (nat 500);
  large_order_surcharge_flat_cents = none;
}

abbrev two_lines_price : OrderPricing
two_lines_price = record {
  subtotal_cents = 3700;
  delivery_fee_cents = 500;
  service_fee_cents = 100;
  discount_cents = 300;
  large_order_surcharge_cents = 200;
  exceeds_large_order_threshold = true;
  total_cents = 4200;
  spoon_count = 2;
}

calculate_order_pricing_iff_example :
    (calculate_order_pricing two_lines ≡ ok two_lines_price) ↔ IsPrice two_lines two_lines_price
calculate_order_pricing_iff_example = calculate_order_pricing_iff two_lines two_lines_price

-- A clock on which every time is read as 1000, but for the text `end`, read as 2000.
abbrev clock : String → Option ℤ
clock text = if str_eq text "end" then some (pos 2000) else some (pos 1000)

abbrev ten_percent : Promotion
ten_percent = record {
  id = "p";
  code = "TEN";
  discount_type = percent;
  discount_value = 10;
  min_order_kobo = 1000;
  max_discount_kobo = some 400;
  starts_at = "start";
  ends_at = some "end";
  active = true;
}

evaluate_promotion_iff_example :
    (evaluate_promotion clock ten_percent (nat 5000) (some (pos 1500)) ≡ ok 400) ↔ (
      (true ≡ true)
      × AtMost (clock "start") (some (pos 1500))
      × EndsAfter clock (some (pos 1500)) (some "end")
      × (1000 ≤ 5000)
      × IsDiscount ten_percent 5000 400)
evaluate_promotion_iff_example = evaluate_promotion_iff clock ten_percent 5000 (some (pos 1500)) 400

ten_percent-ok : evaluate_promotion clock ten_percent (nat 5000) (some (pos 1500)) ≡ ok 400
unfolding evaluate_promotion
ten_percent-ok = refl

abbrev refund_history : List OrderStatus
refund_history = paid ∷ ready ∷ out_for_delivery ∷ delivered ∷ refunded ∷ []

refund_history-ok : replay pending_payment refund_history ≡ ok refunded
unfolding replay assert_allowed_order_status_transition
refund_history-ok = refl

replay_paid_example : Memᴰ paid refund_history
replay_paid_example =
    replay_paid refund_history refund_history-ok (λ e. cc e) (λ e. cc e) (λ e. cc e)

-- Stops with a place on a line, or none.
abbrev place : ℕ × Option ℕ → Option ℕ
place (key, at) = at

abbrev apart : ℕ → ℕ → ℕ
apart a b = (a - b) + (b - a)

abbrev nearer : ℕ → Option ℕ → Bool
nearer a none = true
nearer a (some b) = ltb a b

abbrev stops : List (ℕ × Option ℕ)
stops = (1, some 9) ∷ (2, none) ∷ (3, some 4) ∷ []

stops-ordered :
    order_by_nearest_neighbour place apart nearer (some 3) stops
    ≡ (3, some 4) ∷ (1, some 9) ∷ (2, none) ∷ []
unfolding order_by_nearest_neighbour visit_nearest nearest_from splice located unlocated
stops-ordered = refl
