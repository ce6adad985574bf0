-- ===== src/Domain/Pricing/Totals.antt =====
-- What a computed price guarantees: src/domain/pricing.ts.
use mathlib.Core.Path.{subst₂, sym}
use mealdirectbackend.Common.{
  ℕ, ◌+◌, ◌≤◌, ◌≡◌, ◌≢◌, ◌↔◌, List, [], false, nat, ok, arith, or_else, map, map_result, sum,
  value_or, ap, ◌-◌,
}
use mealdirectbackend.Domain.Money.{assert_integer_cents, add_cents}
use mealdirectbackend.Domain.Money.Rounding.{add_cents_nat, assert_integer_cents_inv}
use mealdirectbackend.Domain.Pricing.{
  OrderPricingInput, OrderPricing, Surcharge, no_surcharge, line_total, spoons_from, is_empty,
  calculate_large_order_surcharge, calculate_order_pricing,
}
use mealdirectbackend.Domain.Pricing.Lines.{LinesCost, lines_sound, lines_complete}
use mealdirectbackend.Domain.Pricing.Surcharges.{IsSurcharge, surcharge_sound, surcharge_complete}

pub record IsPrice (input : OrderPricingInput) (p : OrderPricing) : Type 0 where
  pub nonempty : input.lines ≢ []
  pub items : LinesCost input.lines p.subtotal_cents p.spoon_count
  pub delivery : input.delivery_fee_cents ≡ nat p.delivery_fee_cents
  pub service : or_else input.service_fee_cents (nat 0) ≡ nat p.service_fee_cents
  pub discount : or_else input.discount_cents (nat 0) ≡ nat p.discount_cents
  pub total : ℕ
  pub covered :
      total + p.discount_cents ≡ p.subtotal_cents + p.delivery_fee_cents + p.service_fee_cents
  pub surcharge :
      IsSurcharge input total p.large_order_surcharge_cents p.exceeds_large_order_threshold
  pub charged : p.total_cents ≡ total + p.large_order_surcharge_cents

-- The steps of a successful computation, each with what it returned.
record Steps (input : OrderPricingInput) (p : OrderPricing) : Type 0 where
  totals : List ℕ
  s : Surcharge
  nonempty : is_empty input.lines ≡ false
  lines : map_result line_total input.lines ≡ ok totals
  subtotal : add_cents (map nat totals) ≡ ok p.subtotal_cents
  delivery :
      assert_integer_cents input.delivery_fee_cents "deliveryFeeCents" ≡ ok p.delivery_fee_cents
  service :
      assert_integer_cents (or_else input.service_fee_cents (nat 0)) "serviceFeeCents"
      ≡ ok p.service_fee_cents
  discount :
      assert_integer_cents (or_else input.discount_cents (nat 0)) "discountCents"
      ≡ ok p.discount_cents
  fits : p.discount_cents ≤ p.subtotal_cents + p.delivery_fee_cents + p.service_fee_cents
  spoons : spoons_from 0 input.lines ≡ ok p.spoon_count
  above :
      calculate_large_order_surcharge
        (p.subtotal_cents + p.delivery_fee_cents + p.service_fee_cents - p.discount_cents)
        input
      ≡ ok s
  cents : s.large_order_surcharge_cents ≡ p.large_order_surcharge_cents
  exceeds : s.exceeds_large_order_threshold ≡ p.exceeds_large_order_threshold
  total :
      p.total_cents
      ≡ p.subtotal_cents + p.delivery_fee_cents + p.service_fee_cents - p.discount_cents
        + p.large_order_surcharge_cents

pricing-Steps :
    (input : OrderPricingInput) (p : OrderPricing)
    → calculate_order_pricing input ≡ ok p
    → Steps input p
unfolding calculate_order_pricing
pricing-Steps input p h = record {
  totals = value_or (map_result line_total input.lines) [];
  s =
      value_or
        (calculate_large_order_surcharge
          (p.subtotal_cents + p.delivery_fee_cents + p.service_fee_cents - p.discount_cents) input)
        no_surcharge;
  nonempty = ground arith;
  lines = ground arith;
  subtotal = ground arith;
  delivery = ground arith;
  service = ground arith;
  discount = ground arith;
  fits = ground arith;
  spoons = ground arith;
  above = ground arith;
  cents = ground arith;
  exceeds = ground arith;
  total = ground arith;
}

pricing_sound : (input : OrderPricingInput) (p : OrderPricing) → Steps input p → IsPrice input p
pricing_sound input p h =
    let total : ℕ =
      p.subtotal_cents + p.delivery_fee_cents + p.service_fee_cents - p.discount_cents in
    let (k, ek, items) = lines_sound input.lines 0 h.lines h.spoons in
    let e : p.subtotal_cents ≡ sum h.totals = cc (add_cents_nat h.totals) in
    let e' : p.spoon_count ≡ k = omega arith in
    record {
      nonempty = λ e. cc (h.nonempty, ap is_empty e);
      items = subst₂ (LinesCost input.lines) (sym e) (sym e') items;
      delivery = assert_integer_cents_inv input.delivery_fee_cents _ h.delivery;
      service = assert_integer_cents_inv (or_else input.service_fee_cents (nat 0)) _ h.service;
      discount = assert_integer_cents_inv (or_else input.discount_cents (nat 0)) _ h.discount;
      total = total;
      covered = omega (arith, h.fits);
      surcharge = rw (← h.cents, ← h.exceeds) (surcharge_sound input total h.above);
      charged = h.total;
    }

pricing_complete :
    (input : OrderPricingInput) (p : OrderPricing)
    → IsPrice input p
    → calculate_order_pricing input ≡ ok p
unfolding calculate_order_pricing assert_integer_cents
pricing_complete input p v =
    let (totals, m, s, k) = lines_complete input.lines 0 p.subtotal_cents p.spoon_count v.items in
    ground (
      arith,
      v.nonempty,
      m,
      s,
      k,
      add_cents_nat totals,
      surcharge_complete input v.total p.large_order_surcharge_cents p.exceeds_large_order_threshold
          v.surcharge,
    )

-- A price is computed exactly for the valid orders, and is the one that the rules give: the lines
-- cost what their prices and quantities multiply to, the discount is at most the gross amount, the
-- surcharge applies only above the threshold, and the total is the gross amount less the discount
-- plus the surcharge. For any other order an error is thrown.
pub calculate_order_pricing_iff :
    (input : OrderPricingInput) (p : OrderPricing)
    → (calculate_order_pricing input ≡ ok p) ↔ IsPrice input p
calculate_order_pricing_iff input p =
    (λ h. pricing_sound input p (pricing-Steps input p h), pricing_complete input p)
