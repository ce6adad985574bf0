-- ===== src/Orders/Service.antt =====
-- Quoting and creating orders: src/modules/orders/orders.service.ts. The stored functions that create
-- an order are a parameter; the calls of them are recorded in the state. The hash of the request,
-- which goes with a call, is left out: it is a function of the input.
pub mod Quoting
pub mod Placing
pub mod Cap
pub mod Live
use mealdirectbackend.Common.{
  ℕ, min, List, [], ◌∷◌, Bool, true, false, Option, none, some, Result, ok, err, String, str_eq,
  ◌&&◌, not, if◌then◌else◌, or_else, is_some, nat, map, any, ◌==◌,
}
use mealdirectbackend.Domain.Money.{RangeError}
use mealdirectbackend.Domain.Pricing.{
  OrderLinePriceInput, OrderPricingInput, OrderPricing, calculate_order_pricing,
}
use mealdirectbackend.Payouts.Client.{Thrown, http, other, bad_request}
use mealdirectbackend.Payments.Machine.{
  AuthenticatedActor, World, M, pure, throw_if, resume, ◌>>=◌, ◌>>◌, access, lift,
}
use mealdirectbackend.Payments.Initialization.{is_customer}
use mealdirectbackend.Orders.Rows.{
  PaymentMethod, wallet, paystack, LocationType, department, hostel, CreateOrder, CreateOrderItem,
  OrderQuoteItem, ServiceFeeConfig, Placement, Shop, quote_rows, find_location_type,
  find_zone_delivery_fee_kobo, find_config, is_blank,
}

pub record OrderEnv : Type 0 where
  pub service_fee_kobo : ℕ
  pub delivery_fee_kobo : ℕ
  pub max_order_total_kobo : ℕ
  pub large_order_surcharge_bps : ℕ
  pub large_order_surcharge_flat_kobo : ℕ

pub record OrderQuote : Type 0 where
  pub delivery_fee_kobo : ℕ
  pub service_fee_kobo : ℕ
  pub discount_kobo : ℕ
  pub food_subtotal_kobo : ℕ
  pub large_order_surcharge_kobo : ℕ
  pub exceeds_standard_cap : Bool
  pub items : List OrderQuoteItem
  pub total_kobo : ℕ

unfoldable pub is_wallet : CreateOrder → Bool
is_wallet input = elim input.payment_method [
  | none ↦ false
  | some method ↦ elim method [ wallet ↦ true | paystack ↦ false ]
]

-- `input.acceptLargeOrderSurcharge === true`
unfoldable pub is_accepted : CreateOrder → Bool
is_accepted input = or_else input.accept_large_order_surcharge false

-- The quantity in the map of quoted items, whose last entry for a key counts.
unfoldable pub quoted_quantity : String → List OrderQuoteItem → Option ℕ
quoted_quantity id [] = none
quoted_quantity id (q ∷ qs) = elim (quoted_quantity id qs) [
  | some n ↦ some n
  | none ↦ if str_eq q.menu_item_id id then some q.quantity else none
]

unfoldable pub is_quoted : List OrderQuoteItem → CreateOrderItem → Bool
is_quoted quoted item = elim (quoted_quantity item.menu_item_id quoted) [
  | none ↦ false
  | some n ↦ n == item.quantity
]

unfoldable pub assert_all_items_quoted :
    CreateOrder → List OrderQuoteItem → Result Thrown (Unit {0})
assert_all_items_quoted input quoted =
    if any (λ item. not (is_quoted quoted item)) input.items then err (http bad_request) else ok tt

unfoldable pub needs_room : CreateOrder → Option LocationType → Bool
needs_room input none = false
needs_room input (some department) = false
needs_room input (some hostel) = elim input.room_number [ none ↦ true | some room ↦ is_blank room ]

unfoldable pub service_fee_from : OrderEnv → Option ServiceFeeConfig → ℕ
service_fee_from env none = env.service_fee_kobo
service_fee_from env (some config) =
    min (or_else config.service_fee_kobo env.service_fee_kobo) config.max_service_fee_kobo

abbrev pub price_line : OrderQuoteItem → OrderLinePriceInput
price_line item = record {
  unit_price_cents = nat item.unit_price_kobo;
  quantity = nat item.quantity;
  spoon_count = none;
}

unfoldable pub pricing_input :
    OrderEnv → CreateOrder → List OrderQuoteItem → Option ℕ → ℕ → OrderPricingInput
pricing_input env input items zone_fee_kobo service_fee_kobo = record {
  lines = map price_line items;
  delivery_fee_cents = nat (or_else zone_fee_kobo env.delivery_fee_kobo);
  service_fee_cents = some (nat service_fee_kobo);
  discount_cents = none;
  large_order_threshold_cents =
      if is_wallet input then none else some (nat env.max_order_total_kobo);
  large_order_surcharge_bps = some (nat env.large_order_surcharge_bps);
  large_order_surcharge_flat_cents = some (nat env.large_order_surcharge_flat_kobo);
}

abbrev pub order_quote : List OrderQuoteItem → OrderPricing → OrderQuote
order_quote items pricing = record {
  delivery_fee_kobo = pricing.delivery_fee_cents;
  service_fee_kobo = pricing.service_fee_cents;
  discount_kobo = pricing.discount_cents;
  food_subtotal_kobo = pricing.subtotal_cents;
  large_order_surcharge_kobo = pricing.large_order_surcharge_cents;
  exceeds_standard_cap = pricing.exceeds_large_order_threshold;
  items = items;
  total_kobo = pricing.total_cents;
}

-- A `RangeError` is thrown on.
abbrev pub thrown_on : {A : Type 0} → Result RangeError A → Result Thrown A
thrown_on (ok a) = ok a
thrown_on (err e) = err other

unfoldable pub placement_for : OrderEnv → AuthenticatedActor → CreateOrder → String → ℕ → Placement
placement_for env actor input idempotency_key service_fee_kobo = record {
  from_wallet = is_wallet input;
  customer_id = actor.user_id;
  input = input;
  idempotency_key = idempotency_key;
  service_fee_kobo = service_fee_kobo;
  max_order_total_kobo = if is_wallet input then none else some env.max_order_total_kobo;
  surcharge_bps = env.large_order_surcharge_bps;
  surcharge_flat_kobo = env.large_order_surcharge_flat_kobo;
  accepted = is_accepted input;
}

module _ {P : Type 0} (env : OrderEnv) where
  unfoldable pub takeaway_fee : String → Bool → M Shop P ℕ
  takeaway_fee vendor_id false = pure 0
  takeaway_fee vendor_id true = do
    config ← access (λ s. some (find_config vendor_id s.vendors, s))
    pure (service_fee_from env config)

  unfoldable pub build_quote : CreateOrder → M Shop P (OrderQuote × ℕ)
  build_quote input = do
    items ← access (λ s. some (quote_rows input s.menu, s))
    lift (assert_all_items_quoted input items)
    zone ← access (λ s. some (find_zone_delivery_fee_kobo input.location_id s, s))
    fee ←
        takeaway_fee input.vendor_id
          (any (λ (item : OrderQuoteItem). item.triggers_takeaway_fee) items)
    pricing ← lift (thrown_on (calculate_order_pricing (pricing_input env input items zone fee)))
    pure (order_quote items pricing, fee)

  unfoldable pub assert_room_number_when_hostel : CreateOrder → M Shop P (Unit {0})
  assert_room_number_when_hostel input = do
    location_type ← access (λ s. some (find_location_type input.location_id s, s))
    throw_if (needs_room input location_type) (http bad_request)

  unfoldable pub quote_order : AuthenticatedActor → CreateOrder → M Shop P OrderQuote
  quote_order actor input = do
    throw_if (not (is_customer actor.role)) (http bad_request)
    quoted ← build_quote input
    pure quoted.0

  -- `place` answers a call of a stored function that creates an order.
  module _ (place : Placement → P → Result Thrown String × P) where
    unfoldable pub create : Placement → M Shop P String
    create placement w =
        let (answer, p) = place placement w.provider in
        (
          answer,
          record w { provider = p; state = record w.state { placed = placement ∷ w.state.placed } },
        )

    unfoldable pub create_order : AuthenticatedActor → CreateOrder → String → M Shop P String
    create_order actor input idempotency_key = do
      throw_if (not (is_customer actor.role)) (http bad_request)
      assert_room_number_when_hostel input
      quoted ← build_quote input
      throw_if
          (not (is_some input.promotion_code)
            && quoted.0.exceeds_standard_cap
            && not (is_accepted input))
          (http bad_request)
      create (placement_for env actor input idempotency_key quoted.1)
