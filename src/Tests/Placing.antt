-- ===== src/Tests/Placing.antt =====
-- An order of one meal, with the card, in a shop that has three of them.
use mealdirectbackend.Common.{◌≡◌, ◌≤◌, refl, [], ◌∷◌, false, none, some, Result, ok, String}
use mealdirectbackend.Domain.Authorization.{ActorRole}
use mealdirectbackend.Payouts.Client.{Thrown}
use mealdirectbackend.Payments.Machine.{AuthenticatedActor, World, access}
use mealdirectbackend.Domain.Money.{assert_integer_cents, add_cents, add_cents_from}
use mealdirectbackend.Domain.Pricing.{
  calculate_order_pricing, line_total, assert_positive_quantity, spoons_from, add_spoons,
  calculate_large_order_surcharge, surcharge_over, OrderPricing,
}
use mealdirectbackend.Orders.Rows.{
  PaymentMethod, LocationType, CreateOrder, Placement, Shop, quote_rows, quoted_from, find_location,
  find_location_type, find_zone_delivery_fee_kobo,
}
use mealdirectbackend.Orders.Service.{
  create, build_quote, assert_room_number_when_hostel, takeaway_fee, needs_room,
  assert_all_items_quoted, is_quoted, quoted_quantity, pricing_input, OrderEnv, is_wallet,
  is_accepted, placement_for, create_order, OrderQuote, order_quote,
}
use mealdirectbackend.Orders.Service.Cap.{IsPlain, PlacedWhere, create_order_capped}

abbrev shop_env : OrderEnv
shop_env = record {
  service_fee_kobo = 5000;
  delivery_fee_kobo = 20000;
  max_order_total_kobo = 249000;
  large_order_surcharge_bps = 150;
  large_order_surcharge_flat_kobo = 10000;
}

abbrev place_one : Placement → Unit {0} → Result Thrown String × Unit {0}
place_one placement p = (ok "o1", p)

abbrev eater : AuthenticatedActor
eater = record { user_id = "u1"; role = ActorRole.customer; email = none; campus_id = none }

abbrev meal_with : PaymentMethod → CreateOrder
meal_with method = record {
  campus_id = "c1";
  vendor_id = "v1";
  service_date = "2026-06-20";
  delivery_slot_id = "s1";
  location_id = "l1";
  promotion_code = none;
  room_number = none;
  accept_large_order_surcharge = none;
  payment_method = some method;
  items = record { menu_item_id = "m1"; quantity = 2 } ∷ [];
}

abbrev small_shop : World Shop (Unit {0})
small_shop = record {
  state = record {
    menu =
        record {
          campus_id = "c1";
          service_date = "2026-06-20";
          delivery_slot_id = "s1";
          vendor_id = "v1";
          menu_item_id = "m1";
          remaining_quantity = 3;
          price_kobo = 60000;
          triggers_takeaway_fee = false;
        }
        ∷ [];
    locations =
        record { id = "l1"; location_type = LocationType.department; zone_delivery_fee_kobo = none }
        ∷ [];
    vendors = [];
    placed = [];
  };
  provider = tt;
  audited = [];
  outages = [];
}

abbrev card_outcome : Result Thrown String × World Shop (Unit {0})
card_outcome =
    create_order shop_env place_one eater (meal_with PaymentMethod.paystack) "k1" small_shop

-- The order is created: two meals and the delivery are within the cap.
card_order_is_placed :
    card_outcome.1.state.placed
    ≡ placement_for shop_env eater (meal_with PaymentMethod.paystack) "k1" 0 ∷ []
unfolding create_order create build_quote assert_room_number_when_hostel takeaway_fee access
    quote_rows quoted_from find_location find_location_type find_zone_delivery_fee_kobo needs_room
    assert_all_items_quoted is_quoted quoted_quantity pricing_input is_wallet is_accepted
    placement_for calculate_order_pricing line_total assert_positive_quantity assert_integer_cents
    add_cents add_cents_from spoons_from add_spoons calculate_large_order_surcharge surcharge_over
card_order_is_placed = refl

create_order_capped_example :
    PlacedWhere shop_env place_one eater
      (meal_with PaymentMethod.paystack)
      "k1"
      (λ q. IsPlain q × (q.total_kobo ≤ shop_env.max_order_total_kobo))
      small_shop.state
      (create_order shop_env place_one eater
        (meal_with PaymentMethod.paystack)
        "k1"
        small_shop).1.state
unfolding is_wallet is_accepted
create_order_capped_example =
    create_order_capped shop_env place_one eater (meal_with PaymentMethod.paystack) "k1" small_shop
      refl refl refl

abbrev card_meal : CreateOrder
card_meal = meal_with PaymentMethod.paystack

abbrev meal_price : OrderPricing
meal_price = record {
  subtotal_cents = 120000;
  delivery_fee_cents = 20000;
  service_fee_cents = 0;
  discount_cents = 0;
  large_order_surcharge_cents = 0;
  exceeds_large_order_threshold = false;
  total_cents = 140000;
  spoon_count = 0;
}

abbrev meal_quote : OrderQuote
meal_quote = order_quote (quote_rows card_meal small_shop.state.menu) meal_price
