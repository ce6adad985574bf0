-- ===== src/Orders/Rows.antt =====
-- What a quote reads: src/modules/orders/dto/create-order.dto.ts, orders.types.ts and the queries of
-- orders.repository.ts. A row of `menu` is one of the stored function `available_menu_items` with its
-- unit type, for a campus, a day and a slot; the rows stand in the order of their names.
use Prim.Native.Char.{code}
use mealdirectbackend.Common.{
  ℕ, ◌*◌, List, [], ◌∷◌, ◌++◌, Bool, true, Option, none, some, String, str_eq, leb, ◌==◌, ◌&&◌,
  ◌||◌, if◌then◌else◌,
}

pub data PaymentMethod : Type 0 where
  wallet paystack : PaymentMethod

pub data LocationType : Type 0 where
  department hostel : LocationType

pub record CreateOrderItem : Type 0 where
  pub menu_item_id : String
  pub quantity : ℕ

-- The delivery mode, the notes and the customization of items go on to the database unread.
pub record CreateOrder : Type 0 where
  pub campus_id : String
  pub vendor_id : String
  pub service_date : String
  pub delivery_slot_id : String
  pub location_id : String
  pub promotion_code : Option String
  pub room_number : Option String
  pub accept_large_order_surcharge : Option Bool
  pub payment_method : Option PaymentMethod
  pub items : List CreateOrderItem

pub record OrderQuoteItem : Type 0 where
  pub menu_item_id : String
  pub quantity : ℕ
  pub remaining_quantity : ℕ
  pub unit_price_kobo : ℕ
  pub line_total_kobo : ℕ
  pub triggers_takeaway_fee : Bool

pub record MenuRow : Type 0 where
  pub campus_id : String
  pub service_date : String
  pub delivery_slot_id : String
  pub vendor_id : String
  pub menu_item_id : String
  pub remaining_quantity : ℕ
  pub price_kobo : ℕ
  pub triggers_takeaway_fee : Bool

pub record Location : Type 0 where
  pub id : String
  pub location_type : LocationType
  pub zone_delivery_fee_kobo : Option ℕ

pub record ServiceFeeConfig : Type 0 where
  pub vendor_id : String
  pub service_fee_kobo : Option ℕ
  pub max_service_fee_kobo : ℕ

-- One call of the stored function that creates an order, from the wallet or pending its payment.
pub record Placement : Type 0 where
  pub from_wallet : Bool
  pub customer_id : String
  pub input : CreateOrder
  pub idempotency_key : String
  pub service_fee_kobo : ℕ
  pub max_order_total_kobo : Option ℕ
  pub surcharge_bps : ℕ
  pub surcharge_flat_kobo : ℕ
  pub accepted : Bool

pub record Shop : Type 0 where
  pub menu : List MenuRow
  pub locations : List Location
  pub vendors : List ServiceFeeConfig
  pub placed : List Placement

-- The join of a row with the requested items, and its `where` clause.
unfoldable pub quoted_from : CreateOrder → MenuRow → List CreateOrderItem → List OrderQuoteItem
quoted_from input row [] = []
quoted_from input row (item ∷ items) =
    let rest = quoted_from input row items in
    if str_eq row.campus_id input.campus_id
      && str_eq row.service_date input.service_date
      && str_eq row.delivery_slot_id input.delivery_slot_id
      && str_eq row.menu_item_id item.menu_item_id
      && str_eq row.vendor_id input.vendor_id
      && leb item.quantity row.remaining_quantity
    then record {
      menu_item_id = row.menu_item_id;
      quantity = item.quantity;
      remaining_quantity = row.remaining_quantity;
      unit_price_kobo = row.price_kobo;
      line_total_kobo = row.price_kobo * item.quantity;
      triggers_takeaway_fee = row.triggers_takeaway_fee;
    }
      ∷ rest
    else rest

unfoldable pub quote_rows : CreateOrder → List MenuRow → List OrderQuoteItem
quote_rows input [] = []
quote_rows input (row ∷ rows) = quoted_from input row input.items ++ quote_rows input rows

unfoldable pub find_location : String → List Location → Option Location
find_location id [] = none
find_location id (l ∷ ls) =
    let rest = find_location id ls in if str_eq l.id id then some l else rest

unfoldable pub find_location_type : String → Shop → Option LocationType
find_location_type id shop = elim (find_location id shop.locations) [
  | none ↦ none
  | some l ↦ some l.location_type
]

unfoldable pub find_zone_delivery_fee_kobo : String → Shop → Option ℕ
find_zone_delivery_fee_kobo id shop = elim (find_location id shop.locations) [
  | none ↦ none
  | some l ↦ l.zone_delivery_fee_kobo
]

unfoldable pub find_config : String → List ServiceFeeConfig → Option ServiceFeeConfig
find_config id [] = none
find_config id (c ∷ cs) =
    let rest = find_config id cs in if str_eq c.vendor_id id then some c else rest

-- What `String.prototype.trim` removes, by code point.
abbrev pub is_space : ℕ → Bool
is_space c =
    (leb 9 c && leb c 13)
    || c == 32
    || c == 160
    || c == 5760
    || (leb 8192 c && leb c 8202)
    || c == 8232
    || c == 8233
    || c == 8239
    || c == 8287
    || c == 12288
    || c == 65279

-- `s.trim().length === 0`
unfoldable pub is_blank : String → Bool
is_blank String.[] = true
is_blank (String.◌∷◌ c s) = is_space (code c) && is_blank s
