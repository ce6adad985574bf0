-- ===== src/Orders/Service/Cap.antt =====
-- The cap on orders and the surcharge above it: src/modules/orders/orders.service.ts.
use mealdirectbackend.Common.{
  ℕ, ◌+◌, ◌≤◌, ◌≡◌, ◌⊎◌, inl, inr, ◌∷◌, true, false, none, Result, String, arith,
}
use mealdirectbackend.Payouts.Client.{Thrown}
use mealdirectbackend.Payments.Machine.{AuthenticatedActor, World}
use mealdirectbackend.Orders.Rows.{CreateOrder, Placement, Shop}
use mealdirectbackend.Orders.Service.{
  OrderEnv, OrderQuote, is_wallet, is_accepted, placement_for, pricing_input, create_order,
}
use mealdirectbackend.Orders.Service.Quoting.{IsQuote}
use mealdirectbackend.Orders.Service.Placing.{
  is_blocked, IsPlaceable, PlacingStep, refused, placed, create_order-PlacingStep,
}

-- What is charged for the quote is its food and its two fees.
abbrev pub IsPlain : OrderQuote → Type 0
IsPlain q =
    (q.large_order_surcharge_kobo ≡ 0)
    × (q.total_kobo ≡ q.food_subtotal_kobo + q.delivery_fee_kobo + q.service_fee_kobo)

module _ (env : OrderEnv) (input : CreateOrder) (s : Shop) (q : OrderQuote) (fee : ℕ)
    (quote : IsQuote env input s q fee) where
  -- A wallet order has no cap.
  wallet_IsPlain : is_wallet input ≡ true → IsPlain q
  unfolding pricing_input
  wallet_IsPlain own = ground (arith, quote.price, quote.quoted, own)

  -- A card order that is not above the cap.
  capped_IsPlain :
      is_wallet input ≡ false
      → q.exceeds_standard_cap ≡ false
      → IsPlain q × (q.total_kobo ≤ env.max_order_total_kobo)
  unfolding pricing_input
  capped_IsPlain card low = ground (arith, quote.price, quote.quoted, card, low)

module _ {P : Type 0} (env : OrderEnv) (place : Placement → P → Result Thrown String × P)
    (actor : AuthenticatedActor) (input : CreateOrder) (key : String) where
  -- What was created, or that nothing was, with a condition on the quote.
  abbrev pub PlacedWhere : (OrderQuote → Type 0) → Shop → Shop → Type 0
  PlacedWhere C s s' =
      (s' ≡ s)
      ⊎ ((q : OrderQuote) × (fee : ℕ) × IsQuote env input s q fee
          × C q
          × (s' ≡ record s { placed = placement_for env actor input key fee ∷ s.placed }))

  step-PlacedWhere :
      (C : OrderQuote → Type 0) {s s' : Shop} {run : Result Thrown String}
      → ((q : OrderQuote) (fee : ℕ) → IsPlaceable env actor input s q fee → C q)
      → PlacingStep env place actor input key s s' run
      → PlacedWhere C s s'
  step-PlacedWhere C c (refused e h same) = inl same
  step-PlacedWhere C c (placed q fee p able h same) = inr (q, fee, able.quote, c q fee able, same)

  -- An order from the wallet is created, if it is, on a quote without a surcharge, for its food and its
  -- two fees.
  create_order_from_wallet :
      (w : World Shop P)
      → is_wallet input ≡ true
      → PlacedWhere IsPlain w.state (create_order env place actor input key w).1.state
  create_order_from_wallet w own =
      step-PlacedWhere IsPlain (λ q fee able. wallet_IsPlain env input w.state q fee able.quote own)
        (create_order-PlacingStep env place actor input key w)

  -- A card order without a promotion code, whose surcharge the customer does not accept, is created, if
  -- it is, on a quote that is at most the cap and has no surcharge; otherwise nothing is created.
  pub create_order_capped :
      (w : World Shop P)
      → is_wallet input ≡ false
      → input.promotion_code ≡ none
      → is_accepted input ≡ false
      → PlacedWhere
          (λ q. IsPlain q × (q.total_kobo ≤ env.max_order_total_kobo))
          w.state
          (create_order env place actor input key w).1.state
  create_order_capped w card plain declined =
      step-PlacedWhere (λ q. IsPlain q × (q.total_kobo ≤ env.max_order_total_kobo))
        (λ q fee able.
          capped_IsPlain env input w.state q fee able.quote card
            (allowed_low q able.allowed plain declined))
        (create_order-PlacingStep env place actor input key w)
    where
      allowed_low :
          (q : OrderQuote)
          → is_blocked input q ≡ false
          → input.promotion_code ≡ none
          → is_accepted input ≡ false
          → q.exceeds_standard_cap ≡ false
      allowed_low q h p a = ground (arith, h, p, a)
