-- ===== src/Orders/Service/Placing.antt =====
-- When an order is created: src/modules/orders/orders.service.ts, `createOrder`.
use mathlib.Core.Path.{subst}
use mealdirectbackend.Common.{
  ℕ, ◌≡◌, refl, ap, inl, inr, ◌∷◌, Bool, true, false, Result, err, String, Bool-cases, not, ◌&&◌,
  is_some,
}
use mealdirectbackend.Payouts.Client.{Thrown, http, bad_request}
use mealdirectbackend.Payments.Machine.{AuthenticatedActor, World, throw_if, resume, ◌>>◌}
use mealdirectbackend.Payments.Initialization.{is_customer}
use mealdirectbackend.Orders.Rows.{CreateOrder, Placement, Shop, find_location_type}
use mealdirectbackend.Orders.Service.{
  OrderEnv, OrderQuote, is_accepted, needs_room, placement_for, build_quote,
  assert_room_number_when_hostel, create, create_order,
}
use mealdirectbackend.Orders.Service.Quoting.{
  IsQuote, Quoting, throws, answers, read_cases, build_quote-Quoting,
}

-- Above the cap, without a promotion code and without the customer's consent.
abbrev pub is_blocked : CreateOrder → OrderQuote → Bool
is_blocked input q =
    not (is_some input.promotion_code) && q.exceeds_standard_cap && not (is_accepted input)

-- A customer's order with the room where one is needed, of what the shop holds, and not over the cap
-- without consent.
pub record IsPlaceable (env : OrderEnv) (actor : AuthenticatedActor) (input : CreateOrder)
    (s : Shop) (q : OrderQuote) (fee : ℕ) : Type 0 where
  pub customer : is_customer actor.role ≡ true
  pub room : needs_room input (find_location_type input.location_id s) ≡ false
  pub quote : IsQuote env input s q fee
  pub allowed : is_blocked input q ≡ false

pub data PlacingStep {P : Type 0} (env : OrderEnv)
    (place : Placement → P → Result Thrown String × P) (actor : AuthenticatedActor)
    (input : CreateOrder) (key : String) (s s' : Shop) (run : Result Thrown String) : Type 0 where
  refused : (e : Thrown) → run ≡ err e → s' ≡ s → PlacingStep env place actor input key s s' run
  placed :
      (q : OrderQuote) (fee : ℕ) (p : P)
      → IsPlaceable env actor input s q fee
      → run ≡ (place (placement_for env actor input key fee) p).0
      → s' ≡ record s { placed = placement_for env actor input key fee ∷ s.placed }
      → PlacingStep env place actor input key s s' run

module _ {P : Type 0} (env : OrderEnv) (place : Placement → P → Result Thrown String × P)
    (actor : AuthenticatedActor) (input : CreateOrder) (key : String) where
  -- The end of `create_order`, on what `build_quote` returned.
  abbrev created_at :
      Result Thrown (OrderQuote × ℕ) × World Shop P → Result Thrown String × World Shop P
  created_at r = resume r (λ quoted.
      throw_if (is_blocked input quoted.0) (http bad_request)
      >> create env place (placement_for env actor input key quoted.1))

  quoted_PlacingStep :
      (s : Shop) (run : Result Thrown (OrderQuote × ℕ)) (w : World Shop P)
      → is_customer actor.role ≡ true
      → needs_room input (find_location_type input.location_id s) ≡ false
      → Quoting env input s w.state run
      → PlacingStep env place actor input key s
          (created_at (run, w)).1.state
          (created_at (run, w)).0
  unfolding create
  quoted_PlacingStep s run w c n (throws e h same) = rw h (refused e refl same)
  quoted_PlacingStep s run w c n (answers q fee h quote same) =
      elim (Bool-cases (is_blocked input q)) [
        | inl blocked ↦ rw (h, blocked) (refused (http bad_request) refl same)
        | inr allowed ↦
            rw (h, allowed)
              (placed q fee w.provider
                (record { customer = c; room = n; quote = quote; allowed = allowed }) refl
                (ap
                  (λ (s : Shop). record s {
                    placed = placement_for env actor input key fee ∷ s.placed;
                  })
                  same))
      ]

  pub create_order-PlacingStep :
      (w : World Shop P)
      → PlacingStep env place actor input key w.state
          (create_order env place actor input key w).1.state
          (create_order env place actor input key w).0
  unfolding create_order assert_room_number_when_hostel
  create_order-PlacingStep w = elim (Bool-cases (is_customer actor.role)) [
    | inr other ↦ rw other (refused (http bad_request) refl refl)
    | inl own ↦ elim (read_cases (λ (s : Shop). find_location_type input.location_id s) w) [
      | inr (e, w1, e1, s1) ↦ rw (own, e1) (refused e refl s1)
      | inl (w1, e1, s1) ↦
          elim (Bool-cases (needs_room input (find_location_type input.location_id w.state))) [
            | inl bare ↦ rw (own, e1, bare) (refused (http bad_request) refl s1)
            | inr fine ↦
                rw (own, e1, fine)
                  (quoted_PlacingStep w.state (build_quote env input w1).0
                    (build_quote env input w1).1 own fine
                    (subst
                      (λ s.
                        Quoting env input s (build_quote env input w1).1.state
                          (build_quote env input w1).0)
                      s1 (build_quote-Quoting env input w1)))
          ]
    ]
  ]
