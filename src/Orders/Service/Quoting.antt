-- ===== src/Orders/Service/Quoting.antt =====
-- What a quote is made of: src/modules/orders/orders.service.ts, `buildQuote`.
use mealdirectbackend.Common.{
  ℕ, ◌≡◌, refl, ◌∙◌, sym, ap, ◌⊎◌, inl, inr, List, [], ◌∷◌, Bool, true, false, Option, some, Result,
  ok, err, String, Bool-cases, any, All, arith, not,
}
use mealdirectbackend.Domain.Money.{RangeError}
use mealdirectbackend.Domain.Pricing.{OrderPricing, calculate_order_pricing}
use mealdirectbackend.Domain.Pricing.Totals.{IsPrice, calculate_order_pricing_iff}
use mealdirectbackend.Payouts.Client.{Thrown, http, other, bad_request}
use mealdirectbackend.Payments.Machine.{World, access, resume, lift, pure}
use mealdirectbackend.Payments.Machine.Accesses.{access_cases}
use mealdirectbackend.Orders.Rows.{
  CreateOrder, CreateOrderItem, OrderQuoteItem, Shop, quote_rows, find_zone_delivery_fee_kobo,
  find_config,
}
use mealdirectbackend.Orders.Service.{
  OrderEnv, OrderQuote, is_quoted, assert_all_items_quoted, service_fee_from, pricing_input,
  order_quote, thrown_on, takeaway_fee, build_quote,
}

-- A query answers with what the state holds, or it throws; neither changes the state.
pub read_cases :
    {S P A : Type 0} (f : S → A) (w : World S P)
    → ((w' : World S P) × (access (λ s. some (f s, s)) w ≡ (ok (f w.state), w'))
        × (w'.state ≡ w.state))
      ⊎ ((e : Thrown) × (w' : World S P) × (access (λ s. some (f s, s)) w ≡ (err e, w'))
          × (w'.state ≡ w.state))
read_cases f w = elim (access_cases (λ s. some (f s, s)) w) [
  | inr failed ↦ inr failed
  | inl (a, s, w', answer, e, same) ↦
      let e' : f w.state ≡ a = cc answer in
      let s' : w.state ≡ s = cc answer in inl (w', e ∙ ap (λ x. (ok x, w')) (sym e'), same ∙ sym s')
]

-- The service fee of an order: none without an item that needs packaging.
abbrev pub fee_for : OrderEnv → String → Bool → Shop → ℕ
fee_for env vendor_id false s = 0
fee_for env vendor_id true s = service_fee_from env (find_config vendor_id s.vendors)

abbrev pub needs_packaging : List OrderQuoteItem → Bool
needs_packaging items = any (λ (item : OrderQuoteItem). item.triggers_takeaway_fee) items

-- A quote of what the shop holds: every ordered item is there in its quantity, and the price is the
-- one of the rules.
pub record IsQuote (env : OrderEnv) (input : CreateOrder) (s : Shop) (q : OrderQuote) (fee : ℕ)
    : Type 0 where
  pub items : q.items ≡ quote_rows input s.menu
  pub complete : All (λ item. is_quoted q.items item ≡ true) input.items
  pub service_fee : fee ≡ fee_for env input.vendor_id (needs_packaging q.items) s
  pub pricing : OrderPricing
  pub price :
      IsPrice
        (pricing_input env input q.items (find_zone_delivery_fee_kobo input.location_id s) fee)
        pricing
  pub quoted : q ≡ order_quote q.items pricing

pub data Quoting (env : OrderEnv) (input : CreateOrder) (s s' : Shop)
    (run : Result Thrown (OrderQuote × ℕ)) : Type 0 where
  throws : (e : Thrown) → run ≡ err e → s' ≡ s → Quoting env input s s' run
  answers :
      (q : OrderQuote) (fee : ℕ)
      → run ≡ ok (q, fee)
      → IsQuote env input s q fee
      → s' ≡ s
      → Quoting env input s s' run

none_missing :
    (quoted : List OrderQuoteItem) (items : List CreateOrderItem)
    → any (λ item. not (is_quoted quoted item)) items ≡ false
    → All (λ item. is_quoted quoted item ≡ true) items
none_missing quoted [] h = tt
none_missing quoted (item ∷ items) h = elim (Bool-cases (is_quoted quoted item)) [
  | inl there ↦ (there, none_missing quoted items (ground arith))
  | inr missing ↦ ground arith
]

module _ {P : Type 0} (env : OrderEnv) where
  takeaway_fee_cases :
      (vendor_id : String) (packaging : Bool) (w : World Shop P)
      → ((w' : World Shop P) × (takeaway_fee env vendor_id packaging w
            ≡ (ok (fee_for env vendor_id packaging w.state), w'))
          × (w'.state ≡ w.state))
        ⊎ ((e : Thrown) × (w' : World Shop P) × (takeaway_fee env vendor_id packaging w
              ≡ (err e, w'))
            × (w'.state ≡ w.state))
  unfolding takeaway_fee
  takeaway_fee_cases vendor_id false w = inl (w, refl, refl)
  takeaway_fee_cases vendor_id true w =
      elim (read_cases (λ (s : Shop). find_config vendor_id s.vendors) w) [
        | inl (w', e, same) ↦ inl (w', rw e refl, same)
        | inr (e, w', failed, same) ↦ inr (e, w', rw failed refl, same)
      ]

  -- The end of `build_quote`, on the price that was computed.
  abbrev quoted_at :
      List OrderQuoteItem
      → ℕ
      → Result RangeError OrderPricing
      → World Shop P
      → Result Thrown (OrderQuote × ℕ) × World Shop P
  quoted_at items fee r w =
      resume (lift (thrown_on r) w) (λ pricing. pure (order_quote items pricing, fee))

  priced_Quoting :
      (input : CreateOrder) (zone_fee : Option ℕ) (fee : ℕ) (s : Shop) (w : World Shop P)
      (r : Result RangeError OrderPricing)
      → any (λ item. not (is_quoted (quote_rows input s.menu) item)) input.items ≡ false
      → zone_fee ≡ find_zone_delivery_fee_kobo input.location_id s
      → fee ≡ fee_for env input.vendor_id (needs_packaging (quote_rows input s.menu)) s
      → w.state ≡ s
      → calculate_order_pricing (pricing_input env input (quote_rows input s.menu) zone_fee fee) ≡ r
      → Quoting env input s
          (quoted_at (quote_rows input s.menu) fee r w).1.state
          (quoted_at (quote_rows input s.menu) fee r w).0
  priced_Quoting input zone_fee fee s w (err e) there z f same h = throws other refl same
  priced_Quoting input zone_fee fee s w (ok p) there z f same h =
      let items = quote_rows input s.menu in
      let priced =
        pricing_input env input items (find_zone_delivery_fee_kobo input.location_id s) fee in
      answers (order_quote items p) fee refl
        (record {
          items = refl;
          complete = none_missing items input.items there;
          service_fee = f;
          pricing = p;
          price = (calculate_order_pricing_iff priced p).0 (rw (← z) h);
          quoted = refl;
        })
        same

  -- A quote is of what the shop holds, and nothing is changed for it.
  pub build_quote-Quoting :
      (input : CreateOrder) (w : World Shop P)
      → Quoting env input w.state (build_quote env input w).1.state (build_quote env input w).0
  unfolding build_quote assert_all_items_quoted
  build_quote-Quoting input w = elim (read_cases (λ (s : Shop). quote_rows input s.menu) w) [
    | inr (e, w1, e1, s1) ↦ rw e1 (throws e refl s1)
    | inl (w1, e1, s1) ↦
        elim (Bool-cases
          (any (λ item. not (is_quoted (quote_rows input w.state.menu) item)) input.items)) [
            | inl missing ↦ rw (e1, missing) (throws (http bad_request) refl s1)
            | inr there ↦
                elim (read_cases (λ (s : Shop). find_zone_delivery_fee_kobo input.location_id s)
                  w1) [
                    | inr (e, w2, e2, s2) ↦ rw (e1, there, e2) (throws e refl (s2 ∙ s1))
                    | inl (w2, e2, s2) ↦
                        elim (takeaway_fee_cases input.vendor_id
                          (needs_packaging (quote_rows input w.state.menu)) w2) [
                            | inr (e, w3, e3, s3) ↦
                                rw (e1, there, e2, e3) (throws e refl (s3 ∙ s2 ∙ s1))
                            | inl (w3, e3, s3) ↦
                                rw (e1, there, e2, e3)
                                  (priced_Quoting input _ _ w.state w3 _ there
                                    (ap (find_zone_delivery_fee_kobo input.location_id) s1)
                                    (ap
                                      (fee_for env input.vendor_id
                                        (needs_packaging (quote_rows input w.state.menu)))
                                      (s2 ∙ s1))
                                    (s3 ∙ s2 ∙ s1) refl)
                          ]
                  ]
          ]
  ]
