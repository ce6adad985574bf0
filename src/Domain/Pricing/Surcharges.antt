-- ===== src/Domain/Pricing/Surcharges.antt =====
-- The surcharge on a large order: src/domain/pricing.ts.
use mealdirectbackend.Common.{
  ℕ, ◌+◌, ◌*◌, ◌≤◌, ◌<◌, ◌≡◌, ◌⊎◌, inl, inr, Bool, true, false, none, some, Num, nat, ok, arith,
  or_else, >>=-eq-ok, Option-cases, Bool-cases, leb, ap, ◌∙◌, leb→le,
}
use mealdirectbackend.Domain.Money.{
  assert_integer_cents, calculate_basis_points_amount, round_div_10000,
}
use mealdirectbackend.Domain.Money.Rounding.{assert_integer_cents_inv}
use mealdirectbackend.Domain.Pricing.{
  OrderPricingInput, Surcharge, surcharge_above, surcharge_over, calculate_large_order_surcharge,
}

-- The surcharge on a total, by the three cases: switched off, not exceeded, exceeded.
abbrev pub IsSurcharge : OrderPricingInput → ℕ → ℕ → Bool → Type 0
IsSurcharge input total cents exceeds =
    ((input.large_order_threshold_cents ≡ none) × (cents ≡ 0) × (exceeds ≡ false))
    ⊎ ((threshold : ℕ) × (input.large_order_threshold_cents ≡ some (nat threshold))
        × (total ≤ threshold)
        × (cents ≡ 0)
        × (exceeds ≡ false))
    ⊎ ((threshold : ℕ) × (flat : ℕ) × (points : ℕ) × (input.large_order_threshold_cents
          ≡ some (nat threshold))
        × (threshold < total)
        × (or_else input.large_order_surcharge_flat_cents (nat 0) ≡ nat flat)
        × (or_else input.large_order_surcharge_bps (nat 0) ≡ nat points)
        × (points ≤ 10000)
        × (cents ≡ round_div_10000 (total * points) + flat)
        × (exceeds ≡ true))

surcharge_above_inv :
    (total : ℕ) (input : OrderPricingInput) {s : Surcharge}
    → surcharge_above total input ≡ ok s
    → (flat : ℕ) × (points : ℕ) × (or_else input.large_order_surcharge_flat_cents (nat 0)
        ≡ nat flat)
      × (or_else input.large_order_surcharge_bps (nat 0) ≡ nat points)
      × (points ≤ 10000)
      × (s.large_order_surcharge_cents ≡ round_div_10000 (total * points) + flat)
      × (s.exceeds_large_order_threshold ≡ true)
unfolding surcharge_above calculate_basis_points_amount
surcharge_above_inv total input h = ground arith

surcharge_over_sound :
    (total : ℕ) (input : OrderPricingInput) (threshold : Num) {s : Surcharge}
    → input.large_order_threshold_cents ≡ some threshold
    → surcharge_over total input threshold ≡ ok s
    → IsSurcharge input total s.large_order_surcharge_cents s.exceeds_large_order_threshold
unfolding surcharge_over
surcharge_over_sound total input threshold {s} e h =
    let (t, e', h') = >>=-eq-ok (assert_integer_cents threshold "largeOrderThresholdCents") _ h in
    let e'' = e ∙ ap some (assert_integer_cents_inv threshold "largeOrderThresholdCents" e') in
    elim (Bool-cases (leb total t)) [
      | inl low ↦ inr (inl (t, e'', leb→le total t low, ground arith, ground arith))
      | inr high ↦
          let (flat, points, a, b, c, d, f) =
            surcharge_above_inv total input {s = s} (ground arith) in
          inr (inr (t, flat, points, e'', ground arith, a, b, c, d, f))
    ]

pub surcharge_sound :
    (input : OrderPricingInput) (total : ℕ) {s : Surcharge}
    → calculate_large_order_surcharge total input ≡ ok s
    → IsSurcharge input total s.large_order_surcharge_cents s.exceeds_large_order_threshold
unfolding calculate_large_order_surcharge
surcharge_sound input total {s} h = elim (Option-cases input.large_order_threshold_cents) [
  | inl off ↦ inl (off, ground arith, ground arith)
  | inr (threshold, e) ↦ surcharge_over_sound total input threshold e (ground arith)
]

pub surcharge_complete :
    (input : OrderPricingInput) (total cents : ℕ) (exceeds : Bool)
    → IsSurcharge input total cents exceeds
    → calculate_large_order_surcharge total input
      ≡ ok (record { large_order_surcharge_cents = cents; exceeds_large_order_threshold = exceeds })
unfolding calculate_large_order_surcharge calculate_basis_points_amount
surcharge_complete input total cents exceeds (inl h) = ground arith
surcharge_complete input total cents exceeds (inr (inl h)) = ground arith
surcharge_complete input total cents exceeds (inr (inr h)) = ground arith
