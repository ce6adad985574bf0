-- ===== src/Domain/Promotions.antt =====
-- Promotion codes: src/domain/promotions.ts. The columns of the table keep the amounts and the
-- percentage from being negative.
use mealdirectbackend.Common.{
  ℕ, ◌*◌, ◌/◌, ◌≤◌, ◌≡◌, ◌↔◌, Bool, true, false, Option, none, some, Num, nat, ok, err, arith, ltb,
  Result, throw_if, ◌>>=◌, ◌>>◌, min, String, ℤ, ltb_ℤ, not, ◌≤ℤ◌, ◌⊎◌, inl, inr, refl, ◌<◌, ◌+◌,
  Option-cases,
}
use mealdirectbackend.Domain.Money.{RangeError, assert_integer_cents}

pub data DiscountType : Type 0 where
  fixed percent : DiscountType

pub record Promotion : Type 0 where
  pub id : String
  pub code : String
  pub discount_type : DiscountType
  pub discount_value : ℕ
  pub min_order_kobo : ℕ
  pub max_discount_kobo : Option ℕ
  pub starts_at : String
  pub ends_at : Option String
  pub active : Bool

pub data PromotionError : Type 0 where
  range : RangeError → PromotionError
  inactive not_started expired below_minimum : PromotionError

-- A comparison of two times in milliseconds, false if the first or the second is NaN.
abbrev pub before : Option ℤ → Option ℤ → Bool
before (some a) (some b) = ltb_ℤ a b
before _ _ = false

abbrev pub lift_range : {A : Type 0} → Result RangeError A → Result PromotionError A
lift_range (ok a) = ok a
lift_range (err e) = err (range e)

unfoldable pub capped : ℕ → Option ℕ → ℕ
capped discount none = discount
capped discount (some most) = min discount most

unfoldable pub discount_for : Promotion → ℕ → ℕ
unfolding capped
discount_for promo subtotal = elim promo.discount_type [
  | fixed ↦ promo.discount_value
  | percent ↦ capped (subtotal * promo.discount_value / 100) promo.max_discount_kobo
]

-- One time is at or before another; a text that is no date bounds nothing.
abbrev pub AtMost : Option ℤ → Option ℤ → Type 0
AtMost (some a) (some b) = a ≤ℤ b
AtMost _ _ = Unit

before-AtMost : (a b : Option ℤ) → (before a b ≡ false) ↔ AtMost b a
before-AtMost none none = ((λ e. tt), (λ e. refl))
before-AtMost none (some b) = ((λ e. tt), (λ e. refl))
before-AtMost (some a) none = ((λ e. tt), (λ e. refl))
before-AtMost (some a) (some b) = ((λ e. ground arith), (λ e. ground arith))

type_cases : (t : DiscountType) → (t ≡ fixed) ⊎ (t ≡ percent)
type_cases fixed = inl refl
type_cases percent = inr refl

-- A share, up to the cap and up to the subtotal.
abbrev pub IsCapped : ℕ → Option ℕ → ℕ → ℕ → Type 0
IsCapped share none subtotal d = d ≡ min share subtotal
IsCapped share (some most) subtotal d = d ≡ min (min share most) subtotal

-- The discount of the rules: `share` is the integer part of the share in percent.
abbrev pub IsDiscount : Promotion → ℕ → ℕ → Type 0
IsDiscount promo subtotal d =
    ((promo.discount_type ≡ fixed) × (d ≡ min promo.discount_value subtotal))
    ⊎ ((promo.discount_type ≡ percent)
        × ((share : ℕ) × (100 * share ≤ subtotal * promo.discount_value)
            × (subtotal * promo.discount_value < 100 * share + 100)
            × IsCapped share promo.max_discount_kobo subtotal d))

IsDiscount-iff :
    (promo : Promotion) (subtotal d : ℕ)
    → (min (discount_for promo subtotal) subtotal ≡ d) ↔ IsDiscount promo subtotal d
unfolding discount_for
IsDiscount-iff promo subtotal d = (of_type, from_rules)
  where
    capped_share :
        promo.discount_type ≡ percent
        → min (discount_for promo subtotal) subtotal ≡ d
        → IsCapped (subtotal * promo.discount_value / 100) promo.max_discount_kobo subtotal d
    capped_share p h = elim (Option-cases promo.max_discount_kobo) [
      | inl e ↦ rw e (ground arith)
      | inr (most, e) ↦ rw e (ground arith)
    ]

    of_type : min (discount_for promo subtotal) subtotal ≡ d → IsDiscount promo subtotal d
    of_type h = elim (type_cases promo.discount_type) [
      | inl f ↦ inl (f, ground arith)
      | inr p ↦
          inr
            (p, (subtotal * promo.discount_value / 100, omega arith, omega arith, capped_share p h))
    ]

    from_rules : IsDiscount promo subtotal d → min (discount_for promo subtotal) subtotal ≡ d
    from_rules (inl (f, e)) = ground arith
    from_rules (inr (p, (share, low, high, e))) =
        let same : subtotal * promo.discount_value / 100 ≡ share = omega arith in ground arith

-- `time` is `new Date(text).getTime()`, none for NaN.
module _ (time : String → Option ℤ) where
  abbrev pub ended : Option String → Option ℤ → Bool
  ended none now = false
  ended (some ends_at) now = before (time ends_at) now

  unfoldable pub evaluate_promotion : Promotion → Num → Option ℤ → Result PromotionError ℕ
  unfolding discount_for assert_integer_cents
  evaluate_promotion promo subtotal_kobo now = do
    subtotal ← lift_range (assert_integer_cents subtotal_kobo "subtotalKobo")
    throw_if (not promo.active) inactive
    throw_if (before now (time promo.starts_at)) not_started
    throw_if (ended promo.ends_at now) expired
    throw_if (ltb subtotal promo.min_order_kobo) below_minimum
    ok (min (discount_for promo subtotal) subtotal)

  -- The end of a promotion, if it has one, is not before now.
  abbrev pub EndsAfter : Option ℤ → Option String → Type 0
  EndsAfter now none = Unit
  EndsAfter now (some ends_at) = AtMost now (time ends_at)

  ended-EndsAfter :
      (now : Option ℤ) (ends_at : Option String)
      → (ended ends_at now ≡ false) ↔ EndsAfter now ends_at
  ended-EndsAfter now none = ((λ e. tt), (λ e. refl))
  ended-EndsAfter now (some ends_at) = before-AtMost (time ends_at) now

  granted :
      (promo : Promotion) (subtotal : ℕ) (now : Option ℤ) (d : ℕ)
      → evaluate_promotion promo (nat subtotal) now ≡ ok d
      → (promo.active ≡ true)
        × AtMost (time promo.starts_at) now
        × EndsAfter now promo.ends_at
        × (promo.min_order_kobo ≤ subtotal)
        × IsDiscount promo subtotal d
  unfolding evaluate_promotion
  granted promo subtotal now d h = (
    ground arith,
    (before-AtMost now (time promo.starts_at)).0 (ground arith),
    (ended-EndsAfter now promo.ends_at).0 (ground arith),
    ground arith,
    (IsDiscount-iff promo subtotal d).0 (ground arith),
  )

  grants :
      (promo : Promotion) (subtotal : ℕ) (now : Option ℤ) (d : ℕ)
      → promo.active ≡ true
      → AtMost (time promo.starts_at) now
      → EndsAfter now promo.ends_at
      → promo.min_order_kobo ≤ subtotal
      → IsDiscount promo subtotal d
      → evaluate_promotion promo (nat subtotal) now ≡ ok d
  unfolding evaluate_promotion
  grants promo subtotal now d a b c m v =
      let started = (before-AtMost now (time promo.starts_at)).1 b in
      let open_still = (ended-EndsAfter now promo.ends_at).1 c in
      let amount = (IsDiscount-iff promo subtotal d).1 v in
      ground (arith, started, open_still, amount)

  -- A discount is granted exactly for an active promotion, now at or after its start and at or before
  -- its end, if it has one, on an integer subtotal that reaches the minimum; and it is then the value of
  -- a fixed promotion, or the rounded share of one in percent up to its cap, but never more than the
  -- subtotal. A text that is no date bounds nothing.
  pub evaluate_promotion_iff :
      (promo : Promotion) (subtotal : ℕ) (now : Option ℤ) (d : ℕ)
      → (evaluate_promotion promo (nat subtotal) now ≡ ok d) ↔ (
          (promo.active ≡ true)
          × AtMost (time promo.starts_at) now
          × EndsAfter now promo.ends_at
          × (promo.min_order_kobo ≤ subtotal)
          × IsDiscount promo subtotal d)
  evaluate_promotion_iff promo subtotal now d =
      (granted promo subtotal now d, λ (a, b, c, m, v). grants promo subtotal now d a b c m v)

  -- A discount that is granted is at most the subtotal; a fixed one is the promotion's value or the
  -- whole subtotal, and one in percent is at most that share of the subtotal and at most the cap.
  pub evaluate_promotion_bounds :
      (promo : Promotion) (subtotal : ℕ) (now : Option ℤ) {d : ℕ}
      → evaluate_promotion promo (nat subtotal) now ≡ ok d
      → (d ≤ subtotal)
        × (promo.discount_type ≡ fixed → d ≡ min promo.discount_value subtotal)
        × (promo.discount_type ≡ percent → 100 * d ≤ subtotal * promo.discount_value)
        × ((most : ℕ)
            → promo.discount_type ≡ percent
            → promo.max_discount_kobo ≡ some most
            → d ≤ most)
  unfolding evaluate_promotion
  evaluate_promotion_bounds promo subtotal now h =
      (ground arith, (λ e. ground arith), (λ e. ground arith), λ most e m. ground arith)
