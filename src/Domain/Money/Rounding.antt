-- ===== src/Domain/Money/Rounding.antt =====
-- What the shared arithmetic on amounts promises: src/domain/money.ts.
use mealdirectbackend.Common.{
  ℕ, ◌+◌, ◌*◌, ◌≤◌, ◌<◌, ◌≡◌, refl, ◌∙◌, List, [], ◌∷◌, arith, String, Num, nat, neg, fractional,
  ok, sum, map, Result, ◌↔◌,
}
use mealdirectbackend.Domain.Money.{
  RangeError, assert_integer_cents, add_cents_from, add_cents, assert_basis_points, round_div_10000,
  calculate_basis_points_amount,
}

pub assert_integer_cents_inv :
    (v : Num) (l : String) {n : ℕ} → assert_integer_cents v l ≡ ok n → v ≡ nat n
unfolding assert_integer_cents
assert_integer_cents_inv (nat n) l h = cc
assert_integer_cents_inv (neg n) l h = cc
assert_integer_cents_inv fractional l h = cc

pub assert_basis_points_inv :
    (v : Num) {n : ℕ} → assert_basis_points v ≡ ok n → (v ≡ nat n) × (n ≤ 10000)
unfolding assert_basis_points
assert_basis_points_inv (nat n) h = ground arith
assert_basis_points_inv (neg n) h = cc
assert_basis_points_inv fractional h = cc

ap_ok : {a b : ℕ} → a ≡ b → ◌≡◌ {A = Result RangeError ℕ} (ok a) (ok b)
ap_ok p = cc

pub add_cents_from_nat :
    (total : ℕ) (xs : List ℕ) → add_cents_from total (map nat xs) ≡ ok (total + sum xs)
unfolding add_cents_from
add_cents_from_nat total [] = ap_ok (omega arith)
add_cents_from_nat total (x ∷ xs) = ground (arith, add_cents_from_nat (total + x) xs)

pub add_cents_nat : (xs : List ℕ) → add_cents (map nat xs) ≡ ok (sum xs)
unfolding add_cents
add_cents_nat xs = add_cents_from_nat 0 xs ∙ ap_ok (omega arith)

add_cents_from_inv :
    (total : ℕ) (vs : List Num) {n : ℕ}
    → add_cents_from total vs ≡ ok n
    → (xs : List ℕ) × (vs ≡ map nat xs) × (n ≡ total + sum xs)
unfolding add_cents_from
add_cents_from_inv total [] h = ([], refl, ground arith)
add_cents_from_inv total (nat x ∷ vs) h =
    let (xs, e, s) = add_cents_from_inv (total + x) vs h in (x ∷ xs, cc, omega arith)
add_cents_from_inv total (neg x ∷ vs) h = cc
add_cents_from_inv total (fractional ∷ vs) h = cc

-- A sum of amounts is returned exactly when every one of the values is an integer that is not
-- negative, and then it is the sum of the values: no amount is dropped or counted twice.
pub add_cents_iff :
    (vs : List Num) (n : ℕ)
    → (add_cents vs ≡ ok n) ↔ ((xs : List ℕ) × (vs ≡ map nat xs) × (n ≡ sum xs))
unfolding add_cents
add_cents_iff vs n = (
  λ h. let (xs, e, s) = add_cents_from_inv 0 vs h in (xs, e, omega arith),
  λ (xs, e, s). rw (e, s) (add_cents_nat xs),
)

pub round_div_10000-le : (a points : ℕ) → points ≤ 10000 → round_div_10000 (a * points) ≤ a
round_div_10000-le a points h = grind arith

shares :
    (amount : ℕ) (v : Num) {n : ℕ}
    → calculate_basis_points_amount (nat amount) v ≡ ok n
    → (points : ℕ) × (v ≡ nat points) × (points ≤ 10000) × (n ≡ round_div_10000 (amount * points))
unfolding calculate_basis_points_amount
shares amount v h = ground arith

pub calculate_basis_points_amount_inv :
    (amount : ℕ) (v : Num) (n : ℕ)
    → calculate_basis_points_amount (nat amount) v ≡ ok n
    → (points : ℕ) × (v ≡ nat points)
      × (points ≤ 10000)
      × (n ≡ round_div_10000 (amount * points))
      × (n ≤ amount)
unfolding calculate_basis_points_amount
calculate_basis_points_amount_inv amount v n h =
    let (points, e, b, r) = shares amount v h in
    (points, e, b, r, omega (arith, round_div_10000-le amount points b))

-- For an integer amount and a rate from 0 to 10000 basis points the result is the share of the
-- amount rounded to the nearest unit, halves upwards, and is at most the amount.
pub calculate_basis_points_amount_bounds :
    (amount points : ℕ)
    → points ≤ 10000
    → (r : ℕ) × (calculate_basis_points_amount (nat amount) (nat points) ≡ ok r)
      × (10000 * r ≤ amount * points + 5000)
      × (amount * points + 5000 < 10000 * r + 10000)
      × (r ≤ amount)
unfolding calculate_basis_points_amount
calculate_basis_points_amount_bounds amount points h =
    (round_div_10000 (amount * points), ground arith, omega arith, omega arith, grind arith)
