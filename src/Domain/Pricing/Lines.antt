-- ===== src/Domain/Pricing/Lines.antt =====
-- What the lines of an order cost and contain: src/domain/pricing.ts.
use mealdirectbackend.Common.{
  ℕ, ◌+◌, ◌*◌, ◌<◌, ◌≡◌, refl, List, [], ◌∷◌, Num, nat, ok, arith, or_else, map_result, sum,
  >>=-eq-ok, Result,
}
use mealdirectbackend.Domain.Money.{RangeError}
use mealdirectbackend.Domain.Pricing.{OrderLinePriceInput, line_total, add_spoons, spoons_from}

-- The lines are valid, and cost and contain this much in all.
abbrev pub LinesCost : List OrderLinePriceInput → ℕ → ℕ → Type 0
LinesCost [] cents spoons = (cents ≡ 0) × (spoons ≡ 0)
LinesCost (line ∷ lines) cents spoons =
    (price : ℕ) × (quantity : ℕ) × (own : ℕ) × (rest : ℕ) × (others : ℕ) × (line.unit_price_cents
      ≡ nat price)
    × (line.quantity ≡ nat quantity)
    × (0 < quantity)
    × (or_else line.spoon_count (nat 0) ≡ nat own)
    × (cents ≡ price * quantity + rest)
    × (spoons ≡ own + others)
    × LinesCost lines rest others

line_total_inv :
    (line : OrderLinePriceInput) {n : ℕ}
    → line_total line ≡ ok n
    → (price : ℕ) × (quantity : ℕ) × (line.unit_price_cents ≡ nat price)
      × (line.quantity ≡ nat quantity)
      × (0 < quantity)
      × (n ≡ price * quantity)
unfolding line_total
line_total_inv line h = ground arith

add_spoons_inv :
    (total : ℕ) (v : Num) {n : ℕ}
    → add_spoons total v ≡ ok n
    → (own : ℕ) × (v ≡ nat own) × (n ≡ total + own)
unfolding add_spoons
add_spoons_inv total v h = ground arith

total_cons :
    {cents price_of_line : ℕ} {rest totals : List ℕ}
    → ◌≡◌ {A = Result RangeError (List ℕ)} (ok (cents ∷ rest)) (ok totals)
    → cents ≡ price_of_line
    → sum totals ≡ price_of_line + sum rest
total_cons h d = ground arith

-- The totals of the lines and the count of their spoons say what the lines cost and contain.
pub lines_sound :
    (lines : List OrderLinePriceInput) (spoons : ℕ) {totals : List ℕ} {n : ℕ}
    → map_result line_total lines ≡ ok totals
    → spoons_from spoons lines ≡ ok n
    → (k : ℕ) × (n ≡ spoons + k) × LinesCost lines (sum totals) k
unfolding spoons_from
lines_sound [] spoons {totals} h k = (0, ground arith, (ground arith, refl))
lines_sound (line ∷ lines) spoons {totals} h k =
    let (cents, cost, h') = >>=-eq-ok (line_total line) _ h in
    let (rest, costs, h'') = >>=-eq-ok (map_result line_total lines) _ h' in
    let (more, added, k') =
      >>=-eq-ok (add_spoons spoons (or_else line.spoon_count (nat 0))) (λ m. spoons_from m lines)
        k in
    let (own, o, m) = add_spoons_inv spoons (or_else line.spoon_count (nat 0)) added in
    let (price, quantity, a, b, c, d) = line_total_inv line cost in
    let (others, e, g) = lines_sound lines more costs k' in
    (
      own + others,
      omega arith,
      (price, quantity, own, sum rest, others, a, b, c, o, total_cons h'' d, refl, g),
    )

pub lines_complete :
    (lines : List OrderLinePriceInput) (before cents spoons : ℕ)
    → LinesCost lines cents spoons
    → (totals : List ℕ) × (map_result line_total lines ≡ ok totals)
      × (sum totals ≡ cents)
      × (spoons_from before lines ≡ ok (before + spoons))
unfolding spoons_from line_total
lines_complete [] before cents spoons (a, b) = ([], refl, ground arith, ground arith)
lines_complete (line ∷ lines) before cents spoons
      (price, quantity, own, rest, others, a, b, c, d, e, f, g) =
    let (totals, m, s, k) = lines_complete lines (before + own) rest others g in
    ((price * quantity) ∷ totals, ground arith, ground arith, ground arith)
