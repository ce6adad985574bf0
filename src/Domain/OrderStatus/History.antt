-- ===== src/Domain/OrderStatus/History.antt =====
-- What the transitions allow over the whole life of an order: src/domain/order-status.ts.
use mathlib.Core.List.{Memᴰ}
use mathlib.Core.Path.{sym}
use mealdirectbackend.Common.{
  ℕ, ◌+◌, ◌≤◌, ◌<◌, ◌≡◌, ◌≢◌, refl, ◌⊎◌, inl, inr, List, [], ◌∷◌, ok, err, arith, Result, ◌>>◌,
  length,
}
use mealdirectbackend.Domain.OrderStatus.{
  OrderStatus, pending_payment, paid, ready, out_for_delivery, delivered,
  administratively_completed, cancelled, expired, refunded, TransitionError,
  assert_allowed_order_status_transition,
}

-- The order goes through the listed statuses in turn, each change checked, and ends in the last.
unfoldable pub replay : OrderStatus → List OrderStatus → Result TransitionError OrderStatus
replay from [] = ok from
replay from (to ∷ rest) = assert_allowed_order_status_transition from to >> replay to rest

-- How many changes can still come, at most.
abbrev remaining : OrderStatus → ℕ
remaining pending_payment = 6
remaining paid = 5
remaining ready = 4
remaining out_for_delivery = 3
remaining delivered = 2
remaining administratively_completed = 1
remaining cancelled = 0
remaining expired = 0
remaining refunded = 0

step_remaining :
    (from to : OrderStatus)
    → assert_allowed_order_status_transition from to ≡ ok tt
    → remaining to < remaining from
unfolding assert_allowed_order_status_transition
step_remaining from to h = ground arith

after :
    {A : Type 0} (m : Result TransitionError (Unit {0})) (k : Result TransitionError A) {a : A}
    → (m >> k) ≡ ok a
    → (m ≡ ok tt) × (k ≡ ok a)
after (ok tt) k h = (refl, h)
after (err e) k h = cc

replay_cons :
    (from next : OrderStatus) (rest : List OrderStatus) {to : OrderStatus}
    → replay from (next ∷ rest) ≡ ok to
    → (assert_allowed_order_status_transition from next ≡ ok tt) × (replay next rest ≡ ok to)
unfolding replay
replay_cons from next rest h =
    after (assert_allowed_order_status_transition from next) (replay next rest) h

length_bound :
    (from : OrderStatus) (history : List OrderStatus) {to : OrderStatus}
    → replay from history ≡ ok to
    → length history + remaining to ≤ remaining from
unfolding replay
length_bound from [] {to} h = let e : from ≡ to = cc in rw e (omega arith)
length_bound from (next ∷ rest) {to} h =
    let (step, h') = replay_cons from next rest h in
    omega (arith, step_remaining from next step, length_bound next rest h')

-- An order changes its status at most six times, whatever happens to it, and once it is cancelled,
-- expired or refunded it never changes again.
pub replay_ends :
    (history : List OrderStatus) {to : OrderStatus}
    → replay pending_payment history ≡ ok to
    → (length history ≤ 6)
      × ((to ≡ cancelled) ⊎ (to ≡ expired) ⊎ (to ≡ refunded)
          → (next : OrderStatus) → assert_allowed_order_status_transition to next ≢ ok tt)
unfolding assert_allowed_order_status_transition
replay_ends history {to} h =
    (omega (arith, length_bound pending_payment history h), λ e next s. ground arith)

-- Before the payment: the statuses that an order has without having been paid.
abbrev IsUnpaid : OrderStatus → Type 0
IsUnpaid s = (s ≡ pending_payment) ⊎ (s ≡ cancelled) ⊎ (s ≡ expired)

IsUnpaid-step :
    (from to : OrderStatus)
    → IsUnpaid from
    → assert_allowed_order_status_transition from to ≡ ok tt
    → (to ≡ paid) ⊎ IsUnpaid to
unfolding assert_allowed_order_status_transition
IsUnpaid-step from to u h = ground arith

paid_before :
    (from : OrderStatus) (history : List OrderStatus) {to : OrderStatus}
    → IsUnpaid from
    → replay from history ≡ ok to
    → Memᴰ paid history ⊎ IsUnpaid to
unfolding replay
paid_before from [] {to} u h = let e : from ≡ to = cc in inr (rw (← e) u)
paid_before from (next ∷ rest) {to} u h =
    let (step, h') = replay_cons from next rest h in
    elim (IsUnpaid-step from next u step) [
      | inl now ↦ inl (Memᴰ.head (sym now))
      | inr still ↦ elim (paid_before next rest still h') [
        | inl later ↦ inl (Memᴰ.tail later)
        | inr never ↦ inr never
      ]
    ]

-- No order is ready, on its way, delivered, completed or refunded without having been paid.
pub replay_paid :
    (history : List OrderStatus) {to : OrderStatus}
    → replay pending_payment history ≡ ok to
    → to ≢ pending_payment
    → to ≢ cancelled
    → to ≢ expired
    → Memᴰ paid history
replay_paid history {to} h a b c = elim (paid_before pending_payment history (inl refl) h) [
  | inl found ↦ found
  | inr (inl e) ↦ absurd (a e)
  | inr (inr (inl e)) ↦ absurd (b e)
  | inr (inr (inr e)) ↦ absurd (c e)
]
