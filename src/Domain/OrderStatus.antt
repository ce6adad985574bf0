-- ===== src/Domain/OrderStatus.antt =====
-- The life of an order: src/domain/order-status.ts.
pub mod History
use mealdirectbackend.Common.{
  ℕ, suc, ◌+◌, ◌-◌, ◌*◌, ◌/◌, ◌≤◌, ◌<◌, ◌≡◌, ◌≢◌, refl, ◌⊎◌, inl, inr, ◌↔◌, List, [], ◌∷◌, ◌++◌,
  Bool, true, false, Option, none, some, Num, nat, neg, fractional, ok, err, arith, or_else, map,
  map_result, sum, ltb, leb, Result, throw_if, ◌>>=◌, ◌>>◌, if◌then◌else◌, min, max, String, ℤ, pos,
  negsuc, ◌-ℤ◌, ◌≤ℤ◌, ◌<ℤ◌, ltb_ℤ, leb_ℤ, int_laws, Bool-cases, Option-cases, ◌==◌, ◌&&◌, ◌||◌, not,
  is_some, any, ap, >>=-eq-ok, str_eq, eq_iff, length,
}

pub data OrderStatus : Type 0 where
  pending_payment paid ready out_for_delivery delivered : OrderStatus
  administratively_completed cancelled expired refunded : OrderStatus

-- The place in `orderStatuses`, by which two statuses are compared.
abbrev pub status_index : OrderStatus → ℕ
status_index pending_payment = 0
status_index paid = 1
status_index ready = 2
status_index out_for_delivery = 3
status_index delivered = 4
status_index administratively_completed = 5
status_index cancelled = 6
status_index expired = 7
status_index refunded = 8

unfoldable pub allowed_transitions : OrderStatus → List OrderStatus
allowed_transitions pending_payment = paid ∷ expired ∷ cancelled ∷ []
allowed_transitions paid = ready ∷ cancelled ∷ refunded ∷ []
allowed_transitions ready = out_for_delivery ∷ cancelled ∷ []
allowed_transitions out_for_delivery = delivered ∷ cancelled ∷ []
allowed_transitions delivered = administratively_completed ∷ refunded ∷ []
allowed_transitions administratively_completed = refunded ∷ []
allowed_transitions cancelled = []
allowed_transitions expired = []
allowed_transitions refunded = []

unfoldable pub can_transition_order_status : OrderStatus → OrderStatus → Bool
unfolding allowed_transitions
can_transition_order_status from to =
    any (λ s. status_index s == status_index to) (allowed_transitions from)

pub data TransitionError : Type 0 where
  cannot_transition : OrderStatus → OrderStatus → TransitionError

unfoldable pub assert_allowed_order_status_transition :
    OrderStatus → OrderStatus → Result TransitionError (Unit {0})
unfolding can_transition_order_status
assert_allowed_order_status_transition from to =
    throw_if (not (can_transition_order_status from to)) (cannot_transition from to)
