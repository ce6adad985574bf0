-- ===== src/Payments/Rows.antt =====
-- The rows of payments: src/modules/payments/payments.repository.ts. The stored functions that it
-- calls, and the clock, are parameters of the services that use them.
use mealdirectbackend.Common.{
  List, [], ◌∷◌, Bool, true, false, Option, none, some, String, str_eq, ◌&&◌, if◌then◌else◌, map,
}
use mealdirectbackend.Payments.Refunds.{
  Books, Payment, PaymentStatus, initialized, pending, successful,
}

abbrev pub is_successful : PaymentStatus → Bool
is_successful successful = true
is_successful _ = false

-- `p.status in ('initialized', 'pending')`
abbrev pub is_open : PaymentStatus → Bool
is_open initialized = true
is_open pending = true
is_open _ = false

-- The first row that a condition holds of.
abbrev pub find : (Payment → Bool) → List Payment → Option Payment
find p [] = none
find p (x ∷ xs) = let rest = find p xs in if p x then some x else rest

-- The rows stand in the order of their creation, the last first.
unfoldable pub find_customer_initialization_payment : String → String → Books → Option Payment
find_customer_initialization_payment customer_id order_id b =
    find
      (λ p.
        str_eq p.order_id order_id
        && str_eq p.customer_id customer_id
        && p.is_paystack
        && is_open p.payment_status)
      b.payments

unfoldable pub find_admin_payment_by_id : String → Option String → Books → Option Payment
find_admin_payment_by_id payment_id scope b =
    find
      (λ p.
        str_eq p.id payment_id
        && (elim scope [ none ↦ true | some campus ↦ str_eq p.campus_id campus ]))
      b.payments

-- `markPaymentInitializationPayload`, which updates whatever the status was.
unfoldable pub mark_payment_initialization : String → Books → Books
mark_payment_initialization payment_id b = record b {
  payments =
      map (λ p. if str_eq p.id payment_id then record p { payment_status = pending } else p)
        b.payments;
}
