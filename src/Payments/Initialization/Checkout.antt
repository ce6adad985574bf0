-- ===== src/Payments/Initialization/Checkout.antt =====
-- What a checkout asks for and changes, row by row: src/modules/payments/payments.service.ts,
-- `initializePaystack`.
use mealdirectbackend.Common.{
  ℕ, ◌+◌, ◌≤◌, ◌≡◌, ◌≢◌, ◌⊎◌, List, [], ◌∷◌, true, none, some, Result, ok, err, String,
}
use mealdirectbackend.Domain.Authorization.{ActorRole}
use mealdirectbackend.Domain.OrderStatus.{pending_payment}
use mealdirectbackend.Payouts.Client.{Thrown}
use mealdirectbackend.Payments.Machine.{AuthenticatedActor}
use mealdirectbackend.Payments.Refunds.{Books, Payment, PaymentStatus, OrderRow, InitializeInput}
use mealdirectbackend.Payments.Initialization.{InitializationResponse}

-- Two tables with the same rows in the same places, each pair in a relation.
abbrev pub Rowwise {ℓ} : {A : Type ℓ} → (A → A → Type 0) → List A → List A → Type 0
Rowwise R [] [] = Unit
Rowwise R [] (y ∷ ys) = ⊥
Rowwise R (x ∷ xs) [] = ⊥
Rowwise R (x ∷ xs) (y ∷ ys) = R x y × Rowwise R xs ys

-- The payment with the id is pending, whatever it was, and the others are as they were.
abbrev pub BecomesPending : String → Payment → Payment → Type 0
BecomesPending id p p' =
    ((p.id ≡ id) × (p' ≡ record p { payment_status = PaymentStatus.pending }))
    ⊎ ((p.id ≢ id) × (p' ≡ p))

-- The reservation of the order ends half an hour from now, or later if it did before, as long as the
-- order waits for its payment; the others are as they were.
abbrev pub IsExtended : String → ℕ → OrderRow → OrderRow → Type 0
IsExtended id now o o' =
    ((o.id ≡ id)
      × (o.status ≡ pending_payment)
      × ((ends : ℕ) × (o' ≡ record o { reservation_expires_at = some ends })
          × (now + 1800000 ≤ ends)
          × ((ends ≡ now + 1800000) ⊎ (o.reservation_expires_at ≡ some ends))
          × ((before : ℕ) → o.reservation_expires_at ≡ some before → before ≤ ends)))
    ⊎ (((o.id ≢ id) ⊎ (o.status ≢ pending_payment)) × (o' ≡ o))

-- What the provider is asked for: the expected amount of the payment in its currency, under its
-- reference.
pub record IsCheckoutFor (payment : Payment) (email : String) (request : InitializeInput)
    : Type 0 where
  pub amount : request.amount_kobo ≡ payment.expected_amount_kobo
  pub currency : request.currency ≡ payment.currency
  pub reference : request.reference ≡ payment.provider_reference
  pub order_id : request.order_id ≡ payment.order_id
  pub payment_id : request.payment_id ≡ payment.id
  pub address : request.email ≡ email

-- A customer's own payment by Paystack that is open, of the order, which waits for it and whose total
-- it is over. The address is the customer's, or else the one that the token has.
pub record CanOpen (actor : AuthenticatedActor) (order_id : String) (payment : Payment)
    (email : String) : Type 0 where
  pub role : actor.role ≡ ActorRole.customer
  pub customer : payment.customer_id ≡ actor.user_id
  pub order : payment.order_id ≡ order_id
  pub paystack : payment.is_paystack ≡ true
  pub open_still :
      (payment.payment_status ≡ PaymentStatus.initialized)
      ⊎ (payment.payment_status ≡ PaymentStatus.pending)
  pub waits : payment.order_status ≡ pending_payment
  pub total : payment.expected_amount_kobo ≡ payment.order_total_kobo
  pub address :
      (payment.customer_email ≡ some email)
      ⊎ ((payment.customer_email ≡ none) × (actor.email ≡ some email))

-- The rows that opening a checkout does not touch.
pub record KeepsRest (b b' : Books) : Type 0 where
  pub refunds : b'.refunds ≡ b.refunds
  pub sent : b'.sent ≡ b.sent
  pub credits : b'.credits ≡ b.credits

pub data CheckoutStep (now : ℕ) (actor : AuthenticatedActor) (order_id : String) (b b' : Books)
    (run : Result Thrown InitializationResponse) : Type 0 where
  turned_down : (e : Thrown) → run ≡ err e → b' ≡ b → CheckoutStep now actor order_id b b' run
  broken_off :
      (payment : Payment) (email : String) (request : InitializeInput) (e : Thrown)
      → CanOpen actor order_id payment email
      → IsCheckoutFor payment email request
      → run ≡ err e
      → b'.opened ≡ request ∷ b.opened
      → (b'.payments ≡ b.payments) ⊎ Rowwise (BecomesPending payment.id) b.payments b'.payments
      → b'.orders ≡ b.orders
      → KeepsRest b b'
      → CheckoutStep now actor order_id b b' run
  opened :
      (payment : Payment) (email : String) (request : InitializeInput)
      (response : InitializationResponse)
      → CanOpen actor order_id payment email
      → IsCheckoutFor payment email request
      → run ≡ ok response
      → response.payment_id ≡ payment.id
      → b'.opened ≡ request ∷ b.opened
      → Rowwise (BecomesPending payment.id) b.payments b'.payments
      → Rowwise (IsExtended order_id now) b.orders b'.orders
      → KeepsRest b b'
      → CheckoutStep now actor order_id b b' run
