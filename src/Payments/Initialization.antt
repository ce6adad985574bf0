-- ===== src/Payments/Initialization.antt =====
-- Opening a checkout for an order: src/modules/payments/payments.service.ts, `initializePaystack`, and
-- `initializeTransaction` of paystack.client.ts.
pub mod Opening
pub mod Checkout
use mealdirectbackend.Common.{
  ℕ, ◌+◌, ◌*◌, max, map, str_eq, ◌&&◌, List, [], ◌∷◌, Bool, true, false, Option, none, some, Result,
  ok, err, String, not, if◌then◌else◌, Fields, field_of, ◌==◌,
}
use mealdirectbackend.Domain.Authorization.{
  ActorRole, customer, vendor, rider, campus_admin, super_admin,
}
use mealdirectbackend.Domain.OrderStatus.{OrderStatus, pending_payment, status_index}
use mealdirectbackend.Payouts.Client.{
  Thrown, http, bad_request, not_found, bad_gateway, forbidden, Reply, data_of, on_reply,
  string_from,
}
use mealdirectbackend.Payments.Machine.{
  AuthenticatedActor, World, M, pure, throw, throw_if, resume, ◌>>=◌, ◌>>◌, access,
}
use mealdirectbackend.Payments.Refunds.{Books, Payment, InitializeInput, OrderRow}
use mealdirectbackend.Payments.Rows.{
  find_customer_initialization_payment, mark_payment_initialization,
}

pub record InitializeResult : Type 0 where
  pub access_code : String
  pub authorization_url : String
  pub reference : String

pub record InitializationResponse : Type 0 where
  pub access_code : String
  pub authorization_url : String
  pub payment_id : String
  pub reference : String

abbrev pub payment_window_minutes : ℕ
payment_window_minutes = 30

abbrev pub is_customer : ActorRole → Bool
is_customer customer = true
is_customer _ = false

unfoldable pub read_initialized : Fields → Result Thrown InitializeResult
read_initialized envelope = elim (data_of envelope) [
  | none ↦ err (http bad_gateway)
  | some d ↦
      complete (string_from (field_of d "authorization_url"))
        (string_from (field_of d "access_code")) (string_from (field_of d "reference"))
]
  where
    complete : Option String → Option String → Option String → Result Thrown InitializeResult
    complete (some url) (some code) (some reference) =
        ok (record { access_code = code; authorization_url = url; reference = reference })
    complete _ _ _ = err (http bad_gateway)

unfoldable pub initialize_input : Payment → String → InitializeInput
initialize_input payment email = record {
  email = email;
  amount_kobo = payment.expected_amount_kobo;
  currency = payment.currency;
  reference = payment.provider_reference;
  order_id = payment.order_id;
  payment_id = payment.id;
}

-- `payment.customerEmail ?? actor.email`
unfoldable pub email_for : Payment → AuthenticatedActor → Option String
email_for payment actor = elim payment.customer_email [ some e ↦ some e | none ↦ actor.email ]

-- `greatest` of a column, which may be null, and a time.
abbrev pub greatest : Option ℕ → ℕ → ℕ
greatest none t = t
greatest (some u) t = max u t

unfoldable pub extended_row : String → ℕ → ℕ → OrderRow → OrderRow
extended_row order_id minutes now o =
    if str_eq o.id order_id && status_index o.status == status_index pending_payment
    then record o {
      reservation_expires_at = some (greatest o.reservation_expires_at (now + minutes * 60000));
    }
    else o

unfoldable pub extend_reservation_window : String → ℕ → ℕ → Books → Books
extend_reservation_window order_id minutes now b = record b {
  orders = map (extended_row order_id minutes now) b.orders;
}

-- `now` is the clock of the database at the update of the reservation.
module _ {P : Type 0} (now : ℕ) where
  -- The row, then the window of the reservation of the order.
  unfoldable pub store_initialization :
      Payment → InitializeResult → M Books P InitializationResponse
  store_initialization payment initialized = do
    access (λ b. some (tt, mark_payment_initialization payment.id b))
    access (λ b. some (tt, extend_reservation_window payment.order_id payment_window_minutes now b))
    pure (record {
      access_code = initialized.access_code;
      authorization_url = initialized.authorization_url;
      payment_id = payment.id;
      reference = initialized.reference;
    })

-- `send` answers a request for a checkout.
module _ {P : Type 0} (send : InitializeInput → P → Reply × P) (configured : Bool) (now : ℕ) where
  unfoldable pub initialize_transaction : InitializeInput → M Books P InitializeResult
  initialize_transaction input w =
      if configured
      then (let (reply, p) = send input w.provider in
          (
            on_reply read_initialized reply,
            record w { provider = p; state = record w.state { opened = input ∷ w.state.opened } },
          ))
      else (err (http bad_request), w)

  unfoldable pub open_checkout : Payment → Option String → M Books P InitializationResponse
  open_checkout payment none = throw (http bad_request)
  open_checkout payment (some email) =
      initialize_transaction (initialize_input payment email) >>= store_initialization now payment

  unfoldable pub initialize_found :
      AuthenticatedActor → Option Payment → M Books P InitializationResponse
  initialize_found actor none = throw (http not_found)
  initialize_found actor (some payment) = do
    throw_if (not (status_index payment.order_status == status_index pending_payment))
        (http bad_request)
    throw_if (not (payment.expected_amount_kobo == payment.order_total_kobo)) (http bad_request)
    open_checkout payment (email_for payment actor)

  unfoldable pub initialize_paystack :
      AuthenticatedActor → String → M Books P InitializationResponse
  initialize_paystack actor order_id = do
    throw_if (not (is_customer actor.role)) (http forbidden)
    found ← access (λ b. some (find_customer_initialization_payment actor.user_id order_id b, b))
    initialize_found actor found
