-- ===== src/Tests/Checkouts.antt =====
-- A checkout for an order of 1000 kobo, and a payment that is reset by one.
use mealdirectbackend.Common.{
  ◌≡◌, refl, [], ◌∷◌, true, none, some, Json, str, boolean, obj, field, end,
}
use mealdirectbackend.Domain.Authorization.{ActorRole}
use mealdirectbackend.Domain.OrderStatus.{OrderStatus}
use mealdirectbackend.Payouts.Client.{Reply, answer}
use mealdirectbackend.Payments.Machine.{AuthenticatedActor, World}
use mealdirectbackend.Payments.Refunds.{Books, Payment, PaymentStatus, InitializeInput}
use mealdirectbackend.Payments.Rows.{mark_payment_initialization}

abbrev checkout_body : Json
checkout_body = obj (
    field "status" (boolean true) (
      field "data"
        (obj (
          field "authorization_url" (str "https://pay")
            (field "access_code" (str "AC") (field "reference" (str "ref1") end))))
        end))

abbrev opening : InitializeInput → Unit {0} → Reply × Unit {0}
opening input p = (answer true checkout_body, p)

abbrev buyer : AuthenticatedActor
buyer = record { user_id = "u2"; role = ActorRole.customer; email = some "a@b"; campus_id = none }

abbrev payment_with : PaymentStatus → Payment
payment_with status = record {
  id = "p1";
  order_id = "o1";
  customer_id = "u2";
  customer_email = none;
  campus_id = "c1";
  order_status = OrderStatus.pending_payment;
  order_total_kobo = 1000;
  is_paystack = true;
  provider_reference = "ref1";
  payment_status = status;
  expected_amount_kobo = 1000;
  currency = "NGN";
  paid_amount_kobo = none;
  provider_transaction_id = none;
}

abbrev books_with : PaymentStatus → Books
books_with status = record {
  payments = payment_with status ∷ [];
  refunds = [];
  sent = [];
  credits = [];
  opened = [];
  orders =
      record { id = "o1"; status = OrderStatus.pending_payment; reservation_expires_at = some 9000 }
      ∷ [];
}

abbrev unpaid : World Books (Unit {0})
unpaid = record {
  state = books_with PaymentStatus.initialized;
  provider = tt;
  audited = [];
  outages = [];
}

-- The update does not look at the status: a payment that was marked as successful in the meantime is
-- pending again.
successful_is_reset :
    mark_payment_initialization "p1" (books_with PaymentStatus.successful)
    ≡ books_with PaymentStatus.pending
unfolding mark_payment_initialization
successful_is_reset = refl
