-- ===== src/Tests/Verified.antt =====
-- Payments verified with a provider that reports the payment "ref1" of 1000 kobo as made.
use mealdirectbackend.Common.{
  ℕ, ◌≡◌, refl, List, [], ◌∷◌, true, Option, none, some, ok, String, Json, str, boolean, number,
  nat, obj, field, end, Num, map,
}
use mealdirectbackend.Domain.Authorization.{ActorRole}
use mealdirectbackend.Domain.OrderStatus.{OrderStatus}
use mealdirectbackend.Payouts.Client.{Reply, answer}
use mealdirectbackend.Payments.Machine.{AuthenticatedActor, World}
use mealdirectbackend.Payments.Refunds.{Books, Payment, PaymentStatus}
use mealdirectbackend.Payments.Verification.{
  MarkCall, reconcile_pending_payments, reconcile_paystack_payment, force_payment_paid,
}
use mealdirectbackend.Payments.Verification.Matching.{Swept, reconcile_pending_payments_marks}
use mealdirectbackend.Payments.Verification.Administration.{
  Reconciled, reconcile_paystack_payment_marks, Forced, force_payment_paid_marks,
}
use mealdirectbackend.Payments.Verification.Live.{Reaches, reconcile_pending_payments_made}

abbrev text_of : Num → String
text_of n = "1"

abbrev verified_body : Json
verified_body = obj (
    field "status" (boolean true) (
      field "data"
        (obj (
          field "status" (str "success") (
            field "reference" (str "ref1") (
              field "amount" (number (nat 1000))
                (field "currency" (str "NGN") (field "id" (str "tx1") end))))))
        end))

abbrev verifying : String → Unit {0} → Reply × Unit {0}
verifying reference p = (answer true verified_body, p)

abbrev pending_payment : Payment
pending_payment = record {
  id = "p1";
  order_id = "o1";
  customer_id = "u2";
  customer_email = none;
  campus_id = "c1";
  order_status = OrderStatus.pending_payment;
  order_total_kobo = 1000;
  is_paystack = true;
  provider_reference = "ref1";
  payment_status = PaymentStatus.pending;
  expected_amount_kobo = 1000;
  currency = "NGN";
  paid_amount_kobo = none;
  provider_transaction_id = none;
}

abbrev pending_books : World Books (Unit {0})
pending_books = record {
  state = record {
    payments = pending_payment ∷ [];
    refunds = [];
    sent = [];
    credits = [];
    opened = [];
    orders = [];
  };
  provider = tt;
  audited = [];
  outages = [];
}

abbrev with_success : Payment → Payment
with_success p = record p { payment_status = PaymentStatus.successful }

abbrev marking : MarkCall → Books → Option (String × Books)
marking call b = some ("o1", record b { payments = map with_success b.payments })

abbrev campus_actor : AuthenticatedActor
campus_actor = record {
  user_id = "u1";
  role = ActorRole.campus_admin;
  email = none;
  campus_id = some "c1";
}

abbrev all_stuck : ℕ → ℕ → Books → List Payment
all_stuck stale limit b = b.payments

reconcile_pending_payments_marks_example :
    Swept verifying true text_of marking
      (pending_payment ∷ [])
      pending_books
      (reconcile_pending_payments verifying true text_of marking all_stuck 120 100 pending_books)
reconcile_pending_payments_marks_example =
    reconcile_pending_payments_marks verifying true text_of marking all_stuck 120 100 pending_books

reconcile_paystack_payment_marks_example :
    Reconciled verifying true text_of marking campus_actor "p1" pending_books
      (reconcile_paystack_payment verifying true text_of marking campus_actor "p1" pending_books)
reconcile_paystack_payment_marks_example =
    reconcile_paystack_payment_marks verifying true text_of marking campus_actor "p1" pending_books

force_payment_paid_marks_example :
    Forced verifying true text_of marking campus_actor "p1" pending_books
      (force_payment_paid verifying true text_of marking campus_actor "p1" pending_books)
force_payment_paid_marks_example =
    force_payment_paid_marks verifying true text_of marking campus_actor "p1" pending_books

reconcile_pending_payments_made_example :
    (k : ℕ) × (w' : World Books (Unit {0})) × (reconcile_pending_payments verifying true text_of
        marking all_stuck 120 100 pending_books
      ≡ (ok (record { scanned = 1; reconciled = k }), w'))
    × Reaches verifying text_of marking (pending_payment ∷ []) k pending_books.state w'.state
reconcile_pending_payments_made_example =
    reconcile_pending_payments_made verifying text_of marking all_stuck 120 100 pending_books refl
