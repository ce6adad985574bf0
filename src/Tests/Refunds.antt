-- ===== src/Tests/Refunds.antt =====
-- Refunds and verified payments at concrete inputs, with a provider that gives one answer after another.
use mealdirectbackend.Common.{
  ℕ, ◌≤◌, ◌≡◌, refl, List, [], ◌∷◌, true, Option, none, some, String, Json, str, boolean, number,
  nat, obj, field, end, Num, arith, ◌≢◌, eq_iff,
}
use mealdirectbackend.Domain.Authorization.{ActorRole}
use mealdirectbackend.Domain.OrderStatus.{OrderStatus}
use mealdirectbackend.Payouts.Client.{Reply, answer, no_answer, read_reply, data_of}
use mealdirectbackend.Payments.Machine.{
  AuthenticatedActor, World, admin_campus_scope, access, audit,
}
use mealdirectbackend.Payments.Refunds.{
  Books, Payment, PaymentStatus, Refund, RefundStatus, RefundRequest, find_row, update_row,
  map_refund_status, in_scope, apply_provider_retry, with_provider_retry, find_refund_by_id,
}
use mealdirectbackend.Payments.Refunds.Operations.{
  retry_refund, retry_found, submit_refund, store_answer, require_refund, create_refund,
  read_refund, refund_id, transaction_of, audited_action,
}
use mealdirectbackend.Payments.Refunds.Steps.{retry, decide}
use mealdirectbackend.Payments.Refunds.Sending.{Answers}
use mealdirectbackend.Payments.Refunds.Safety.{
  Call, run_refund_call, run_refund_calls, run_refund_calls_final, run_refund_call_confined,
}
use mealdirectbackend.Payments.Repayment.{
  RefundInput, RefundDestination, paystack, wallet, refunded_amount, paid_amount, initiate_refund,
  refund_found, refund_balance, refund_to, refund_to_card, refund_to_wallet, create_refund_request,
  new_refund, refund_request, update_refund_provider_payload, with_provider_payload,
  credit_refund_to_wallet,
}
use mealdirectbackend.Payments.Repayment.Outcome.{RepaymentStep}
use mealdirectbackend.Payments.Repayment.Run.{initiate_refund-RepaymentStep}
use mealdirectbackend.Payments.Repayment.Bound.{HasOwnId, initiate_refund_bounded}
use mealdirectbackend.Payments.Verification.{get_admin_payment}
use mealdirectbackend.Payments.Rows.{find_admin_payment_by_id}

abbrev text_of : Num → String
text_of n = "1"

abbrev refund_body : String → Json
refund_body status = obj (
    field "status" (boolean true)
      (field "data" (obj (field "id" (number (nat 7)) (field "status" (str status) end))) end))

-- The provider answers with the statuses that it holds, and then not at all.
abbrev refunding : RefundRequest → List String → Reply × List String
refunding request [] = (no_answer, [])
refunding request (status ∷ later) = (answer true (refund_body status), later)

abbrev campus_actor : AuthenticatedActor
campus_actor = record {
  user_id = "u1";
  role = ActorRole.campus_admin;
  email = none;
  campus_id = some "c1";
}

abbrev paid_payment : Payment
paid_payment = record {
  id = "p1";
  order_id = "o1";
  customer_id = "u2";
  customer_email = none;
  campus_id = "c1";
  order_status = OrderStatus.paid;
  order_total_kobo = 1000;
  is_paystack = true;
  provider_reference = "ref1";
  payment_status = PaymentStatus.successful;
  expected_amount_kobo = 1000;
  currency = "NGN";
  paid_amount_kobo = some 1000;
  provider_transaction_id = some "tx1";
}

abbrev fresh_books : World Books (List String)
fresh_books = record {
  state = record {
    payments = paid_payment ∷ [];
    refunds = [];
    sent = [];
    credits = [];
    opened = [];
    orders = [];
  };
  provider = "failed" ∷ "processed" ∷ [];
  audited = [];
  outages = [];
}

-- The ids that the database gives to the first rows.
abbrev row_id : List Refund → String
row_id [] = "r1"
row_id (r ∷ []) = "r2"
row_id (r ∷ q ∷ rows) = "r3"

abbrev entry_of : String → ℕ → String → Books → Option String
entry_of order amount reason b = some "e1"

abbrev full_refund : RefundDestination → RefundInput
full_refund destination = record {
  amount_kobo = 1000;
  reason_code = "admin_manual";
  reason_text = none;
  destination = some destination;
}

abbrev after_card : World Books (List String)
after_card =
    (initiate_refund refunding true text_of row_id entry_of campus_actor "p1" (full_refund paystack)
      fresh_books).1

abbrev after_wallet : World Books (List String)
after_wallet =
    (initiate_refund refunding true text_of row_id entry_of campus_actor "p1" (full_refund wallet)
      after_card).1

abbrev after_retry : World Books (List String)
after_retry = (retry_refund refunding true text_of campus_actor "r1" after_wallet).1

-- A refund that the provider has refused does not count, so the payment is refunded again; a retry of
-- the first refund then sends the same money a second time, and the sum exceeds what was paid.
failed_is_not_counted : refunded_amount "p1" after_card.state.refunds ≡ 0
unfolding initiate_refund refund_found refund_balance refund_to refund_to_card refund_to_wallet
    get_admin_payment admin_campus_scope access audit find_admin_payment_by_id refunded_amount
    create_refund_request new_refund find_row update_row create_refund read_refund refund_id
    read_reply data_of map_refund_status refund_request update_refund_provider_payload
    with_provider_payload credit_refund_to_wallet retry_refund retry_found submit_refund
    store_answer require_refund in_scope apply_provider_retry with_provider_retry find_refund_by_id
    transaction_of audited_action
failed_is_not_counted = refl

refunded_again : refunded_amount "p1" after_wallet.state.refunds ≡ 1000
unfolding initiate_refund refund_found refund_balance refund_to refund_to_card refund_to_wallet
    get_admin_payment admin_campus_scope access audit find_admin_payment_by_id refunded_amount
    create_refund_request new_refund find_row update_row create_refund read_refund refund_id
    read_reply data_of map_refund_status refund_request update_refund_provider_payload
    with_provider_payload credit_refund_to_wallet retry_refund retry_found submit_refund
    store_answer require_refund in_scope apply_provider_retry with_provider_retry find_refund_by_id
    transaction_of audited_action
refunded_again = refl

retried_beyond_payment : refunded_amount "p1" after_retry.state.refunds ≡ 2000
unfolding initiate_refund refund_found refund_balance refund_to refund_to_card refund_to_wallet
    get_admin_payment admin_campus_scope access audit find_admin_payment_by_id refunded_amount
    create_refund_request new_refund find_row update_row create_refund read_refund refund_id
    read_reply data_of map_refund_status refund_request update_refund_provider_payload
    with_provider_payload credit_refund_to_wallet retry_refund retry_found submit_refund
    store_answer require_refund in_scope apply_provider_retry with_provider_retry find_refund_by_id
    transaction_of audited_action
retried_beyond_payment = refl

initiate_refund-RepaymentStep_example :
    RepaymentStep
      (Answers refunding true text_of)
      campus_actor
      "p1"
      (full_refund wallet)
      after_card.state
      after_wallet.state
      (initiate_refund refunding true text_of row_id entry_of campus_actor "p1"
        (full_refund wallet)
        after_card).0
initiate_refund-RepaymentStep_example =
    initiate_refund-RepaymentStep refunding true text_of row_id entry_of campus_actor "p1"
      (full_refund wallet) after_card

fresh_own : HasOwnId paid_payment fresh_books.state
fresh_own = (λ same. refl, tt)

fresh_bound : refunded_amount "p1" fresh_books.state.refunds ≤ 1000
unfolding refunded_amount
fresh_bound = omega arith

initiate_refund_bounded_example :
    refunded_amount "p1"
      (initiate_refund refunding true text_of row_id entry_of campus_actor "p1"
        (full_refund wallet)
        fresh_books).1.state.refunds
    ≤ paid_amount paid_payment
initiate_refund_bounded_example =
    initiate_refund_bounded refunding true text_of row_id entry_of campus_actor "p1"
      (full_refund wallet) fresh_books paid_payment fresh_own fresh_bound

abbrev retry_call : Call
retry_call = record { actor = campus_actor; refund_id = "r1"; call = retry }

abbrev approve_call : Call
approve_call = record { actor = campus_actor; refund_id = "r1"; call = decide true }

abbrev settled_refund : Refund
settled_refund = record {
  id = "r1";
  payment_id = "p1";
  campus_id = some "c1";
  provider_reference = some "ref1";
  provider_transaction_id = some "tx1";
  provider_refund_reference = some "7";
  amount_kobo = 400;
  reason_text = none;
  status = RefundStatus.succeeded;
  failure_reason = none;
  resolution_note = none;
  resolved_by = none;
}

abbrev settled_books : World Books (List String)
settled_books = record {
  state = record {
    payments = paid_payment ∷ [];
    refunds = settled_refund ∷ [];
    sent = [];
    credits = [];
    opened = [];
    orders = [];
  };
  provider = "processed" ∷ [];
  audited = [];
  outages = [];
}

settled_found : find_row "r1" settled_books.state.refunds ≡ some settled_refund
unfolding find_row
settled_found = refl

run_refund_calls_final_example :
    find_row "r1"
      (run_refund_calls refunding true text_of
        (retry_call ∷ approve_call ∷ [])
        settled_books).state.refunds
    ≡ some settled_refund
run_refund_calls_final_example =
    run_refund_calls_final refunding true text_of (retry_call ∷ approve_call ∷ []) settled_books
      "r1" settled_refund settled_found refl

abbrev other_actor : AuthenticatedActor
other_actor = record {
  user_id = "u9";
  role = ActorRole.campus_admin;
  email = none;
  campus_id = some "c2";
}

other_campus : settled_refund.campus_id ≢ some "c2"
other_campus e = cc ((eq_iff "c1" "c2").1 (cc e))

abbrev other_call : Call
other_call = record { actor = other_actor; refund_id = "r1"; call = retry }

run_refund_call_confined_example :
    find_row "r1" (run_refund_call refunding true text_of other_call settled_books).state.refunds
    ≡ some settled_refund
run_refund_call_confined_example =
    run_refund_call_confined refunding true text_of other_call settled_books "c2" "r1"
      settled_refund refl refl other_campus settled_found
