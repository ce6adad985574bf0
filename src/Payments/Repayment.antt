-- ===== src/Payments/Repayment.antt =====
-- Refunds of a payment: src/modules/payments/payments.service.ts, `initiateRefund`, on the statements
-- of payments.repository.ts. Parameters: the id that the database gives a new row, `toString` of a
-- number, and the stored function `refund_order_to_wallet`, which gives the id of a ledger entry or
-- raises an error.
pub mod Outcome
pub mod Settling
pub mod Run
pub mod Bound
use mealdirectbackend.Common.{
  ℕ, ◌+◌, ltb, List, [], ◌∷◌, Bool, true, false, Option, none, some, Result, ok, err, String,
  str_eq, not, ◌&&◌, if◌then◌else◌, Num, or_else, is_some, ◌==◌,
}
use mealdirectbackend.Payouts.Client.{Thrown, http, other, bad_request, Reply}
use mealdirectbackend.Payments.Machine.{
  AuthenticatedActor, World, M, pure, throw_if, resume, ◌>>=◌, ◌>>◌, access,
}
use mealdirectbackend.Payments.Refunds.{
  Books, Payment, Refund, RefundStatus, requested, failed, succeeded, is_status, find_row,
  update_row, map_refund_status, RefundRequest, RefundResult,
}
use mealdirectbackend.Payments.Refunds.Operations.{create_refund}
use mealdirectbackend.Payments.Rows.{is_successful}
use mealdirectbackend.Payments.Verification.{get_admin_payment}

pub data RefundDestination : Type 0 where
  wallet paystack : RefundDestination

pub record RefundInput : Type 0 where
  pub amount_kobo : ℕ
  pub reason_code : String
  pub reason_text : Option String
  pub destination : Option RefundDestination

-- `getRefundedAmountKobo`: all refunds of the payment but the failed ones.
unfoldable pub refunded_amount : String → List Refund → ℕ
refunded_amount payment_id [] = 0
refunded_amount payment_id (r ∷ rows) =
    let rest = refunded_amount payment_id rows in
    if str_eq r.payment_id payment_id && not (is_status r.status failed)
    then r.amount_kobo + rest
    else rest

abbrev pub paid_amount : Payment → ℕ
paid_amount payment = or_else payment.paid_amount_kobo payment.expected_amount_kobo

-- The row that `createRefundRequest` inserts.
unfoldable pub new_refund : String → Payment → RefundInput → Refund
new_refund id payment input = record {
  id = id;
  payment_id = payment.id;
  campus_id = some payment.campus_id;
  provider_reference = some payment.provider_reference;
  provider_transaction_id = payment.provider_transaction_id;
  provider_refund_reference = none;
  amount_kobo = input.amount_kobo;
  reason_text = input.reason_text;
  status = requested;
  failure_reason = none;
  resolution_note = none;
  resolved_by = none;
}

-- `createRefundRequest`, with the primary key and the check that an amount is positive.
unfoldable pub create_refund_request :
    (List Refund → String) → Payment → RefundInput → Books → Option (Refund × Books)
create_refund_request new_id payment input b =
    let row = new_refund (new_id b.refunds) payment input in
    if is_some (find_row row.id b.refunds)
    then none
    else if input.amount_kobo == 0
    then none
    else some (row, record b { refunds = row ∷ b.refunds })

-- The row after `updateRefundProviderPayload`.
unfoldable pub with_provider_payload : String → RefundStatus → Refund → Refund
with_provider_payload reference status r = record r {
  provider_refund_reference = some reference;
  status = status;
}

unfoldable pub update_refund_provider_payload :
    String → String → RefundStatus → Books → Option (Refund × Books)
update_refund_provider_payload refund_id reference status b =
    let rows = update_row refund_id (with_provider_payload reference status) b.refunds in
    elim (find_row refund_id rows) [ none ↦ none | some r ↦ some (r, record b { refunds = rows }) ]

-- `creditRefundToWallet`
unfoldable pub credit_refund_to_wallet :
    (String → ℕ → String → Books → Option String)
    → String
    → ℕ
    → String
    → Books
    → Option (String × Books)
credit_refund_to_wallet credit order_id amount_kobo reason b =
    elim (credit order_id amount_kobo reason b) [
      | none ↦ none
      | some entry ↦ some (entry, record b { credits = (order_id, amount_kobo) ∷ b.credits })
    ]

unfoldable pub refund_request : Payment → RefundInput → RefundRequest
refund_request payment input = record {
  amount_kobo = input.amount_kobo;
  transaction = or_else payment.provider_transaction_id payment.provider_reference;
  reason_text = input.reason_text;
}

module _ {P : Type 0} (credit : String → ℕ → String → Books → Option String) where
  unfoldable pub refund_to_wallet : Payment → RefundInput → Refund → M Books P Refund
  refund_to_wallet payment input refund = do
    entry ← access (
        credit_refund_to_wallet credit payment.order_id input.amount_kobo
          (or_else input.reason_text input.reason_code))
    access (update_refund_provider_payload refund.id entry succeeded)

module _ {P : Type 0} (send : RefundRequest → P → Reply × P) (configured : Bool)
    (number_text : Num → String) where
  unfoldable pub refund_to_card : Payment → RefundInput → Refund → M Books P Refund
  refund_to_card payment input refund = do
    provider_refund ← create_refund send configured number_text (refund_request payment input)
    access (
        update_refund_provider_payload refund.id provider_refund.id
          (map_refund_status provider_refund.status))

module _ {P : Type 0} (send : RefundRequest → P → Reply × P) (configured : Bool)
    (number_text : Num → String) (new_id : List Refund → String)
    (credit : String → ℕ → String → Books → Option String) where
  unfoldable pub refund_to :
      Option RefundDestination → Payment → RefundInput → Refund → M Books P Refund
  refund_to (some paystack) payment input refund =
      refund_to_card send configured number_text payment input refund
  refund_to (some wallet) payment input refund = refund_to_wallet credit payment input refund
  refund_to none payment input refund = refund_to_wallet credit payment input refund

  -- `amount > paid - refunded`, where the difference may be negative.
  unfoldable pub refund_balance : RefundInput → Payment → ℕ → M Books P Refund
  refund_balance input payment refunded = do
    throw_if (ltb (paid_amount payment) (input.amount_kobo + refunded)) (http bad_request)
    refund ← access (create_refund_request new_id payment input)
    refund_to input.destination payment input refund

  unfoldable pub refund_found : RefundInput → Payment → M Books P Refund
  refund_found input payment = do
    throw_if (not (is_successful payment.payment_status)) (http bad_request)
    refunded ← access (λ b. some (refunded_amount payment.id b.refunds, b))
    refund_balance input payment refunded

  unfoldable pub initiate_refund : AuthenticatedActor → String → RefundInput → M Books P Refund
  initiate_refund actor payment_id input = get_admin_payment actor payment_id >>= refund_found input
