-- ===== src/Payments/Refunds.antt =====
-- The rows of refunds and the statements on them: src/modules/payments/refunds.repository.ts. The
-- timestamps, the columns for display and the stored answers of the provider are left out.
pub mod Operations
pub mod Rows
pub mod Steps
pub mod Sending
pub mod RowSteps
pub mod Safety
use mealdirectbackend.Domain.OrderStatus.{OrderStatus}
use mealdirectbackend.Common.{
  ℕ, ltb, List, [], ◌∷◌, Bool, true, false, Option, none, some, Result, ok, err, String, str_eq,
  ◌||◌, not, if◌then◌else◌, Num, Fields, field_of, or_else, map,
}
use mealdirectbackend.Payouts.Client.{
  Thrown, http, other, bad_request, not_found, bad_gateway, Reply, data_of, on_reply, string_from,
}
use mealdirectbackend.Payments.Machine.{
  AuthenticatedActor, AuditEntry, World, M, pure, throw, throw_if, resume, ◌>>=◌, ◌>>◌, access,
  audit, admin_campus_scope, lift, number_from,
}

pub data RefundStatus : Type 0 where
  approved cancelled failed processing requested succeeded : RefundStatus

-- A row of `refunds`, with the columns of its payment and order that the queries join to it.
pub record Refund : Type 0 where
  pub id : String
  pub payment_id : String
  pub campus_id : Option String
  pub provider_reference : Option String
  pub provider_transaction_id : Option String
  pub provider_refund_reference : Option String
  pub amount_kobo : ℕ
  pub reason_text : Option String
  pub status : RefundStatus
  pub failure_reason : Option String
  pub resolution_note : Option String
  pub resolved_by : Option String

pub record RefundRequest : Type 0 where
  pub amount_kobo : ℕ
  pub transaction : String
  pub reason_text : Option String

pub data PaymentStatus : Type 0 where
  failed initialized pending refunded successful : PaymentStatus

-- A row of `payments`, with the columns of its order and customer that the queries join to it.
pub record Payment : Type 0 where
  pub id : String
  pub order_id : String
  pub customer_id : String
  pub customer_email : Option String
  pub campus_id : String
  pub order_status : OrderStatus
  pub order_total_kobo : ℕ
  pub is_paystack : Bool
  pub provider_reference : String
  pub payment_status : PaymentStatus
  pub expected_amount_kobo : ℕ
  pub currency : String
  pub paid_amount_kobo : Option ℕ
  pub provider_transaction_id : Option String

-- A checkout that the provider is asked for, without the URL to return to.
pub record InitializeInput : Type 0 where
  pub email : String
  pub amount_kobo : ℕ
  pub currency : String
  pub reference : String
  pub order_id : String
  pub payment_id : String

-- A row of `orders`: its status, and when the reservation of its items ends, in milliseconds.
pub record OrderRow : Type 0 where
  pub id : String
  pub status : OrderStatus
  pub reservation_expires_at : Option ℕ

-- The rows, the refunds that were asked of the provider, the credits of wallets and the checkouts
-- that it was asked for, the last first. `order_status` of a payment is what the join gave for it.
pub record Books : Type 0 where
  pub payments : List Payment
  pub refunds : List Refund
  pub sent : List RefundRequest
  pub credits : List (String × ℕ)
  pub opened : List InitializeInput
  pub orders : List OrderRow

pub record RefundResult : Type 0 where
  pub id : String
  pub status : String

abbrev pub is_status : RefundStatus → RefundStatus → Bool
is_status approved approved = true
is_status cancelled cancelled = true
is_status failed failed = true
is_status processing processing = true
is_status requested requested = true
is_status succeeded succeeded = true
is_status _ _ = false

unfoldable pub map_refund_status : String → RefundStatus
map_refund_status provider_status =
    if str_eq provider_status "processed" || str_eq provider_status "success"
    then succeeded
    else if str_eq provider_status "failed"
    then failed
    else processing

-- The row with an id, which is the primary key.
unfoldable pub find_row : String → List Refund → Option Refund
find_row id [] = none
find_row id (r ∷ rows) = let rest = find_row id rows in if str_eq r.id id then some r else rest

unfoldable pub update_row : String → (Refund → Refund) → List Refund → List Refund
update_row id f [] = []
update_row id f (r ∷ rows) =
    let rest = update_row id f rows in if str_eq r.id id then f r ∷ rest else r ∷ rest

-- The condition on the campus, none for every campus.
unfoldable pub in_scope : Option String → Refund → Bool
in_scope none r = true
in_scope (some campus) r = elim r.campus_id [ none ↦ false | some c ↦ str_eq c campus ]

unfoldable pub find_refund_by_id : String → Option String → Books → Option Refund
find_refund_by_id id scope b = elim (find_row id b.refunds) [
  | none ↦ none
  | some r ↦ if in_scope scope r then some r else none
]

-- The row after `applyProviderRetry`.
unfoldable pub with_provider_retry : String → RefundStatus → Refund → Refund
with_provider_retry reference status r = record r {
  provider_refund_reference = some reference;
  status = status;
  failure_reason = if is_status status failed then r.failure_reason else none;
}

unfoldable pub apply_provider_retry : String → String → RefundStatus → Books → Books
apply_provider_retry id reference status b = record b {
  refunds = update_row id (with_provider_retry reference status) b.refunds;
}

pub record Resolution : Type 0 where
  pub status : RefundStatus
  pub resolution_note : Option String
  pub failure_reason : Option String

abbrev coalesce : Option String → Option String → Option String
coalesce none old = old
coalesce (some new) old = some new

-- The row after `markResolution`.
unfoldable pub with_resolution : Resolution → String → Refund → Refund
with_resolution input resolved_by r = record r {
  status = input.status;
  resolution_note = coalesce input.resolution_note r.resolution_note;
  failure_reason = coalesce input.failure_reason r.failure_reason;
  resolved_by = some resolved_by;
}

-- `markResolution`: none if no row in the scope has the id.
unfoldable pub mark_resolution :
    String → Resolution → String → Option String → Books → Option Refund × Books
mark_resolution id input resolved_by scope b = elim (find_refund_by_id id scope b) [
  | none ↦ (none, b)
  | some r ↦
      (let b' : Books = record b {
        refunds = update_row id (with_resolution input resolved_by) b.refunds;
      } in
        (find_refund_by_id id scope b', b'))
]

-- What `resolveRefund` accepts.
pub data FinalStatus : Type 0 where
  succeeded failed cancelled : FinalStatus

abbrev pub final_status : FinalStatus → RefundStatus
final_status FinalStatus.succeeded = RefundStatus.succeeded
final_status FinalStatus.failed = RefundStatus.failed
final_status FinalStatus.cancelled = RefundStatus.cancelled
