-- ===== src/Payments/Repayment/Outcome.antt =====
-- How `initiateRefund` of src/modules/payments/payments.service.ts ends.
use mealdirectbackend.Common.{
  ◌⊎◌, ◌+◌, ◌≤◌, ◌≡◌, ◌≢◌, or_else, refl, ◌∙◌, ap, List, [], ◌∷◌, true, none, some, Result, ok, err,
  String, eq_iff, arith,
}
use mealdirectbackend.Payouts.Client.{Thrown}
use mealdirectbackend.Payments.Machine.{AuthenticatedActor}
use mealdirectbackend.Payments.Refunds.{
  Books, Payment, Refund, RefundStatus, requested, succeeded, RefundRequest, RefundResult,
  map_refund_status, find_row, update_row,
}
use mealdirectbackend.Payments.Rows.{is_successful}
use mealdirectbackend.Payments.Verification.Lookup.{FoundPayment}
use mealdirectbackend.Payments.Repayment.{
  RefundInput, paystack, refunded_amount, paid_amount, with_provider_payload,
  update_refund_provider_payload,
}

-- What the provider is asked for: the amount, of the transaction of the payment, or else of its
-- reference.
pub record IsRequestFor (payment : Payment) (input : RefundInput) (request : RefundRequest)
    : Type 0 where
  pub amount : request.amount_kobo ≡ input.amount_kobo
  pub transaction :
      request.transaction ≡ or_else payment.provider_transaction_id payment.provider_reference
  pub reason : request.reason_text ≡ input.reason_text

-- Where the money of a new refund went, and the status of its row: nowhere only if an error is thrown,
-- to the provider if the card was asked for, and else to the wallet. If the row could not be updated
-- after that, it is still requested.
pub data MoneyStep (Answers : RefundRequest → RefundResult → Type 0) (payment : Payment)
    (input : RefundInput) (row : Refund) (b b' : Books) (run : Result Thrown Refund) : Type 0 where
  no_money :
      (e : Thrown)
      → run ≡ err e
      → row.status ≡ requested
      → b'.sent ≡ b.sent
      → b'.credits ≡ b.credits
      → MoneyStep Answers payment input row b b' run
  to_wallet :
      input.destination ≢ some paystack
      → b'.sent ≡ b.sent
      → b'.credits ≡ (payment.order_id, input.amount_kobo) ∷ b.credits
      → ((e : Thrown) × (run ≡ err e) × (row.status ≡ requested))
        ⊎ ((run ≡ ok row) × (row.status ≡ succeeded))
      → MoneyStep Answers payment input row b b' run
  to_card :
      (request : RefundRequest)
      → input.destination ≡ some paystack
      → IsRequestFor payment input request
      → b'.sent ≡ request ∷ b.sent
      → b'.credits ≡ b.credits
      → ((e : Thrown) × (run ≡ err e) × (row.status ≡ requested))
        ⊎ ((reply : RefundResult) × (run ≡ ok row)
            × Answers request reply
            × (row.status ≡ map_refund_status reply.status)
            × (row.provider_refund_reference ≡ some reply.id))
      → MoneyStep Answers payment input row b b' run

-- The row of a new refund, with the status that it has reached.
pub record IsNewRefund (payment : Payment) (input : RefundInput) (row : Refund) : Type 0 where
  pub payment_id : row.payment_id ≡ payment.id
  pub amount : row.amount_kobo ≡ input.amount_kobo

-- The payment was found, it is successful, and the amount is at most what is left of it.
pub record IsRefundable (actor : AuthenticatedActor) (id : String) (input : RefundInput) (b : Books)
    (payment : Payment) : Type 0 where
  pub found : FoundPayment actor id payment b
  pub paid : is_successful payment.payment_status ≡ true
  pub left : input.amount_kobo + refunded_amount payment.id b.refunds ≤ paid_amount payment

-- One more row, and its money; or an error and nothing.
pub data RepaymentStep (Answers : RefundRequest → RefundResult → Type 0)
    (actor : AuthenticatedActor) (id : String) (input : RefundInput) (b b' : Books)
    (run : Result Thrown Refund) : Type 0 where
  refused : (e : Thrown) → run ≡ err e → b' ≡ b → RepaymentStep Answers actor id input b b' run
  recorded :
      (payment : Payment) (row : Refund)
      → IsRefundable actor id input b payment
      → IsNewRefund payment input row
      → b'.refunds ≡ row ∷ b.refunds
      → b'.payments ≡ b.payments
      → ((e : Thrown) × (run ≡ err e)) ⊎ (run ≡ ok row)
      → MoneyStep Answers payment input row b b' run
      → RepaymentStep Answers actor id input b b' run

update_row-none :
    (id : String) (f : Refund → Refund) (rows : List Refund)
    → find_row id rows ≡ none
    → update_row id f rows ≡ rows
unfolding find_row update_row
update_row-none id f [] h = refl
update_row-none id f (r ∷ rows) h = ground (arith, update_row-none id f rows)

update_row_head :
    (row : Refund) (f : Refund → Refund) (rows : List Refund)
    → find_row row.id rows ≡ none
    → update_row row.id f (row ∷ rows) ≡ f row ∷ rows
unfolding update_row
update_row_head row f rows new =
    rw ((eq_iff row.id row.id).1 refl, update_row-none row.id f rows new) refl

find_row_head :
    (row : Refund) (rows : List Refund) (reference : String) (status : RefundStatus)
    → find_row row.id (with_provider_payload reference status row ∷ rows)
      ≡ some (with_provider_payload reference status row)
unfolding find_row with_provider_payload
find_row_head row rows reference status = rw ((eq_iff row.id row.id).1 refl) refl

update_refund_provider_payload_new :
    (row : Refund) (rows : List Refund) (reference : String) (status : RefundStatus) (b : Books)
    → b.refunds ≡ row ∷ rows
    → find_row row.id rows ≡ none
    → update_refund_provider_payload row.id reference status b
      ≡ some (
        with_provider_payload reference status row,
        record b { refunds = with_provider_payload reference status row ∷ rows },
      )
unfolding update_refund_provider_payload
update_refund_provider_payload_new row rows reference status b e new =
    let f = with_provider_payload reference status in
    let updated : update_row row.id f b.refunds ≡ f row ∷ rows =
      ap (update_row row.id f) e ∙ update_row_head row f rows new in
    rw (updated, update_refund_provider_payload, find_row_head row rows reference status)
      (ap (λ l. some (f row, record b { refunds = l })) updated)

pub update_refund_provider_payload_result :
    (row : Refund) (rows : List Refund) (reference : String) (status : RefundStatus) (b : Books)
    → b.refunds ≡ row ∷ rows
    → find_row row.id rows ≡ none
    → {r : Refund} {b' : Books}
    → update_refund_provider_payload row.id reference status b ≡ some (r, b')
    → (r ≡ with_provider_payload reference status row)
      × (b' ≡ record b { refunds = with_provider_payload reference status row ∷ rows })
update_refund_provider_payload_result row rows reference status b e new h =
    let same = update_refund_provider_payload_new row rows reference status b e new in
    (cc (h, same), cc (h, same))
