-- ===== src/Payments/Repayment/Settling.antt =====
-- The money of a new refund and the update of its row: src/modules/payments/payments.service.ts, the
-- end of `initiateRefund`.
use mealdirectbackend.Common.{
  ◌⊎◌, inl, inr, ℕ, ◌≡◌, ◌≢◌, sym, refl, ◌∙◌, ap, inl, inr, List, ◌∷◌, Bool, Option, none, some,
  Result, ok, err, String, Num, or_else, Option-cases,
}
use mealdirectbackend.Payouts.Client.{Thrown, http, bad_request, Reply}
use mealdirectbackend.Payments.Machine.{World, access}
use mealdirectbackend.Payments.Machine.Accesses.{access_cases}
use mealdirectbackend.Payments.Refunds.{
  Books, Payment, Refund, RefundStatus, requested, RefundResult, succeeded, find_row,
  map_refund_status, RefundRequest,
}
use mealdirectbackend.Payments.Refunds.Sending.{Answers as AnswersOf, create_refund_cases}
use mealdirectbackend.Payments.Repayment.{
  RefundInput, paystack, with_provider_payload, update_refund_provider_payload,
  credit_refund_to_wallet, refund_to_wallet, refund_request, refund_to_card,
}
use mealdirectbackend.Payments.Repayment.Outcome.{
  IsRequestFor, MoneyStep, no_money, to_wallet, to_card, update_refund_provider_payload_result,
}

-- What is left to show once the row was inserted.
pub data Settling (Answers : RefundRequest → RefundResult → Type 0) (payment : Payment)
    (input : RefundInput) (b : Books) (row : Refund) (rows : List Refund) (b' : Books)
    (run : Result Thrown Refund) : Type 0 where
  settling :
      (row' : Refund)
      → row'.payment_id ≡ row.payment_id
      → row'.amount_kobo ≡ row.amount_kobo
      → b'.refunds ≡ row' ∷ rows
      → b'.payments ≡ b.payments
      → ((e : Thrown) × (run ≡ err e)) ⊎ (run ≡ ok row')
      → MoneyStep Answers payment input row' b b' run
      → Settling Answers payment input b row rows b' run

module _ {P : Type 0} (Answers : RefundRequest → RefundResult → Type 0) (payment : Payment)
    (input : RefundInput) (row : Refund) (rows : List Refund) where
  -- The update of the new row after its money has moved.
  update-Settling :
      (reference : String) (status : RefundStatus) (b : Books) (w : World Books P)
      → w.state.refunds ≡ row ∷ rows
      → w.state.payments ≡ b.payments
      → find_row row.id rows ≡ none
      → ((b' : Books) (run : Result Thrown Refund) (row' : Refund)
          → b'.sent ≡ w.state.sent
          → b'.credits ≡ w.state.credits
          → ((e : Thrown) × (run ≡ err e) × (row' ≡ row))
            ⊎ ((run ≡ ok row') × (row' ≡ with_provider_payload reference status row))
          → MoneyStep Answers payment input row' b b' run)
      → Settling Answers payment input b row rows
          (access (update_refund_provider_payload row.id reference status) w).1.state
          (access (update_refund_provider_payload row.id reference status) w).0
  unfolding with_provider_payload
  update-Settling reference status b w e same new money =
      elim (access_cases (update_refund_provider_payload row.id reference status) w) [
        | inr (x, w1, e1, s1) ↦ rw e1 (
            settling row refl refl (ap (λ b. b.refunds) s1 ∙ e) (ap (λ b. b.payments) s1 ∙ same)
              (inl (x, refl))
              (money w1.state (err x) row (ap (λ b. b.sent) s1) (ap (λ b. b.credits) s1)
                (inl (x, refl, refl))))
        | inl (r1, b1, w1, written, e1, s1) ↦
            let (first, books) =
              update_refund_provider_payload_result row rows reference status w.state e new
                written in
            let after = s1 ∙ books in
            rw e1 (
              settling (with_provider_payload reference status row) refl refl
                (ap (λ b. b.refunds) after) (ap (λ b. b.payments) after ∙ same)
                (inr (ap (λ r. ok r) first))
                (money w1.state (ok r1) (with_provider_payload reference status row)
                  (ap (λ b. b.sent) after) (ap (λ b. b.credits) after)
                  (inr (ap (λ r. ok r) first, refl))))
      ]

credit_refund_to_wallet-books :
    (credit : String → ℕ → String → Books → Option String) (order_id : String) (amount_kobo : ℕ)
    (reason : String) (b : Books) {entry : String} {b' : Books}
    → credit_refund_to_wallet credit order_id amount_kobo reason b ≡ some (entry, b')
    → b' ≡ record b { credits = (order_id, amount_kobo) ∷ b.credits }
unfolding credit_refund_to_wallet
credit_refund_to_wallet-books credit order_id amount_kobo reason b h =
    elim (Option-cases (credit order_id amount_kobo reason b)) [
      | inl e ↦ cc (rw (e, credit_refund_to_wallet) at h)
      | inr (entry, e) ↦ cc (rw (e, credit_refund_to_wallet) at h)
    ]

refund_request-IsRequestFor :
    (payment : Payment) (input : RefundInput)
    → IsRequestFor payment input (refund_request payment input)
unfolding refund_request
refund_request-IsRequestFor payment input = record {
  amount = refl;
  transaction = refl;
  reason = refl;
}

-- The row after its update, or as it was where that failed.
module _ {row row' : Refund} {run : Result Thrown Refund} (fresh : row.status ≡ requested) where
  by_wallet :
      (entry : String)
      → ((e : Thrown) × (run ≡ err e) × (row' ≡ row))
        ⊎ ((run ≡ ok row') × (row' ≡ with_provider_payload entry succeeded row))
      → ((e : Thrown) × (run ≡ err e) × (row'.status ≡ requested))
        ⊎ ((run ≡ ok row') × (row'.status ≡ succeeded))
  unfolding with_provider_payload
  by_wallet entry (inl (x, e, same)) = inl (x, e, ap (λ r. r.status) same ∙ fresh)
  by_wallet entry (inr (e, changed)) = inr (e, ap (λ r. r.status) changed)

  by_card :
      {Answered : RefundResult → Type 0} (reply : RefundResult)
      → Answered reply
      → ((e : Thrown) × (run ≡ err e) × (row' ≡ row))
        ⊎ ((run ≡ ok row')
            × (row' ≡ with_provider_payload reply.id (map_refund_status reply.status) row))
      → ((e : Thrown) × (run ≡ err e) × (row'.status ≡ requested))
        ⊎ ((reply : RefundResult) × (run ≡ ok row')
            × Answered reply
            × (row'.status ≡ map_refund_status reply.status)
            × (row'.provider_refund_reference ≡ some reply.id))
  unfolding with_provider_payload
  by_card reply given (inl (x, e, same)) = inl (x, e, ap (λ r. r.status) same ∙ fresh)
  by_card reply given (inr (e, changed)) =
      inr
        (reply, e, given, ap (λ r. r.status) changed, ap (λ r. r.provider_refund_reference) changed)

module _ {P : Type 0} (payment : Payment) (input : RefundInput) where
  module _ (Answers : RefundRequest → RefundResult → Type 0)
      (credit : String → ℕ → String → Books → Option String) where
    pub refund_to_wallet-Settling :
        (row : Refund) (rows : List Refund) (w : World Books P)
        → w.state.refunds ≡ row ∷ rows
        → find_row row.id rows ≡ none
        → row.status ≡ requested
        → input.destination ≢ some paystack
        → Settling Answers payment input w.state row rows
            (refund_to_wallet credit payment input row w).1.state
            (refund_to_wallet credit payment input row w).0
    unfolding refund_to_wallet
    refund_to_wallet-Settling row rows w e new fresh elsewhere =
        elim (access_cases
          (credit_refund_to_wallet credit payment.order_id input.amount_kobo
            (or_else input.reason_text input.reason_code))
          w) [
            | inr (x, w1, e1, s1) ↦ rw e1 (
                settling row refl refl (ap (λ b. b.refunds) s1 ∙ e) (ap (λ b. b.payments) s1)
                  (inl (x, refl))
                  (no_money x refl fresh (ap (λ b. b.sent) s1) (ap (λ b. b.credits) s1)))
            | inl (entry, b1, w1, credited, e1, s1) ↦
                let books : b1 ≡ record w.state {
                  credits = (payment.order_id, input.amount_kobo) ∷ w.state.credits;
                } =
                  credit_refund_to_wallet-books credit payment.order_id input.amount_kobo _ w.state
                    credited in
                let after = s1 ∙ books in
                rw e1 (
                  update-Settling Answers payment input row rows entry succeeded w.state w1
                    (ap (λ b. b.refunds) after ∙ e) (ap (λ b. b.payments) after) new
                    (λ b' run row' sent credits ended.
                      to_wallet elsewhere (sent ∙ ap (λ b. b.sent) after)
                        (credits ∙ ap (λ b. b.credits) after) (by_wallet fresh entry ended)))
          ]

  module _ (send : RefundRequest → P → Reply × P) (configured : Bool)
      (number_text : Num → String) where
    pub refund_to_card-Settling :
        (row : Refund) (rows : List Refund) (w : World Books P)
        → w.state.refunds ≡ row ∷ rows
        → find_row row.id rows ≡ none
        → row.status ≡ requested
        → input.destination ≡ some paystack
        → Settling
            (AnswersOf send configured number_text)
            payment
            input
            w.state
            row
            rows
            (refund_to_card send configured number_text payment input row w).1.state
            (refund_to_card send configured number_text payment input row w).0
    unfolding refund_to_card
    refund_to_card-Settling row rows w e new fresh asked =
        elim (create_refund_cases send configured number_text (refund_request payment input) w) [
          | inl e1 ↦ rw e1 (
              settling row refl refl e refl (inl (http bad_request, refl))
                (no_money (http bad_request) refl fresh refl refl))
          | inr (err x, w1, e1, s1, given) ↦ rw e1 (
              settling row refl refl (ap (λ b. b.refunds) s1 ∙ e) (ap (λ b. b.payments) s1)
                (inl (x, refl))
                (to_card (refund_request payment input) asked
                  (refund_request-IsRequestFor payment input) (ap (λ b. b.sent) s1)
                  (ap (λ b. b.credits) s1) (inl (x, refl, fresh))))
          | inr (ok reply, w1, e1, s1, given) ↦ rw e1 (
              update-Settling (AnswersOf send configured number_text) payment input row rows
                reply.id (map_refund_status reply.status) w.state w1 (ap (λ b. b.refunds) s1 ∙ e)
                (ap (λ b. b.payments) s1) new
                (λ b' run row' sent credits ended.
                  to_card (refund_request payment input) asked
                    (refund_request-IsRequestFor payment input) (sent ∙ ap (λ b. b.sent) s1)
                    (credits ∙ ap (λ b. b.credits) s1)
                    (by_card fresh reply (w.provider, sym given) ended)))
        ]
