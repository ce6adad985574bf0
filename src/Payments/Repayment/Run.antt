-- ===== src/Payments/Repayment/Run.antt =====
-- `initiateRefund` of src/modules/payments/payments.service.ts as a whole.
use mealdirectbackend.Common.{
  inl, inr, ℕ, ◌+◌, ltb, ◌≡◌, refl, sym, ◌∙◌, ap, inl, inr, List, ◌∷◌, Bool, true, Option, none,
  some, Result, String, Num, ◌==◌, Option-cases, Bool-cases, arith,
}
use mealdirectbackend.Payouts.Client.{Thrown, http, bad_request, Reply}
use mealdirectbackend.Payments.Machine.{AuthenticatedActor, World}
use mealdirectbackend.Payments.Machine.Accesses.{access_cases}
use mealdirectbackend.Payments.Refunds.{Books, Payment, Refund, requested, find_row, RefundRequest}
use mealdirectbackend.Payments.Rows.{is_successful}
use mealdirectbackend.Payments.Verification.Lookup.{FoundPayment, get_admin_payment_cases}
use mealdirectbackend.Payments.Repayment.{
  RefundInput, RefundDestination, wallet, paystack, refunded_amount, paid_amount, new_refund,
  create_refund_request, refund_to, refund_found, refund_balance, initiate_refund,
}
use mealdirectbackend.Payments.Repayment.Outcome.{
  MoneyStep, no_money, to_wallet, to_card, IsNewRefund, IsRefundable, RepaymentStep, refused,
  recorded,
}
use mealdirectbackend.Payments.Repayment.Settling.{
  Settling, settling, refund_to_wallet-Settling, refund_to_card-Settling,
}
use mathlib.Core.Path.{subst}
use mealdirectbackend.Payments.Refunds.Sending.{Answers}

create_refund_request-eq-some :
    (new_id : List Refund → String) (payment : Payment) (input : RefundInput) (b : Books)
    {row : Refund} {b' : Books}
    → create_refund_request new_id payment input b ≡ some (row, b')
    → (row ≡ new_refund (new_id b.refunds) payment input)
      × (find_row row.id b.refunds ≡ none)
      × (b' ≡ record b { refunds = row ∷ b.refunds })
unfolding create_refund_request
create_refund_request-eq-some new_id payment input b {row} {b'} h =
    elim (Option-cases (find_row (new_refund (new_id b.refunds) payment input).id b.refunds)) [
      | inr (old, e) ↦ cc (rw (e, create_refund_request) at h)
      | inl e ↦ elim (Bool-cases (input.amount_kobo == 0)) [
        | inl z ↦ cc (rw (e, z, create_refund_request) at h)
        | inr z ↦
            let made = rw (e, z, create_refund_request) at h in
            let same : row ≡ new_refund (new_id b.refunds) payment input = cc made in
            (
              same,
              ap (λ r. find_row r.id b.refunds) same ∙ e,
              cc made ∙ ap (λ r. record b { refunds = r ∷ b.refunds }) (sym same),
            )
      ]
    ]

new_refund-IsNewRefund :
    (id : String) (payment : Payment) (input : RefundInput)
    → IsNewRefund payment input (new_refund id payment input)
unfolding new_refund
new_refund-IsNewRefund id payment input = record { payment_id = refl; amount = refl }

new_refund-status :
    (id : String) (payment : Payment) (input : RefundInput)
    → (new_refund id payment input).status ≡ requested
unfolding new_refund
new_refund-status id payment input = refl

module _ {P : Type 0} (send : RefundRequest → P → Reply × P) (configured : Bool)
    (number_text : Num → String) (new_id : List Refund → String)
    (credit : String → ℕ → String → Books → Option String) where
  refund_to-Settling :
      (destination : Option RefundDestination) (payment : Payment) (input : RefundInput)
      (row : Refund) (rows : List Refund) (w : World Books P)
      → w.state.refunds ≡ row ∷ rows
      → find_row row.id rows ≡ none
      → row.status ≡ requested
      → input.destination ≡ destination
      → Settling
          (Answers send configured number_text)
          payment
          input
          w.state
          row
          rows
          (refund_to send configured number_text new_id credit destination payment input row
            w).1.state
          (refund_to send configured number_text new_id credit destination payment input row w).0
  unfolding refund_to
  refund_to-Settling none payment input row rows w e new fresh d =
      refund_to_wallet-Settling payment input (Answers send configured number_text) credit row rows
        w e new fresh (λ asked. cc (d, asked))
  refund_to-Settling (some wallet) payment input row rows w e new fresh d =
      refund_to_wallet-Settling payment input (Answers send configured number_text) credit row rows
        w e new fresh (λ asked. cc (d, asked))
  refund_to-Settling (some paystack) payment input row rows w e new fresh d =
      refund_to_card-Settling payment input send configured number_text row rows w e new fresh d

  refund_balance-RepaymentStep :
      (actor : AuthenticatedActor) (id : String) (input : RefundInput) (payment : Payment)
      (refunded : ℕ) (b : Books) (w : World Books P)
      → w.state ≡ b
      → refunded ≡ refunded_amount payment.id b.refunds
      → FoundPayment actor id payment b
      → is_successful payment.payment_status ≡ true
      → RepaymentStep
          (Answers send configured number_text)
          actor
          id
          input
          b
          (refund_balance send configured number_text new_id credit input payment refunded
            w).1.state
          (refund_balance send configured number_text new_id credit input payment refunded w).0
  unfolding refund_balance
  refund_balance-RepaymentStep actor id input payment refunded b w same amount found paid =
      elim (Bool-cases (ltb (paid_amount payment) (input.amount_kobo + refunded))) [
        | inl over ↦ rw (over, refund_balance) (refused (http bad_request) refl same)
        | inr fits ↦ elim (access_cases (create_refund_request new_id payment input) w) [
          | inr (x, w1, e1, s1) ↦ rw (fits, refund_balance, e1) (refused x refl (s1 ∙ same))
          | inl (row, b1, w1, made, e1, s1) ↦
              let (row_eq, new, books) =
                create_refund_request-eq-some new_id payment input w.state made in
              let after : w1.state ≡ record b { refunds = row ∷ b.refunds } =
                s1
                ∙ books
                ∙ ap {A = Books} {B = Books} (λ b. record b { refunds = row ∷ b.refunds }) same in
              rw (fits, refund_balance, e1)
                (conclude row w1 after
                  (subst (IsNewRefund payment input) (sym row_eq)
                    (new_refund-IsNewRefund (new_id w.state.refunds) payment input))
                  (record { found = found; paid = paid; left = rw (← amount) (ground arith) })
                  (refund_to-Settling input.destination payment input row b.refunds w1
                    (ap (λ b. b.refunds) after)
                    (ap (λ b. find_row row.id b.refunds) (sym same) ∙ new)
                    (ap (λ r. r.status) row_eq
                      ∙ new_refund-status (new_id w.state.refunds) payment input)
                    refl))
        ]
      ]
    where
      conclude :
          (row : Refund) (w1 : World Books P)
          → w1.state ≡ record b { refunds = row ∷ b.refunds }
          → IsNewRefund payment input row
          → IsRefundable actor id input b payment
          → {b' : Books} {run : Result Thrown Refund}
          → Settling
              (Answers send configured number_text)
              payment
              input
              w1.state
              row
              b.refunds
              b'
              run
          → RepaymentStep (Answers send configured number_text) actor id input b b' run
      conclude row w1 after is_new can (settling row' p a refunds payments returned money) =
          recorded payment row' can
            (record { payment_id = p ∙ is_new.payment_id; amount = a ∙ is_new.amount }) refunds
            (payments ∙ ap (λ b. b.payments) after) returned (moved money)
        where
          moved :
              {b' : Books} {run : Result Thrown Refund}
              → MoneyStep (Answers send configured number_text) payment input row' w1.state b' run
              → MoneyStep (Answers send configured number_text) payment input row' b b' run
          moved (no_money e r f s c) =
              no_money e r f (s ∙ ap (λ b. b.sent) after) (c ∙ ap (λ b. b.credits) after)
          moved (to_wallet d s c ended) =
              to_wallet d (s ∙ ap (λ b. b.sent) after)
                (c ∙ ap (λ b. (payment.order_id, input.amount_kobo) ∷ b.credits) after) ended
          moved (to_card request d asks s c ended) =
              to_card request d asks (s ∙ ap (λ b. request ∷ b.sent) after)
                (c ∙ ap (λ b. b.credits) after) ended

  refund_found-RepaymentStep :
      (actor : AuthenticatedActor) (id : String) (input : RefundInput) (payment : Payment)
      (b : Books) (w : World Books P)
      → w.state ≡ b
      → FoundPayment actor id payment b
      → RepaymentStep
          (Answers send configured number_text)
          actor
          id
          input
          b
          (refund_found send configured number_text new_id credit input payment w).1.state
          (refund_found send configured number_text new_id credit input payment w).0
  unfolding refund_found
  refund_found-RepaymentStep actor id input payment b w same found =
      elim (Bool-cases (is_successful payment.payment_status)) [
        | inr unpaid ↦ rw (unpaid, refund_found) (refused (http bad_request) refl same)
        | inl paid ↦
            elim (access_cases (λ (b : Books). some (refunded_amount payment.id b.refunds, b)) w) [
              | inr (x, w1, e1, s1) ↦ rw (paid, refund_found, e1) (refused x refl (s1 ∙ same))
              | inl (refunded, b1, w1, read, e1, s1) ↦
                  rw (paid, refund_found, e1)
                    (refund_balance-RepaymentStep actor id input payment refunded b w1
                      (s1 ∙ cc read ∙ same)
                      (cc (read, ap (λ b. refunded_amount payment.id b.refunds) same)) found paid)
            ]
      ]

  -- Whatever fails, initiateRefund either throws and changes nothing, or it found a successful payment
  -- in the scope of the actor of which at least the amount is left, and adds one refund of that amount.
  -- If the card is asked for, the provider is then asked once for the amount, and else the wallet of
  -- the order is credited once with it; or an error is thrown and no money moves. If it returns, it
  -- returns the new refund, money has moved, and the refund has succeeded, or for the card has the
  -- reference that the provider answered and the status that its answer means; if it throws, the refund
  -- stays requested.
  pub initiate_refund-RepaymentStep :
      (actor : AuthenticatedActor) (id : String) (input : RefundInput) (w : World Books P)
      → RepaymentStep
          (Answers send configured number_text)
          actor
          id
          input
          w.state
          (initiate_refund send configured number_text new_id credit actor id input w).1.state
          (initiate_refund send configured number_text new_id credit actor id input w).0
  unfolding initiate_refund
  initiate_refund-RepaymentStep actor id input w = elim (get_admin_payment_cases actor id w) [
    | inr (e, w1, e1, s1) ↦ rw e1 (refused e refl s1)
    | inl (payment, w1, e1, s1, found) ↦
        rw e1 (refund_found-RepaymentStep actor id input payment w.state w1 s1 found)
  ]
