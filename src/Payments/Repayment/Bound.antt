-- ===== src/Payments/Repayment/Bound.antt =====
-- How much `initiateRefund` of src/modules/payments/payments.service.ts refunds of a payment.
use mealdirectbackend.Common.{
  ℕ, ◌+◌, ◌≤◌, ◌≡◌, ◌≢◌, sym, ◌∙◌, inl, inr, List, [], ◌∷◌, Bool, Option, some, String, str_eq,
  eq_iff, Num, Bool-cases, arith,
}
use mealdirectbackend.Payouts.Client.{Reply}
use mealdirectbackend.Payments.Machine.{AuthenticatedActor, World}
use mealdirectbackend.Payments.Refunds.{Books, Payment, Refund, RefundRequest}
use mealdirectbackend.Payments.Rows.{find, find_admin_payment_by_id}
use mealdirectbackend.Payments.Repayment.{
  RefundInput, refunded_amount, paid_amount, initiate_refund,
}
use mealdirectbackend.Payments.Repayment.Outcome.{IsNewRefund, IsRefundable, refused, recorded}
use mathlib.Core.Path.{subst}
use mealdirectbackend.Common.{All}
use mealdirectbackend.Payments.Repayment.Run.{initiate_refund-RepaymentStep}

-- No other row has the id of the payment.
abbrev pub HasOwnId : Payment → Books → Type 0
HasOwnId p b = All (λ q. q.id ≡ p.id → q ≡ p) b.payments

All-find :
    (Q : Payment → Type 0) (test : Payment → Bool) (payments : List Payment) {p : Payment}
    → All Q payments
    → find test payments ≡ some p
    → Q p
All-find Q test [] all h = cc h
All-find Q test (x ∷ xs) (qx, all) h = elim (Bool-cases (test x)) [
  | inl e ↦ subst Q (cc (rw e at h)) qx
  | inr e ↦ All-find Q test xs all (rw e at h)
]

find_admin_payment_by_id_own :
    (id : String) (scope : Option String) (b : Books) (p payment : Payment)
    → find_admin_payment_by_id id scope b ≡ some payment
    → HasOwnId p b
    → payment.id ≡ p.id
    → payment ≡ p
unfolding find_admin_payment_by_id
find_admin_payment_by_id_own id scope b p payment found own =
    All-find (λ q. q.id ≡ p.id → q ≡ p) _ b.payments own found

refunded_amount_other :
    (id : String) (row : Refund) (rows : List Refund)
    → row.payment_id ≢ id
    → refunded_amount id (row ∷ rows) ≡ refunded_amount id rows
unfolding refunded_amount
refunded_amount_other id row rows h = ground (arith, eq_iff row.payment_id id)

refunded_amount-cons-le :
    (id : String) (row : Refund) (rows : List Refund)
    → refunded_amount id (row ∷ rows) ≤ row.amount_kobo + refunded_amount id rows
unfolding refunded_amount
refunded_amount-cons-le id row rows = ground arith

module _ {P : Type 0} (send : RefundRequest → P → Reply × P) (configured : Bool)
    (number_text : Num → String) (new_id : List Refund → String)
    (credit : String → ℕ → String → Books → Option String) where
  -- If no more of a payment was refunded than was paid for it, failed refunds aside, that is so after
  -- initiateRefund too, whatever fails.
  pub initiate_refund_bounded :
      (actor : AuthenticatedActor) (id : String) (input : RefundInput) (w : World Books P)
      (p : Payment)
      → HasOwnId p w.state
      → refunded_amount p.id w.state.refunds ≤ paid_amount p
      → refunded_amount p.id
          (initiate_refund send configured number_text new_id credit actor id input
            w).1.state.refunds
        ≤ paid_amount p
  initiate_refund_bounded actor id input w p own bound =
      elim (initiate_refund-RepaymentStep send configured number_text new_id credit actor id input
        w) [
          | refused e r same ↦ rw same bound
          | recorded payment row can is_new refunds payments returned money ↦
              rw refunds (by_payment payment row can is_new)
        ]
    where
      by_payment :
          (payment : Payment) (row : Refund)
          → IsRefundable actor id input w.state payment
          → IsNewRefund payment input row
          → refunded_amount p.id (row ∷ w.state.refunds) ≤ paid_amount p
      by_payment payment row can is_new = elim (Bool-cases (str_eq row.payment_id p.id)) [
        | inr e ↦
            rw
              (refunded_amount_other p.id row w.state.refunds
                (λ s. cc (e, (eq_iff row.payment_id p.id).1 s)))
              bound
        | inl e ↦
            let (scope, s, found) = can.found in
            let same : payment ≡ p =
              find_admin_payment_by_id_own id scope w.state p payment found own
                (sym is_new.payment_id ∙ (eq_iff row.payment_id p.id).0 e) in
            omega (
              arith,
              refunded_amount-cons-le p.id row w.state.refunds,
              is_new.amount,
              subst (λ q. input.amount_kobo + refunded_amount q.id w.state.refunds ≤ paid_amount q)
                  same can.left,
            )
      ]
