-- ===== src/Payments/Refunds/Sending.antt =====
-- The steps that ask the provider for a refund: src/modules/payments/refunds.service.ts, `retryRefund`
-- and `initiateApprovedRefund`.
use mealdirectbackend.Common.{
  ℕ, ltb, ◌≡◌, refl, sym, ◌∙◌, ap, ◌⊎◌, inl, inr, ◌∷◌, Bool, some, Result, ok, err, String, Num,
  Bool-cases, arith,
}
use mealdirectbackend.Payouts.Client.{Thrown, http, Reply, bad_request, on_reply}
use mealdirectbackend.Payments.Machine.{AuthenticatedActor, World}
use mealdirectbackend.Payments.Machine.Accesses.{access_cases, audit_ok}
use mealdirectbackend.Payments.Refunds.{
  Refund, approved, failed, RefundRequest, Books, RefundResult, is_status, map_refund_status,
  apply_provider_retry,
}
use mealdirectbackend.Payments.Refunds.Operations.{
  audited_action, create_refund, submit_refund, retry_found, retry_refund, initiate_found,
  initiate_approved_refund, store_answer, read_refund, transaction_of,
}
use mealdirectbackend.Payments.Refunds.Steps.{
  RefundCall, retry, initiate, Requests, Found, RefundStep, unchanged, submitted, answered,
  is_status_sound, require_refund_cases, require_refund-state,
}

store_answer-RefundStep :
    {P : Type 0} (Answers : RefundRequest → RefundResult → Type 0) (actor : AuthenticatedActor)
    (id : String) (call : RefundCall) (r : Refund) (action : String) (request : RefundRequest)
    (reply : RefundResult) (b : Books) (w : World Books P)
    → w.state ≡ record b { sent = request ∷ b.sent }
    → Found actor id r b
    → Requests call r request
    → Answers request reply
    → RefundStep Answers actor id call b (store_answer actor id action reply w).1.state
unfolding store_answer apply_provider_retry
store_answer-RefundStep Answers actor id call r action request reply b w same found can given =
    elim (access_cases
      (λ (b : Books).
        some (tt, apply_provider_retry id reply.id (map_refund_status reply.status) b))
      w) [
        | inr (e, w1, a, same1) ↦ rw a (submitted r request found can (same1 ∙ same))
        | inl (done, b1, w1, written, a, same1) ↦
            let stored : b1
                ≡ apply_provider_retry id reply.id (map_refund_status reply.status) w.state =
              cc written in
            let (w2, a2, same2) = audit_ok (audited_action actor action id) w1 in
            rw (a, a2)
              (answered r request reply found can given (
                require_refund-state actor id w2
                ∙ same2
                ∙ same1
                ∙ stored
                ∙ ap (apply_provider_retry id reply.id (map_refund_status reply.status)) same))
      ]

module _ {P : Type 0} (send : RefundRequest → P → Reply × P) (configured : Bool)
    (number_text : Num → String) where
  -- A request is either not sent, without an answer, or sent once.
  pub create_refund_cases :
      (request : RefundRequest) (w : World Books P)
      → (create_refund send configured number_text request w ≡ (err (http bad_request), w))
        ⊎ ((answer : Result Thrown RefundResult) × (w' : World Books P) × (create_refund send
                configured number_text request w
              ≡ (answer, w'))
            × (w'.state ≡ record w.state { sent = request ∷ w.state.sent })
            × (answer ≡ on_reply (read_refund number_text) (send request w.provider).0))
  unfolding create_refund
  create_refund_cases request w = elim (Bool-cases configured) [
    | inl c ↦ inr (
      on_reply (read_refund number_text) (send request w.provider).0,
      record w {
        provider = (send request w.provider).1;
        state = record w.state { sent = request ∷ w.state.sent };
      },
      rw c refl,
      refl,
      refl,
    )
    | inr c ↦ inl (rw c refl)
  ]

  -- What the provider answers to a request, in some state of its own.
  abbrev pub Answers : RefundRequest → RefundResult → Type 0
  Answers request reply =
      (q : P) × (on_reply (read_refund number_text) (send request q).0 ≡ ok reply)

  module _ (actor : AuthenticatedActor) (id : String) where
    submit_refund-RefundStep :
        (call : RefundCall) (r : Refund) (action : String) (request : RefundRequest) (b : Books)
        (w : World Books P)
        → w.state ≡ b
        → Found actor id r b
        → Requests call r request
        → RefundStep Answers actor id call b
            (submit_refund send configured number_text actor id action request w).1.state
    unfolding submit_refund
    submit_refund-RefundStep call r action request b w same found can =
        elim (create_refund_cases request w) [
          | inl e ↦ rw e (unchanged same)
          | inr (err e, w1, e1, s1, given) ↦ rw e1 (submitted r request found can (cc (s1, same)))
          | inr (ok reply, w1, e1, s1, given) ↦ rw e1 (
              store_answer-RefundStep Answers actor id call r action request reply b w1
                (cc (s1, same)) found can (w.provider, sym given))
        ]

    pub retry_refund-RefundStep :
        (w : World Books P)
        → RefundStep Answers actor id retry w.state
            (retry_refund send configured number_text actor id w).1.state
    unfolding retry_refund retry_found transaction_of
    retry_refund-RefundStep w = elim (require_refund_cases actor id w) [
      | inr (e, w', x, same) ↦ rw x (unchanged same)
      | inl (r, w', x, same, found) ↦ elim (Bool-cases (is_status r.status failed)) [
        | inr s ↦ rw (x, s) (unchanged same)
        | inl s ↦
            rw (x, s)
              (submit_refund-RefundStep retry r _ _ w.state w' same found
                (is_status_sound r.status failed s, refl, refl, refl))
      ]
    ]

    pub initiate_approved_refund-RefundStep :
        (amount_kobo : ℕ) (reason : String) (w : World Books P)
        → RefundStep Answers actor id
            (initiate amount_kobo reason)
            w.state
            (initiate_approved_refund send configured number_text actor id amount_kobo reason
              w).1.state
    unfolding initiate_approved_refund initiate_found transaction_of
    initiate_approved_refund-RefundStep amount reason w = elim (require_refund_cases actor id w) [
      | inr (e, w', x, same) ↦ rw x (unchanged same)
      | inl (r, w', x, same, found) ↦ elim (Bool-cases (is_status r.status approved)) [
        | inr s ↦ rw (x, s) (unchanged same)
        | inl s ↦ elim (Bool-cases (ltb r.amount_kobo amount)) [
          | inl l ↦ rw (x, s, l) (unchanged same)
          | inr l ↦
              rw (x, s, l)
                (submit_refund-RefundStep (initiate amount reason) r _ _ w.state w' same found
                  (is_status_sound r.status approved s, ground arith, refl, refl, refl))
        ]
      ]
    ]
