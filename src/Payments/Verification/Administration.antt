-- ===== src/Payments/Verification/Administration.antt =====
-- What administrators may mark as paid: src/modules/payments/payments.service.ts,
-- `reconcilePaystackPayment` and `forcePaymentPaid`.
use mathlib.Core.Path.{subst}
use mealdirectbackend.Common.{
  ◌≡◌, refl, ◌∙◌, ◌⊎◌, inl, inr, Bool, false, Option, none, some, Result, ok, err, String, str_eq,
  eq_iff, Num, nat, Bool-cases,
}
use mealdirectbackend.Payouts.Client.{Thrown, http, Reply, bad_request, on_reply}
use mealdirectbackend.Payments.Machine.{AuthenticatedActor, World, resume}
use mealdirectbackend.Payments.Machine.Accesses.{access_cases, audit_ok}
use mealdirectbackend.Payments.Refunds.{Books, Payment}
use mealdirectbackend.Payments.Verification.{
  VerifyResult, MarkCall, Reconciliation, is_amount, mark_call, read_verified, reconcile_verified,
}
use mealdirectbackend.Payments.Rows.{is_successful}
use mealdirectbackend.Payments.Verification.{
  reconcile_paystack_payment, force_found, force_payment_paid,
}
use mealdirectbackend.Payments.Verification.Matching.{
  is_amount_sound, Marked, verify_transaction_cases,
}
use mealdirectbackend.Payments.Verification.Lookup.{FoundPayment, get_admin_payment_cases}

module _ {P : Type 0} (send : String → P → Reply × P) (configured : Bool)
    (number_text : Num → String) (mark_paid : MarkCall → Books → Option (String × Books)) where
  reconcile_verified_marks :
      (payment : Payment) (verified : VerifyResult) (q : P) (w : World Books P)
      → on_reply (read_verified number_text) (send payment.provider_reference q).0 ≡ ok verified
      → ((e : Thrown) × (w' : World Books P) × (reconcile_verified send configured number_text
              mark_paid payment verified w
            ≡ (err e, w'))
          × (w'.state ≡ w.state))
        ⊎ ((out : Reconciliation) × (w' : World Books P) × (reconcile_verified send configured
                number_text mark_paid payment verified w
              ≡ (ok out, w'))
            × (out.payment_id ≡ payment.id)
            × Marked send configured number_text mark_paid payment w.state w'.state)
  unfolding reconcile_verified
  reconcile_verified_marks payment v q w answer = elim (Bool-cases (str_eq v.status "success")) [
    | inr a ↦ inl (http bad_request, w, rw (a, reconcile_verified) refl, refl)
    | inl a ↦ elim (Bool-cases (str_eq v.reference payment.provider_reference)) [
      | inr b ↦ inl (http bad_request, w, rw (a, b, reconcile_verified) refl, refl)
      | inl b ↦ elim (Bool-cases (is_amount v.amount_kobo payment.expected_amount_kobo)) [
        | inr c ↦ inl (http bad_request, w, rw (a, b, c, reconcile_verified) refl, refl)
        | inl c ↦ elim (Bool-cases (str_eq v.currency payment.currency)) [
          | inr d ↦ inl (http bad_request, w, rw (a, b, c, d, reconcile_verified) refl, refl)
          | inl d ↦ elim (access_cases (mark_paid (mark_call payment v)) w) [
            | inr (e, w2, e2, s2) ↦ inl (e, w2, rw (a, b, c, d, e2, reconcile_verified) refl, s2)
            | inl (order, s, w2, marked, e2, s2) ↦ inr (
              record {
                order_id = order;
                payment_id = payment.id;
                provider_reference = payment.provider_reference;
              },
              w2,
              rw (a, b, c, d, e2, reconcile_verified) refl,
              refl,
              (
                q,
                v,
                order,
                answer,
                record {
                  success = (eq_iff v.status "success").0 a;
                  reference = (eq_iff v.reference payment.provider_reference).0 b;
                  amount = is_amount_sound v.amount_kobo payment.expected_amount_kobo c;
                  currency = (eq_iff v.currency payment.currency).0 d;
                },
                rw s2 marked,
              ),
            )
          ]
        ]
      ]
    ]
  ]

  -- A reconciliation of a payment after it was found.
  abbrev pub Reconciled :
      AuthenticatedActor
      → String
      → World Books P
      → Result Thrown Reconciliation × World Books P
      → Type 0
  Reconciled actor id w run =
      ((e : Thrown) × (w' : World Books P) × (run ≡ (err e, w')) × (w'.state ≡ w.state))
      ⊎ ((payment : Payment) × (out : Reconciliation) × (w' : World Books P) × (run ≡ (ok out, w'))
          × FoundPayment actor id payment w.state
          × (out.payment_id ≡ payment.id)
          × Marked send configured number_text mark_paid payment w.state w'.state)

  resume-Reconciled :
      (actor : AuthenticatedActor) (id : String) (w : World Books P) (payment : Payment) (q : P)
      (r : Result Thrown VerifyResult) (w1 : World Books P)
      → FoundPayment actor id payment w.state
      → w1.state ≡ w.state
      → ((verified : VerifyResult)
          → r ≡ ok verified
          → on_reply (read_verified number_text) (send payment.provider_reference q).0
            ≡ ok verified)
      → Reconciled actor id w
          (resume (r, w1) (reconcile_verified send configured number_text mark_paid payment))
  resume-Reconciled actor id w payment q (err e) w1 found s1 answer = inl (e, w1, refl, s1)
  resume-Reconciled actor id w payment q (ok v) w1 found s1 answer =
      elim (reconcile_verified_marks payment v q w1 (answer v refl)) [
        | inl (e, w2, e2, s2) ↦ inl (e, w2, e2, s2 ∙ s1)
        | inr (out, w2, e2, same, marked) ↦ inr (
          payment,
          out,
          w2,
          e2,
          found,
          same,
          subst (λ s. Marked send configured number_text mark_paid payment s w2.state) s1 marked,
        )
      ]

  -- A reconciliation by an administrator either throws and leaves the books as they were, or returns
  -- after it marked the payment found in the scope of the administrator, for an answer of the provider
  -- that reports it as made.
  pub reconcile_paystack_payment_marks :
      (actor : AuthenticatedActor) (id : String) (w : World Books P)
      → Reconciled actor id w
          (reconcile_paystack_payment send configured number_text mark_paid actor id w)
  unfolding reconcile_paystack_payment
  reconcile_paystack_payment_marks actor id w = elim (get_admin_payment_cases actor id w) [
    | inr (e, w1, e1, s1) ↦ inl (e, w1, rw e1 refl, s1)
    | inl (payment, w1, e1, s1, found) ↦
        let (r, w2, e2, s2, answer) =
          verify_transaction_cases send configured number_text mark_paid payment.provider_reference
            w1 in
        rw (e1, e2) (resume-Reconciled actor id w payment w1.provider r w2 found (s2 ∙ s1) answer)
  ]

  abbrev pub Forced :
      AuthenticatedActor
      → String
      → World Books P
      → Result Thrown Reconciliation × World Books P
      → Type 0
  Forced actor id w run =
      ((e : Thrown) × (w' : World Books P) × (run ≡ (err e, w')) × (w'.state ≡ w.state))
      ⊎ ((payment : Payment) × (out : Reconciliation) × (w' : World Books P) × (run ≡ (ok out, w'))
          × FoundPayment actor id payment w.state
          × (is_successful payment.payment_status ≡ false)
          × (mark_paid
                (record {
                  provider_reference = payment.provider_reference;
                  provider_transaction_id = none;
                  paid_amount_kobo = nat payment.expected_amount_kobo;
                })
                w.state
              ≡ some (out.order_id, w'.state)))

  -- A payment is forced to be paid only by an administrator in whose scope it was found, and only if it
  -- is not successful: the stored function is called with no transaction and the expected amount;
  -- otherwise an error is thrown and the books stay as they were.
  pub force_payment_paid_marks :
      (actor : AuthenticatedActor) (id : String) (w : World Books P)
      → Forced actor id w (force_payment_paid send configured number_text mark_paid actor id w)
  unfolding force_payment_paid force_found
  force_payment_paid_marks actor id w = elim (get_admin_payment_cases actor id w) [
    | inr (e, w1, e1, s1) ↦ inl (e, w1, rw e1 refl, s1)
    | inl (payment, w1, e1, s1, found) ↦ elim (Bool-cases (is_successful payment.payment_status)) [
      | inl paid ↦ inl (http bad_request, w1, rw (e1, paid, force_found) refl, s1)
      | inr unpaid ↦
          elim (access_cases
            (mark_paid (record {
              provider_reference = payment.provider_reference;
              provider_transaction_id = none;
              paid_amount_kobo = nat payment.expected_amount_kobo;
            }))
            w1) [
              | inr (e, w2, e2, s2) ↦ inl (e, w2, rw (e1, unpaid, force_found, e2) refl, s2 ∙ s1)
              | inl (order, b, w2, marked, e2, s2) ↦
                  let (w3, e3, s3) =
                    audit_ok
                      (record {
                        actor_user_id = actor.user_id;
                        action = "payment.force_paid";
                        entity_id = payment.id;
                      })
                      w2 in
                  inr (
                    payment,
                    record {
                      order_id = order;
                      payment_id = payment.id;
                      provider_reference = payment.provider_reference;
                    },
                    w3,
                    rw (e1, unpaid, force_found, e2, e3) refl,
                    found,
                    unpaid,
                    rw (s3, s2, ← s1) marked,
                  )
            ]
    ]
  ]
