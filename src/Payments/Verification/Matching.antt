-- ===== src/Payments/Verification/Matching.antt =====
-- When a payment is marked as paid: src/modules/payments/payments.service.ts, the verification of
-- payments, its sweep and the two operations of administrators.
use mathlib.Core.Path.{subst}
use mealdirectbackend.Common.{
  ℕ, suc, ◌+◌, ◌≤◌, ◌≡◌, refl, ◌∙◌, ap, ◌⊎◌, inl, inr, List, [], ◌∷◌, Bool, true, false, Option,
  some, Result, ok, err, String, eq_iff, Num, nat, Bool-cases, arith, length,
}
use mealdirectbackend.Payouts.Client.{Thrown, http, Reply, bad_request, on_reply}
use mealdirectbackend.Payments.Machine.{World, resume}
use mealdirectbackend.Payments.Machine.Accesses.{access_cases}
use mealdirectbackend.Payments.Refunds.{Books, Payment}
use mealdirectbackend.Payments.Verification.{
  VerifyResult, MarkCall, SweepCounts, is_amount, is_match, mark_call, swallow, read_verified,
  verify_transaction, mark_if_match, try_reconcile_payment, reconcile_each,
  reconcile_pending_payments,
}

-- The answer of the provider reports that this payment was made, in full and in its currency.
pub record Matches (payment : Payment) (verified : VerifyResult) : Type 0 where
  pub success : verified.status ≡ "success"
  pub reference : verified.reference ≡ payment.provider_reference
  pub amount : verified.amount_kobo ≡ nat payment.expected_amount_kobo
  pub currency : verified.currency ≡ payment.currency

pub is_amount_sound : (n : Num) (k : ℕ) → is_amount n k ≡ true → n ≡ nat k
is_amount_sound n k h = ground arith

pub is_match-Matches :
    (payment : Payment) (verified : VerifyResult)
    → is_match payment verified ≡ true
    → Matches payment verified
unfolding is_match
is_match-Matches payment verified h = record {
  success = ground (arith, eq_iff verified.status "success");
  reference = ground (arith, eq_iff verified.reference payment.provider_reference);
  amount = ground (arith, is_amount_sound verified.amount_kobo payment.expected_amount_kobo);
  currency = ground (arith, eq_iff verified.currency payment.currency);
}

module _ {P : Type 0} (send : String → P → Reply × P) (configured : Bool)
    (number_text : Num → String) (mark_paid : MarkCall → Books → Option (String × Books)) where
  -- The provider answered that the payment was made, and it was marked by that answer.
  abbrev pub Marked : Payment → Books → Books → Type 0
  Marked payment b b' =
      (q : P) × (verified : VerifyResult) × (order_id : String) × (on_reply
          (read_verified number_text) (send payment.provider_reference q).0
        ≡ ok verified)
      × Matches payment verified
      × (mark_paid (mark_call payment verified) b ≡ some (order_id, b'))

  -- As many of the payments, in their order, were marked.
  abbrev pub Marks : List Payment → ℕ → Books → Books → Type 0
  Marks [] k b b' = (k ≡ 0) × (b' ≡ b)
  Marks (p ∷ payments) k b b' =
      Marks payments k b b'
      ⊎ ((j : ℕ) × (b1 : Books) × (k ≡ suc j) × Marked p b b1 × Marks payments j b1 b')

  pub verify_transaction_cases :
      (reference : String) (w : World Books P)
      → (r : Result Thrown VerifyResult) × (w' : World Books P) × (verify_transaction send
            configured number_text mark_paid reference w
          ≡ (r, w'))
        × (w'.state ≡ w.state)
        × ((verified : VerifyResult)
            → r ≡ ok verified
            → on_reply (read_verified number_text) (send reference w.provider).0 ≡ ok verified)
  unfolding verify_transaction
  verify_transaction_cases reference w = elim (Bool-cases configured) [
    | inl c ↦ (
      on_reply (read_verified number_text) (send reference w.provider).0,
      record w { provider = (send reference w.provider).1 },
      rw c refl,
      refl,
      λ v e. e,
    )
    | inr c ↦ (err (http bad_request), w, rw c refl, refl, λ v e. cc e)
  ]

  -- A run that may mark a payment, and answers with false on an error.
  abbrev Tried : Payment → World Books P → Result Thrown Bool × World Books P → Type 0
  Tried payment w run =
      (done : Bool) × (w' : World Books P) × (swallow run ≡ (ok done, w'))
      × (((done ≡ false) × (w'.state ≡ w.state))
          ⊎ ((done ≡ true) × Marked payment w.state w'.state))

  mark_if_match-Tried :
      (payment : Payment) (v : VerifyResult) (q : P) (w : World Books P)
      → on_reply (read_verified number_text) (send payment.provider_reference q).0 ≡ ok v
      → Tried payment w (mark_if_match send configured number_text mark_paid payment v w)
  unfolding mark_if_match swallow
  mark_if_match-Tried payment v q w answer = elim (Bool-cases (is_match payment v)) [
    | inr other ↦ (false, w, rw (other, mark_if_match, swallow) refl, inl (refl, refl))
    | inl matched ↦ elim (access_cases (mark_paid (mark_call payment v)) w) [
      | inr (e, w2, e2, s2) ↦
          (false, w2, rw (matched, mark_if_match, e2, swallow) refl, inl (refl, s2))
      | inl (order, b, w2, marked, e2, s2) ↦ (
        true,
        w2,
        rw (matched, mark_if_match, e2, swallow) refl,
        inr (refl, (q, v, order, answer, is_match-Matches payment v matched, rw s2 marked)),
      )
    ]
  ]

  -- A payment that is tried is answered with false and nothing changes, or with true after it was
  -- marked for an answer of the provider that reports it as made; nothing is thrown.
  pub try_reconcile_payment_marks :
      (payment : Payment) (w : World Books P)
      → (done : Bool) × (w' : World Books P) × (try_reconcile_payment send configured number_text
            mark_paid payment w
          ≡ (ok done, w'))
        × (((done ≡ false) × (w'.state ≡ w.state))
            ⊎ ((done ≡ true) × Marked payment w.state w'.state))
  unfolding try_reconcile_payment swallow
  try_reconcile_payment_marks payment w =
      let (r, w1, e1, s1, answer) = verify_transaction_cases payment.provider_reference w in
      rw e1 (by_answer r w1 s1 answer)
    where
      by_answer :
          (r : Result Thrown VerifyResult) (w1 : World Books P)
          → w1.state ≡ w.state
          → ((verified : VerifyResult)
              → r ≡ ok verified
              → on_reply (read_verified number_text) (send payment.provider_reference w.provider).0
                ≡ ok verified)
          → Tried payment w
              (resume (r, w1) (mark_if_match send configured number_text mark_paid payment))
      by_answer (err e) w1 s1 answer = (false, w1, refl, inl (refl, s1))
      by_answer (ok v) w1 s1 answer =
          let (done, w', e, cases) = mark_if_match-Tried payment v w.provider w1 (answer v refl) in
          (
            done,
            w',
            e,
            subst
                (λ s.
                  ((done ≡ false) × (w'.state ≡ s)) ⊎ ((done ≡ true) × Marked payment s w'.state))
                s1 cases,
          )

  reconcile_each-Marks :
      (payments : List Payment) (n : ℕ) (w : World Books P)
      → (k : ℕ) × (w' : World Books P) × (reconcile_each send configured number_text mark_paid
            payments n w
          ≡ (ok (n + k), w'))
        × (k ≤ length payments)
        × Marks payments k w.state w'.state
  unfolding reconcile_each
  reconcile_each-Marks [] n w = (0, w, ap (λ k. (ok k, w)) (omega arith), omega arith, (refl, refl))
  reconcile_each-Marks (p ∷ payments) n w =
      let (done, w1, e1, tried) = try_reconcile_payment_marks p w in
      elim tried [
        | inl (failed, s1) ↦
            let (k, w2, e2, le, marks) = reconcile_each-Marks payments n w1 in
            (
              k,
              w2,
              rw (e1, failed) e2,
              omega arith,
              inl (subst (λ s. Marks payments k s w2.state) s1 marks),
            )
        | inr (made, marked) ↦
            let (k, w2, e2, le, marks) = reconcile_each-Marks payments (suc n) w1 in
            (
              suc k,
              w2,
              rw (e1, made) (e2 ∙ ap (λ m. (ok m, w2)) (omega arith)),
              omega arith,
              inr (k, w1.state, refl, marked, marks),
            )
      ]

  -- The counts of a sweep over the payments found, or over none where they could not be read.
  abbrev pub Swept :
      List Payment → World Books P → Result Thrown SweepCounts × World Books P → Type 0
  Swept stuck w run =
      (payments : List Payment) × (counts : SweepCounts) × (w' : World Books P) × (run
        ≡ (ok counts, w'))
      × ((payments ≡ []) ⊎ (payments ≡ stuck))
      × (counts.scanned ≡ length payments)
      × (counts.reconciled ≤ counts.scanned)
      × Marks payments counts.reconciled w.state w'.state

  -- Whatever fails, the sweep returns its counts; it reconciles at most as many payments as it
  -- scanned, and those are payments of the list, each marked for an answer of the provider that
  -- reports it as made, and nothing else changes.
  pub reconcile_pending_payments_marks :
      (find_stuck : ℕ → ℕ → Books → List Payment) (stale_seconds limit : ℕ) (w : World Books P)
      → Swept (find_stuck stale_seconds limit w.state) w (
          reconcile_pending_payments send configured number_text mark_paid find_stuck stale_seconds
            limit w)
  unfolding reconcile_pending_payments
  reconcile_pending_payments_marks find_stuck stale limit w =
      elim (access_cases (λ (b : Books). some (find_stuck stale limit b, b)) w) [
        | inr (e, w1, e1, s1) ↦ (
          [],
          record { scanned = 0; reconciled = 0 },
          w1,
          rw e1 refl,
          inl refl,
          refl,
          omega arith,
          (refl, s1),
        )
        | inl (payments, b, w1, found, e1, s1) ↦
            let (k, w2, e2, le, marks) = reconcile_each-Marks payments 0 w1 in
            (
              payments,
              record { scanned = length payments; reconciled = k },
              w2,
              rw (e1, e2)
                  (ap (λ m. (ok (record { scanned = length payments; reconciled = m }), w2))
                    (omega arith)),
              inr (cc found),
              refl,
              le,
              subst (λ s. Marks payments k s w2.state) (s1 ∙ cc found) marks,
            )
      ]
