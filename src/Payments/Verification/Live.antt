-- ===== src/Payments/Verification/Live.antt =====
-- That the sweep of src/modules/payments/payments.service.ts, `reconcilePendingPayments`, reaches
-- every payment that was made.
use mathlib.Core.Path.{subst}
use mealdirectbackend.Common.{
  ℕ, suc, ◌+◌, ◌≡◌, refl, ◌∙◌, ap, ◌⊎◌, inl, inr, List, [], ◌∷◌, Bool, true, false, Option, none,
  some, Result, ok, err, String, Num, nat, eq_iff, arith, length, Bool-cases,
}
use mealdirectbackend.Payouts.Client.{Thrown, other, Reply, on_reply}
use mealdirectbackend.Payments.Machine.{World, access}
use mealdirectbackend.Payments.Machine.Accesses.{access_up}
use mealdirectbackend.Payments.Refunds.{Books, Payment}
use mealdirectbackend.Payments.Verification.{
  VerifyResult, MarkCall, is_amount, is_match, mark_call, swallow, read_verified,
  verify_transaction, mark_if_match, try_reconcile_payment, reconcile_each,
  reconcile_pending_payments,
}
use mealdirectbackend.Payments.Verification.Matching.{Matches, Marked, is_match-Matches}

is_amount_complete : (n : Num) (k : ℕ) → n ≡ nat k → is_amount n k ≡ true
is_amount_complete n k e = rw e (ground arith)

Matches-is_match :
    (payment : Payment) (verified : VerifyResult)
    → Matches payment verified
    → is_match payment verified ≡ true
unfolding is_match
Matches-is_match payment verified m =
    rw
      (
        (eq_iff verified.status "success").1 m.success,
        (eq_iff verified.reference payment.provider_reference).1 m.reference,
        is_amount_complete verified.amount_kobo payment.expected_amount_kobo m.amount,
        (eq_iff verified.currency payment.currency).1 m.currency,
      )
      refl

-- A statement that raises an error changes nothing.
access-none :
    {S P A : Type 0} (f : S → Option (A × S)) (w : World S P)
    → w.outages ≡ []
    → f w.state ≡ none
    → access f w ≡ (err other, record w { outages = [] })
unfolding access
access-none f w up raised = rw (up, raised) refl

module _ {P : Type 0} (send : String → P → Reply × P) (number_text : Num → String)
    (mark_paid : MarkCall → Books → Option (String × Books)) where
  -- Whenever it is asked, the provider reports the payment as made, in full and in its currency, and
  -- the stored function accepts this on the books.
  abbrev pub IsMade : Payment → Books → Type 0
  IsMade payment b =
      (q : P)
      → (verified : VerifyResult) × (on_reply (read_verified number_text)
            (send payment.provider_reference q).0
          ≡ ok verified)
        × Matches payment verified
        × ((order_id : String) × (b' : Books) × (mark_paid (mark_call payment verified) b
              ≡ some (order_id, b')))

  -- The payments are tried one after the other; so many are marked, and one is passed over only if it
  -- was not made.
  abbrev pub Reaches : List Payment → ℕ → Books → Books → Type 0
  Reaches [] k b b' = (k ≡ 0) × (b' ≡ b)
  Reaches (p ∷ payments) k b b' =
      ((j : ℕ) × (b1 : Books) × (k ≡ suc j)
        × Marked send true number_text mark_paid p b b1
        × Reaches payments j b1 b')
      ⊎ ((IsMade p b → ⊥) × Reaches payments k b b')

  -- A payment that is tried is marked, or it was not made and nothing changes.
  abbrev Reached : Payment → World Books P → Result Thrown Bool × World Books P → Type 0
  Reached payment w run =
      (w' : World Books P) × (w'.outages ≡ [])
      × (((run ≡ (ok true, w')) × Marked send true number_text mark_paid payment w.state w'.state)
          ⊎ ((run ≡ (ok false, w')) × (w'.state ≡ w.state) × (IsMade payment w.state → ⊥)))

  abbrev asked_of : Payment → World Books P → World Books P
  asked_of payment w = record w { provider = (send payment.provider_reference w.provider).1 }

  abbrev answer_to : Payment → World Books P → Result Thrown VerifyResult
  answer_to payment w =
      on_reply (read_verified number_text) (send payment.provider_reference w.provider).0

  marked_Reached :
      (payment : Payment) (w : World Books P) (v : VerifyResult) (m : Option (String × Books))
      → w.outages ≡ []
      → answer_to payment w ≡ ok v
      → is_match payment v ≡ true
      → mark_paid (mark_call payment v) w.state ≡ m
      → Reached payment w
          (swallow (mark_if_match send true number_text mark_paid payment v (asked_of payment w)))
  unfolding swallow mark_if_match
  marked_Reached payment w v none up answer matched marked = (
    record (asked_of payment w) { outages = [] },
    refl,
    inr (
      rw
          (
            matched,
            mark_if_match,
            access-none (mark_paid (mark_call payment v)) (asked_of payment w) up marked,
          )
          refl,
      refl,
      λ made.
          let (v', a, m, (order, b, accepts)) = made w.provider in
          let same : v' ≡ v = cc (answer, a) in cc (marked, accepts, same),
    ),
  )
  marked_Reached payment w v (some (order, b)) up answer matched marked = (
    record (asked_of payment w) { outages = []; state = b },
    refl,
    inl (
      rw
          (
            matched,
            mark_if_match,
            access_up (mark_paid (mark_call payment v)) (asked_of payment w) up marked,
          )
          refl,
      (w.provider, v, order, answer, is_match-Matches payment v matched, marked),
    ),
  )

  try_reconcile_payment-Reached :
      (payment : Payment) (w : World Books P) (r : Result Thrown VerifyResult)
      → w.outages ≡ []
      → answer_to payment w ≡ r
      → Reached payment w (try_reconcile_payment send true number_text mark_paid payment w)
  unfolding try_reconcile_payment verify_transaction swallow mark_if_match
  try_reconcile_payment-Reached payment w (err e) up answer = (
    asked_of payment w,
    up,
    inr (rw answer refl, refl, λ made. let (v, a, m, accepts) = made w.provider in cc (answer, a)),
  )
  try_reconcile_payment-Reached payment w (ok v) up answer =
      elim (Bool-cases (is_match payment v)) [
        | inl matched ↦ rw answer (
            marked_Reached payment w v (mark_paid (mark_call payment v) w.state) up answer matched
              refl)
        | inr differs ↦ (
          asked_of payment w,
          up,
          inr (
            rw (answer, differs, mark_if_match) refl,
            refl,
            λ made.
                let (v', a, m, accepts) = made w.provider in
                let same : v' ≡ v = cc (answer, a) in
                cc (differs, Matches-is_match payment v' m, same),
          ),
        )
      ]

  reconcile_each-Reaches :
      (payments : List Payment) (n : ℕ) (w : World Books P)
      → w.outages ≡ []
      → (k : ℕ) × (w' : World Books P) × (reconcile_each send true number_text mark_paid payments n
            w
          ≡ (ok (n + k), w'))
        × Reaches payments k w.state w'.state
  unfolding reconcile_each
  reconcile_each-Reaches [] n w up = (0, w, ap (λ k. (ok k, w)) (omega arith), (refl, refl))
  reconcile_each-Reaches (p ∷ payments) n w up =
      let (w1, up1, tried) = try_reconcile_payment-Reached p w (answer_to p w) up refl in
      elim tried [
        | inl (e1, marked) ↦
            let (k, w2, e2, reached) = reconcile_each-Reaches payments (suc n) w1 up1 in
            (
              suc k,
              w2,
              rw e1 (e2 ∙ ap (λ m. (ok m, w2)) (omega arith)),
              inl (k, w1.state, refl, marked, reached),
            )
        | inr (e1, same, unmade) ↦
            let (k, w2, e2, reached) = reconcile_each-Reaches payments n w1 up1 in
            (k, w2, rw e1 e2, inr (unmade, subst (λ s. Reaches payments k s w2.state) same reached))
      ]

  -- If the provider is configured and no access to the database fails, the sweep returns, having tried
  -- every payment that the query finds, in its order: each that was made when it was tried, by what the
  -- provider reports and the stored function accepts, is marked as paid, whatever became of the others,
  -- and the count is of those that were marked.
  pub reconcile_pending_payments_made :
      (find_stuck : ℕ → ℕ → Books → List Payment) (stale_seconds limit : ℕ) (w : World Books P)
      → w.outages ≡ []
      → let found = find_stuck stale_seconds limit w.state in
        (k : ℕ) × (w' : World Books P) × (reconcile_pending_payments send true number_text mark_paid
            find_stuck stale_seconds limit w
          ≡ (ok (record { scanned = length found; reconciled = k }), w'))
        × Reaches found k w.state w'.state
  unfolding reconcile_pending_payments
  reconcile_pending_payments_made find_stuck stale limit w up =
      let (k, w', e, reached) =
        reconcile_each-Reaches (find_stuck stale limit w.state) 0 (record w { outages = [] })
          refl in
      (
        k,
        w',
        rw (access_up (λ b. some (find_stuck stale limit b, b)) w up refl, e)
            (ap
              (λ m. (
                ok (record { scanned = length (find_stuck stale limit w.state); reconciled = m }),
                w',
              ))
              (omega arith)),
        reached,
      )
