-- ===== src/Payments/Refunds/Safety.antt =====
-- Any sequence of calls of src/modules/payments/refunds.service.ts by any actors.
use mealdirectbackend.Common.{
  ◌≡◌, ◌≢◌, refl, ◌∙◌, ap, ◌⊎◌, inl, inr, List, [], ◌∷◌, Bool, false, Option, none, some, ok,
  String, str_eq, eq_iff, Num, Bool-cases,
}
use mealdirectbackend.Domain.Authorization.{campus_admin}
use mealdirectbackend.Payouts.Client.{Reply}
use mealdirectbackend.Payments.Machine.{AuthenticatedActor, World, admin_campus_scope}
use mealdirectbackend.Payments.Refunds.{
  Refund, succeeded, RefundRequest, Books, find_row, in_scope, with_provider_retry, with_resolution,
}
use mealdirectbackend.Payments.Refunds.Operations.{
  resolve_refund, decide_refund, retry_refund, initiate_approved_refund,
}
use mealdirectbackend.Payments.Refunds.Steps.{
  RefundCall, retry, resolve, initiate, decide, Requests-CanSend, Found, CanSend, RefundStep,
  unchanged, submitted, answered, resolved, resolve_refund-RefundStep, decide_refund-RefundStep,
}
use mealdirectbackend.Payments.Refunds.Sending.{
  Answers, retry_refund-RefundStep, initiate_approved_refund-RefundStep,
}
use mealdirectbackend.Payments.Refunds.RowSteps.{RowStep, same, paid_back, settled, RefundStep-row}

pub record Call : Type 0 where
  pub actor : AuthenticatedActor
  pub refund_id : String
  pub call : RefundCall

RowStep-succeeded :
    {actor : AuthenticatedActor} {id key : String} {b : Books} {r r' : Refund}
    → RowStep actor id key b r r'
    → r.status ≡ succeeded
    → r' ≡ r
RowStep-succeeded (same e) s = e
RowStep-succeeded (paid_back request reference status e found (inl (f, a)) e') s = cc (f, s)
RowStep-succeeded (paid_back request reference status e found (inr (f, a)) e') s = cc (f, s)
RowStep-succeeded (settled input e found (inl (f, a)) e') s = cc (f, s)
RowStep-succeeded (settled input e found (inr (f, a)) e') s = absurd (f s)

-- No step changes the amount of a refund or the payment it is of.
RowStep-amount :
    {actor : AuthenticatedActor} {id key : String} {b : Books} {r r' : Refund}
    → RowStep actor id key b r r'
    → (r'.amount_kobo ≡ r.amount_kobo) × (r'.payment_id ≡ r.payment_id)
unfolding with_provider_retry with_resolution
RowStep-amount (same e) = (cc e, cc e)
RowStep-amount (paid_back request reference status e found can e') =
    (ap (λ x. x.amount_kobo) e', ap (λ x. x.payment_id) e')
RowStep-amount (settled input e found can e') =
    (ap (λ x. x.amount_kobo) e', ap (λ x. x.payment_id) e')

admin_campus_scope-own :
    (actor : AuthenticatedActor) (campus : String)
    → actor.role ≡ campus_admin
    → actor.campus_id ≡ some campus
    → admin_campus_scope actor ≡ ok (some campus)
unfolding admin_campus_scope
admin_campus_scope-own actor campus role own = rw (role, own) refl

in_scope-other :
    (campus : String) (r : Refund) → r.campus_id ≢ some campus → in_scope (some campus) r ≡ false
unfolding in_scope
in_scope-other campus r outside = by_campus r.campus_id refl
  where
    by_campus : (o : Option String) → r.campus_id ≡ o → in_scope (some campus) r ≡ false
    by_campus none e = rw e refl
    by_campus (some c) e = elim (Bool-cases (str_eq c campus)) [
      | inl s ↦ absurd (outside (e ∙ ap some ((eq_iff c campus).0 s)))
      | inr s ↦ rw (e, s) refl
    ]

RowStep-outside :
    {actor : AuthenticatedActor} {id key campus : String} {b : Books} {r r' : Refund}
    → RowStep actor id key b r r'
    → find_row key b.refunds ≡ some r
    → admin_campus_scope actor ≡ ok (some campus)
    → in_scope (some campus) r ≡ false
    → r' ≡ r
RowStep-outside (same e) row s out = e
RowStep-outside (paid_back request reference status e (scope, s', row', inside) can e') row s out =
    cc
RowStep-outside (settled input e (scope, s', row', inside) can e') row s out = cc

module _ {P : Type 0} (send : RefundRequest → P → Reply × P) (configured : Bool)
    (number_text : Num → String) where
  unfoldable pub run_refund_call : Call → World Books P → World Books P
  run_refund_call c w = elim c.call [
    | retry ↦ (retry_refund send configured number_text c.actor c.refund_id w).1
    | resolve input ↦ (resolve_refund c.actor c.refund_id input w).1
    | initiate amount reason ↦
        (initiate_approved_refund send configured number_text c.actor c.refund_id amount reason w).1
    | decide approve ↦ (decide_refund c.actor c.refund_id approve w).1
  ]

  unfoldable pub run_refund_calls : List Call → World Books P → World Books P
  run_refund_calls [] w = w
  run_refund_calls (c ∷ calls) w = run_refund_calls calls (run_refund_call c w)

  pub run_refund_call-RefundStep :
      (c : Call) (w : World Books P)
      → RefundStep
          (Answers send configured number_text)
          c.actor
          c.refund_id
          c.call
          w.state
          (run_refund_call c w).state
  unfolding run_refund_call
  run_refund_call-RefundStep c w =
      elim c.call
        as (λ k.
          RefundStep (Answers send configured number_text) c.actor c.refund_id k w.state
            (run_refund_call (record c { call = k }) w).state) [
              | retry ↦ retry_refund-RefundStep send configured number_text c.actor c.refund_id w
              | resolve input ↦
                  resolve_refund-RefundStep (Answers send configured number_text) c.actor
                    c.refund_id input w
              | initiate amount reason ↦
                  initiate_approved_refund-RefundStep send configured number_text c.actor
                    c.refund_id amount reason w
              | decide approve ↦
                  decide_refund-RefundStep (Answers send configured number_text) c.actor c.refund_id
                    approve w
            ]

  -- A refund that has succeeded stays exactly as it is through any sequence of calls.
  pub run_refund_calls_final :
      (calls : List Call) (w : World Books P) (key : String) (r : Refund)
      → find_row key w.state.refunds ≡ some r
      → r.status ≡ succeeded
      → find_row key (run_refund_calls calls w).state.refunds ≡ some r
  unfolding run_refund_calls
  run_refund_calls_final [] w key r row s = row
  run_refund_calls_final (c ∷ calls) w key r row s =
      let (r1, row1, step) =
        RefundStep-row (Answers send configured number_text) c.actor c.refund_id key c.call w.state
          (run_refund_call c w).state r (run_refund_call-RefundStep c w) row in
      run_refund_calls_final calls (run_refund_call c w) key r
        (row1 ∙ ap (λ r. some r) (RowStep-succeeded step s)) s

  -- No sequence of calls loses a refund or changes its amount or its payment.
  pub run_refund_calls_amount :
      (calls : List Call) (w : World Books P) (key : String) (r : Refund)
      → find_row key w.state.refunds ≡ some r
      → (r' : Refund) × (find_row key (run_refund_calls calls w).state.refunds ≡ some r')
        × (r'.amount_kobo ≡ r.amount_kobo)
        × (r'.payment_id ≡ r.payment_id)
  unfolding run_refund_calls
  run_refund_calls_amount [] w key r row = (r, row, refl, refl)
  run_refund_calls_amount (c ∷ calls) w key r row =
      let (r1, row1, step) =
        RefundStep-row (Answers send configured number_text) c.actor c.refund_id key c.call w.state
          (run_refund_call c w).state r (run_refund_call-RefundStep c w) row in
      let (r2, row2, amount, payment) =
        run_refund_calls_amount calls (run_refund_call c w) key r1 row1 in
      (r2, row2, amount ∙ (RowStep-amount step).0, payment ∙ (RowStep-amount step).1)

  -- A call asks the provider for money at most once, and only for a refund in the scope of the actor
  -- that has failed, for exactly its amount, or that is approved, for at most its amount.
  pub run_refund_call_sends :
      (c : Call) (w : World Books P)
      → ((run_refund_call c w).state.sent ≡ w.state.sent)
        ⊎ ((r : Refund) × (request : RefundRequest) × ((run_refund_call c w).state.sent
              ≡ request ∷ w.state.sent)
            × Found c.actor c.refund_id r w.state
            × CanSend r request)
  run_refund_call_sends c w = elim (run_refund_call-RefundStep c w) [
    | unchanged e ↦ inl (rw e refl)
    | submitted r request found can e ↦
        inr (r, request, rw e refl, found, Requests-CanSend c.call r request can)
    | answered r request reply found can given e ↦
        inr (r, request, rw e refl, found, Requests-CanSend c.call r request can)
    | resolved r input found can e ↦ inl (rw e refl)
  ]

  -- A campus administrator leaves the refunds of every other campus as they are.
  pub run_refund_call_confined :
      (c : Call) (w : World Books P) (campus key : String) (r : Refund)
      → c.actor.role ≡ campus_admin
      → c.actor.campus_id ≡ some campus
      → r.campus_id ≢ some campus
      → find_row key w.state.refunds ≡ some r
      → find_row key (run_refund_call c w).state.refunds ≡ some r
  run_refund_call_confined c w campus key r role own outside row =
      let (r', row', step) =
        RefundStep-row (Answers send configured number_text) c.actor c.refund_id key c.call w.state
          (run_refund_call c w).state r (run_refund_call-RefundStep c w) row in
      row'
      ∙ ap some (
          RowStep-outside {campus = campus} step row
            (admin_campus_scope-own c.actor campus role own) (in_scope-other campus r outside))
