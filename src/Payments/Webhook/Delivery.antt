-- ===== src/Payments/Webhook/Delivery.antt =====
-- Redeliveries and failures: src/modules/payments/paystack-webhook.service.ts.
use mathlib.Core.Path.{subst, sym}
use mealdirectbackend.Common.{
  ℕ, ◌≡◌, refl, Bool, true, false, Option, none, some, ok, err, arith, Result, String, ◌∙◌, ap,
  >>=-eq-ok,
}
use mealdirectbackend.Domain.PaymentEvents.{PaystackWebhookEvent, PaymentDomainEvent, WalletTopup}
use mealdirectbackend.Payments.Webhook.{
  WebhookDatabase, WebhookEnv, Platform, LocalPayment, WebhookResult, WebhookError, not_local,
  mismatched_amount, mismatched_currency, unattributable, topup_currency, amount_mismatch,
  currency_mismatch, provider_success_not_local, duplicate, wallet_credit, transaction_id,
}
use mealdirectbackend.Payments.Webhook.Service.{
  issue_on, payment_issue, settle_payment, apply_verified_payment, conclude, apply_wallet_topup,
  apply_event, settle_found, apply_inserted, run_webhook_transaction, process_with_database,
}

ok_second :
    {E A B : Type 0} {a a' : A} {b b' : B}
    → ◌≡◌ {A = Result E (A × B)} (ok (a, b)) (ok (a', b'))
    → b ≡ b'
ok_second h = ground arith

module _ {E : Type 0} (base : WebhookDatabase E) (platform : Platform) (env : WebhookEnv) where
  open base use {Db, recorded, record_payment_event, upsert_issue, mark_verified_payment_successful}

  settle_payment-keeps :
      (f : String) (payload : PaystackWebhookEvent) (reference : String) (amount : ℕ)
      (currency : Option String) (p : LocalPayment) (d d' : Db)
      → settle_payment base platform env payload reference amount currency p d ≡ ok d'
      → recorded f d ≡ true
      → recorded f d' ≡ true
  unfolding settle_payment
  settle_payment-keeps f payload reference amount currency p d d' h k = ground (
    arith,
    base.issue_keeps f (payment_issue mismatched_amount amount_mismatch p reference) d d',
    base.issue_keeps f (payment_issue mismatched_currency currency_mismatch p reference) d d',
    base.mark_keeps f reference (transaction_id payload reference) amount d d',
  )

  settle_found-keeps :
      (f : String) (payload : PaystackWebhookEvent) (reference : String) (amount : ℕ)
      (currency : Option String) (found : Option LocalPayment) (d d' : Db)
      → settle_found base platform env payload reference amount currency found d ≡ ok d'
      → recorded f d ≡ true
      → recorded f d' ≡ true
  unfolding settle_found
  settle_found-keeps f payload reference amount currency none d d' h k =
      base.issue_keeps f (issue_on not_local provider_success_not_local reference) d d' h k
  settle_found-keeps f payload reference amount currency (some p) d d' h k =
      settle_payment-keeps f payload reference amount currency p d d' h k

  apply_verified_payment-keeps :
      (f : String) (payload : PaystackWebhookEvent) (reference : String) (amount : ℕ)
      (currency : Option String) (d d' : Db)
      → apply_verified_payment base platform env payload reference amount currency d ≡ ok d'
      → recorded f d ≡ true
      → recorded f d' ≡ true
  unfolding apply_verified_payment
  apply_verified_payment-keeps f payload reference amount currency d d' h k =
      let (found, _, h') = >>=-eq-ok (base.find_payment reference d) _ h in
      settle_found-keeps f payload reference amount currency found d d' h' k

  apply_wallet_topup-keeps :
      (f : String) (t : WalletTopup) (d d' : Db)
      → apply_wallet_topup base platform env t d ≡ ok d'
      → recorded f d ≡ true
      → recorded f d' ≡ true
  unfolding apply_wallet_topup
  apply_wallet_topup-keeps f t d d' h k = ground (
    arith,
    base.issue_keeps f (issue_on unattributable provider_success_not_local t.provider_reference) d
        d',
    base.issue_keeps f (issue_on topup_currency provider_success_not_local t.provider_reference) d
        d',
    base.credit_keeps f (wallet_credit platform env t) d d',
  )

  apply_event-keeps :
      (f : String) (payload : PaystackWebhookEvent) (e : PaymentDomainEvent) (d d' : Db)
      → apply_event base platform env payload e d ≡ ok d'
      → recorded f d ≡ true
      → recorded f d' ≡ true
  unfolding apply_event
  apply_event-keeps f payload (PaymentDomainEvent.payment_succeeded r a c) d d' h k =
      apply_verified_payment-keeps f payload r a c d d' h k
  apply_event-keeps f payload (PaymentDomainEvent.transfer_reconciled r s) d d' h k =
      base.reconcile_keeps f r s d d' h k
  apply_event-keeps f payload (PaymentDomainEvent.wallet_topup_succeeded t) d d' h k =
      apply_wallet_topup-keeps f t d d' h k
  apply_event-keeps f payload _ d d' h k = ground arith

  inserted_recorded :
      (f : String) (payload : PaystackWebhookEvent) (e : PaymentDomainEvent) (reference : String)
      (d d' : Db) (row : Bool × Db) (r : WebhookResult)
      → record_payment_event f payload reference d ≡ ok row
      → apply_inserted base platform env payload e reference row ≡ ok (r, d')
      → recorded f d' ≡ true
  unfolding apply_inserted
  inserted_recorded f payload e reference d d' (true, d₁) r g h =
      let (d₂, a, h') = >>=-eq-ok (apply_event base platform env payload e d₁) _ h in
      let kept =
        apply_event-keeps f payload e d₁ d₂ a (base.record_new f payload reference d d₁ g).1 in
      subst (λ x. recorded f x ≡ true) (ok_second h') kept
  inserted_recorded f payload e reference d d' (false, d₁) r g h =
      let (old, same) = base.record_old f payload reference d d₁ g in
      subst (λ x. recorded f x ≡ true) (sym same ∙ ok_second h) old

  transaction_recorded :
      (raw_body : String) (payload : PaystackWebhookEvent) (e : PaymentDomainEvent)
      (reference : String) (d d' : Db) (r : WebhookResult)
      → run_webhook_transaction base platform env raw_body payload e reference d ≡ ok (r, d')
      → recorded (platform.sha256_hex raw_body) d' ≡ true
  unfolding run_webhook_transaction
  transaction_recorded raw_body payload e reference d d' r h =
      let (row, g, h') =
        >>=-eq-ok (record_payment_event (platform.sha256_hex raw_body) payload reference d) _ h in
      inserted_recorded (platform.sha256_hex raw_body) payload e reference d d' row r g h'

  again :
      (raw_body : String) (payload : PaystackWebhookEvent) (e : PaymentDomainEvent)
      (reference : String) (d : Db)
      → recorded (platform.sha256_hex raw_body) d ≡ true
      → process_with_database base platform env raw_body payload e reference d
        ≡ (ok (duplicate reference), d)
  unfolding process_with_database conclude run_webhook_transaction apply_inserted
  again raw_body payload e reference d k =
      rw
        (
          base.record_again (platform.sha256_hex raw_body) payload reference d k,
          process_with_database,
          conclude,
          run_webhook_transaction,
        )
        refl

  conclude-eq-ok :
      (reference : String) (d d' : Db) (m : Result E (WebhookResult × Db)) (r : WebhookResult)
      → conclude base platform env reference d m ≡ (ok r, d')
      → m ≡ ok (r, d')
  unfolding conclude
  conclude-eq-ok reference d d' (ok (r', x)) r h = ground arith
  conclude-eq-ok reference d d' (err e) r h =
      cc (ap (λ (p : Result (WebhookError E) WebhookResult × Db). p.0) h)

  -- A delivery that was handled is not applied by the next one again: in the database that it left,
  -- the same body, read as any event, is answered as a duplicate, and nothing changes.
  pub process_with_database_once :
      (raw_body : String) (payload payload' : PaystackWebhookEvent) (e e' : PaymentDomainEvent)
      (reference reference' : String) (d d' : Db) (r : WebhookResult)
      → process_with_database base platform env raw_body payload e reference d ≡ (ok r, d')
      → process_with_database base platform env raw_body payload' e' reference' d'
        ≡ (ok (duplicate reference'), d')
  unfolding process_with_database
  process_with_database_once raw_body payload payload' e e' reference reference' d d' r h =
      let done = conclude-eq-ok reference d d' _ r h in
      again raw_body payload' e' reference' d'
        (transaction_recorded raw_body payload e reference d d' r done)
