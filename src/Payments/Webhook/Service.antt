-- ===== src/Payments/Webhook/Service.antt =====
-- The service's methods: src/modules/payments/paystack-webhook.service.ts.
use Prim.Native.String.{◌++◌}
use mealdirectbackend.Common.{
  ℕ, List, ◌∷◌, Bool, true, false, Option, none, some, ok, err, Result, ◌>>=◌, if◌then◌else◌,
  String, ◌==◌, ◌&&◌, not, is_some, any, str_eq, value_or,
}
use mealdirectbackend.Domain.PaymentEvents.{
  PaystackWebhookEvent, PaymentDomainEvent, WalletTopup, map_paystack_event,
}
use mealdirectbackend.Payments.Webhook.{
  WebhookDatabase, WebhookEnv, Platform, Issue, LocalPayment, DedupPrefix, IssueType, EventType,
  WebhookResult, WebhookError, not_local, mismatched_amount, mismatched_currency, unattributable,
  topup_currency, processing_failed, amount_mismatch, currency_mismatch, provider_success_not_local,
  webhook_processing_failed, accepted, duplicate, ignored, not_a_topup, database,
  assert_valid_signature, valid_user, wallet_credit, other_currency, transaction_id,
}

abbrev pub event_type : PaymentDomainEvent → EventType
event_type (PaymentDomainEvent.payment_succeeded r a c) = EventType.payment_succeeded
event_type (PaymentDomainEvent.payment_failed r a) = EventType.payment_failed
event_type (PaymentDomainEvent.refund_succeeded r a) = EventType.refund_succeeded
event_type (PaymentDomainEvent.transfer_reconciled r s) = EventType.transfer_reconciled
event_type (PaymentDomainEvent.wallet_topup_succeeded t) = EventType.wallet_topup_succeeded
event_type (PaymentDomainEvent.ignored r e) = EventType.payment_failed

abbrev pub issue_on : DedupPrefix → IssueType → String → Issue
issue_on prefix issue_type reference = record {
  prefix = prefix;
  key = reference;
  issue_type = issue_type;
  payment_id = none;
  order_id = none;
  provider_reference = reference;
}

abbrev pub payment_issue : DedupPrefix → IssueType → LocalPayment → String → Issue
payment_issue prefix issue_type payment reference = record {
  prefix = prefix;
  key = payment.id;
  issue_type = issue_type;
  payment_id = some payment.id;
  order_id = some payment.order_id;
  provider_reference = reference;
}

abbrev pub lift_database : {E A : Type 0} → Result E A → Result (WebhookError E) A
lift_database (ok a) = ok a
lift_database (err e) = err (database e)

-- `processedWebhookKeys`, and the database.
pub record State (Db : Type 0) : Type 0 where
  pub processed_webhook_keys : List String
  pub db : Db

abbrev pub webhook_key : String → String → String
webhook_key event reference = event ++ ":" ++ reference

module _ {E : Type 0} (base : WebhookDatabase E) (platform : Platform) (env : WebhookEnv) where
  open base use {
    Db, record_payment_event, find_payment, mark_verified_payment_successful, credit_wallet_topup,
    reconcile_payout_transfer, upsert_issue,
  }

  -- The part of `applyVerifiedPayment` that has found the payment.
  unfoldable pub settle_payment :
      PaystackWebhookEvent → String → ℕ → Option String → LocalPayment → Db → Result E Db
  settle_payment payload reference amount currency payment d =
      if not (amount == payment.expected_amount_kobo)
      then upsert_issue (payment_issue mismatched_amount amount_mismatch payment reference) d
      else if other_currency currency payment.currency
      then upsert_issue (payment_issue mismatched_currency currency_mismatch payment reference) d
      else mark_verified_payment_successful reference (transaction_id payload reference) amount d

  unfoldable pub settle_found :
      PaystackWebhookEvent → String → ℕ → Option String → Option LocalPayment → Db → Result E Db
  settle_found payload reference amount currency none d =
      upsert_issue (issue_on not_local provider_success_not_local reference) d
  settle_found payload reference amount currency (some payment) d =
      settle_payment payload reference amount currency payment d

  unfoldable pub apply_verified_payment :
      PaystackWebhookEvent → String → ℕ → Option String → Db → Result E Db
  apply_verified_payment payload reference amount currency d =
      find_payment reference d >>= λ found. settle_found payload reference amount currency found d

  -- `creditWalletTopup`
  unfoldable pub apply_wallet_topup : WalletTopup → Db → Result E Db
  apply_wallet_topup event d =
      if not (is_some event.account_number) && not (is_some (valid_user platform event.user_id))
      then upsert_issue
          (issue_on unattributable provider_success_not_local event.provider_reference) d
      else if other_currency event.currency "NGN"
      then upsert_issue
          (issue_on topup_currency provider_success_not_local event.provider_reference) d
      else credit_wallet_topup (wallet_credit platform env event) d

  -- What the transaction does for an event whose row was inserted.
  unfoldable pub apply_event : PaystackWebhookEvent → PaymentDomainEvent → Db → Result E Db
  apply_event payload (PaymentDomainEvent.payment_succeeded reference amount currency) d =
      apply_verified_payment payload reference amount currency d
  apply_event payload (PaymentDomainEvent.transfer_reconciled reference status) d =
      reconcile_payout_transfer reference status d
  apply_event payload (PaymentDomainEvent.wallet_topup_succeeded topup) d =
      apply_wallet_topup topup d
  apply_event payload _ d = ok d

  unfoldable pub apply_inserted :
      PaystackWebhookEvent → PaymentDomainEvent → String → Bool × Db → Result E (WebhookResult × Db)
  apply_inserted payload event reference (true, d) =
      apply_event payload event d >>= λ d'. ok (accepted (event_type event) reference, d')
  apply_inserted payload event reference (false, d) = ok (duplicate reference, d)

  unfoldable pub run_webhook_transaction :
      String
      → PaystackWebhookEvent
      → PaymentDomainEvent
      → String
      → Db
      → Result E (WebhookResult × Db)
  run_webhook_transaction raw_body payload event reference d =
      record_payment_event (platform.sha256_hex raw_body) payload reference d
      >>= apply_inserted payload event reference

  -- A failed transaction leaves the database as it was, but for the issue that is recorded after it,
  -- if that succeeds.
  unfoldable pub conclude :
      String → Db → Result E (WebhookResult × Db) → Result (WebhookError E) WebhookResult × Db
  conclude reference d (ok (result, d')) = (ok result, d')
  conclude reference d (err e) = (
    err (database e),
    value_or (upsert_issue (issue_on processing_failed webhook_processing_failed reference) d) d,
  )

  unfoldable pub process_with_database :
      String
      → PaystackWebhookEvent
      → PaymentDomainEvent
      → String
      → Db
      → Result (WebhookError E) WebhookResult × Db
  process_with_database raw_body payload event reference d =
      conclude reference d (run_webhook_transaction raw_body payload event reference d)

  abbrev pub in_database :
      List String
      → Result (WebhookError E) WebhookResult × Db
      → Result (WebhookError E) WebhookResult × State Db
  in_database keys (result, d) = (result, record { processed_webhook_keys = keys; db = d })

  -- The part of `process` behind the signature and the ignored events.
  unfoldable pub process_event :
      String
      → PaystackWebhookEvent
      → PaymentDomainEvent
      → String
      → State Db
      → Result (WebhookError E) WebhookResult × State Db
  process_event raw_body payload event reference s =
      if env.inbox_in_database
      then in_database s.processed_webhook_keys
          (process_with_database raw_body payload event reference s.db)
      else let key = webhook_key payload.event reference in
        if any (str_eq key) s.processed_webhook_keys then (ok (duplicate reference), s) else (
          ok (accepted (event_type event) reference),
          record s { processed_webhook_keys = key ∷ s.processed_webhook_keys },
        )

  unfoldable pub process_mapped :
      String
      → PaystackWebhookEvent
      → PaymentDomainEvent
      → State Db
      → Result (WebhookError E) WebhookResult × State Db
  process_mapped raw_body payload (PaymentDomainEvent.ignored reason event) s =
      (ok (ignored reason), s)
  process_mapped raw_body payload (PaymentDomainEvent.payment_succeeded r a c) s =
      process_event raw_body payload (PaymentDomainEvent.payment_succeeded r a c) r s
  process_mapped raw_body payload (PaymentDomainEvent.payment_failed r a) s =
      process_event raw_body payload (PaymentDomainEvent.payment_failed r a) r s
  process_mapped raw_body payload (PaymentDomainEvent.refund_succeeded r a) s =
      process_event raw_body payload (PaymentDomainEvent.refund_succeeded r a) r s
  process_mapped raw_body payload (PaymentDomainEvent.transfer_reconciled r t) s =
      process_event raw_body payload (PaymentDomainEvent.transfer_reconciled r t) r s
  process_mapped raw_body payload (PaymentDomainEvent.wallet_topup_succeeded t) s =
      process_event raw_body payload (PaymentDomainEvent.wallet_topup_succeeded t)
        t.provider_reference s

  unfoldable pub process :
      String
      → Option String
      → PaystackWebhookEvent
      → State Db
      → Result (WebhookError E) WebhookResult × State Db
  process raw_body signature payload s =
      elim (assert_valid_signature {E = E} platform env raw_body signature) [
        | err e ↦ (err e, s)
        | ok _ ↦
            process_mapped raw_body payload
              (map_paystack_event platform.parse platform.to_number payload) s
      ]

  unfoldable pub credit_verified_mapped :
      PaystackWebhookEvent → PaymentDomainEvent → Db → Result (WebhookError E) WebhookResult × Db
  credit_verified_mapped payload (PaymentDomainEvent.wallet_topup_succeeded t) d =
      process_with_database (platform.stringify payload) payload
        (PaymentDomainEvent.wallet_topup_succeeded t) t.provider_reference d
  credit_verified_mapped payload _ d = (err not_a_topup, d)

  unfoldable pub credit_verified_wallet_topup :
      PaystackWebhookEvent → Db → Result (WebhookError E) WebhookResult × Db
  credit_verified_wallet_topup payload d =
      credit_verified_mapped payload (map_paystack_event platform.parse platform.to_number payload)
        d
