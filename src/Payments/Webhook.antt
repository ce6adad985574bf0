-- ===== src/Payments/Webhook.antt =====
-- The webhook of the payment provider: src/modules/payments/paystack-webhook.service.ts. The database
-- is an interface, `WebhookDatabase`: the stored functions and the query that the service calls, each
-- of which may throw. A transaction runs on a copy of the database, which an error throws away.
pub mod Service
pub mod Money
pub mod Signature
pub mod Delivery
use mealdirectbackend.Common.{
  ℕ, suc, ◌+◌, ◌-◌, ◌*◌, ◌/◌, ◌≤◌, ◌<◌, ◌≡◌, ◌≢◌, refl, ◌⊎◌, inl, inr, ◌↔◌, List, [], ◌∷◌, ◌++◌,
  Bool, true, false, Option, none, some, Num, nat, neg, fractional, ok, err, arith, or_else, map,
  map_result, sum, ltb, leb, Result, throw_if, ◌>>=◌, ◌>>◌, if◌then◌else◌, min, max, String,
  Bool-cases, Option-cases, ◌==◌, ◌&&◌, ◌||◌, not, is_some, any, ap, >>=-eq-ok, str_eq, eq_iff,
  length, value_or, All, Json, Fields, null, boolean, number, str, arr, obj, field_of,
}
use mealdirectbackend.Domain.PaymentEvents.{
  PaystackWebhookEvent, WalletTopup, TransferStatus, IgnoredReason, is_empty,
}
use mealdirectbackend.Domain.TopupFee.{split_dedicated_account_deposit, DepositSplit}

pub data IssueType : Type 0 where
  amount_mismatch currency_mismatch provider_success_not_local webhook_processing_failed : IssueType

-- The dedup key of an issue: its prefix and what follows the colon.
pub data DedupPrefix : Type 0 where
  not_local mismatched_amount mismatched_currency unattributable topup_currency processing_failed :
      DedupPrefix

-- The issues are all critical; `detail` is left to the log.
pub record Issue : Type 0 where
  pub prefix : DedupPrefix
  pub key : String
  pub issue_type : IssueType
  pub payment_id : Option String
  pub order_id : Option String
  pub provider_reference : String

-- A row of `public.payments`, as far as the query returns it.
pub record LocalPayment : Type 0 where
  pub id : String
  pub order_id : String
  pub expected_amount_kobo : ℕ
  pub currency : String
  pub status : String

pub record WalletCredit : Type 0 where
  pub provider_reference : String
  pub account_number : Option String
  pub user_id : Option String
  pub credit_kobo : ℕ
  pub sender_name : Option String
  -- `deposit_fee`, gross amount and fee, added to the payload of a transfer into a dedicated account.
  pub deposit_fee : Option (ℕ × ℕ)

-- The stored functions and the query, with what the service relies on: a fingerprint is inserted at
-- most once, and stays.
pub record WebhookDatabase (E : Type 0) : Type 1 where
  pub Db : Type 0
  pub recorded : String → Db → Bool
  -- `record_payment_event`: whether the row was inserted.
  pub record_payment_event : String → PaystackWebhookEvent → String → Db → Result E (Bool × Db)
  pub find_payment : String → Db → Result E (Option LocalPayment)
  pub mark_verified_payment_successful : String → String → ℕ → Db → Result E Db
  pub credit_wallet_topup : WalletCredit → Db → Result E Db
  pub reconcile_payout_transfer : String → TransferStatus → Db → Result E Db
  pub upsert_issue : Issue → Db → Result E Db
  pub record_new :
      (f : String) (p : PaystackWebhookEvent) (r : String) (d d' : Db)
      → record_payment_event f p r d ≡ ok (true, d')
      → (recorded f d ≡ false) × (recorded f d' ≡ true)
  pub record_old :
      (f : String) (p : PaystackWebhookEvent) (r : String) (d d' : Db)
      → record_payment_event f p r d ≡ ok (false, d')
      → (recorded f d ≡ true) × (d' ≡ d)
  pub record_again :
      (f : String) (p : PaystackWebhookEvent) (r : String) (d : Db)
      → recorded f d ≡ true
      → record_payment_event f p r d ≡ ok (false, d)
  pub mark_keeps :
      (f r t : String) (a : ℕ) (d d' : Db)
      → mark_verified_payment_successful r t a d ≡ ok d'
      → recorded f d ≡ true
      → recorded f d' ≡ true
  pub credit_keeps :
      (f : String) (c : WalletCredit) (d d' : Db)
      → credit_wallet_topup c d ≡ ok d'
      → recorded f d ≡ true
      → recorded f d' ≡ true
  pub reconcile_keeps :
      (f r : String) (s : TransferStatus) (d d' : Db)
      → reconcile_payout_transfer r s d ≡ ok d'
      → recorded f d ≡ true
      → recorded f d' ≡ true
  pub issue_keeps :
      (f : String) (i : Issue) (d d' : Db)
      → upsert_issue i d ≡ ok d'
      → recorded f d ≡ true
      → recorded f d' ≡ true

pub record WebhookEnv : Type 0 where
  pub paystack_secret_key : Option String
  pub inbox_in_database : Bool
  pub wallet_dva_deposit_fee_bps : ℕ
  pub wallet_dva_deposit_fee_cap_kobo : Option ℕ

-- What the service takes from its platform: the digests, the decoding of hexadecimal digits, the
-- pattern of a UUID, `JSON.parse`, `JSON.stringify` and `Number`.
pub record Platform : Type 0 where
  pub sha256_hex : String → String
  pub hmac_sha512_hex : String → String → String
  pub from_hex : String → List ℕ
  pub is_uuid : String → Bool
  pub parse : String → Option Json
  pub to_number : Option Json → Num
  pub stringify : PaystackWebhookEvent → String

pub data EventType : Type 0 where
  payment_succeeded payment_failed refund_succeeded transfer_reconciled wallet_topup_succeeded :
      EventType

pub data WebhookResult : Type 0 where
  accepted : EventType → (provider_reference : String) → WebhookResult
  duplicate : (provider_reference : String) → WebhookResult
  ignored : IgnoredReason → WebhookResult

pub data WebhookError (E : Type 0) : Type 0 where
  not_configured signature_required signature_invalid : WebhookError E
  not_a_topup : WebhookError E
  database : E → WebhookError E

-- `leftBuffer.length === rightBuffer.length && timingSafeEqual(leftBuffer, rightBuffer)`
unfoldable pub same_bytes : List ℕ → List ℕ → Bool
same_bytes [] [] = true
same_bytes (x ∷ xs) (y ∷ ys) = x == y && same_bytes xs ys
same_bytes _ _ = false

unfoldable pub assert_valid_signature :
    {E : Type 0}
    → Platform
    → WebhookEnv
    → String
    → Option String
    → Result (WebhookError E) (Unit {0})
assert_valid_signature platform env raw_body signature = elim env.paystack_secret_key [
  | none ↦ err not_configured
  | some secret ↦ elim signature [
    | none ↦ err signature_required
    | some given ↦
        if is_empty given
        then err signature_required
        else if same_bytes (platform.from_hex given)
            (platform.from_hex (platform.hmac_sha512_hex secret raw_body))
        then ok tt
        else err signature_invalid
  ]
]

-- The user id of a top-up, if it is a UUID.
abbrev pub valid_user : Platform → Option String → Option String
valid_user platform none = none
valid_user platform (some user) = if platform.is_uuid user then some user else none

-- What a top-up credits to the wallet: the transfer less the fee, or the credit that was asked for
-- if the charge covers it, or all that was paid.
unfoldable pub wallet_credit : Platform → WebhookEnv → WalletTopup → WalletCredit
wallet_credit platform env event = elim event.account_number [
  | some account ↦
      let split =
        split_dedicated_account_deposit event.amount_kobo env.wallet_dva_deposit_fee_bps
          env.wallet_dva_deposit_fee_cap_kobo in
      record {
        provider_reference = event.provider_reference;
        account_number = some account;
        user_id = valid_user platform event.user_id;
        credit_kobo = split.credit_kobo;
        sender_name = event.sender_name;
        deposit_fee = some (event.amount_kobo, split.deposit_fee_kobo);
      }
  | none ↦ record {
    provider_reference = event.provider_reference;
    account_number = none;
    user_id = valid_user platform event.user_id;
    credit_kobo = elim event.credit_kobo [
      | none ↦ event.amount_kobo
      | some credit ↦ if leb credit event.amount_kobo then credit else event.amount_kobo
    ];
    sender_name = event.sender_name;
    deposit_fee = none;
  }
]

abbrev pub other_currency : Option String → String → Bool
other_currency none currency = false
other_currency (some c) currency = not (str_eq c currency)

abbrev pub transaction_id : PaystackWebhookEvent → String → String
transaction_id payload reference = elim payload.body [
  | none ↦ reference
  | some d ↦ or_else d.id reference
]
