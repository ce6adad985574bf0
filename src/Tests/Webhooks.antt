-- ===== src/Tests/Webhooks.antt =====
-- The webhook at concrete inputs, with a small database and platform.
use mealdirectbackend.Common.{
  ◌≡◌, refl, ◌⊎◌, List, [], ◌∷◌, Bool, true, false, none, some, ok, err, Result, any, String,
  str_eq, eq_iff, if◌then◌else◌, fractional, arith,
}
use mealdirectbackend.Domain.PaymentEvents.{
  PaystackWebhookEvent, EventData, WalletTopup, is_empty, payment_succeeded,
}
use mealdirectbackend.Payments.Webhook.{
  WebhookDatabase, WebhookEnv, Platform, Issue, LocalPayment, WalletCredit, WebhookError, accepted,
  duplicate, EventType, database, transaction_id, processing_failed, webhook_processing_failed,
}
use mealdirectbackend.Payments.Webhook.Service.{
  State, process, process_with_database, apply_verified_payment, issue_on, apply_event,
  apply_inserted, run_webhook_transaction, conclude, settle_found, settle_payment,
}
use mealdirectbackend.Payments.Webhook.Money.{apply_verified_payment_checks}
use mealdirectbackend.Payments.Webhook.Signature.{process_authentic}
use mealdirectbackend.Payments.Webhook.Delivery.{process_with_database_once}

pub record SmallDb : Type 0 where
  pub fingerprints : List String
  pub marked : List String
  pub credits : List WalletCredit
  pub issues : List Issue

abbrev pub stock : LocalPayment
stock = record {
  id = "payment-1";
  order_id = "order-1";
  expected_amount_kobo = 5000;
  currency = "NGN";
  status = "pending";
}

abbrev pub insert_event : String → SmallDb → Result String (Bool × SmallDb)
insert_event f d =
    if any (str_eq f) d.fingerprints
    then ok (false, d)
    else ok (true, record d { fingerprints = f ∷ d.fingerprints })

-- The payment `bad` cannot be marked.
abbrev pub mark : String → SmallDb → Result String SmallDb
mark reference d =
    if str_eq reference "bad"
    then err "failure"
    else ok (record d { marked = reference ∷ d.marked })

pub insert_new :
    (f : String) (d d' : SmallDb)
    → insert_event f d ≡ ok (true, d')
    → (any (str_eq f) d.fingerprints ≡ false) × (any (str_eq f) d'.fingerprints ≡ true)
insert_new f d d' h = ground (arith, eq_iff f f)

pub insert_old :
    (f : String) (d d' : SmallDb)
    → insert_event f d ≡ ok (false, d')
    → (any (str_eq f) d.fingerprints ≡ true) × (d' ≡ d)
insert_old f d d' h = ground arith

pub insert_again :
    (f : String) (d : SmallDb)
    → any (str_eq f) d.fingerprints ≡ true
    → insert_event f d ≡ ok (false, d)
insert_again f d h = rw h refl

pub mark-fingerprints :
    (f r : String) (d d' : SmallDb)
    → mark r d ≡ ok d'
    → any (str_eq f) d.fingerprints ≡ true
    → any (str_eq f) d'.fingerprints ≡ true
mark-fingerprints f r d d' h k = ground (arith, h, k)

pub kept_fingerprints :
    (f : String) (d d' d'' : SmallDb)
    → ◌≡◌ {A = Result String SmallDb} (ok d'') (ok d')
    → d''.fingerprints ≡ d.fingerprints
    → any (str_eq f) d.fingerprints ≡ true
    → any (str_eq f) d'.fingerprints ≡ true
kept_fingerprints f d d' d'' h same k = let e : d'' ≡ d' = cc h in rw (← e, same) k

abbrev pub small_database : WebhookDatabase String
small_database = record {
  Db = SmallDb;
  recorded = λ f d. any (str_eq f) d.fingerprints;
  record_payment_event = λ f p r d. insert_event f d;
  find_payment = λ r d. ok (some stock);
  mark_verified_payment_successful = λ r t a d. mark r d;
  credit_wallet_topup = λ c d. ok (record d { credits = c ∷ d.credits });
  reconcile_payout_transfer = λ r s d. ok d;
  upsert_issue = λ i d. ok (record d { issues = i ∷ d.issues });
  record_new = λ f p r d d' h. insert_new f d d' h;
  record_old = λ f p r d d' h. insert_old f d d' h;
  record_again = λ f p r d h. insert_again f d h;
  mark_keeps = λ f r t a d d' h k. mark-fingerprints f r d d' h k;
  credit_keeps = λ f c d d' h k. kept_fingerprints f d d' _ h refl k;
  reconcile_keeps = λ f r s d d' h k. kept_fingerprints f d d' _ h refl k;
  issue_keeps = λ f i d d' h k. kept_fingerprints f d d' _ h refl k;
}

abbrev small_platform : Platform
small_platform = record {
  sha256_hex = λ text. text;
  hmac_sha512_hex = λ secret text. text;
  from_hex = λ text. if str_eq text "signed" then 1 ∷ 2 ∷ [] else [];
  is_uuid = λ text. true;
  parse = λ text. none;
  to_number = λ j. fractional;
  stringify = λ payload. payload.event;
}

abbrev small_env : WebhookEnv
small_env = record {
  paystack_secret_key = some "key";
  inbox_in_database = true;
  wallet_dva_deposit_fee_bps = 100;
  wallet_dva_deposit_fee_cap_kobo = some 30000;
}

abbrev pub empty_db : SmallDb
empty_db = record { fingerprints = []; marked = []; credits = []; issues = [] }

abbrev charge_data : EventData
charge_data = record {
  id = some "77";
  reference = some "ref";
  amount = some 5000;
  currency = some "NGN";
  status = some "success";
  receiver_bank_account_number = none;
  metadata = none;
  authorization = none;
}

abbrev charge : PaystackWebhookEvent
charge = record { event = "charge.success"; body = some charge_data }

abbrev paid_db : SmallDb
paid_db = record { fingerprints = "signed" ∷ []; marked = "ref" ∷ []; credits = []; issues = [] }

charge-handled :
    process_with_database small_database small_platform small_env "signed" charge
      (payment_succeeded "ref" 5000 (some "NGN"))
      "ref"
      empty_db
    ≡ (ok (accepted EventType.payment_succeeded "ref"), paid_db)
unfolding process_with_database run_webhook_transaction apply_inserted apply_event
    apply_verified_payment settle_found settle_payment conclude
charge-handled = refl

process_with_database_once_example :
    process_with_database small_database small_platform small_env "signed" charge
      (payment_succeeded "ref" 5000 none)
      "ref"
      paid_db
    ≡ (ok (duplicate "ref"), paid_db)
process_with_database_once_example =
    process_with_database_once small_database small_platform small_env "signed" charge charge
      (payment_succeeded "ref" 5000 (some "NGN")) (payment_succeeded "ref" 5000 none) "ref" "ref"
      empty_db paid_db (accepted EventType.payment_succeeded "ref") charge-handled

abbrev issue_db : SmallDb
issue_db = record empty_db {
  issues = issue_on processing_failed webhook_processing_failed "bad" ∷ [];
}

charge-failed :
    process_with_database small_database small_platform small_env "signed" charge
      (payment_succeeded "bad" 5000 none)
      "bad"
      empty_db
    ≡ (err (database "failure"), issue_db)
unfolding process_with_database run_webhook_transaction apply_inserted apply_event
    apply_verified_payment settle_found settle_payment conclude
charge-failed = refl

abbrev fresh : State SmallDb
fresh = record { processed_webhook_keys = []; db = empty_db }

process_authentic_example :
    ((secret : String) × (given : String) × (some "key" ≡ some secret)
      × (some "forged" ≡ some given)
      × (is_empty given ≡ false)
      × (small_platform.from_hex given
          ≡ small_platform.from_hex (small_platform.hmac_sha512_hex secret "signed")))
    ⊎ ((e : WebhookError String) × (process small_database small_platform small_env "signed"
            (some "forged")
            charge
            fresh
          ≡ (err e, fresh)))
process_authentic_example =
    process_authentic small_database small_platform small_env "signed" (some "forged") charge fresh

apply_verified_payment_checks_example :
    let r =
      apply_verified_payment small_database small_platform small_env charge "ref" 4000
        (some "NGN")
        empty_db in
    ((p : LocalPayment) × (some stock ≡ some p)
      × (4000 ≡ p.expected_amount_kobo)
      × ((c : String) → some "NGN" ≡ some c → c ≡ p.currency)
      × (r
          ≡ small_database.mark_verified_payment_successful "ref"
              (transaction_id charge "ref")
              4000
              empty_db))
    ⊎ ((issue : Issue) × (issue.provider_reference ≡ "ref")
        × (r ≡ small_database.upsert_issue issue empty_db))
apply_verified_payment_checks_example =
    apply_verified_payment_checks small_database small_platform small_env charge "ref" 4000
      (some "NGN") empty_db (some stock) refl

abbrev transfer_in : WalletTopup
transfer_in = record {
  provider_reference = "ref";
  amount_kobo = 50000;
  account_number = some "0123456789";
  user_id = none;
  credit_kobo = none;
  sender_name = some "Ada";
  currency = some "NGN";
}
