-- ===== src/Tests/Topups.antt =====
-- Events of the provider and top-ups of a wallet at concrete inputs.
use mealdirectbackend.Common.{
  false, ◌≡◌, ◌≢◌, refl, ap, List, [], ◌∷◌, true, Option, none, some, ok, or_else, String, Num, nat,
  Json, str, field, end,
}
use mealdirectbackend.Domain.PaymentEvents.{
  is_empty, PaystackWebhookEvent, EventData, WalletTopup, map_paystack_event, checkout_topup,
  metadata_record, payment_succeeded, wallet_topup_succeeded, record_of, map_body, map_referenced,
  charge_success,
}
use mealdirectbackend.Domain.PaymentEvents.Routing.{
  provider_reference_of, IsTopupOf, map_paystack_event_topup,
}
use mealdirectbackend.Domain.Authorization.{ActorRole}
use mealdirectbackend.Domain.TopupFee.{calculate_topup_charge}
use mealdirectbackend.Payments.Webhook.{WebhookEnv, Platform, EventType, accepted}
use mealdirectbackend.Payments.Webhook.Service.{run_webhook_transaction}
use mealdirectbackend.Tests.Webhooks.{SmallDb, small_database, empty_db}
use mealdirectbackend.Wallets.Topup.{
  AuthenticatedActor, WalletPlatform, WalletTopupCheckout, TopupState, TopupError, InitializeInput,
  initialize_topup, customer_only, assert_positive, ensured_topup, read_wallet, checked_topup,
  send_checkout, topup_checkout,
}
use mealdirectbackend.Wallets.Topup.Checkout.{IsAsked, initialize_topup_checkout}
use mealdirectbackend.Wallets.Topup.Credit.{IsChargeOf, initialize_topup_credits}

abbrev parse_none : String → Option Json
parse_none text = none

abbrev always_60000 : Option Json → Num
always_60000 j = nat 60000

abbrev order_data : EventData
order_data = record {
  id = some "77";
  reference = some "ref";
  amount = some 5000;
  currency = some "NGN";
  status = some "success";
  receiver_bank_account_number = none;
  metadata = none;
  authorization = none;
}

abbrev order_charge : PaystackWebhookEvent
order_charge = record { event = "charge.success"; body = some order_data }

order_charge-mapped :
    map_paystack_event parse_none always_60000 order_charge
    ≡ payment_succeeded "ref" 5000 (some "NGN")
unfolding map_paystack_event map_body map_referenced charge_success metadata_record checkout_topup
order_charge-mapped = refl

order_charge-reference :
    provider_reference_of (map_paystack_event parse_none always_60000 order_charge) ≡ some "ref"
order_charge-reference = ap provider_reference_of order_charge-mapped

abbrev topup_data : EventData
topup_data = record order_data {
  metadata =
      some (record_of (field "purpose" (str "wallet_topup") (field "userId" (str "user-1") end)));
}

abbrev topup_charge : PaystackWebhookEvent
topup_charge = record { event = "charge.success"; body = some topup_data }

abbrev topup : WalletTopup
topup = record {
  provider_reference = "ref";
  amount_kobo = 5000;
  account_number = none;
  user_id = some "user-1";
  credit_kobo = some 60000;
  sender_name = none;
  currency = some "NGN";
}

topup_charge-mapped :
    map_paystack_event parse_none always_60000 topup_charge ≡ wallet_topup_succeeded topup
unfolding map_paystack_event map_body map_referenced charge_success metadata_record checkout_topup
topup_charge-mapped = refl

map_paystack_event_topup_example :
    (d : EventData) × (some topup_data ≡ some d)
    × (topup_charge.event ≡ "charge.success")
    × (d.reference ≡ some "ref")
    × (is_empty "ref" ≡ false)
    × (topup.amount_kobo ≡ or_else d.amount 0)
    × (topup.currency ≡ d.currency)
    × (topup.credit_kobo ≢ some 0)
    × IsTopupOf parse_none always_60000 d topup
map_paystack_event_topup_example =
    map_paystack_event_topup parse_none always_60000 topup_charge topup_charge-mapped

abbrev small_wallets : WalletPlatform
small_wallets = record {
  Db = List String;
  ensure_wallet = λ user d. ok ("wallet-1", user ∷ d);
  find_wallet_by_id = λ id d. ok (some (record { id = id; balance_kobo = 1000; currency = "NGN" }));
  find_wallet_limits = λ d. ok (record { min_topup_kobo = 10000; max_balance_kobo = 500000 });
  initialize_transaction = λ r d.
      ok (record { reference = r.reference; authorization_url = "url"; access_code = "code" });
  pass_fees = true;
  decimal = λ n. "60000";
}

abbrev ada : AuthenticatedActor
ada = record { user_id = "user-1"; role = ActorRole.customer; email = some "ada@example.com" }

abbrev before_topup : TopupState (List String)
before_topup = record { db = []; initialized = [] }

abbrev asked_input : InitializeInput
asked_input = record {
  email = "ada@example.com";
  amount_kobo = 60915;
  currency = "NGN";
  reference = "WTU-1";
  metadata = field "purpose" (str "wallet_topup") (
      field "userId" (str "user-1")
        (field "walletId" (str "wallet-1") (field "creditKobo" (str "60000") end)));
}

abbrev after_topup : TopupState (List String)
after_topup = record { db = "user-1" ∷ []; initialized = asked_input ∷ [] }

abbrev ada_checkout : WalletTopupCheckout
ada_checkout = record {
  reference = "WTU-1";
  authorization_url = "url";
  access_code = "code";
  amount_kobo = 60000;
  fee_kobo = 915;
  charge_kobo = 60915;
}

topup-initialized :
    initialize_topup small_wallets ada (nat 60000) "WTU-1" before_topup
    ≡ (ok ada_checkout, after_topup)
unfolding initialize_topup customer_only assert_positive ensured_topup read_wallet checked_topup
    send_checkout topup_checkout mealdirectbackend.Wallets.Topup.topup_request
    calculate_topup_charge
topup-initialized = refl

initialize_topup_checkout_example :
    IsAsked small_wallets ada (nat 60000) "WTU-1" before_topup after_topup ada_checkout
initialize_topup_checkout_example =
    initialize_topup_checkout small_wallets ada (nat 60000) "WTU-1" before_topup after_topup
      ada_checkout topup-initialized

abbrev topup_platform : Platform
topup_platform = record {
  sha256_hex = λ text. text;
  hmac_sha512_hex = λ secret text. text;
  from_hex = λ text. [];
  is_uuid = λ text. true;
  parse = parse_none;
  to_number = always_60000;
  stringify = λ payload. payload.event;
}

abbrev topup_env : WebhookEnv
topup_env = record {
  paystack_secret_key = none;
  inbox_in_database = true;
  wallet_dva_deposit_fee_bps = 0;
  wallet_dva_deposit_fee_cap_kobo = none;
}

-- The event that reports the charge.
abbrev made_data : EventData
made_data = record order_data {
  reference = some "WTU-1";
  amount = some 60915;
  currency = some "NGN";
  metadata = some (record_of asked_input.metadata);
}

abbrev made_event : PaystackWebhookEvent
made_event = record { event = "charge.success"; body = some made_data }

made_event-IsChargeOf : IsChargeOf asked_input made_event made_data
made_event-IsChargeOf = record {
  event = refl;
  body = refl;
  reference = refl;
  amount = refl;
  currency = refl;
  metadata = refl;
  by_checkout = refl;
}

abbrev noted_db : SmallDb
noted_db = record empty_db { fingerprints = "body" ∷ [] }

initialize_topup_credits_example :
    run_webhook_transaction small_database topup_platform topup_env "body" made_event
      (map_paystack_event parse_none always_60000 made_event)
      "WTU-1"
      empty_db
    ≡ ok (
      accepted EventType.wallet_topup_succeeded "WTU-1",
      record noted_db {
        credits =
            record {
              provider_reference = "WTU-1";
              account_number = none;
              user_id = some "user-1";
              credit_kobo = 60000;
              sender_name = none;
              deposit_fee = none;
            }
            ∷ [];
      },
    )
initialize_topup_credits_example =
    initialize_topup_credits small_wallets topup_platform topup_env small_database ada (nat 60000)
      "WTU-1" before_topup after_topup ada_checkout asked_input made_event made_data "body" empty_db
      noted_db topup-initialized refl refl refl refl refl (λ n e. e) made_event-IsChargeOf refl
