-- ===== src/Wallets/Topup/Credit.antt =====
-- What a paid top-up credits: from the checkout of src/modules/wallets/wallets.service.ts through
-- src/domain/payments.ts to src/modules/payments/paystack-webhook.service.ts.
use mathlib.Core.Path.{subst}
use mealdirectbackend.Common.{
  ap, sym, ◌∙◌, refl, ◌>>=◌, ℕ, ◌≤◌, ◌<◌, ◌≡◌, ◌∷◌, Bool, true, false, none, some, Num, nat, ok,
  String, str, arith,
}
use mealdirectbackend.Domain.PaymentEvents.{
  PaystackWebhookEvent, EventData, is_channel, WalletTopup, map_paystack_event, map_body,
  map_referenced, charge_success, checkout_topup, metadata_record, wallet_topup_succeeded,
  record_of, is_empty,
}
use mealdirectbackend.Domain.TopupFee.{calculate_topup_charge}
use mealdirectbackend.Payments.Webhook.{
  WebhookEnv, Platform, WebhookDatabase, EventType, accepted, wallet_credit,
}
use mealdirectbackend.Payments.Webhook.Service.{
  apply_wallet_topup, apply_event, apply_inserted, run_webhook_transaction,
}
use mealdirectbackend.Wallets.Topup.{
  AuthenticatedActor, WalletTopupCheckout, TopupState, initialize_topup, WalletRecord,
  InitializeInput, WalletPlatform, topup_metadata, topup_request,
}
use mealdirectbackend.Wallets.Topup.Checkout.{initialize_topup_checkout}

pub calculate_topup_charge-le :
    (n : ℕ) (pass_fees : Bool) → n ≤ (calculate_topup_charge n pass_fees).charge_kobo
unfolding calculate_topup_charge
calculate_topup_charge-le n pass_fees = ground arith

-- An event that reports that the charge of a request was made: with the reference, the amount, the
-- currency and the metadata of the request, and not by a transfer into a dedicated account.
pub record IsChargeOf (r : InitializeInput) (input : PaystackWebhookEvent) (d : EventData)
    : Type 0 where
  pub event : input.event ≡ "charge.success"
  pub body : input.body ≡ some d
  pub reference : d.reference ≡ some r.reference
  pub amount : d.amount ≡ some r.amount_kobo
  pub currency : d.currency ≡ some r.currency
  pub metadata : d.metadata ≡ some (record_of r.metadata)
  pub by_checkout : is_channel d.authorization "dedicated_nuban" ≡ false

abbrev pub topup_of : InitializeInput → String → ℕ → WalletTopup
topup_of r user_id amount = record {
  provider_reference = r.reference;
  amount_kobo = r.amount_kobo;
  account_number = none;
  user_id = some user_id;
  credit_kobo = some amount;
  sender_name = none;
  currency = some r.currency;
}

module _ (base : WalletPlatform) where
  checkout_topup-metadata :
      (user_id wallet_id : String) (amount : ℕ)
      → is_empty user_id ≡ false
      → checkout_topup (some (topup_metadata base.decimal user_id wallet_id amount))
        ≡ some (user_id, topup_metadata base.decimal user_id wallet_id amount)
  unfolding checkout_topup
  checkout_topup-metadata user_id wallet_id amount h = ground arith

module _ (base : WalletPlatform) (platform : Platform) (env : WebhookEnv) where
  topup-mapped :
      (user_id email wallet_id reference : String) (wallet : WalletRecord) (amount : ℕ)
      → platform.to_number (some (str (base.decimal amount))) ≡ nat amount
      → is_empty user_id ≡ false
      → is_empty reference ≡ false
      → 0 < amount
      → (input : PaystackWebhookEvent) (d : EventData)
      → IsChargeOf (topup_request base user_id email wallet wallet_id reference amount) input d
      → map_paystack_event platform.parse platform.to_number input
        ≡ wallet_topup_succeeded (
            topup_of
              (topup_request base user_id email wallet wallet_id reference amount)
              user_id
              amount)
  unfolding map_paystack_event map_body map_referenced charge_success metadata_record topup_request
  topup-mapped user_id email wallet_id reference wallet amount n u e p input d c =
      rw
        (
          c.body,
          c.reference,
          e,
          c.event,
          c.by_checkout,
          charge_success,
          c.metadata,
          checkout_topup-metadata base user_id wallet_id amount u,
          n,
          c.amount,
          c.currency,
        )
        (ground arith)

  topup-credited :
      (r : InitializeInput) (user_id : String) (amount : ℕ)
      → platform.is_uuid user_id ≡ true
      → amount ≤ r.amount_kobo
      → wallet_credit platform env (topup_of r user_id amount) ≡ record {
        provider_reference = r.reference;
        account_number = none;
        user_id = some user_id;
        credit_kobo = amount;
        sender_name = none;
        deposit_fee = none;
      }
  unfolding wallet_credit
  topup-credited r user_id amount u h = ground arith

  topup_request-covers :
      (user_id email wallet_id reference : String) (wallet : WalletRecord) (amount : ℕ)
      → amount ≤ (topup_request base user_id email wallet wallet_id reference amount).amount_kobo
  unfolding topup_request
  topup_request-covers user_id email wallet_id reference wallet amount =
      calculate_topup_charge-le amount base.pass_fees

  applied-topup :
      {E : Type 0} (inbox : WebhookDatabase E) (r : InitializeInput) (user_id : String) (amount : ℕ)
      (db : inbox.Db)
      → r.currency ≡ "NGN"
      → platform.is_uuid user_id ≡ true
      → amount ≤ r.amount_kobo
      → apply_wallet_topup inbox platform env (topup_of r user_id amount) db
        ≡ inbox.credit_wallet_topup
            (record {
              provider_reference = r.reference;
              account_number = none;
              user_id = some user_id;
              credit_kobo = amount;
              sender_name = none;
              deposit_fee = none;
            })
            db
  unfolding apply_wallet_topup
  applied-topup inbox r user_id amount db n u le =
      rw (topup-credited r user_id amount u le, u, n) refl

  -- The way of the money of a top-up. Say that `initializeTopup` returned a checkout, that the
  -- reference is not empty, that the user's id is a UUID that is not empty, that the wallet is in NGN,
  -- and that `Number` reads the amount back from its decimal digits. Then the transaction of the webhook,
  -- for any event that reports the one charge that the provider was asked for and that is new to it,
  -- calls the stored function that credits a wallet, for the user, under the same reference, with exactly
  -- the amount that the checkout showed, whatever fee the charge has on top; and it accepts the event if
  -- that call returns.
  pub initialize_topup_credits :
      {E : Type 0} (inbox : WebhookDatabase E) (actor : AuthenticatedActor) (amount : Num)
      (reference : String) (s s' : TopupState base.Db) (c : WalletTopupCheckout)
      (r : InitializeInput) (input : PaystackWebhookEvent) (d : EventData) (raw_body : String)
      (db db' : inbox.Db)
      → initialize_topup base actor amount reference s ≡ (ok c, s')
      → s'.initialized ≡ r ∷ s.initialized
      → r.currency ≡ "NGN"
      → is_empty reference ≡ false
      → is_empty actor.user_id ≡ false
      → platform.is_uuid actor.user_id ≡ true
      → ((n : ℕ) → amount ≡ nat n → platform.to_number (some (str (base.decimal n))) ≡ nat n)
      → IsChargeOf r input d
      → inbox.record_payment_event (platform.sha256_hex raw_body) input reference db
        ≡ ok (true, db')
      → run_webhook_transaction inbox platform env raw_body input
          (map_paystack_event platform.parse platform.to_number input)
          reference
          db
        ≡ (inbox.credit_wallet_topup
              (record {
                provider_reference = reference;
                account_number = none;
                user_id = some actor.user_id;
                credit_kobo = c.amount_kobo;
                sender_name = none;
                deposit_fee = none;
              })
              db'
            >>= λ d'. ok (accepted EventType.wallet_topup_succeeded reference, d'))
  unfolding run_webhook_transaction apply_inserted apply_event topup_request
  initialize_topup_credits inbox actor amount reference s s' c r input d raw_body db db' h one ngn e
        u v p charge new =
      let asked = initialize_topup_checkout base actor amount reference s s' c h in
      let o = asked.opened in
      let r' =
        topup_request base actor.user_id asked.email o.wallet asked.wallet_id reference asked.n in
      let same : r ≡ r' = cc (one, o.sent) in
      let mapped =
        topup-mapped actor.user_id asked.email asked.wallet_id reference o.wallet asked.n
          (p asked.n asked.is_whole) u e asked.is_positive input d
          (subst (λ r. IsChargeOf r input d) same charge) in
      let le =
        topup_request-covers actor.user_id asked.email asked.wallet_id reference o.wallet asked.n in
      rw
        (
          mapped,
          new,
          applied-topup inbox r' actor.user_id asked.n db' (ap (λ r. r.currency) (sym same) ∙ ngn) v
              le,
          o.amount,
        )
        refl
