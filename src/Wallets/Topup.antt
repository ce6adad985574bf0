-- ===== src/Wallets/Topup.antt =====
-- Top-ups of a wallet through the provider's checkout: src/modules/wallets/wallets.service.ts,
-- `quoteTopup` and `initializeTopup`. The repository, the settings and the provider are parameters,
-- each call of which may throw; so are the reference that `randomUUID` gives and `String` of a number.
pub mod Checkout
pub mod Credit
use mealdirectbackend.Common.{
  ℕ, ◌+◌, List, [], ◌∷◌, Bool, true, false, Option, none, some, Num, nat, neg, fractional, Result,
  ok, err, ltb, if◌then◌else◌, String, Json, Fields, str, end, field, ◌==◌,
}
use mealdirectbackend.Domain.Authorization.{
  ActorRole, customer, vendor, rider, campus_admin, super_admin,
}
use mealdirectbackend.Domain.PaymentEvents.{wallet_topup_purpose}
use mealdirectbackend.Domain.TopupFee.{TopupCharge, calculate_topup_charge}

pub record AuthenticatedActor : Type 0 where
  pub user_id : String
  pub role : ActorRole
  pub email : Option String

pub record WalletRecord : Type 0 where
  pub id : String
  pub balance_kobo : ℕ
  pub currency : String

pub record WalletLimits : Type 0 where
  pub min_topup_kobo : ℕ
  pub max_balance_kobo : ℕ

-- `PaystackInitializeInput`, without the URL to return to.
pub record InitializeInput : Type 0 where
  pub email : String
  pub amount_kobo : ℕ
  pub currency : String
  pub reference : String
  pub metadata : Fields

pub record InitializeResult : Type 0 where
  pub reference : String
  pub authorization_url : String
  pub access_code : String

pub record WalletTopupCheckout : Type 0 where
  pub reference : String
  pub authorization_url : String
  pub access_code : String
  pub amount_kobo : ℕ
  pub fee_kobo : ℕ
  pub charge_kobo : ℕ

pub record WalletTopupQuote : Type 0 where
  pub amount_kobo : ℕ
  pub fee_kobo : ℕ
  pub charge_kobo : ℕ

-- `wallet_missing` is the plain `Error`; `failure` is whatever a call of another component throws.
pub data TopupError : Type 0 where
  not_a_customer not_positive no_email wallet_missing below_minimum above_limit failure : TopupError

-- The other components: the state of the database, and what the service calls.
pub record WalletPlatform : Type 1 where
  pub Db : Type 0
  pub ensure_wallet : String → Db → Result TopupError (String × Db)
  pub find_wallet_by_id : String → Db → Result TopupError (Option WalletRecord)
  pub find_wallet_limits : Db → Result TopupError WalletLimits
  pub initialize_transaction : InitializeInput → Db → Result TopupError InitializeResult
  pub pass_fees : Bool
  pub decimal : ℕ → String

-- `customerOnly`
unfoldable pub customer_only : AuthenticatedActor → Result TopupError (Unit {0})
customer_only actor = elim actor.role [
  | customer ↦ ok tt
  | vendor ↦ err not_a_customer
  | rider ↦ err not_a_customer
  | campus_admin ↦ err not_a_customer
  | super_admin ↦ err not_a_customer
]

unfoldable pub quote_topup : Bool → AuthenticatedActor → ℕ → Result TopupError WalletTopupQuote
quote_topup pass_fees actor amount = elim (customer_only actor) [
  | err e ↦ err e
  | ok _ ↦
      let charge = calculate_topup_charge amount pass_fees in
      ok (record {
        amount_kobo = amount;
        fee_kobo = charge.fee_kobo;
        charge_kobo = charge.charge_kobo;
      })
]

unfoldable pub assert_positive : Num → Result TopupError ℕ
assert_positive (nat n) = if ltb 0 n then ok n else err not_positive
assert_positive (neg n) = err not_positive
assert_positive fractional = err not_positive

-- `` `WTU-${randomUUID()}` `` is the argument `reference`.
abbrev pub topup_metadata : (ℕ → String) → String → String → ℕ → Fields
topup_metadata decimal user_id wallet_id amount = field "purpose" (str wallet_topup_purpose) (
    field "userId" (str user_id)
      (field "walletId" (str wallet_id) (field "creditKobo" (str (decimal amount)) end)))

-- The database, and the checkouts that were asked for so far, the last first.
pub record TopupState (Db : Type 0) : Type 0 where
  pub db : Db
  pub initialized : List InitializeInput

module _ (base : WalletPlatform) where
  open base use {
    Db, ensure_wallet, find_wallet_by_id, find_wallet_limits, initialize_transaction, pass_fees,
    decimal,
  }

  unfoldable pub topup_request :
      String → String → WalletRecord → String → String → ℕ → InitializeInput
  topup_request user_id email wallet wallet_id reference amount = record {
    email = email;
    amount_kobo = (calculate_topup_charge amount pass_fees).charge_kobo;
    currency = wallet.currency;
    reference = reference;
    metadata = topup_metadata decimal user_id wallet_id amount;
  }

  -- What is returned for the provider's answer.
  unfoldable pub topup_checkout :
      ℕ → Result TopupError InitializeResult → Result TopupError WalletTopupCheckout
  topup_checkout amount (err e) = err e
  topup_checkout amount (ok checkout) =
      let charge = calculate_topup_charge amount pass_fees in
      ok (record {
        reference = checkout.reference;
        authorization_url = checkout.authorization_url;
        access_code = checkout.access_code;
        amount_kobo = amount;
        fee_kobo = charge.fee_kobo;
        charge_kobo = charge.charge_kobo;
      })

  unfoldable pub send_checkout :
      ℕ → InitializeInput → TopupState Db → Result TopupError WalletTopupCheckout × TopupState Db
  send_checkout amount request s = (
    topup_checkout amount (initialize_transaction request s.db),
    record s { initialized = request ∷ s.initialized },
  )

  -- The checks against the limits, and the call of the provider.
  unfoldable pub checked_topup :
      String
      → String
      → String
      → String
      → ℕ
      → WalletRecord
      → WalletLimits
      → TopupState Db
      → Result TopupError WalletTopupCheckout × TopupState Db
  checked_topup user_id email wallet_id reference amount wallet limits s =
      if ltb amount limits.min_topup_kobo
      then (err below_minimum, s)
      else if ltb limits.max_balance_kobo (wallet.balance_kobo + amount)
      then (err above_limit, s)
      else send_checkout amount (topup_request user_id email wallet wallet_id reference amount) s

  unfoldable pub read_wallet :
      String
      → String
      → String
      → String
      → ℕ
      → TopupState Db
      → Result TopupError WalletTopupCheckout × TopupState Db
  read_wallet user_id email wallet_id reference amount s = elim (find_wallet_by_id wallet_id s.db) [
    | err e ↦ (err e, s)
    | ok found ↦ elim (find_wallet_limits s.db) [
      | err e ↦ (err e, s)
      | ok limits ↦ elim found [
        | none ↦ (err wallet_missing, s)
        | some wallet ↦ checked_topup user_id email wallet_id reference amount wallet limits s
      ]
    ]
  ]

  unfoldable pub ensured_topup :
      String
      → String
      → String
      → ℕ
      → Result TopupError (String × Db)
      → TopupState Db
      → Result TopupError WalletTopupCheckout × TopupState Db
  ensured_topup user_id email reference amount (err e) s = (err e, s)
  ensured_topup user_id email reference amount (ok (wallet_id, d)) s =
      read_wallet user_id email wallet_id reference amount (record s { db = d })

  unfoldable pub initialize_topup :
      AuthenticatedActor
      → Num
      → String
      → TopupState Db
      → Result TopupError WalletTopupCheckout × TopupState Db
  initialize_topup actor amount reference s = elim (customer_only actor) [
    | err e ↦ (err e, s)
    | ok _ ↦ elim (assert_positive amount) [
      | err e ↦ (err e, s)
      | ok n ↦ elim actor.email [
        | none ↦ (err no_email, s)
        | some email ↦
            ensured_topup actor.user_id email reference n (ensure_wallet actor.user_id s.db) s
      ]
    ]
  ]
