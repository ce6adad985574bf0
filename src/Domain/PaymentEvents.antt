-- ===== src/Domain/PaymentEvents.antt =====
-- What a webhook of the payment provider means: src/domain/payments.ts. Amounts are in kobo, integers
-- that are not negative. `JSON.parse` (none where it throws) and `Number` are parameters.
pub mod Routing
use mealdirectbackend.Common.{
  ℕ, suc, ◌+◌, ◌-◌, ◌*◌, ◌/◌, ◌≤◌, ◌<◌, ◌≡◌, ◌≢◌, refl, ◌⊎◌, inl, inr, ◌↔◌, List, [], ◌∷◌, ◌++◌,
  Bool, true, false, Option, none, some, Num, nat, neg, fractional, ok, err, arith, or_else, map,
  map_result, sum, ltb, leb, Result, throw_if, ◌>>=◌, ◌>>◌, if◌then◌else◌, min, max, String,
  Bool-cases, Option-cases, ◌==◌, ◌&&◌, ◌||◌, not, is_some, any, ap, >>=-eq-ok, str_eq, eq_iff,
  length, value_or, All, Json, Fields, null, boolean, number, str, arr, obj, field_of,
}

pub data Metadata : Type 0 where
  record_of : Fields → Metadata
  raw_text : String → Metadata

pub record EventAuthorization : Type 0 where
  pub channel : Option String
  pub receiver_bank_account_number : Option String
  pub sender_name : Option String

pub record EventData : Type 0 where
  -- `id`, as `toString` writes it.
  pub id : Option String
  pub reference : Option String
  pub amount : Option ℕ
  pub currency : Option String
  pub status : Option String
  pub receiver_bank_account_number : Option String
  pub metadata : Option Metadata
  pub authorization : Option EventAuthorization

pub record PaystackWebhookEvent : Type 0 where
  pub event : String
  pub body : Option EventData

pub data TransferStatus : Type 0 where
  success failed reversed : TransferStatus

pub data IgnoredReason : Type 0 where
  unmapped_event missing_reference : IgnoredReason

pub record WalletTopup : Type 0 where
  pub provider_reference : String
  pub amount_kobo : ℕ
  pub account_number : Option String
  pub user_id : Option String
  pub credit_kobo : Option ℕ
  pub sender_name : Option String
  pub currency : Option String

pub data PaymentDomainEvent : Type 0 where
  payment_succeeded :
      (provider_reference : String) (amount_kobo : ℕ) (currency : Option String)
      → PaymentDomainEvent
  payment_failed : (provider_reference : String) (amount_kobo : Option ℕ) → PaymentDomainEvent
  refund_succeeded : (provider_reference : String) (amount_kobo : Option ℕ) → PaymentDomainEvent
  transfer_reconciled : (provider_reference : String) → TransferStatus → PaymentDomainEvent
  wallet_topup_succeeded : WalletTopup → PaymentDomainEvent
  ignored : IgnoredReason → (provider_event : String) → PaymentDomainEvent

abbrev pub wallet_topup_purpose : String
wallet_topup_purpose = "wallet_topup"

-- `text.length === 0`
abbrev pub is_empty : String → Bool
is_empty text = str_eq text ""

abbrev pub is_text : Option Json → String → Bool
is_text (some (str s)) text = str_eq s text
is_text _ text = false

-- The user id of the metadata, if it is a text that is not empty.
abbrev pub user_of : Option Json → Option String
user_of (some (str s)) = if is_empty s then none else some s
user_of _ = none

-- `Number.isInteger(creditKobo) && creditKobo > 0 ? { creditKobo } : {}`
abbrev pub positive : Num → Option ℕ
positive (nat n) = if ltb 0 n then some n else none
positive _ = none

-- `a ?? b`
abbrev pub first_of_two : Option String → Option String → Option String
first_of_two none b = b
first_of_two (some a) b = some a

abbrev pub is_channel : Option EventAuthorization → String → Bool
is_channel none channel = false
is_channel (some authorization) channel = elim authorization.channel [
  | none ↦ false
  | some c ↦ str_eq c channel
]

abbrev pub object_of : Option Json → Option Fields
object_of (some (obj fields)) = some fields
object_of _ = none

unfoldable pub transfer_status : String → Option TransferStatus
transfer_status event =
    if str_eq event "transfer.success"
    then some success
    else if str_eq event "transfer.failed"
    then some failed
    else if str_eq event "transfer.reversed"
    then some reversed
    else none

-- The user and the fields of a top-up paid at checkout, if the metadata marks one.
unfoldable pub checkout_topup : Option Fields → Option (String × Fields)
checkout_topup none = none
checkout_topup (some fields) =
    if is_text (field_of fields "purpose") wallet_topup_purpose
    then elim (user_of (field_of fields "userId")) [ none ↦ none | some u ↦ some (u, fields) ]
    else none

module _ (parse : String → Option Json) where
  unfoldable pub metadata_record : Option Metadata → Option Fields
  metadata_record none = none
  metadata_record (some (record_of fields)) = some fields
  metadata_record (some (raw_text t)) = object_of (parse t)

module _ (parse : String → Option Json) (to_number : Option Json → Num) where
  -- The branches of `charge.success`, in their order.
  unfoldable pub charge_success : String → EventData → PaymentDomainEvent
  charge_success reference d =
      if is_channel d.authorization "dedicated_nuban"
      then wallet_topup_succeeded (record {
        provider_reference = reference;
        amount_kobo = or_else d.amount 0;
        account_number = elim d.authorization [
          | none ↦ none
          | some a ↦ first_of_two a.receiver_bank_account_number d.receiver_bank_account_number
        ];
        user_id = none;
        credit_kobo = none;
        sender_name = elim d.authorization [ none ↦ none | some a ↦ a.sender_name ];
        currency = d.currency;
      })
      else elim (checkout_topup (metadata_record parse d.metadata)) [
        | some (user_id, fields) ↦ wallet_topup_succeeded (record {
          provider_reference = reference;
          amount_kobo = or_else d.amount 0;
          account_number = none;
          user_id = some user_id;
          credit_kobo = positive (to_number (field_of fields "creditKobo"));
          sender_name = none;
          currency = d.currency;
        })
        | none ↦ payment_succeeded reference (or_else d.amount 0) d.currency
      ]

  unfoldable pub map_referenced : String → String → EventData → PaymentDomainEvent
  map_referenced event reference d =
      if str_eq event "charge.success"
      then charge_success reference d
      else if str_eq event "charge.failed"
      then payment_failed reference d.amount
      else if str_eq event "refund.processed"
      then refund_succeeded reference d.amount
      else elim (transfer_status event) [
        | some status ↦ transfer_reconciled reference status
        | none ↦ ignored unmapped_event event
      ]

  unfoldable pub map_body : String → EventData → PaymentDomainEvent
  map_body event d = elim d.reference [
    | none ↦ ignored missing_reference event
    | some reference ↦
        if is_empty reference
        then ignored missing_reference event
        else map_referenced event reference d
  ]

  unfoldable pub map_paystack_event : PaystackWebhookEvent → PaymentDomainEvent
  map_paystack_event input = elim input.body [
    | none ↦ ignored missing_reference input.event
    | some d ↦ map_body input.event d
  ]
