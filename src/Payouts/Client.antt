-- ===== src/Payouts/Client.antt =====
-- Requests to the payment provider: src/modules/payments/paystack.client.ts, `request`,
-- `initiateTransfer` and `fetchTransfer`; and the monad in which the payout service runs.
use mealdirectbackend.Common.{
  ℕ, List, [], ◌∷◌, Bool, false, Option, none, some, Result, ok, err, String, str_eq, if◌then◌else◌,
  ◌&&◌, Json, Fields, boolean, str, obj, field_of,
}
use mealdirectbackend.Payouts.Store.{Store}

-- The subclasses of `HttpException` that are thrown.
pub data HttpError : Type 0 where
  bad_request bad_gateway forbidden not_found payout_unavailable : HttpError

-- What is thrown: an `HttpException` or any other error, such as a failure of the network or of the
-- database.
pub data Thrown : Type 0 where
  http : HttpError → Thrown
  other : Thrown

pub record TransferRequest : Type 0 where
  pub amount_kobo : ℕ
  pub recipient_code : String
  pub reference : String
  pub settlement_id : String

pub data ApiCall : Type 0 where
  initiate : TransferRequest → ApiCall
  verify : (reference : String) → ApiCall

-- What comes back from `fetch` and `response.json()`: a thrown error, or `response.ok` and the body.
pub data Reply : Type 0 where
  no_answer : Reply
  answer : (is_ok : Bool) (body : Json) → Reply

-- The database, the provider with whatever it keeps, the transfers that were sent to it so far, the
-- last first, and for each coming access to the database whether it fails (none fails behind the end).
pub record World (P : Type 0) : Type 0 where
  pub store : Store
  pub provider : P
  pub sent : List TransferRequest
  pub outages : List Bool

abbrev pub M : Type 0 → Type 0 → Type 0
M P A = World P → Result Thrown A × World P

module _ {P : Type 0} where
  abbrev pub pure : {A : Type 0} → A → M P A
  pure a w = (ok a, w)

  abbrev pub throw : {A : Type 0} → Thrown → M P A
  throw e w = (err e, w)

  abbrev pub resume :
      {A B : Type 0} → Result Thrown A × World P → (A → M P B) → Result Thrown B × World P
  resume (ok a, w) f = f a w
  resume (err e, w) f = (err e, w)

  infixl 5 ◌>>=◌ ◌>>◌
  abbrev pub ◌>>=◌ : {A B : Type 0} → M P A → (A → M P B) → M P B
  ◌>>=◌ m f w = resume (m w) f

  abbrev pub ◌>>◌ : {B : Type 0} → M P (Unit {0}) → M P B → M P B
  m >> k = m >>= λ _. k

  -- An access to the database; one that fails changes nothing.
  abbrev pub access : {A : Type 0} → (Store → A × Store) → M P A
  access f w = elim w.outages [
    | [] ↦ (ok (f w.store).0, record w { store = (f w.store).1 })
    | down ∷ later ↦
        if down
        then (err other, record w { outages = later })
        else (ok (f w.store).0, record w { store = (f w.store).1; outages = later })
  ]

  abbrev pub query : {A : Type 0} → (Store → A) → M P A
  query f = access (λ s. (f s, s))

  abbrev pub update : (Store → Store) → M P (Unit {0})
  update f = access (λ s. (tt, f s))

-- `envelope.status`
abbrev pub is_true : Option Json → Bool
is_true (some (boolean b)) = b
is_true _ = false

-- `stringFrom`
abbrev pub string_from : Option Json → Option String
string_from (some (str s)) = if str_eq s "" then none else some s
string_from _ = none

-- The end of `request`: the envelope, or what is thrown.
unfoldable pub read_reply : Reply → Result Thrown Fields
read_reply no_answer = err other
read_reply (answer is_ok (obj fields)) =
    if is_ok && is_true (field_of fields "status") then ok fields else err (http bad_gateway)
read_reply (answer is_ok _) = err (http bad_gateway)

-- `envelope.data`, if it is a record.
unfoldable pub data_of : Fields → Option Fields
data_of envelope = elim (field_of envelope "data") [
  | none ↦ none
  | some j ↦ elim j [ obj fields ↦ some fields | _ ↦ none ]
]

pub record TransferResult : Type 0 where
  pub envelope : Fields
  pub status : String
  pub transfer_code : String

unfoldable pub read_transfer : Fields → Result Thrown TransferResult
read_transfer envelope = elim (data_of envelope) [
  | none ↦ err (http bad_gateway)
  | some d ↦ elim (string_from (field_of d "transfer_code")) [
    | none ↦ err (http bad_gateway)
    | some code ↦ ok (record {
      envelope = envelope;
      status = elim (string_from (field_of d "status")) [ none ↦ "pending" | some s ↦ s ];
      transfer_code = code;
    })
  ]
]

pub record FetchResult : Type 0 where
  pub envelope : Fields
  pub status : String

unfoldable pub read_fetched : Fields → Result Thrown FetchResult
read_fetched envelope = elim (data_of envelope) [
  | none ↦ err (http bad_gateway)
  | some d ↦ elim (string_from (field_of d "status")) [
    | none ↦ err (http bad_gateway)
    | some s ↦ ok (record { envelope = envelope; status = s })
  ]
]

abbrev pub on_reply : {A : Type 0} → (Fields → Result Thrown A) → Reply → Result Thrown A
on_reply read reply = elim (read_reply reply) [ ok fields ↦ read fields | err e ↦ err e ]

-- `send` is the provider's side: what it answers to a call, and what it keeps then.
module _ {P : Type 0} (send : ApiCall → P → Reply × P) (configured : Bool) where
  unfoldable pub initiate_transfer : TransferRequest → M P TransferResult
  initiate_transfer r w =
      if configured
      then (let (reply, p) = send (initiate r) w.provider in
          (on_reply read_transfer reply, record w { provider = p; sent = r ∷ w.sent }))
      else (err (http bad_request), w)

  unfoldable pub fetch_transfer : String → M P FetchResult
  fetch_transfer reference w =
      if configured
      then (let (reply, p) = send (verify reference) w.provider in
          (on_reply read_fetched reply, record w { provider = p }))
      else (err (http bad_request), w)
