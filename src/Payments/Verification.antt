-- ===== src/Payments/Verification.antt =====
-- Payments verified with the provider: src/modules/payments/payments.service.ts,
-- `verifyPendingOrderPayment`, `reconcilePendingPayments`, `tryReconcilePayment`,
-- `getAdminPayment`, `reconcilePaystackPayment` and `forcePaymentPaid`; and `verifyTransaction` of
-- paystack.client.ts. The stored function `mark_verified_payment_successful` is a parameter.
pub mod Matching
pub mod Live
pub mod Lookup
pub mod Administration
use mealdirectbackend.Common.{
  ℕ, suc, List, [], ◌∷◌, Bool, true, false, Option, none, some, Result, ok, err, String, str_eq,
  not, if◌then◌else◌, Num, nat, Json, Fields, field_of, length, ◌==◌, ◌||◌,
}
use mealdirectbackend.Payouts.Client.{
  Thrown, http, other, bad_request, not_found, bad_gateway, Reply, data_of, on_reply, string_from,
}
use mealdirectbackend.Payments.Machine.{
  AuthenticatedActor, AuditEntry, World, M, pure, throw, throw_if, resume, ◌>>=◌, ◌>>◌, access,
  audit, admin_campus_scope, lift, number_from,
}
use mealdirectbackend.Payments.Refunds.{Books, Payment}
use mealdirectbackend.Payments.Rows.{
  is_successful, find_customer_initialization_payment, find_admin_payment_by_id,
}

pub record VerifyResult : Type 0 where
  pub status : String
  pub reference : String
  pub amount_kobo : Num
  pub currency : String
  pub transaction_id : String

-- What the stored function is called with.
pub record MarkCall : Type 0 where
  pub provider_reference : String
  pub provider_transaction_id : Option String
  pub paid_amount_kobo : Num

pub record Reconciliation : Type 0 where
  pub order_id : String
  pub payment_id : String
  pub provider_reference : String

pub record SweepCounts : Type 0 where
  pub scanned : ℕ
  pub reconciled : ℕ

-- `amount === expected`
abbrev pub is_amount : Num → ℕ → Bool
is_amount (nat n) k = n == k
is_amount _ k = false

-- The checks on the answer, in the order in which the code makes them.
unfoldable pub is_match : Payment → VerifyResult → Bool
is_match payment verified =
    if not (str_eq verified.status "success")
    then false
    else if not (str_eq verified.reference payment.provider_reference)
    then false
    else if not (is_amount verified.amount_kobo payment.expected_amount_kobo)
    then false
    else str_eq verified.currency payment.currency

unfoldable pub mark_call : Payment → VerifyResult → MarkCall
mark_call payment verified = record {
  provider_reference = payment.provider_reference;
  provider_transaction_id = some verified.transaction_id;
  paid_amount_kobo = verified.amount_kobo;
}

module _ {P : Type 0} where
  -- `catch (error) { ... return false; }`
  unfoldable pub swallow : Result Thrown Bool × World Books P → Result Thrown Bool × World Books P
  swallow (ok b, w) = (ok b, w)
  swallow (err e, w) = (ok false, w)

  unfoldable pub get_admin_payment : AuthenticatedActor → String → M Books P Payment
  get_admin_payment actor payment_id = do
    scope ← lift (admin_campus_scope actor)
    found ← access (λ b. some (find_admin_payment_by_id payment_id scope b, b))
    elim found [ none ↦ throw (http not_found) | some p ↦ pure p ]

-- `number_text` is `toString` of a number.
module _ (number_text : Num → String) where
  unfoldable pub transaction_id_of : Fields → Option String
  transaction_id_of d = elim (string_from (field_of d "id")) [
    | some s ↦ some s
    | none ↦ elim (number_from (field_of d "id")) [ none ↦ none | some n ↦ some (number_text n) ]
  ]

  unfoldable pub read_verified : Fields → Result Thrown VerifyResult
  read_verified envelope = elim (data_of envelope) [
    | none ↦ err (http bad_gateway)
    | some d ↦
        complete (string_from (field_of d "status")) (string_from (field_of d "reference"))
          (number_from (field_of d "amount")) (string_from (field_of d "currency"))
          (transaction_id_of d)
  ]
    where
      complete :
          Option String
          → Option String
          → Option Num
          → Option String
          → Option String
          → Result Thrown VerifyResult
      complete (some status) (some reference) (some amount) (some currency) (some id) = ok (record {
        status = status;
        reference = reference;
        amount_kobo = amount;
        currency = currency;
        transaction_id = id;
      })
      complete _ _ _ _ _ = err (http bad_gateway)

-- `send` answers a request to verify a transaction. `mark_paid` is the stored function: none if it
-- raises an error, else the order and the books after it.
module _ {P : Type 0} (send : String → P → Reply × P) (configured : Bool)
    (number_text : Num → String) (mark_paid : MarkCall → Books → Option (String × Books)) where
  unfoldable pub verify_transaction : String → M Books P VerifyResult
  verify_transaction reference w =
      if configured
      then (let (reply, p) = send reference w.provider in
          (on_reply (read_verified number_text) reply, record w { provider = p }))
      else (err (http bad_request), w)

  unfoldable pub mark_if_match : Payment → VerifyResult → M Books P Bool
  mark_if_match payment verified = elim (is_match payment verified) [
    | false ↦ pure false
    | true ↦ access (mark_paid (mark_call payment verified)) >>= λ order. pure true
  ]

  -- Whatever is thrown is logged, and the answer is false.
  unfoldable pub try_reconcile_payment : Payment → M Books P Bool
  try_reconcile_payment payment w =
      swallow ((verify_transaction payment.provider_reference >>= mark_if_match payment) w)

  unfoldable pub reconcile_each : List Payment → ℕ → M Books P ℕ
  reconcile_each [] reconciled = pure reconciled
  reconcile_each (p ∷ payments) reconciled = try_reconcile_payment p >>= λ done.
      reconcile_each payments (if done then suc reconciled else reconciled)

  -- `find_stuck` is the query with its clock.
  unfoldable pub reconcile_pending_payments :
      (ℕ → ℕ → Books → List Payment) → ℕ → ℕ → M Books P SweepCounts
  reconcile_pending_payments find_stuck stale_seconds limit w =
      sweep_listed (access (λ b. some (find_stuck stale_seconds limit b, b)) w)
    where
      sweep_listed :
          Result Thrown (List Payment) × World Books P → Result Thrown SweepCounts × World Books P
      sweep_listed (err e, w) = (ok (record { scanned = 0; reconciled = 0 }), w)
      sweep_listed (ok payments, w) =
          resume (reconcile_each payments 0 w)
            (λ reconciled. pure (record { scanned = length payments; reconciled = reconciled }))

  unfoldable pub verify_pending_order_payment : String → String → M Books P (Unit {0})
  verify_pending_order_payment customer_id order_id w =
      verify_found
        (access (λ b. some (find_customer_initialization_payment customer_id order_id b, b)) w)
    where
      verify_found :
          Result Thrown (Option Payment) × World Books P → Result Thrown (Unit {0}) × World Books P
      verify_found (err e, w) = (ok tt, w)
      verify_found (ok none, w) = (ok tt, w)
      verify_found (ok (some p), w) = resume (try_reconcile_payment p w) (λ done. pure tt)

  unfoldable pub reconcile_verified : Payment → VerifyResult → M Books P Reconciliation
  reconcile_verified payment verified = do
    throw_if (not (str_eq verified.status "success")) (http bad_request)
    throw_if (not (str_eq verified.reference payment.provider_reference)) (http bad_request)
    throw_if (not (is_amount verified.amount_kobo payment.expected_amount_kobo)) (http bad_request)
    throw_if (not (str_eq verified.currency payment.currency)) (http bad_request)
    order_id ← access (mark_paid (mark_call payment verified))
    pure (record {
      order_id = order_id;
      payment_id = payment.id;
      provider_reference = payment.provider_reference;
    })

  unfoldable pub reconcile_paystack_payment : AuthenticatedActor → String → M Books P Reconciliation
  reconcile_paystack_payment actor payment_id = do
    payment ← get_admin_payment actor payment_id
    verified ← verify_transaction payment.provider_reference
    reconcile_verified payment verified

  unfoldable pub force_found : AuthenticatedActor → Payment → M Books P Reconciliation
  force_found actor payment = do
    throw_if (is_successful payment.payment_status) (http bad_request)
    order_id ← access (
        mark_paid (record {
          provider_reference = payment.provider_reference;
          provider_transaction_id = none;
          paid_amount_kobo = nat payment.expected_amount_kobo;
        }))
    audit (record {
      actor_user_id = actor.user_id;
      action = "payment.force_paid";
      entity_id = payment.id;
    })
    pure (record {
      order_id = order_id;
      payment_id = payment.id;
      provider_reference = payment.provider_reference;
    })

  unfoldable pub force_payment_paid : AuthenticatedActor → String → M Books P Reconciliation
  force_payment_paid actor payment_id = get_admin_payment actor payment_id >>= force_found actor
