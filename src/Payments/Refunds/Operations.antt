-- ===== src/Payments/Refunds/Operations.antt =====
-- Refunds: src/modules/payments/refunds.service.ts, and `createRefund` of paystack.client.ts.
use mealdirectbackend.Common.{
  ℕ, ltb, ◌∷◌, Bool, Option, none, some, Result, ok, err, String, not, if◌then◌else◌, Num, Fields,
  field_of, or_else,
}
use mealdirectbackend.Payouts.Client.{
  Thrown, http, bad_request, not_found, bad_gateway, Reply, data_of, on_reply, string_from,
}
use mealdirectbackend.Payments.Machine.{
  AuthenticatedActor, AuditEntry, M, pure, throw, throw_if, ◌>>=◌, ◌>>◌, access, audit,
  admin_campus_scope, lift, number_from,
}
use mealdirectbackend.Payments.Refunds.{
  FinalStatus, final_status, Refund, RefundRequest, Books, RefundResult, is_status,
  map_refund_status, find_refund_by_id, apply_provider_retry, Resolution, mark_resolution, approved,
  cancelled, failed, requested, succeeded,
}

unfoldable pub audited_action : AuthenticatedActor → String → String → AuditEntry
audited_action actor action refund_id = record {
  actor_user_id = actor.user_id;
  action = action;
  entity_id = refund_id;
}

-- The transaction to refund: `providerTransactionId ?? providerReference ?? ''`.
unfoldable pub transaction_of : Refund → String
transaction_of r = or_else r.provider_transaction_id (or_else r.provider_reference "")

pub record ResolveInput : Type 0 where
  pub status : FinalStatus
  pub resolution_note : Option String
  pub failure_reason : Option String

module _ {P : Type 0} where
  unfoldable pub require_refund : AuthenticatedActor → String → M Books P Refund
  require_refund actor refund_id = do
    scope ← lift (admin_campus_scope actor)
    found ← access (λ b. some (find_refund_by_id refund_id scope b, b))
    elim found [ none ↦ throw (http not_found) | some r ↦ pure r ]

  unfoldable pub resolution_recorded :
      AuthenticatedActor → String → String → Option Refund → M Books P Refund
  resolution_recorded actor id action none = throw (http not_found)
  resolution_recorded actor id action (some r) = audit (audited_action actor action id) >> pure r

  -- `markResolution` with what follows it in `resolveRefund` and `decideRefund`.
  unfoldable pub record_resolution :
      AuthenticatedActor → String → String → Resolution → M Books P Refund
  record_resolution actor id action input = do
    scope ← lift (admin_campus_scope actor)
    updated ← access (λ b. some (mark_resolution id input actor.user_id scope b))
    resolution_recorded actor id action updated

  unfoldable pub resolve_found :
      AuthenticatedActor → String → ResolveInput → Refund → M Books P Refund
  resolve_found actor id input refund = do
    throw_if (is_status refund.status succeeded) (http bad_request)
    record_resolution actor id "refund.manual_resolution" (record {
      status = final_status input.status;
      resolution_note = input.resolution_note;
      failure_reason = input.failure_reason;
    })

  unfoldable pub resolve_refund : AuthenticatedActor → String → ResolveInput → M Books P Refund
  resolve_refund actor id input = require_refund actor id >>= resolve_found actor id input

  unfoldable pub decide_found : AuthenticatedActor → String → Bool → Refund → M Books P Refund
  decide_found actor id approve refund = do
    throw_if (not (is_status refund.status requested)) (http bad_request)
    record_resolution actor id (if approve then "refund.approve" else "refund.reject") (record {
      status = if approve then approved else cancelled;
      resolution_note = none;
      failure_reason = none;
    })

  unfoldable pub decide_refund : AuthenticatedActor → String → Bool → M Books P Refund
  decide_refund actor id approve = require_refund actor id >>= decide_found actor id approve

  unfoldable pub store_answer :
      AuthenticatedActor → String → String → RefundResult → M Books P Refund
  store_answer actor id action provider_refund = do
    access (λ b. some (
      tt,
      apply_provider_retry id provider_refund.id (map_refund_status provider_refund.status) b,
    ))
    audit (audited_action actor action id)
    require_refund actor id

-- `number_text` is `toString` of a number.
module _ (number_text : Num → String) where
  unfoldable pub refund_id : Fields → Option String
  refund_id d = elim (string_from (field_of d "id")) [
    | some s ↦ some s
    | none ↦ elim (number_from (field_of d "id")) [ none ↦ none | some n ↦ some (number_text n) ]
  ]

  unfoldable pub read_refund : Fields → Result Thrown RefundResult
  read_refund envelope = elim (data_of envelope) [
    | none ↦ err (http bad_gateway)
    | some d ↦ elim (refund_id d) [
      | none ↦ err (http bad_gateway)
      | some id ↦
          ok (record { id = id; status = or_else (string_from (field_of d "status")) "pending" })
    ]
  ]

-- `send` is the provider's side.
module _ {P : Type 0} (send : RefundRequest → P → Reply × P) (configured : Bool)
    (number_text : Num → String) where
  unfoldable pub create_refund : RefundRequest → M Books P RefundResult
  create_refund r w =
      if configured
      then (let (reply, p) = send r w.provider in
          (
            on_reply (read_refund number_text) reply,
            record w { provider = p; state = record w.state { sent = r ∷ w.state.sent } },
          ))
      else (err (http bad_request), w)

  -- Submit to the provider, store its answer, and read the row again.
  unfoldable pub submit_refund :
      AuthenticatedActor → String → String → RefundRequest → M Books P Refund
  submit_refund actor id action request = create_refund request >>= store_answer actor id action

  unfoldable pub retry_found : AuthenticatedActor → String → Refund → M Books P Refund
  retry_found actor id refund = do
    throw_if (not (is_status refund.status failed)) (http bad_request)
    submit_refund actor id "refund.retry" (record {
      amount_kobo = refund.amount_kobo;
      transaction = transaction_of refund;
      reason_text = refund.reason_text;
    })

  unfoldable pub retry_refund : AuthenticatedActor → String → M Books P Refund
  retry_refund actor id = require_refund actor id >>= retry_found actor id

  unfoldable pub initiate_found :
      AuthenticatedActor → String → ℕ → String → Refund → M Books P Refund
  initiate_found actor id amount_kobo reason refund = do
    throw_if (not (is_status refund.status approved)) (http bad_request)
    throw_if (ltb refund.amount_kobo amount_kobo) (http bad_request)
    submit_refund actor id "refund.initiate" (record {
      amount_kobo = amount_kobo;
      transaction = transaction_of refund;
      reason_text = some reason;
    })

  unfoldable pub initiate_approved_refund :
      AuthenticatedActor → String → ℕ → String → M Books P Refund
  initiate_approved_refund actor id amount_kobo reason =
      require_refund actor id >>= initiate_found actor id amount_kobo reason
