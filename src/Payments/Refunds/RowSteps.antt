-- ===== src/Payments/Refunds/RowSteps.antt =====
-- What an operation of src/modules/payments/refunds.service.ts does to one row.
use mathlib.Core.Path.{subst}
use mealdirectbackend.Common.{◌≡◌, refl, inl, inr, some, String}
use mealdirectbackend.Payments.Machine.{AuthenticatedActor}
use mealdirectbackend.Payments.Refunds.{
  Refund, RefundStatus, RefundRequest, RefundResult, Books, Resolution, map_refund_status, find_row,
  with_provider_retry, with_resolution,
}
use mealdirectbackend.Payments.Refunds.Rows.{update_row_cases}
use mealdirectbackend.Payments.Refunds.Steps.{
  RefundCall, Requests-CanSend, Resolves-CanResolve, Found, CanSend, CanResolve, RefundStep,
  unchanged, submitted, answered, resolved,
}

with_provider_retry-id :
    (reference : String) (status : RefundStatus) (r : Refund)
    → (with_provider_retry reference status r).id ≡ r.id
unfolding with_provider_retry
with_provider_retry-id reference status r = refl

with_resolution-id :
    (input : Resolution) (by : String) (r : Refund) → (with_resolution input by r).id ≡ r.id
unfolding with_resolution
with_resolution-id input by r = refl

-- What a step of an actor on a refund does to the row with a given key.
pub data RowStep (actor : AuthenticatedActor) (id key : String) (b : Books) (r r' : Refund)
    : Type 0 where
  same : r' ≡ r → RowStep actor id key b r r'
  paid_back :
      (request : RefundRequest) (reference status : String)
      → key ≡ id
      → Found actor id r b
      → CanSend r request
      → r' ≡ with_provider_retry reference (map_refund_status status) r
      → RowStep actor id key b r r'
  settled :
      (input : Resolution)
      → key ≡ id
      → Found actor id r b
      → CanResolve r.status input.status
      → r' ≡ with_resolution input actor.user_id r
      → RowStep actor id key b r r'

Found-row :
    (actor : AuthenticatedActor) (id key : String) (b : Books) (r r0 : Refund)
    → key ≡ id
    → find_row key b.refunds ≡ some r
    → Found actor id r0 b
    → r0 ≡ r
Found-row actor id key b r r0 e row (scope, s, row0, inside) = cc

pub RefundStep-row :
    (Answers : RefundRequest → RefundResult → Type 0) (actor : AuthenticatedActor) (id key : String)
    (call : RefundCall) (b b' : Books) (r : Refund)
    → RefundStep Answers actor id call b b'
    → find_row key b.refunds ≡ some r
    → (r' : Refund) × (find_row key b'.refunds ≡ some r') × RowStep actor id key b r r'
RefundStep-row Answers actor id key call b b' r (unchanged e) row = (r, rw e row, same refl)
RefundStep-row Answers actor id key call b b' r (submitted r0 request found can e) row =
    (r, rw e row, same refl)
RefundStep-row Answers actor id key call b b' r (answered r0 request reply found can given e) row =
    elim (update_row_cases (with_provider_retry reply.id (map_refund_status reply.status))
      (with_provider_retry-id reply.id (map_refund_status reply.status)) id key b.refunds r row) [
        | inr kept ↦ (r, rw e kept, same refl)
        | inl (k, changed) ↦
            let eq = Found-row actor id key b r r0 k row found in
            (
              _,
              rw e changed,
              paid_back request reply.id reply.status k (subst (λ x. Found actor id x b) eq found)
                  (subst (λ x. CanSend x request) eq (Requests-CanSend call r0 request can)) refl,
            )
      ]
RefundStep-row Answers actor id key call b b' r (resolved r0 input found can e) row =
    elim (update_row_cases (with_resolution input actor.user_id)
      (with_resolution-id input actor.user_id) id key b.refunds r row) [
        | inr kept ↦ (r, rw e kept, same refl)
        | inl (k, changed) ↦
            let eq = Found-row actor id key b r r0 k row found in
            (
              _,
              rw e changed,
              settled input k (subst (λ x. Found actor id x b) eq found)
                  (subst (λ x. CanResolve x.status input.status) eq
                    (Resolves-CanResolve call r0 input can))
                  refl,
            )
      ]
