-- ===== src/Payments/Refunds/Steps.antt =====
-- The steps that a refund takes, and that the operations of src/modules/payments/refunds.service.ts
-- take no others.
use mealdirectbackend.Common.{
  ℕ, or_else, ◌≤◌, ◌≡◌, ◌≢◌, refl, sym, ◌∙◌, ap, ◌⊎◌, inl, inr, ◌∷◌, Bool, true, false, Option,
  none, some, Result, ok, err, String, Bool-cases, arith, if◌then◌else◌,
}
use mealdirectbackend.Payouts.Client.{Thrown, http, not_found}
use mealdirectbackend.Payments.Machine.{AuthenticatedActor, World, access, admin_campus_scope}
use mealdirectbackend.Payments.Machine.Accesses.{access_cases, audit_ok}
use mealdirectbackend.Payments.Refunds.{
  RefundResult, FinalStatus, final_status, Refund, RefundStatus, approved, cancelled, failed,
  requested, succeeded, RefundRequest, Books, Resolution, is_status, map_refund_status, find_row,
  update_row, in_scope, find_refund_by_id, with_provider_retry, with_resolution, mark_resolution,
}
use mealdirectbackend.Payments.Refunds.Operations.{
  ResolveInput, require_refund, record_resolution, resolve_found, resolve_refund, decide_found,
  decide_refund, audited_action, resolution_recorded,
}

-- The actor administers the campus of the row.
abbrev pub Found : AuthenticatedActor → String → Refund → Books → Type 0
Found actor id r b =
    (scope : Option String) × (admin_campus_scope actor ≡ ok scope)
    × (find_row id b.refunds ≡ some r)
    × (in_scope scope r ≡ true)

-- Money may leave for a failed refund, in full, and for an approved one, up to its amount.
abbrev pub CanSend : Refund → RefundRequest → Type 0
CanSend r request =
    ((r.status ≡ failed) × (request.amount_kobo ≡ r.amount_kobo))
    ⊎ ((r.status ≡ approved) × (request.amount_kobo ≤ r.amount_kobo))

-- A decision on a request, or a manual resolution.
abbrev pub CanResolve : RefundStatus → RefundStatus → Type 0
CanResolve old new =
    ((old ≡ requested) × ((new ≡ approved) ⊎ (new ≡ cancelled)))
    ⊎ ((old ≢ succeeded) × ((final : FinalStatus) × (new ≡ final_status final)))

pub data RefundCall : Type 0 where
  retry : RefundCall
  resolve : ResolveInput → RefundCall
  initiate : (amount_kobo : ℕ) (reason : String) → RefundCall
  decide : (approve : Bool) → RefundCall

-- The request of a refund is of the transaction of its payment, or else of the payment's reference.
abbrev pub IsOfPayment : Refund → RefundRequest → Type 0
IsOfPayment r request =
    request.transaction ≡ or_else r.provider_transaction_id (or_else r.provider_reference "")

-- What a call may ask of the provider: a retry the whole of a refund that has failed, `initiate` the
-- given amount of a refund that is approved, and the other calls nothing.
abbrev pub Requests : RefundCall → Refund → RefundRequest → Type 0
Requests retry r request =
    (r.status ≡ failed)
    × (request.amount_kobo ≡ r.amount_kobo)
    × (request.reason_text ≡ r.reason_text)
    × IsOfPayment r request
Requests (initiate amount_kobo reason) r request =
    (r.status ≡ approved)
    × (amount_kobo ≤ r.amount_kobo)
    × (request.amount_kobo ≡ amount_kobo)
    × (request.reason_text ≡ some reason)
    × IsOfPayment r request
Requests (resolve input) r request = ⊥
Requests (decide approve) r request = ⊥

-- What a call may set a refund to: a decision approves or cancels one that is requested, a manual
-- resolution closes as it is told one that has not succeeded, and the other calls set nothing.
abbrev pub Resolves : RefundCall → Refund → Resolution → Type 0
Resolves retry r input = ⊥
Resolves (initiate amount_kobo reason) r input = ⊥
Resolves (resolve given) r input =
    (r.status ≢ succeeded)
    × (input.status ≡ final_status given.status)
    × (input.resolution_note ≡ given.resolution_note)
    × (input.failure_reason ≡ given.failure_reason)
Resolves (decide true) r input =
    (r.status ≡ requested)
    × (input.status ≡ approved)
    × (input.resolution_note ≡ none)
    × (input.failure_reason ≡ none)
Resolves (decide false) r input =
    (r.status ≡ requested)
    × (input.status ≡ cancelled)
    × (input.resolution_note ≡ none)
    × (input.failure_reason ≡ none)

pub Requests-CanSend :
    (call : RefundCall) (r : Refund) (request : RefundRequest)
    → Requests call r request
    → CanSend r request
Requests-CanSend retry r request (f, a, t, o) = inl (f, a)
Requests-CanSend (initiate amount reason) r request (f, le, a, t, o) = inr (f, omega arith)
Requests-CanSend (resolve input) r request h = absurd h
Requests-CanSend (decide approve) r request h = absurd h

pub Resolves-CanResolve :
    (call : RefundCall) (r : Refund) (input : Resolution)
    → Resolves call r input
    → CanResolve r.status input.status
Resolves-CanResolve retry r input h = absurd h
Resolves-CanResolve (initiate amount reason) r input h = absurd h
Resolves-CanResolve (resolve given) r input (n, e, t, o) = inr (n, (given.status, e))
Resolves-CanResolve (decide true) r input (q, e, t, o) = inl (q, inl e)
Resolves-CanResolve (decide false) r input (q, e, t, o) = inl (q, inr e)

-- `Answers` tells what the provider may answer to a request.
pub data RefundStep (Answers : RefundRequest → RefundResult → Type 0) (actor : AuthenticatedActor)
    (id : String) (call : RefundCall) (before after : Books) : Type 0 where
  unchanged : after ≡ before → RefundStep Answers actor id call before after
  -- The answer of the provider was not stored.
  submitted :
      (r : Refund) (request : RefundRequest)
      → Found actor id r before
      → Requests call r request
      → after ≡ record before { sent = request ∷ before.sent }
      → RefundStep Answers actor id call before after
  answered :
      (r : Refund) (request : RefundRequest) (reply : RefundResult)
      → Found actor id r before
      → Requests call r request
      → Answers request reply
      → after ≡ record before {
        sent = request ∷ before.sent;
        refunds =
            update_row id
              (with_provider_retry reply.id (map_refund_status reply.status))
              before.refunds;
      }
      → RefundStep Answers actor id call before after
  resolved :
      (r : Refund) (input : Resolution)
      → Found actor id r before
      → Resolves call r input
      → after ≡ record before {
        refunds = update_row id (with_resolution input actor.user_id) before.refunds;
      }
      → RefundStep Answers actor id call before after

pub is_status_sound : (a b : RefundStatus) → is_status a b ≡ true → a ≡ b
is_status_sound a b h = ground arith

is_status_self : (a : RefundStatus) → is_status a a ≡ true
is_status_self a = ground arith

find_refund_by_id-eq-some :
    (id : String) (scope : Option String) (b : Books) (r : Refund)
    → find_refund_by_id id scope b ≡ some r
    → (find_row id b.refunds ≡ some r) × (in_scope scope r ≡ true)
unfolding find_refund_by_id
find_refund_by_id-eq-some id scope b r h = ground arith

module _ {P : Type 0} (actor : AuthenticatedActor) (id : String) (w : World Books P) where
  abbrev Required : Type 0
  Required =
      ((r : Refund) × (w' : World Books P) × (require_refund actor id w ≡ (ok r, w'))
        × (w'.state ≡ w.state)
        × Found actor id r w.state)
      ⊎ ((e : Thrown) × (w' : World Books P) × (require_refund actor id w ≡ (err e, w'))
          × (w'.state ≡ w.state))

  required_row :
      (scope : Option String) (found : Option Refund) (w' : World Books P)
      → admin_campus_scope actor ≡ ok scope
      → find_refund_by_id id scope w.state ≡ found
      → access (λ b. some (find_refund_by_id id scope b, b)) w ≡ (ok found, w')
      → w'.state ≡ w.state
      → Required
  unfolding require_refund
  required_row scope none w' s f a same = inr (http not_found, w', rw (s, a) refl, same)
  required_row scope (some r) w' s f a same = inl (
    r,
    w',
    rw (s, a) refl,
    same,
    (
      scope,
      s,
      (find_refund_by_id-eq-some id scope w.state r f).0,
      (find_refund_by_id-eq-some id scope w.state r f).1,
    ),
  )

  -- The guard of every operation: the row in the scope of the actor, or an error.
  pub require_refund_cases : Required
  unfolding require_refund
  require_refund_cases = by_scope (admin_campus_scope actor) refl
    where
      by_scope : (s : Result Thrown (Option String)) → admin_campus_scope actor ≡ s → Required
      by_scope (err e) s = inr (e, w, rw s refl, refl)
      by_scope (ok scope) s =
          elim (access_cases (λ (b : Books). some (find_refund_by_id id scope b, b)) w) [
            | inl (found, b, w', f, a, same) ↦ required_row scope found w' s (cc f) a (same ∙ cc f)
            | inr (e, w', a, same) ↦ inr (e, w', rw (s, a) refl, same)
          ]

-- Only reading the row again leaves the books alone.
pub require_refund-state :
    {P : Type 0} (actor : AuthenticatedActor) (id : String) (w : World Books P)
    → (require_refund actor id w).1.state ≡ w.state
require_refund-state actor id w = elim (require_refund_cases actor id w) [
  | inl (r, w', e, same, f) ↦ ap (λ x. x.1.state) e ∙ same
  | inr (x, w', e, same) ↦ ap (λ x. x.1.state) e ∙ same
]

resolution_recorded-state :
    {P : Type 0} (actor : AuthenticatedActor) (id action : String) (updated : Option Refund)
    (w : World Books P)
    → (resolution_recorded actor id action updated w).1.state ≡ w.state
unfolding resolution_recorded
resolution_recorded-state actor id action none w = refl
resolution_recorded-state actor id action (some r) w =
    let (w', e, same) = audit_ok (audited_action actor action id) w in rw e same

mark_resolution-found :
    (id : String) (r : Refund) (input : Resolution) (resolved_by : String) (b : Books)
    (scope : Option String) (updated : Option Refund) (b' : Books)
    → find_row id b.refunds ≡ some r
    → in_scope scope r ≡ true
    → mark_resolution id input resolved_by scope b ≡ (updated, b')
    → b' ≡ record b { refunds = update_row id (with_resolution input resolved_by) b.refunds }
unfolding mark_resolution find_refund_by_id
mark_resolution-found id r input resolved_by b scope updated b' row inside h =
    sym (ap (λ x. x.1) h) ∙ rw (row, inside, mark_resolution, find_refund_by_id) refl

module _ {P : Type 0} (Answers : RefundRequest → RefundResult → Type 0) (actor : AuthenticatedActor)
    (id : String) where
  record_resolution-RefundStep :
      (call : RefundCall) (r : Refund) (action : String) (input : Resolution) (b : Books)
      (w : World Books P)
      → w.state ≡ b
      → Found actor id r b
      → Resolves call r input
      → RefundStep Answers actor id call b (record_resolution actor id action input w).1.state
  unfolding record_resolution
  record_resolution-RefundStep call r action input b w same (scope, s, row, inside) can =
      elim (access_cases (λ (b : Books). some (mark_resolution id input actor.user_id scope b)) w) [
        | inr (e, w1, a, same1) ↦ rw (s, a) (unchanged (same1 ∙ same))
        | inl (updated, b1, w1, marked, a, same1) ↦
            rw (s, a)
              (resolved r input (scope, s, row, inside) can
                (resolution_recorded-state actor id action updated w1
                  ∙ same1
                  ∙ mark_resolution-found id r input actor.user_id b scope updated b1 row inside
                      (cc (marked, same))))
      ]

  pub resolve_refund-RefundStep :
      (input : ResolveInput) (w : World Books P)
      → RefundStep Answers actor id
          (resolve input)
          w.state
          (resolve_refund actor id input w).1.state
  unfolding resolve_refund resolve_found
  resolve_refund-RefundStep input w = elim (require_refund_cases actor id w) [
    | inr (e, w', x, same) ↦ rw x (unchanged same)
    | inl (r, w', x, same, found) ↦ elim (Bool-cases (is_status r.status succeeded)) [
      | inl s ↦ rw (x, s) (unchanged same)
      | inr s ↦
          rw (x, s)
            (record_resolution-RefundStep (resolve input) r _ _ w.state w' same found (
              λ e. cc (s, ap (λ x. is_status x succeeded) e, is_status_self succeeded),
              refl,
              refl,
              refl,
            ))
    ]
  ]

  pub decide_refund-RefundStep :
      (approve : Bool) (w : World Books P)
      → RefundStep Answers actor id
          (decide approve)
          w.state
          (decide_refund actor id approve w).1.state
  unfolding decide_refund decide_found
  decide_refund-RefundStep approve w = elim (require_refund_cases actor id w) [
    | inr (e, w', x, same) ↦ rw x (unchanged same)
    | inl (r, w', x, same, found) ↦ elim (Bool-cases (is_status r.status requested)) [
      | inr s ↦ rw (x, s) (unchanged same)
      | inl s ↦
          rw (x, s)
            (record_resolution-RefundStep (decide approve) r _ _ w.state w' same found
              (decided approve r (is_status_sound r.status requested s)))
    ]
  ]
    where
      decided :
          (approve : Bool) (r : Refund)
          → r.status ≡ requested
          → Resolves (decide approve) r (record {
            status = if approve then approved else cancelled;
            resolution_note = none;
            failure_reason = none;
          })
      decided true r s = (s, refl, refl, refl)
      decided false r s = (s, refl, refl, refl)
