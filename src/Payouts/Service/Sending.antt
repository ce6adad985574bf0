-- ===== src/Payouts/Service/Sending.antt =====
-- When a transfer is sent to the provider: src/modules/settlements/payout.service.ts.
use mathlib.Core.Path.{sym}
use mealdirectbackend.Common.{
  ℕ, ◌≡◌, refl, ◌∙◌, ◌⊎◌, inl, inr, List, [], ◌∷◌, Bool, true, false, Option, none, some, Result,
  ok, err, String, arith, Bool-cases, ap,
}
use mealdirectbackend.Domain.PaymentEvents.{TransferStatus}
use mealdirectbackend.Payouts.Store.{
  PayoutTransferRecord, PayoutContext, Store, RecordTransferInput, find_active_transfer,
  find_payout_context, next_attempt, record_transfer, apply_reconcile, cancel_on_demand_settlement,
}
use mealdirectbackend.Payouts.Client.{
  Thrown, http, other, TransferRequest, ApiCall, payout_unavailable, FetchResult, Reply, World, M,
  pure, throw, resume, ◌>>=◌, query, update, access, initiate_transfer, fetch_transfer,
}
use mealdirectbackend.Payouts.Service.{
  final, reference_for, settle_final, record_and_settle, send_transfer, pay_recipient, pay_context,
  pay_inactive, pay_to_settlement, resolve_withdrawal,
}

module _ {P : Type 0} where
  pub access-sent :
      {A : Type 0} (f : Store → A × Store) (w : World P) → (access f w).1.sent ≡ w.sent
  access-sent f w = ground arith

  -- A query either answers from the store or fails, and changes neither the store nor what was sent.
  abbrev pub QueryCases : {A : Type 0} → (Store → A) → World P → Type 0
  QueryCases f w =
      ((w' : World P) × (query f w ≡ (ok (f w.store), w'))
        × (w'.store ≡ w.store)
        × (w'.sent ≡ w.sent))
      ⊎ ((w' : World P) × (query f w ≡ (err other, w')) × (w'.store ≡ w.store) × (w'.sent ≡ w.sent))

  pub query_cases : {A : Type 0} (f : Store → A) (w : World P) → QueryCases f w
  query_cases f w = go w.outages refl
    where
      go : (o : List Bool) → w.outages ≡ o → QueryCases f w
      go [] e = inl (w, rw e refl, refl, refl)
      go (true ∷ later) e = inr (record w { outages = later }, rw e refl, refl, refl)
      go (false ∷ later) e = inl (record w { outages = later }, rw e refl, refl, refl)

  pub resume-sent :
      {A B : Type 0} (r : Result Thrown A × World P) (f : A → M P B)
      → ((a : A) (w : World P) → (f a w).1.sent ≡ w.sent)
      → (resume r f).1.sent ≡ r.1.sent
  resume-sent (ok a, w) f h = h a w
  resume-sent (err e, w) f h = refl

  pub bind-sent :
      {A B : Type 0} (m : M P A) (f : A → M P B) (w : World P)
      → (m w).1.sent ≡ w.sent
      → ((a : A) (v : World P) → (f a v).1.sent ≡ v.sent)
      → ((m >>= f) w).1.sent ≡ w.sent
  bind-sent m f w h k = resume-sent (m w) f k ∙ h

  settle_final-sent :
      (row : PayoutTransferRecord) (o : Option TransferStatus) (w : World P)
      → (settle_final row o w).1.sent ≡ w.sent
  unfolding settle_final
  settle_final-sent row none w = refl
  settle_final-sent row (some status) w =
      bind-sent (update (apply_reconcile row.reference status)) (λ _. pure row) w
        (access-sent (λ s. (tt, apply_reconcile row.reference status s)) w) (λ a v. refl)

  record_and_settle-sent :
      (input : RecordTransferInput) (w : World P) → (record_and_settle input w).1.sent ≡ w.sent
  unfolding record_and_settle
  record_and_settle-sent input w =
      bind-sent (access (record_transfer input)) (λ row. settle_final row (final row.status)) w
        (access-sent (record_transfer input) w)
        (λ row v. settle_final-sent row (final row.status) v)

  pub resolve_withdrawal-sent :
      (settlement_id initiated_by : String) (r : Result Thrown FetchResult) (w : World P)
      → (resolve_withdrawal settlement_id initiated_by r w).1.sent ≡ w.sent
  unfolding resolve_withdrawal
  resolve_withdrawal-sent settlement_id initiated_by (err other) w = refl
  resolve_withdrawal-sent settlement_id initiated_by (err (http e)) w =
      bind-sent (update (cancel_on_demand_settlement settlement_id))
        (λ _. throw (http payout_unavailable)) w
        (access-sent (λ s. (tt, cancel_on_demand_settlement settlement_id s)) w) (λ a v. refl)
  resolve_withdrawal-sent settlement_id initiated_by (ok fetched) w =
      bind-sent (query (find_payout_context settlement_id)) _ w
        (access-sent (λ s. (find_payout_context settlement_id s, s)) w)
        (λ c v.
          bind-sent (record_and_settle _) (λ row. pure (some row)) v (record_and_settle-sent _ v)
            (λ row u. refl))

abbrev pub request_for : (ℕ → String) → String → PayoutContext → String → Store → TransferRequest
request_for digits settlement_id context recipient s = record {
  amount_kobo = context.payable_kobo;
  recipient_code = recipient;
  reference = reference_for digits settlement_id (next_attempt settlement_id s);
  settlement_id = settlement_id;
}

module _ {P : Type 0} (send : ApiCall → P → Reply × P) (configured : Bool) where
  initiate_transfer-sent :
      (r : TransferRequest) (w : World P)
      → ((initiate_transfer send configured r w).1.sent ≡ w.sent)
        ⊎ ((configured ≡ true) × ((initiate_transfer send configured r w).1.sent ≡ r ∷ w.sent))
  unfolding initiate_transfer
  initiate_transfer-sent r w = ground arith

  pub fetch_transfer-sent :
      (reference : String) (w : World P)
      → (fetch_transfer send configured reference w).1.sent ≡ w.sent
  unfolding fetch_transfer
  fetch_transfer-sent reference w = ground arith

module _ {P : Type 0} (digits : ℕ → String) (send : ApiCall → P → Reply × P)
    (configured : Bool) where
  -- What it takes for a transfer to be sent, in the state before the call.
  abbrev pub IsDue : String → World P → TransferRequest → Type 0
  IsDue settlement_id w r =
      (context : PayoutContext) × (recipient : String) × (configured ≡ true)
      × (find_active_transfer settlement_id w.store ≡ none)
      × (find_payout_context settlement_id w.store ≡ some context)
      × (context.recipient_code ≡ some recipient)
      × (r ≡ request_for digits settlement_id context recipient w.store)

  send_transfer-sent :
      (settlement_id : String) (by : Option String) (payable : ℕ) (recipient : String) (attempt : ℕ)
      (w : World P)
      → ((send_transfer digits send configured settlement_id by payable recipient attempt w).1.sent
          ≡ w.sent)
        ⊎ ((configured ≡ true)
            × ((send_transfer digits send configured settlement_id by payable recipient attempt
                  w).1.sent
                ≡ record {
                  amount_kobo = payable;
                  recipient_code = recipient;
                  reference = reference_for digits settlement_id attempt;
                  settlement_id = settlement_id;
                }
                  ∷ w.sent))
  unfolding send_transfer
  send_transfer-sent settlement_id by payable recipient attempt w =
      let r : TransferRequest = record {
        amount_kobo = payable;
        recipient_code = recipient;
        reference = reference_for digits settlement_id attempt;
        settlement_id = settlement_id;
      } in
      let rest =
        resume-sent (initiate_transfer send configured r w) _ (λ a v. record_and_settle-sent _ v) in
      elim (initiate_transfer-sent send configured r w) [
        | inl same ↦ inl (rest ∙ same)
        | inr (c, one) ↦ inr (c, rest ∙ one)
      ]

  pay_recipient-sent :
      (settlement_id : String) (by : Option String) (w w₁ : World P) (context : PayoutContext)
      (recipient : Option String)
      → w₁.store ≡ w.store
      → w₁.sent ≡ w.sent
      → find_active_transfer settlement_id w.store ≡ none
      → find_payout_context settlement_id w.store ≡ some context
      → context.recipient_code ≡ recipient
      → let w' =
          (pay_recipient digits send configured settlement_id by context.payable_kobo recipient
            w₁).1 in
        (w'.sent ≡ w.sent)
        ⊎ ((r : TransferRequest) × IsDue settlement_id w r × (w'.sent ≡ r ∷ w.sent))
  unfolding pay_recipient
  pay_recipient-sent settlement_id by w w₁ context none st q a c e = inl q
  pay_recipient-sent settlement_id by w w₁ context (some recipient) st q a c e =
      elim (query_cases (next_attempt settlement_id) w₁) [
        | inr (w₂, f, _, q₂) ↦ inl (rw f (q₂ ∙ q))
        | inl (w₂, f, _, q₂) ↦
            elim (send_transfer-sent settlement_id by context.payable_kobo recipient
              (next_attempt settlement_id w₁.store) w₂) [
                | inl same ↦ inl (rw f (same ∙ q₂ ∙ q))
                | inr (on, one) ↦ inr (
                  request_for digits settlement_id context recipient w.store,
                  (context, recipient, on, a, c, e, refl),
                  rw f (
                      one ∙ (λ i.
                        request_for digits settlement_id context recipient (st i) ∷ (q₂ ∙ q) i)),
                )
              ]
      ]

  pay_context-sent :
      (settlement_id : String) (by : Option String) (w w₁ : World P) (o : Option PayoutContext)
      → w₁.store ≡ w.store
      → w₁.sent ≡ w.sent
      → find_active_transfer settlement_id w.store ≡ none
      → find_payout_context settlement_id w.store ≡ o
      → let w' = (pay_context digits send configured settlement_id by o w₁).1 in
        (w'.sent ≡ w.sent)
        ⊎ ((r : TransferRequest) × IsDue settlement_id w r × (w'.sent ≡ r ∷ w.sent))
  unfolding pay_context
  pay_context-sent settlement_id by w w₁ none st q a c = inl q
  pay_context-sent settlement_id by w w₁ (some context) st q a c =
      pay_recipient-sent settlement_id by w w₁ context context.recipient_code st q a c refl

  pay_inactive-sent :
      (settlement_id : String) (by : Option String) (w w₁ : World P)
      (o : Option PayoutTransferRecord)
      → w₁.store ≡ w.store
      → w₁.sent ≡ w.sent
      → find_active_transfer settlement_id w.store ≡ o
      → let w' = (pay_inactive digits send configured settlement_id by o w₁).1 in
        (w'.sent ≡ w.sent)
        ⊎ ((r : TransferRequest) × IsDue settlement_id w r × (w'.sent ≡ r ∷ w.sent))
  unfolding pay_inactive
  pay_inactive-sent settlement_id by w w₁ (some active) st q a = inl q
  pay_inactive-sent settlement_id by w w₁ none st q a =
      elim (query_cases (find_payout_context settlement_id) w₁) [
        | inr (w₂, f, _, q₂) ↦ inl (rw f (q₂ ∙ q))
        | inl (w₂, f, st₂, q₂) ↦ rw f (
            pay_context-sent settlement_id by w w₂ (find_payout_context settlement_id w₁.store)
              (st₂ ∙ st) (q₂ ∙ q) a (ap (find_payout_context settlement_id) (sym st)))
      ]

module _ {P : Type 0} (digits : ℕ → String) (send : ApiCall → P → Reply × P)
    (configured enabled : Bool) where
  -- A call of `payToSettlement` sends at most one transfer. It sends one only if payouts are enabled,
  -- the provider is configured, the settlement has no pending or successful transfer and its
  -- beneficiary has a recipient; the transfer is then for the payable amount, to that recipient, under
  -- the reference of the next attempt.
  pub pay_to_settlement_sends :
      (settlement_id : String) (by : Option String) (w : World P)
      → let w' = (pay_to_settlement digits send configured enabled settlement_id by w).1 in
        (w'.sent ≡ w.sent)
        ⊎ ((r : TransferRequest) × (enabled ≡ true)
            × IsDue digits send configured settlement_id w r
            × (w'.sent ≡ r ∷ w.sent))
  unfolding pay_to_settlement
  pay_to_settlement_sends settlement_id by w = elim (Bool-cases enabled) [
    | inr off ↦ inl (rw off refl)
    | inl on ↦ elim (query_cases (find_active_transfer settlement_id) w) [
      | inr (w₁, e, _, q) ↦ inl (rw (on, e) q)
      | inl (w₁, e, st, q) ↦
          rw (on, e)
            (elim (pay_inactive-sent digits send configured settlement_id by w w₁
              (find_active_transfer settlement_id w.store) st q refl) [
                | inl same ↦ inl same
                | inr (r, due, one) ↦ inr (r, refl, due, one)
              ])
    ]
  ]
