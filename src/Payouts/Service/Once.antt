-- ===== src/Payouts/Service/Once.antt =====
-- That a settlement is paid once: src/modules/settlements/payout.service.ts.
use mathlib.Core.Path.{sym}
use mealdirectbackend.Common.{
  ℕ, ◌≡◌, refl, ◌⊎◌, inl, inr, Bool, true, false, Option, none, some, Result, ok, err, String,
  arith, ap, is_some,
}
use mealdirectbackend.Domain.PaymentEvents.{TransferStatus}
use mealdirectbackend.Payouts.Store.{
  StoredStatus, PayoutTransferRecord, PayoutContext, Store, is_live, RecordTransferInput,
  find_active_transfer, find_payout_context, next_attempt, record_transfer, apply_reconcile,
}
use mealdirectbackend.Payouts.Store.Active.{record_transfer-active, apply_reconcile-active}
use mealdirectbackend.Payouts.Client.{
  Thrown, ApiCall, Reply, World, M, pure, resume, query, update, access, initiate_transfer,
}
use mealdirectbackend.Payouts.Service.{
  final, settle_final, record_and_settle, send_transfer, pay_recipient, pay_context, pay_inactive,
  pay_to_settlement,
}
use mealdirectbackend.Payouts.Service.Sending.{pay_to_settlement_sends}

final_live :
    (x : StoredStatus) {t : TransferStatus}
    → is_live x ≡ true
    → final x ≡ some t
    → t ≡ TransferStatus.success
final_live x l e = ground arith

module _ {P : Type 0} where
  abbrev Returned : {A : Type 0} → Result Thrown A × World P → A → World P → Type 0
  Returned r a w = r ≡ (ok a, w)

  resume-eq-ok :
      {A B : Type 0} (r : Result Thrown A × World P) (f : A → M P B) {b : B} {w' : World P}
      → resume r f ≡ (ok b, w')
      → (a : A) × (w : World P) × (r ≡ (ok a, w)) × (f a w ≡ (ok b, w'))
  resume-eq-ok (ok a, w) f h = (a, w, refl, h)
  resume-eq-ok (err e, w) f h = cc (ap (λ (x : Result Thrown _ × World P). x.0) h)

  access-eq-ok :
      {A : Type 0} (f : Store → A × Store) (w : World P) {a : A} {w' : World P}
      → access f w ≡ (ok a, w')
      → (a ≡ (f w.store).0) × (w'.store ≡ (f w.store).1)
  access-eq-ok f w h = (ground arith, ground arith)

  settle_final-eq-ok :
      (row : PayoutTransferRecord) (o : Option TransferStatus) (w : World P)
      {row' : PayoutTransferRecord} {w' : World P}
      → settle_final row o w ≡ (ok row', w')
      → (row' ≡ row)
        × ((w'.store ≡ w.store)
            ⊎ ((status : TransferStatus) × (o ≡ some status)
                × (w'.store ≡ apply_reconcile row.reference status w.store)))
  unfolding settle_final
  settle_final-eq-ok row none w h = (ground arith, inl (ground arith))
  settle_final-eq-ok row (some status) w h =
      let (a, v, e, k) =
        resume-eq-ok (update (apply_reconcile row.reference status) w) (λ _. pure row) h in
      let (_, st) = access-eq-ok (λ s. (tt, apply_reconcile row.reference status s)) w e in
      (ground arith, inr (status, refl, ground (arith, st)))

  record_and_settle-active :
      (input : RecordTransferInput) (w : World P) {row : PayoutTransferRecord} {w' : World P}
      → record_and_settle input w ≡ (ok row, w')
      → is_live row.status ≡ true
      → is_some (find_active_transfer input.settlement_id w'.store) ≡ true
  unfolding record_and_settle
  record_and_settle-active input w {row} {w'} h l =
      let (row₀, v, e, k) =
        resume-eq-ok (access (record_transfer input) w) (λ row. settle_final row (final row.status))
          h in
      let (e₁, st) = access-eq-ok (record_transfer input) w e in
      let (same, rest) = settle_final-eq-ok row₀ (final row₀.status) v k in
      let live : is_live (record_transfer input w.store).0.status ≡ true =
        ground (arith, same, e₁) in
      let now = record_transfer-active input w.store live in
      let now' : is_some (find_active_transfer input.settlement_id v.store) ≡ true = rw st now in
      elim rest [
        | inl kept ↦ rw kept now'
        | inr (status, s, st') ↦
            let e₂ : status ≡ TransferStatus.success =
              final_live row₀.status (ground (arith, live, e₁)) s in
            rw (st', e₂) (apply_reconcile-active input.settlement_id row₀.reference v.store now')
      ]

module _ {P : Type 0} (digits : ℕ → String) (send : ApiCall → P → Reply × P)
    (configured : Bool) where
  pay_recipient-active :
      (settlement_id : String) (by : Option String) (payable : ℕ) (recipient : Option String)
      (w : World P) {row : PayoutTransferRecord} {w' : World P}
      → pay_recipient digits send configured settlement_id by payable recipient w ≡ (ok row, w')
      → is_live row.status ≡ true
      → is_some (find_active_transfer settlement_id w'.store) ≡ true
  unfolding pay_recipient send_transfer
  pay_recipient-active settlement_id by payable none w h l =
      cc (ap (λ (x : Result Thrown _ × World P). x.0) h)
  pay_recipient-active settlement_id by payable (some recipient) w h l =
      let (attempt, w₁, e, k) = resume-eq-ok (query (next_attempt settlement_id) w) _ h in
      let (transfer, w₂, e₂, k₂) = resume-eq-ok (initiate_transfer send configured _ w₁) _ k in
      record_and_settle-active _ w₂ k₂ l

  pay_context-active :
      (settlement_id : String) (by : Option String) (o : Option PayoutContext) (w : World P)
      {row : PayoutTransferRecord} {w' : World P}
      → pay_context digits send configured settlement_id by o w ≡ (ok row, w')
      → is_live row.status ≡ true
      → is_some (find_active_transfer settlement_id w'.store) ≡ true
  unfolding pay_context
  pay_context-active settlement_id by none w h l =
      cc (ap (λ (x : Result Thrown _ × World P). x.0) h)
  pay_context-active settlement_id by (some c) w h l =
      pay_recipient-active settlement_id by c.payable_kobo c.recipient_code w h l

  pay_inactive-active :
      (settlement_id : String) (by : Option String) (o : Option PayoutTransferRecord)
      (w w₁ : World P) {row : PayoutTransferRecord} {w' : World P}
      → find_active_transfer settlement_id w.store ≡ o
      → w₁.store ≡ w.store
      → pay_inactive digits send configured settlement_id by o w₁ ≡ (ok row, w')
      → is_live row.status ≡ true
      → is_some (find_active_transfer settlement_id w'.store) ≡ true
  unfolding pay_inactive
  pay_inactive-active settlement_id by (some active) w w₁ {w' = w'} a st h l =
      let same : w₁ ≡ w' = ap (λ (x : Result Thrown PayoutTransferRecord × World P). x.1) h in
      rw (sym same, st, a) refl
  pay_inactive-active settlement_id by none w w₁ a st h l =
      let (o, w₂, e, k) = resume-eq-ok (query (find_payout_context settlement_id) w₁) _ h in
      pay_context-active settlement_id by o w₂ k l

  enabled-active :
      (enabled : Bool) (settlement_id : String) (by : Option String) (w : World P)
      {row : PayoutTransferRecord} {w' : World P}
      → pay_to_settlement digits send configured enabled settlement_id by w ≡ (ok row, w')
      → is_live row.status ≡ true
      → is_some (find_active_transfer settlement_id w'.store) ≡ true
  unfolding pay_to_settlement
  enabled-active false settlement_id by w h l = cc (ap (λ (x : Result Thrown _ × World P). x.0) h)
  enabled-active true settlement_id by w h l =
      let (o, w₁, e, k) = resume-eq-ok (query (find_active_transfer settlement_id) w) _ h in
      let (found, st) = access-eq-ok (λ s. (find_active_transfer settlement_id s, s)) w e in
      pay_inactive-active settlement_id by o w w₁ (sym found) st k l

module _ {P : Type 0} (digits : ℕ → String) (send : ApiCall → P → Reply × P)
    (configured enabled : Bool) where
  -- A settlement is not paid again. Say that a call of `payToSettlement` returned a pending or
  -- successful transfer. A call after it, whoever asks and whatever the provider or the database does
  -- then, sends no transfer, as long as the tables are those that the first call left.
  pub pay_to_settlement_once :
      (settlement_id : String) (by by' : Option String) (w v : World P) (row : PayoutTransferRecord)
      (w' : World P)
      → pay_to_settlement digits send configured enabled settlement_id by w ≡ (ok row, w')
      → is_live row.status ≡ true
      → v.store ≡ w'.store
      → (pay_to_settlement digits send configured enabled settlement_id by' v).1.sent ≡ v.sent
  pay_to_settlement_once settlement_id by by' w v row w' h l same =
      let active = enabled-active digits send configured enabled settlement_id by w h l in
      elim (pay_to_settlement_sends digits send configured enabled settlement_id by' v) [
        | inl none_sent ↦ none_sent
        | inr (r, on, (context, recipient, _, idle, _, _, _), one) ↦
            ground (arith, active, same, idle)
      ]
