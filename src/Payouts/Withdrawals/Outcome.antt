-- ===== src/Payouts/Withdrawals/Outcome.antt =====
-- What becomes of a withdrawal whose payment failed: src/modules/settlements/payout.service.ts,
-- `payWithdrawal`.
use Prim.Native.String.{◌++◌}
use mealdirectbackend.Common.{
  Option, ℕ, ◌≡◌, refl, inl, inr, List, [], ◌∷◌, Bool, true, false, none, some, Result, ok, err,
  String, Json, arith, eq_iff, Option-cases,
}
use mealdirectbackend.Domain.PaymentEvents.{TransferStatus}
use mealdirectbackend.Payouts.Store.{
  pending, PayoutTransferRecord, Store, cancel_on_demand_settlement, attempt_in, record_transfer,
  find_payout_context, RecordTransferInput,
}
use mealdirectbackend.Payouts.Client.{
  HttpError, http, payout_unavailable, ApiCall, verify, Reply, no_answer, answer, World, read_reply,
  fetch_transfer, on_reply, read_fetched, bad_gateway, FetchResult, Thrown, other, resume, pure,
  TransferRequest,
}
use mealdirectbackend.Payouts.Withdrawals.Release.{
  IsReleased, cancel_on_demand_settlement-IsReleased,
}
use mealdirectbackend.Payouts.Service.{
  pay_to_settlement, pay_withdrawal, recover_withdrawal, resolve_withdrawal, record_and_settle,
  settle_final, final, transfer_code_from, stored_transfer_status,
}

on_reply-unsuccessful :
    (body : Json) → on_reply read_fetched (answer false body) ≡ err (http bad_gateway)
unfolding read_reply
on_reply-unsuccessful body = ground arith

left_processing :
    {P : Type 0} (id by : String) (u : World P)
    → let (result, w') = resolve_withdrawal id by (on_reply read_fetched no_answer) u in
      (result ≡ ok none) × (w'.store ≡ u.store) × (w'.sent ≡ u.sent)
unfolding resolve_withdrawal read_reply
left_processing id by u = (refl, refl, refl)

released :
    {P : Type 0} (id by : String) (u : World P)
    → u.outages ≡ []
    → resolve_withdrawal id by (err (http bad_gateway)) u
      ≡ (err (http payout_unavailable), record u { store = cancel_on_demand_settlement id u.store })
unfolding resolve_withdrawal
released id by u quiet = rw quiet refl

attempt_in-owner :
    (id : String) (attempt : ℕ) (ts : List PayoutTransferRecord) {row : PayoutTransferRecord}
    → attempt_in id attempt ts ≡ some row
    → row.settlement_id ≡ id
unfolding attempt_in
attempt_in-owner id attempt [] e = cc
attempt_in-owner id attempt (t ∷ ts) {row} e =
    ground (arith, attempt_in-owner id attempt ts {row = row}, eq_iff t.settlement_id id)

record_transfer-kept :
    (input : RecordTransferInput) (s : Store)
    → let (row, s') = record_transfer input s in
      (row.settlement_id ≡ input.settlement_id) × (s'.settlements ≡ s.settlements)
unfolding record_transfer
record_transfer-kept input s =
    elim (Option-cases (attempt_in input.settlement_id input.attempt s.transfers)) [
      | inl new ↦ rw (new, record_transfer) (refl, refl)
      | inr (row, old) ↦
          rw (old, record_transfer)
            (attempt_in-owner input.settlement_id input.attempt s.transfers old, refl)
    ]

-- The withdrawal is reported with a transfer of its own, and one that is pending takes nothing from
-- the settlements.
abbrev IsReported :
    {P : Type 0} → String → World P → Result Thrown (Option PayoutTransferRecord) → World P → Type 0
IsReported id v result w' =
    (row : PayoutTransferRecord) × (result ≡ ok (some row))
    × (row.settlement_id ≡ id)
    × (row.status ≡ pending → w'.store.settlements ≡ v.store.settlements)

settle_final-quiet :
    {P : Type 0} (row : PayoutTransferRecord) (status : Option TransferStatus) (u : World P)
    → u.outages ≡ []
    → let (result, w') = settle_final row status u in
      (result ≡ ok row) × (w'.sent ≡ u.sent) × (status ≡ none → w'.store ≡ u.store)
unfolding settle_final
settle_final-quiet row none u quiet = (refl, refl, λ _. refl)
settle_final-quiet row (some status) u quiet = rw quiet (refl, refl, λ e. cc)

resume-IsReported :
    {P : Type 0} (id : String) (v u : World P) (row : PayoutTransferRecord)
    (m : Result Thrown PayoutTransferRecord × World P)
    → m.0 ≡ ok row
    → m.1.sent ≡ v.sent
    → (final row.status ≡ none → m.1.store ≡ u.store)
    → row.settlement_id ≡ id
    → u.store.settlements ≡ v.store.settlements
    → let (result, w') = resume m (λ r. pure (some r)) in
      IsReported id v result w' × (w'.sent ≡ v.sent)
resume-IsReported id v u row (ok r, w) e sent kept owner same =
    let e' : r ≡ row = cc in ((row, rw e' refl, owner, (λ p. rw (kept (rw p refl)) same)), sent)
resume-IsReported id v u row (err x, w) e sent kept owner same = cc

resolve_withdrawal_described :
    {P : Type 0} (id by : String) (s : Store) (p : P) (sent : List TransferRequest)
    (fetched : FetchResult)
    → let u : World P = record { store = s; provider = p; sent = sent; outages = [] } in
      let (result, w') = resolve_withdrawal id by (ok fetched) u in
      IsReported id u result w' × (w'.sent ≡ u.sent)
unfolding resolve_withdrawal record_and_settle
resolve_withdrawal_described {P} id by s p sent fetched =
    let u : World P = record { store = s; provider = p; sent = sent; outages = [] } in
    let input : RecordTransferInput = record {
      settlement_id = id;
      attempt = 1;
      reference = id ++ "-a1";
      amount_kobo = elim (find_payout_context id s) [ none ↦ 0 | some c ↦ c.payable_kobo ];
      provider_transfer_code = transfer_code_from fetched.envelope (id ++ "-a1");
      status = stored_transfer_status fetched.status;
      initiated_by = some by;
    } in
    let row : PayoutTransferRecord = (record_transfer input s).0 in
    let u' : World P = record u { store = (record_transfer input s).1 } in
    let (owner, same) = record_transfer-kept input s in
    let (e, sent', kept) = settle_final-quiet row (final row.status) u' refl in
    resume-IsReported id u u' row (settle_final row (final row.status) u') e sent' kept owner same

resolve_withdrawal-IsReported :
    {P : Type 0} (id by : String) (s : Store) (p : P) (sent : List TransferRequest)
    (outages : List Bool) (fetched : FetchResult)
    → outages ≡ []
    → let u : World P = record { store = s; provider = p; sent = sent; outages = outages } in
      let (result, w') = resolve_withdrawal id by (ok fetched) u in
      IsReported id u result w' × (w'.sent ≡ u.sent)
resolve_withdrawal-IsReported id by s p sent [] fetched quiet =
    resolve_withdrawal_described id by s p sent fetched
resolve_withdrawal-IsReported id by s p sent (x ∷ xs) fetched quiet = cc

-- What the provider's answer about the first attempt makes of the withdrawal.
abbrev pub IsResolved :
    {P : Type 0}
    → String
    → World P
    → Reply
    → Result Thrown (Option PayoutTransferRecord)
    → World P
    → Type 0
IsResolved id v reply result w' =
    (reply ≡ no_answer → (result ≡ ok none) × (w'.store ≡ v.store) × (w'.sent ≡ v.sent))
    × ((body : Json)
        → reply ≡ answer false body
        → (result ≡ err (http payout_unavailable))
          × IsReleased id v.store w'.store
          × (w'.sent ≡ v.sent))
    × ((fetched : FetchResult)
        → on_reply read_fetched reply ≡ ok fetched
        → IsReported id v result w' × (w'.sent ≡ v.sent))

module _ {P : Type 0} (send : ApiCall → P → Reply × P) where
  fetch_transfer-replied :
      (reference : String) (v : World P) (reply : Reply) (p : P)
      → send (verify reference) v.provider ≡ (reply, p)
      → fetch_transfer send true reference v
        ≡ (on_reply read_fetched reply, record v { provider = p })
  unfolding fetch_transfer
  fetch_transfer-replied reference v reply p e = rw e refl

  recover_withdrawal-released :
      (id by : String) (v : World P) (e : HttpError) (reply : Reply) (p : P)
      → v.outages ≡ []
      → send (verify (id ++ "-a1")) v.provider ≡ (reply, p)
      → let (result, w') = recover_withdrawal send true id by (err (http e), v) in
        IsResolved id v reply result w'
  unfolding recover_withdrawal
  recover_withdrawal-released id by v e reply p quiet replied =
      rw (fetch_transfer-replied (id ++ "-a1") v reply p replied) (
        (λ silent. rw silent (left_processing id by (record v { provider = p }))),
        (λ body refused.
            rw
              (
                refused,
                on_reply-unsuccessful body,
                released id by (record v { provider = p }) quiet,
              )
              (refl, cancel_on_demand_settlement-IsReleased id v.store, refl)),
        (λ fetched found.
            rw found
              (resolve_withdrawal-IsReported id by v.store p v.sent v.outages fetched quiet)),
      )

module _ {P : Type 0} (digits : ℕ → String) (send : ApiCall → P → Reply × P) (enabled : Bool) where
  -- Whatever paying a withdrawal comes to, with the provider configured: if the payment returns a
  -- transfer, that is returned and nothing else is done; if it throws an error that is no
  -- `HttpException`, the withdrawal is left processing. Say that it throws an `HttpException` and the
  -- database answers from then on. If the provider then gives no answer to the question about the
  -- transfer, the tables stay as they are and the withdrawal is left processing. If it answers with any
  -- status that is no success, whatever the reason, the withdrawal is reported as unavailable and,
  -- unless a transfer of it is pending or successful, it is cancelled when it is approved and on
  -- demand; no transfer and no other settlement changes. If its answer describes the transfer, a row
  -- of this withdrawal is returned, and the settlements stay as they are when that is pending. Nothing
  -- more is asked to be sent.
  pub pay_withdrawal_released :
      (id by : String) (w v : World P) (payment : Result Thrown PayoutTransferRecord)
      → pay_to_settlement digits send true enabled id (some by) w ≡ (payment, v)
      → let (result, w') = pay_withdrawal digits send true enabled id by w in
        ((row : PayoutTransferRecord) → payment ≡ ok row → (result ≡ ok (some row)) × (w' ≡ v))
        × (payment ≡ err other → (result ≡ ok none) × (w' ≡ v))
        × ((e : HttpError) (reply : Reply) (p : P)
            → payment ≡ err (http e)
            → v.outages ≡ []
            → send (verify (id ++ "-a1")) v.provider ≡ (reply, p)
            → IsResolved id v reply result w')
  unfolding pay_withdrawal recover_withdrawal
  pay_withdrawal_released id by w v payment h = rw h (
    (λ row paid. rw paid (refl, refl)),
    (λ unknown. rw unknown (refl, refl)),
    (λ e reply p refused quiet replied.
        rw refused (recover_withdrawal-released send id by v e reply p quiet replied)),
  )
