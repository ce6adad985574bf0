-- ===== src/Payouts/Service.antt =====
-- The payout service: src/modules/settlements/payout.service.ts. `enabled` is PAYOUTS_ENABLED,
-- and
-- `configured` says whether the provider's key is set.
pub mod Sending
pub mod Once
use Prim.Native.String.{◌++◌}
use mealdirectbackend.Common.{
  ℕ, ◌+◌, List, [], ◌∷◌, Bool, true, false, Option, none, some, Result, ok, err, String, str_eq,
  if◌then◌else◌, length, or_else, Fields, ◌||◌, field_of,
}
use mealdirectbackend.Domain.PaymentEvents.{TransferStatus}
use mealdirectbackend.Payouts.Store.{
  StoredStatus, pending, success, failed, reversed, PayoutTransferRecord, PayoutContext, Store,
  RecordTransferInput, find_active_transfer, find_payout_context, next_attempt, record_transfer,
  apply_reconcile, cancel_on_demand_settlement, stored,
}
use mealdirectbackend.Payouts.Client.{
  HttpError, forbidden, not_found, bad_request, payout_unavailable, Thrown, http, other,
  TransferRequest, ApiCall, Reply, World, M, pure, throw, ◌>>=◌, ◌>>◌, query, update, access,
  string_from, data_of, FetchResult, TransferResult, initiate_transfer, fetch_transfer,
}

unfoldable pub terminal_transfer_status : String → Option TransferStatus
terminal_transfer_status status =
    if str_eq status "success"
    then some TransferStatus.success
    else if str_eq status "reversed"
    then some TransferStatus.reversed
    else if str_eq status "failed" || str_eq status "abandoned"
    then some TransferStatus.failed
    else none

unfoldable pub stored_transfer_status : String → StoredStatus
stored_transfer_status status = elim (terminal_transfer_status status) [
  | none ↦ pending
  | some t ↦ stored t
]

unfoldable pub transfer_code_from : Fields → String → String
transfer_code_from payload fallback = elim (data_of payload) [
  | none ↦ fallback
  | some d ↦ or_else (string_from (field_of d "transfer_code")) fallback
]

abbrev pub final : StoredStatus → Option TransferStatus
final pending = none
final success = some TransferStatus.success
final failed = some TransferStatus.failed
final reversed = some TransferStatus.reversed

-- The number in decimal digits.
module _ (digits : ℕ → String) where
  abbrev pub reference_for : String → ℕ → String
  reference_for settlement_id attempt = settlement_id ++ "-a" ++ digits attempt

module _ {P : Type 0} where
  unfoldable pub settle_final :
      PayoutTransferRecord → Option TransferStatus → M P PayoutTransferRecord
  settle_final row none = pure row
  settle_final row (some status) = update (apply_reconcile row.reference status) >>= λ _. pure row

  unfoldable pub record_and_settle : RecordTransferInput → M P PayoutTransferRecord
  record_and_settle input =
      access (record_transfer input) >>= λ row. settle_final row (final row.status)

  -- What `payWithdrawal` does with the provider's answer about the first attempt.
  unfoldable pub resolve_withdrawal :
      String → String → Result Thrown FetchResult → M P (Option PayoutTransferRecord)
  resolve_withdrawal settlement_id initiated_by (err other) = pure none
  resolve_withdrawal settlement_id initiated_by (err (http e)) =
      update (cancel_on_demand_settlement settlement_id) >>= λ _. throw (http payout_unavailable)
  resolve_withdrawal settlement_id initiated_by (ok fetched) =
      query (find_payout_context settlement_id) >>= λ context.
      record_and_settle (record {
        settlement_id = settlement_id;
        attempt = 1;
        reference = settlement_id ++ "-a1";
        amount_kobo = elim context [ none ↦ 0 | some c ↦ c.payable_kobo ];
        provider_transfer_code = transfer_code_from fetched.envelope (settlement_id ++ "-a1");
        status = stored_transfer_status fetched.status;
        initiated_by = some initiated_by;
      })
      >>= λ row. pure (some row)

module _ {P : Type 0} (send : ApiCall → P → Reply × P) (configured : Bool) where
  -- The `catch` of `payWithdrawal`.
  unfoldable pub recover_withdrawal :
      String
      → String
      → Result Thrown PayoutTransferRecord × World P
      → Result Thrown (Option PayoutTransferRecord) × World P
  recover_withdrawal settlement_id initiated_by (ok row, w) = (ok (some row), w)
  recover_withdrawal settlement_id initiated_by (err other, w) = (ok none, w)
  recover_withdrawal settlement_id initiated_by (err (http e), w) =
      let (r, w') = fetch_transfer send configured (settlement_id ++ "-a1") w in
      resolve_withdrawal settlement_id initiated_by r w'

module _ {P : Type 0} (digits : ℕ → String) (send : ApiCall → P → Reply × P)
    (configured : Bool) where
  -- The rest of `payToSettlement`, with an amount, a recipient and the attempt.
  unfoldable pub send_transfer : String → Option String → ℕ → String → ℕ → M P PayoutTransferRecord
  send_transfer settlement_id initiated_by payable_kobo recipient attempt =
      let reference = reference_for digits settlement_id attempt in
      initiate_transfer send configured (record {
        amount_kobo = payable_kobo;
        recipient_code = recipient;
        reference = reference;
        settlement_id = settlement_id;
      })
      >>= λ transfer. record_and_settle (record {
        settlement_id = settlement_id;
        attempt = attempt;
        reference = reference;
        amount_kobo = payable_kobo;
        provider_transfer_code = transfer.transfer_code;
        status = stored_transfer_status transfer.status;
        initiated_by = initiated_by;
      })

  unfoldable pub pay_recipient :
      String → Option String → ℕ → Option String → M P PayoutTransferRecord
  pay_recipient settlement_id initiated_by payable_kobo none = throw (http bad_request)
  pay_recipient settlement_id initiated_by payable_kobo (some recipient) =
      query (next_attempt settlement_id)
      >>= send_transfer settlement_id initiated_by payable_kobo recipient

  unfoldable pub pay_context :
      String → Option String → Option PayoutContext → M P PayoutTransferRecord
  pay_context settlement_id initiated_by none = throw (http not_found)
  pay_context settlement_id initiated_by (some context) =
      pay_recipient settlement_id initiated_by context.payable_kobo context.recipient_code

  unfoldable pub pay_inactive :
      String → Option String → Option PayoutTransferRecord → M P PayoutTransferRecord
  pay_inactive settlement_id initiated_by (some active) = pure active
  pay_inactive settlement_id initiated_by none =
      query (find_payout_context settlement_id) >>= pay_context settlement_id initiated_by

module _ {P : Type 0} (digits : ℕ → String) (send : ApiCall → P → Reply × P)
    (configured enabled : Bool) where
  unfoldable pub pay_to_settlement : String → Option String → M P PayoutTransferRecord
  pay_to_settlement settlement_id initiated_by w =
      if enabled
      then (query (find_active_transfer settlement_id)
            >>= pay_inactive digits send configured settlement_id initiated_by)
          w
      else throw (http forbidden) w

  unfoldable pub pay_withdrawal : String → String → M P (Option PayoutTransferRecord)
  pay_withdrawal settlement_id initiated_by w =
      recover_withdrawal send configured settlement_id initiated_by
        (pay_to_settlement settlement_id (some initiated_by) w)
