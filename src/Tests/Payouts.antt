-- ===== src/Tests/Payouts.antt =====
-- Payouts and withdrawals at concrete inputs, with a provider that accepts transfers.
use Prim.Native.String.{◌++◌}
use mealdirectbackend.Common.{
  ℕ, ◌≡◌, refl, ◌⊎◌, List, [], ◌∷◌, true, false, none, some, Result, ok, err, String, Json, str,
  boolean, obj, null, field, end, pos,
}
use mealdirectbackend.Domain.Authorization.{ActorRole}
use mealdirectbackend.Payouts.Store.{
  StoredStatus, PayoutTransferRecord, SettlementRow, SettlementStatus, SettlementKind, Store,
  find_active_transfer, active_in, find_payout_context, context_in, next_attempt, last_attempt,
  attempt_in, record_transfer,
}
use mealdirectbackend.Payouts.Client.{
  HttpError, Thrown, http, other, bad_gateway, TransferRequest, ApiCall, initiate, verify, Reply,
  answer, World, read_reply, data_of, read_transfer, initiate_transfer,
}
use mealdirectbackend.Payouts.Service.{
  pay_to_settlement, pay_withdrawal, pay_inactive, pay_context, pay_recipient, send_transfer,
  record_and_settle, settle_final, stored_transfer_status, terminal_transfer_status,
}
use mealdirectbackend.Payouts.Service.Sending.{IsDue, pay_to_settlement_sends}
use mealdirectbackend.Payouts.Service.Once.{pay_to_settlement_once}
use mealdirectbackend.Payouts.Runs.{
  PayoutGuardrails, RunCounts, run_payouts, run_selected, pay_each,
}
use mealdirectbackend.Payouts.Withdrawals.{
  WithdrawalsRepository, WithdrawalActor, created, request_withdrawal,
}
use mealdirectbackend.Payouts.Withdrawals.Outcome.{IsResolved, pay_withdrawal_released}
use mealdirectbackend.Payouts.Withdrawals.Sending.{SentByRequest, request_withdrawal_sends}

abbrev small_digits : ℕ → String
small_digits n = "1"

abbrev accepted_body : Json
accepted_body = obj (
    field "status" (boolean true) (
      field "data" (obj (field "transfer_code" (str "TRF_1") (field "status" (str "pending") end)))
        end))

-- A provider without a state that accepts every transfer, and fails when asked about one.
abbrev accepting : ApiCall → Unit {0} → Reply × Unit {0}
accepting (initiate r) p = (answer true accepted_body, p)
accepting (verify reference) p = (answer false null, p)

-- A provider that refuses every transfer with an error of its own.
abbrev refusing : ApiCall → Unit {0} → Reply × Unit {0}
refusing call p = (answer false null, p)

abbrev settlement : SettlementRow
settlement = record {
  id = "s1";
  kind = SettlementKind.on_demand;
  status = SettlementStatus.approved;
  payable_kobo = 250000;
  recipient_code = some "RCP_1";
}

abbrev unpaid_store : Store
unpaid_store = record { transfers = []; settlements = settlement ∷ [] }

abbrev unpaid : World (Unit {0})
unpaid = record { store = unpaid_store; provider = tt; sent = []; outages = [] }

abbrev first_transfer : PayoutTransferRecord
first_transfer = record {
  settlement_id = "s1";
  reference = "s1-a1";
  amount_kobo = 250000;
  provider_transfer_code = some "TRF_1";
  status = StoredStatus.pending;
  attempt = 1;
}

abbrev first_request : TransferRequest
first_request = record {
  amount_kobo = 250000;
  recipient_code = "RCP_1";
  reference = "s1-a1";
  settlement_id = "s1";
}

abbrev paid_once : World (Unit {0})
paid_once = record {
  store = record unpaid_store { transfers = first_transfer ∷ [] };
  provider = tt;
  sent = first_request ∷ [];
  outages = [];
}

first_payment :
    pay_to_settlement small_digits accepting true true "s1" none unpaid
    ≡ (ok first_transfer, paid_once)
unfolding pay_to_settlement pay_inactive pay_context pay_recipient send_transfer record_and_settle
    settle_final stored_transfer_status terminal_transfer_status find_active_transfer active_in
    find_payout_context context_in next_attempt last_attempt record_transfer attempt_in
    initiate_transfer read_reply data_of read_transfer
first_payment = refl

pay_to_settlement_once_example :
    (pay_to_settlement small_digits accepting true true "s1" (some "admin") paid_once).1.sent
    ≡ first_request ∷ []
pay_to_settlement_once_example =
    pay_to_settlement_once small_digits accepting true true "s1" none (some "admin") unpaid
      paid_once first_transfer paid_once first_payment refl refl

pay_to_settlement_sends_example :
    let w' = (pay_to_settlement small_digits accepting true true "s1" none unpaid).1 in
    (w'.sent ≡ [])
    ⊎ ((r : TransferRequest) × (true ≡ true)
        × IsDue small_digits accepting true "s1" unpaid r
        × (w'.sent ≡ r ∷ []))
pay_to_settlement_sends_example =
    pay_to_settlement_sends small_digits accepting true true "s1" none unpaid

abbrev guards : Store → PayoutGuardrails
guards s = record { hold_hours = 24; max_attempts = 3 }

abbrev select_all : PayoutGuardrails → ℕ → Store → List String
select_all g limit s = "s1" ∷ "s2" ∷ []

abbrev run_counts : RunCounts
run_counts = record { selected = 2; initiated = 1; failed = 1 }

first_run :
    (run_payouts small_digits accepting true true guards select_all 50 unpaid).0 ≡ ok run_counts
unfolding run_payouts run_selected pay_each pay_to_settlement pay_inactive pay_context pay_recipient
    send_transfer record_and_settle settle_final stored_transfer_status terminal_transfer_status
    find_active_transfer active_in find_payout_context context_in next_attempt last_attempt
    record_transfer attempt_in initiate_transfer read_reply data_of read_transfer
first_run = refl

abbrev list_first : ℕ → ℕ → Store → List String
list_first grace limit s = "s1-a1" ∷ []

abbrev refused_once : World (Unit {0})
refused_once = record unpaid { sent = first_request ∷ [] }

refused_payment :
    pay_to_settlement small_digits refusing true true "s1" (some "user-1") unpaid
    ≡ (err (http bad_gateway), refused_once)
unfolding pay_to_settlement pay_inactive pay_context pay_recipient send_transfer
    find_active_transfer active_in find_payout_context context_in next_attempt last_attempt
    initiate_transfer read_reply
refused_payment = refl

abbrev small_repository : WithdrawalsRepository
small_repository = record {
  has_vendor_access = λ vendor user s. true;
  find_rider_id_for_user = λ user rider s. none;
  get_balance = λ b s. record {
    available_kobo = pos 250000;
    pending_kobo = pos 0;
    processing_kobo = 0;
    minimum_kobo = 100000;
    hold_minutes = 120;
    payout_account_ready = true;
    enabled = true;
  };
  request_withdrawal = λ b user s. (created "s1" 250000, unpaid_store);
}

abbrev shop : WithdrawalActor
shop = record {
  user_id = "user-1";
  role = ActorRole.vendor;
  vendor_id = some "v1";
  rider_id = none;
}

request_withdrawal_sends_example :
    SentByRequest small_repository small_digits accepting true true shop unpaid
      (request_withdrawal small_repository small_digits accepting true true shop unpaid).1
request_withdrawal_sends_example =
    request_withdrawal_sends small_repository small_digits accepting true true shop unpaid

abbrev refused_result : Result Thrown PayoutTransferRecord
refused_result = err (http bad_gateway)

pay_withdrawal_released_example :
    let (result, w') = pay_withdrawal small_digits refusing true true "s1" "user-1" unpaid in
    ((row : PayoutTransferRecord)
      → refused_result ≡ ok row
      → (result ≡ ok (some row)) × (w' ≡ refused_once))
    × (refused_result ≡ err other → (result ≡ ok none) × (w' ≡ refused_once))
    × ((e : HttpError) (reply : Reply) (p : Unit {0})
        → refused_result ≡ err (http e)
        → refused_once.outages ≡ []
        → refusing (verify ("s1" ++ "-a1")) refused_once.provider ≡ (reply, p)
        → IsResolved "s1" refused_once reply result w')
pay_withdrawal_released_example =
    pay_withdrawal_released small_digits refusing true "s1" "user-1" unpaid refused_once
      refused_result refused_payment
