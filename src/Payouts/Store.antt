-- ===== src/Payouts/Store.antt =====
-- The rows that payouts are kept in, and the queries on them: src/modules/settlements/payout.types.ts
-- and payout.repository.ts. The ids of the rows and their timestamps are left out; the join that finds
-- the transfer recipient of a settlement is a field of its row.
pub mod Active
use mealdirectbackend.Common.{
  ℕ, ◌+◌, List, [], ◌∷◌, ◌++◌, Bool, true, false, Option, none, some, String, str_eq, ◌==◌, ◌&&◌,
  ◌||◌, not, max, any, map, if◌then◌else◌, ltb,
}
use mealdirectbackend.Domain.PaymentEvents.{TransferStatus}

-- The check constraint on `payout_transfers.status`.
pub data StoredStatus : Type 0 where
  pending success failed reversed : StoredStatus

pub record PayoutTransferRecord : Type 0 where
  pub settlement_id : String
  pub reference : String
  pub amount_kobo : ℕ
  pub provider_transfer_code : Option String
  pub status : StoredStatus
  pub attempt : ℕ

pub data SettlementStatus : Type 0 where
  draft approved paid cancelled : SettlementStatus

pub data SettlementKind : Type 0 where
  daily on_demand : SettlementKind

pub record SettlementRow : Type 0 where
  pub id : String
  pub kind : SettlementKind
  pub status : SettlementStatus
  pub payable_kobo : ℕ
  pub recipient_code : Option String

pub record PayoutContext : Type 0 where
  pub settlement_id : String
  pub payable_kobo : ℕ
  pub recipient_code : Option String

pub record Store : Type 0 where
  pub transfers : List PayoutTransferRecord
  pub settlements : List SettlementRow

pub record RecordTransferInput : Type 0 where
  pub settlement_id : String
  pub attempt : ℕ
  pub reference : String
  pub amount_kobo : ℕ
  pub provider_transfer_code : String
  pub status : StoredStatus
  pub initiated_by : Option String

-- `status in ('pending', 'success')`
abbrev pub is_live : StoredStatus → Bool
is_live pending = true
is_live success = true
is_live _ = false

abbrev pub is_active : String → PayoutTransferRecord → Bool
is_active settlement_id t = str_eq t.settlement_id settlement_id && is_live t.status

-- Of two rows the one with the later attempt.
abbrev pub later : PayoutTransferRecord → Option PayoutTransferRecord → PayoutTransferRecord
later t none = t
later t (some u) = if ltb t.attempt u.attempt then u else t

-- The first row, by `order by attempt desc`, of those that are pending or successful.
unfoldable pub active_in : String → List PayoutTransferRecord → Option PayoutTransferRecord
active_in settlement_id [] = none
active_in settlement_id (t ∷ ts) =
    let rest = active_in settlement_id ts in
    if is_active settlement_id t then some (later t rest) else rest

unfoldable pub find_active_transfer : String → Store → Option PayoutTransferRecord
find_active_transfer settlement_id s = active_in settlement_id s.transfers

unfoldable pub context_in : String → List SettlementRow → Option PayoutContext
context_in settlement_id [] = none
context_in settlement_id (r ∷ rs) =
    if str_eq r.id settlement_id
    then some (record {
      settlement_id = r.id;
      payable_kobo = r.payable_kobo;
      recipient_code = r.recipient_code;
    })
    else context_in settlement_id rs

unfoldable pub find_payout_context : String → Store → Option PayoutContext
find_payout_context settlement_id s = context_in settlement_id s.settlements

-- `coalesce(max(attempt), 0)`
unfoldable pub last_attempt : String → List PayoutTransferRecord → ℕ
last_attempt settlement_id [] = 0
last_attempt settlement_id (t ∷ ts) =
    if str_eq t.settlement_id settlement_id
    then max t.attempt (last_attempt settlement_id ts)
    else last_attempt settlement_id ts

unfoldable pub next_attempt : String → Store → ℕ
next_attempt settlement_id s = last_attempt settlement_id s.transfers + 1

unfoldable pub attempt_in : String → ℕ → List PayoutTransferRecord → Option PayoutTransferRecord
attempt_in settlement_id attempt [] = none
attempt_in settlement_id attempt (t ∷ ts) =
    if str_eq t.settlement_id settlement_id && t.attempt == attempt
    then some t
    else attempt_in settlement_id attempt ts

abbrev pub row_of : RecordTransferInput → PayoutTransferRecord
row_of input = record {
  settlement_id = input.settlement_id;
  reference = input.reference;
  amount_kobo = input.amount_kobo;
  provider_transfer_code = some input.provider_transfer_code;
  status = input.status;
  attempt = input.attempt;
}

-- `recordTransfer`: inserts the row, or returns the one of the same settlement and attempt.
unfoldable pub record_transfer : RecordTransferInput → Store → PayoutTransferRecord × Store
record_transfer input s = elim (attempt_in input.settlement_id input.attempt s.transfers) [
  | some row ↦ (row, s)
  | none ↦ (row_of input, record s { transfers = row_of input ∷ s.transfers })
]

abbrev pub stored : TransferStatus → StoredStatus
stored TransferStatus.success = success
stored TransferStatus.failed = failed
stored TransferStatus.reversed = reversed

unfoldable pub set_status :
    String → StoredStatus → List PayoutTransferRecord → List PayoutTransferRecord
set_status reference status [] = []
set_status reference status (t ∷ ts) =
    (if str_eq t.reference reference then record t { status = status } else t)
    ∷ set_status reference status ts

unfoldable pub settlement_of : String → List PayoutTransferRecord → Option String
settlement_of reference [] = none
settlement_of reference (t ∷ ts) =
    if str_eq t.reference reference then some t.settlement_id else settlement_of reference ts

-- What a transfer's final status makes of its settlement.
abbrev pub settled_status : TransferStatus → SettlementRow → SettlementStatus
settled_status TransferStatus.success r = paid
settled_status _ r = elim r.kind [
  | daily ↦ r.status
  | on_demand ↦ elim r.status [ approved ↦ cancelled | paid ↦ cancelled | st ↦ st ]
]

unfoldable pub settle_rows : String → TransferStatus → List SettlementRow → List SettlementRow
settle_rows settlement_id status [] = []
settle_rows settlement_id status (r ∷ rs) =
    (if str_eq r.id settlement_id then record r { status = settled_status status r } else r)
    ∷ settle_rows settlement_id status rs

-- `applyReconcile`, with the stored function `reconcile_payout_transfer` that it calls.
unfoldable pub apply_reconcile : String → TransferStatus → Store → Store
apply_reconcile reference status s = elim (settlement_of reference s.transfers) [
  | none ↦ s
  | some settlement_id ↦ record {
    transfers = set_status reference (stored status) s.transfers;
    settlements = settle_rows settlement_id status s.settlements;
  }
]

abbrev pub cancellable : SettlementRow → Bool
cancellable r = elim r.kind [
  | daily ↦ false
  | on_demand ↦ elim r.status [ approved ↦ true | _ ↦ false ]
]

unfoldable pub cancel_rows : String → List SettlementRow → List SettlementRow
cancel_rows settlement_id [] = []
cancel_rows settlement_id (r ∷ rs) =
    (if str_eq r.id settlement_id && cancellable r then record r { status = cancelled } else r)
    ∷ cancel_rows settlement_id rs

-- `cancelOnDemandSettlement`: no change once a transfer of the settlement is pending or successful.
unfoldable pub cancel_on_demand_settlement : String → Store → Store
cancel_on_demand_settlement settlement_id s = elim (find_active_transfer settlement_id s) [
  | some t ↦ s
  | none ↦ record s { settlements = cancel_rows settlement_id s.settlements }
]
