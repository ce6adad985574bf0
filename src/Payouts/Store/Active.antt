-- ===== src/Payouts/Store/Active.antt =====
-- When a settlement has a pending or successful transfer:
-- src/modules/settlements/payout.repository.ts.
use mealdirectbackend.Common.{
  ℕ, ◌≡◌, List, [], ◌∷◌, true, some, String, eq_iff, arith, Option-cases, inl, inr, is_some,
}
use mealdirectbackend.Domain.PaymentEvents.{TransferStatus}
use mealdirectbackend.Payouts.Store.{
  success, PayoutTransferRecord, Store, RecordTransferInput, is_live, active_in,
  find_active_transfer, attempt_in, row_of, record_transfer, set_status, apply_reconcile,
  settlement_of,
}

attempt_in-active :
    (settlement_id : String) (attempt : ℕ) (ts : List PayoutTransferRecord)
    {row : PayoutTransferRecord}
    → attempt_in settlement_id attempt ts ≡ some row
    → is_live row.status ≡ true
    → is_some (active_in settlement_id ts) ≡ true
unfolding attempt_in active_in
attempt_in-active settlement_id attempt [] e l = cc
attempt_in-active settlement_id attempt (t ∷ ts) {row} e l =
    ground (arith, attempt_in-active settlement_id attempt ts {row = row})

active_in-head :
    (t : PayoutTransferRecord) (ts : List PayoutTransferRecord)
    → is_live t.status ≡ true
    → is_some (active_in t.settlement_id (t ∷ ts)) ≡ true
unfolding active_in
active_in-head t ts l = ground (arith, eq_iff t.settlement_id t.settlement_id)

active_in-set_status :
    (settlement_id reference : String) (ts : List PayoutTransferRecord)
    → is_some (active_in settlement_id ts) ≡ true
    → is_some (active_in settlement_id (set_status reference success ts)) ≡ true
unfolding active_in set_status
active_in-set_status settlement_id reference [] h = h
active_in-set_status settlement_id reference (t ∷ ts) h =
    ground (arith, active_in-set_status settlement_id reference ts)

-- A row that is recorded and is pending or successful is then found as active.
pub record_transfer-active :
    (input : RecordTransferInput) (s : Store)
    → let (row, s') = record_transfer input s in
      is_live row.status ≡ true → is_some (find_active_transfer input.settlement_id s') ≡ true
unfolding record_transfer find_active_transfer
record_transfer-active input s =
    elim (Option-cases (attempt_in input.settlement_id input.attempt s.transfers)) [
      | inl new ↦ rw (new, record_transfer) (active_in-head (row_of input) s.transfers)
      | inr (row, old) ↦
          rw (old, record_transfer)
            (attempt_in-active input.settlement_id input.attempt s.transfers old)
    ]

-- A transfer that succeeds leaves active what was active.
pub apply_reconcile-active :
    (settlement_id reference : String) (s : Store)
    → is_some (find_active_transfer settlement_id s) ≡ true
    → is_some
        (find_active_transfer settlement_id (apply_reconcile reference TransferStatus.success s))
      ≡ true
unfolding find_active_transfer apply_reconcile
apply_reconcile-active settlement_id reference s h =
    elim (Option-cases (settlement_of reference s.transfers)) [
      | inl unknown ↦ rw (unknown, apply_reconcile) h
      | inr (owner, known) ↦
          rw (known, apply_reconcile) (active_in-set_status settlement_id reference s.transfers h)
    ]
