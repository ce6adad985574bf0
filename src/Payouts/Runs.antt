-- ===== src/Payouts/Runs.antt =====
-- The scheduled pay-run and the sweep over pending transfers:
-- src/modules/settlements/payout.service.ts. The stored function `select_payable_settlements` and the
-- query of `listPendingTransfers`, which both read the clock, are parameters.
pub mod Counts
use mealdirectbackend.Common.{
  ℕ, ◌+◌, List, [], ◌∷◌, Bool, true, false, Option, none, some, Result, ok, err, String,
  if◌then◌else◌, length,
}
use mealdirectbackend.Domain.PaymentEvents.{TransferStatus}
use mealdirectbackend.Payouts.Store.{Store, apply_reconcile}
use mealdirectbackend.Payouts.Client.{
  Thrown, ApiCall, Reply, World, M, pure, ◌>>=◌, resume, query, update, fetch_transfer,
}
use mealdirectbackend.Payouts.Service.{terminal_transfer_status, pay_to_settlement}

pub record PayoutGuardrails : Type 0 where
  pub hold_hours : ℕ
  pub max_attempts : ℕ

pub record RunCounts : Type 0 where
  pub selected : ℕ
  pub initiated : ℕ
  pub failed : ℕ

pub record SweepCounts : Type 0 where
  pub scanned : ℕ
  pub reconciled : ℕ

abbrev pub count_payment : {A : Type 0} → Result Thrown A → ℕ × ℕ → ℕ × ℕ
count_payment (ok _) (initiated, failures) = (initiated + 1, failures)
count_payment (err _) (initiated, failures) = (initiated, failures + 1)

abbrev pub count_reconciled : Result Thrown Bool → ℕ → ℕ
count_reconciled (ok true) n = n + 1
count_reconciled _ n = n

module _ {P : Type 0} (digits : ℕ → String) (send : ApiCall → P → Reply × P)
    (configured enabled : Bool) where
  -- The loop of `runPayouts`, with the counts so far: an error ends one payment, not the loop.
  unfoldable pub pay_each : List String → ℕ × ℕ → World P → (ℕ × ℕ) × World P
  pay_each [] counts w = (counts, w)
  pay_each (id ∷ ids) counts w =
      let (r, w') = pay_to_settlement digits send configured enabled id none w in
      pay_each ids (count_payment r counts) w'

  unfoldable pub run_selected : List String → M P RunCounts
  run_selected ids w =
      let (counts, w') = pay_each ids (0, 0) w in
      (ok (record { selected = length ids; initiated = counts.0; failed = counts.1 }), w')

  unfoldable pub run_payouts :
      (Store → PayoutGuardrails) → (PayoutGuardrails → ℕ → Store → List String) → ℕ → M P RunCounts
  run_payouts guardrails select limit w =
      if enabled
      then (query guardrails >>= λ g. query (select g limit) >>= run_selected) w
      else (ok (record { selected = 0; initiated = 0; failed = 0 }), w)

module _ {P : Type 0} where
  unfoldable pub reconcile_status : String → Option TransferStatus → M P Bool
  reconcile_status reference none = pure false
  reconcile_status reference (some status) =
      update (apply_reconcile reference status) >>= λ _. pure true

module _ {P : Type 0} (send : ApiCall → P → Reply × P) (configured : Bool) where
  unfoldable pub reconcile_one : String → M P Bool
  reconcile_one reference = fetch_transfer send configured reference >>= λ fetched.
      reconcile_status reference (terminal_transfer_status fetched.status)

  -- The loop of `reconcilePendingPayouts`, with the count so far.
  unfoldable pub reconcile_each : List String → ℕ → World P → ℕ × World P
  reconcile_each [] n w = (n, w)
  reconcile_each (reference ∷ rest) n w =
      let (r, w') = reconcile_one reference w in reconcile_each rest (count_reconciled r n) w'

  unfoldable pub sweep_listed : Result Thrown (List String) × World P → SweepCounts × World P
  sweep_listed (err e, w) = (record { scanned = 0; reconciled = 0 }, w)
  sweep_listed (ok pending, w) =
      let (n, w') = reconcile_each pending 0 w in
      (record { scanned = length pending; reconciled = n }, w')

  unfoldable pub reconcile_pending_payouts :
      (ℕ → ℕ → Store → List String) → ℕ → ℕ → World P → SweepCounts × World P
  reconcile_pending_payouts list_pending grace_seconds limit w =
      sweep_listed (query (list_pending grace_seconds limit) w)
