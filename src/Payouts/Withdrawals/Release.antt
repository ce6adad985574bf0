-- ===== src/Payouts/Withdrawals/Release.antt =====
-- What `cancelOnDemandSettlement` does to the settlements:
-- src/modules/settlements/payout.repository.ts.
use mealdirectbackend.Common.{
  ◌≡◌, refl, ◌⊎◌, inl, inr, List, [], ◌∷◌, true, false, none, some, String, arith, All, str_eq,
  ◌&&◌, if◌then◌else◌, eq_iff, Option-cases,
}
use mealdirectbackend.Payouts.Store.{
  StoredStatus, pending, success, failed, reversed, PayoutTransferRecord, SettlementRow, on_demand,
  approved, cancelled, Store, is_live, cancellable, active_in, find_active_transfer, cancel_rows,
  cancel_on_demand_settlement,
}

-- No transfer of the settlement is pending or successful.
abbrev IsIdle : String → List PayoutTransferRecord → Type 0
IsIdle id ts =
    All (λ t. t.settlement_id ≡ id → (t.status ≡ StoredStatus.failed) ⊎ (t.status ≡ reversed)) ts

abbrev IsOpen : String → SettlementRow → Type 0
IsOpen id r = (r.id ≡ id) × (r.kind ≡ on_demand) × (r.status ≡ approved)

-- The approved rows on demand with this id are cancelled, the others are as before.
abbrev AreCancelled : String → List SettlementRow → List SettlementRow → Type 0
AreCancelled id [] [] = Unit
AreCancelled id (r ∷ rs) (r' ∷ rs') =
    ((IsOpen id r → r' ≡ record r { status = cancelled }) × (¬ IsOpen id r → r' ≡ r))
    × AreCancelled id rs rs'
AreCancelled _ _ _ = ⊥

abbrev pub IsReleased : String → Store → Store → Type 0
IsReleased id s s' =
    (IsIdle id s.transfers
      → (s'.transfers ≡ s.transfers) × AreCancelled id s.settlements s'.settlements)
    × (¬ IsIdle id s.transfers → s' ≡ s)

dead : (st : StoredStatus) → is_live st ≡ false → (st ≡ StoredStatus.failed) ⊎ (st ≡ reversed)
dead pending e = cc
dead success e = cc
dead failed e = inl refl
dead reversed e = inr refl

alive : (st : StoredStatus) → is_live st ≡ true → ¬ ((st ≡ StoredStatus.failed) ⊎ (st ≡ reversed))
alive pending e (inl x) = cc
alive pending e (inr x) = cc
alive success e (inl x) = cc
alive success e (inr x) = cc
alive failed e _ = cc
alive reversed e _ = cc

active_in-none :
    (id : String) (ts : List PayoutTransferRecord) → active_in id ts ≡ none → IsIdle id ts
unfolding active_in
active_in-none id [] e = tt
active_in-none id (t ∷ ts) e =
    ground (arith, active_in-none id ts, dead t.status, eq_iff t.settlement_id id)

active_in-some :
    (id : String) (ts : List PayoutTransferRecord) {t : PayoutTransferRecord}
    → active_in id ts ≡ some t
    → ¬ IsIdle id ts
unfolding active_in
active_in-some id [] e _ = cc
active_in-some id (u ∷ ts) e (d, ds) = elim (Option-cases (active_in id ts)) [
  | inl none_later ↦ ground (arith, none_later, d, alive u.status, eq_iff u.settlement_id id)
  | inr (t, later_one) ↦ absurd (active_in-some id ts later_one ds)
]

cancel_row :
    (id : String) (r : SettlementRow)
    → let r' = if str_eq r.id id && cancellable r then record r { status = cancelled } else r in
      (IsOpen id r → r' ≡ record r { status = cancelled }) × (¬ IsOpen id r → r' ≡ r)
cancel_row id r = ground (arith, eq_iff r.id id)

cancel_rows-AreCancelled :
    (id : String) (rs : List SettlementRow) → AreCancelled id rs (cancel_rows id rs)
unfolding cancel_rows
cancel_rows-AreCancelled id [] = tt
cancel_rows-AreCancelled id (r ∷ rs) = (cancel_row id r, cancel_rows-AreCancelled id rs)

pub cancel_on_demand_settlement-IsReleased :
    (id : String) (s : Store) → IsReleased id s (cancel_on_demand_settlement id s)
unfolding cancel_on_demand_settlement find_active_transfer
cancel_on_demand_settlement-IsReleased id s = elim (Option-cases (active_in id s.transfers)) [
  | inl idle ↦
      rw (idle, cancel_on_demand_settlement)
        (
          (λ i. (refl, cancel_rows-AreCancelled id s.settlements)),
          (λ live. absurd (live (active_in-none id s.transfers idle))),
        )
  | inr (t, live) ↦
      rw (live, cancel_on_demand_settlement)
        ((λ i. absurd (active_in-some id s.transfers live i)), (λ _. refl))
]
