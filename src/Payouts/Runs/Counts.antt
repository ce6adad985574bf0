-- ===== src/Payouts/Runs/Counts.antt =====
-- The counts that a pay-run and a sweep report: src/modules/settlements/payout.service.ts.
use mealdirectbackend.Common.{
  ℕ, ◌+◌, ◌≤◌, ◌≡◌, refl, inl, inr, List, [], ◌∷◌, Bool, true, false, Option, none, Result, ok, err,
  String, if◌then◌else◌, length, arith,
}
use mealdirectbackend.Payouts.Store.{Store}
use mealdirectbackend.Payouts.Client.{Thrown, ApiCall, Reply, World, ◌>>=◌, resume, query}
use mealdirectbackend.Payouts.Service.{pay_to_settlement}
use mealdirectbackend.Payouts.Service.Sending.{access-sent, pay_to_settlement_sends}
use mealdirectbackend.Payouts.Runs.{
  PayoutGuardrails, RunCounts, count_payment, pay_each, run_selected, run_payouts,
}

module _ {P : Type 0} where
  abbrev Counted : Result Thrown RunCounts × World P → World P → RunCounts → Type 0
  Counted (x, w') w c =
      x ≡ ok c
      → (c.initiated + c.failed ≡ c.selected) × (length w'.sent ≤ length w.sent + c.selected)

  if_enabled-counts :
      (b : Bool) (run : Result Thrown RunCounts × World P) (w : World P) (c : RunCounts)
      → Counted run w c
      → Counted
          (if b then run else (ok (record { selected = 0; initiated = 0; failed = 0 }), w))
          w
          c
  if_enabled-counts true run w c k h = k h
  if_enabled-counts false run w c k h = ground (arith, h)

module _ {P : Type 0} (digits : ℕ → String) (send : ApiCall → P → Reply × P)
    (configured enabled : Bool) where
  pay_to_settlement-sent-le :
      (settlement_id : String) (by : Option String) (w : World P)
      → length (pay_to_settlement digits send configured enabled settlement_id by w).1.sent
        ≤ 1 + length w.sent
  pay_to_settlement-sent-le settlement_id by w =
      elim (pay_to_settlement_sends digits send configured enabled settlement_id by w) [
        | inl same ↦ rw same (ground arith)
        | inr (r, _, _, one) ↦ rw one (ground arith)
      ]

  count_payment-sum :
      {A : Type 0} (r : Result Thrown A) (counts : ℕ × ℕ)
      → let (i, f) = counts in let (i', f') = count_payment r counts in i' + f' ≡ 1 + (i + f)
  count_payment-sum (ok a) (i, f) = omega arith
  count_payment-sum (err e) (i, f) = omega arith

  pay_each-counts :
      (ids : List String) (counts : ℕ × ℕ) (w : World P)
      → let (counts', w') = pay_each digits send configured enabled ids counts w in
        (counts'.0 + counts'.1 ≡ counts.0 + counts.1 + length ids)
        × (length w'.sent ≤ length w.sent + length ids)
  unfolding pay_each
  pay_each-counts [] counts w = (omega arith, ground arith)
  pay_each-counts (id ∷ ids) counts w =
      let (r, w') = pay_to_settlement digits send configured enabled id none w in
      let (eq, le) = pay_each-counts ids (count_payment r counts) w' in
      let step = count_payment-sum r counts in
      let more = pay_to_settlement-sent-le id none w in (omega (arith), omega (arith))

  run_selected-counts :
      (ids : List String) (w : World P)
      → let (r, w') = run_selected digits send configured enabled ids w in
        (c : RunCounts) × (r ≡ ok c)
        × (c.selected ≡ length ids)
        × (c.initiated + c.failed ≡ c.selected)
        × (length w'.sent ≤ length w.sent + c.selected)
  unfolding run_selected
  run_selected-counts ids w =
      let (eq, le) = pay_each-counts ids (0, 0) w in (_, refl, refl, omega (arith), le)

  selected-counts :
      (r : Result Thrown (List String) × World P) (c : RunCounts)
      → (resume r (run_selected digits send configured enabled)).0 ≡ ok c
      → (c.initiated + c.failed ≡ c.selected)
        × (length (resume r (run_selected digits send configured enabled)).1.sent
            ≤ length r.1.sent + c.selected)
  selected-counts (err e, w) c h = cc h
  selected-counts (ok ids, w) c h =
      let (c', same, _, sum, le) = run_selected-counts ids w in ground (arith, same, sum, le, h)

  guarded-counts :
      (select : PayoutGuardrails → ℕ → Store → List String) (limit : ℕ)
      (r : Result Thrown PayoutGuardrails × World P) (c : RunCounts)
      → let (x, w') =
          resume r (λ g. query (select g limit) >>= run_selected digits send configured enabled) in
        x ≡ ok c
        → (c.initiated + c.failed ≡ c.selected) × (length w'.sent ≤ length r.1.sent + c.selected)
  guarded-counts select limit (err e, w) c h = cc h
  guarded-counts select limit (ok g, w) c h =
      let (sum, le) = selected-counts (query (select g limit) w) c h in
      (sum, rw (access-sent (λ s. (select g limit s, s)) w) at le)

  -- A pay-run that returns counts reports every selected settlement as initiated or as failed, and has
  -- sent at most one transfer for each selected settlement.
  run_payouts_counts :
      (guardrails : Store → PayoutGuardrails) (select : PayoutGuardrails → ℕ → Store → List String)
      (limit : ℕ) (w : World P) (c : RunCounts)
      → (run_payouts digits send configured enabled guardrails select limit w).0 ≡ ok c
      → (c.initiated + c.failed ≡ c.selected)
        × (length (run_payouts digits send configured enabled guardrails select limit w).1.sent
            ≤ length w.sent + c.selected)
  unfolding run_payouts
  run_payouts_counts guardrails select limit w c h =
      if_enabled-counts enabled _ w c
        (λ h.
          let (sum, le) = guarded-counts select limit (query guardrails w) c h in
          (sum, rw (access-sent (λ s. (guardrails s, s)) w) at le))
        h
