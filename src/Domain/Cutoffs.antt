-- ===== src/Domain/Cutoffs.antt =====
-- When orders for a delivery slot close: src/domain/cutoffs.ts. A point in time is its count of
-- milliseconds.
use mealdirectbackend.Common.{
  ℕ, ◌*◌, ◌≡◌, refl, ◌⊎◌, inl, inr, ◌↔◌, Bool, true, false, Num, nat, neg, fractional, ok, err,
  Result, ◌>>=◌, if◌then◌else◌, ℤ, pos, ◌-ℤ◌, ◌<ℤ◌, leb_ℤ, int_laws, Bool-cases, not, leb→le,
  leb→gt,
}
use mealdirectbackend.Domain.Money.{RangeError, bad_cutoff_minutes}

pub record CutoffDecision : Type 0 where
  pub allowed : Bool
  pub cutoff_at : ℤ
  pub now : ℤ
  -- `reason` is set, to ORDERING_CUTOFF_PASSED.
  pub cutoff_passed : Bool

unfoldable pub calculate_ordering_cutoff : ℤ → Num → Result RangeError ℤ
calculate_ordering_cutoff slot_starts_at (nat minutes) =
    ok (slot_starts_at -ℤ pos (minutes * 60000))
calculate_ordering_cutoff slot_starts_at _ = err bad_cutoff_minutes

unfoldable pub decide_ordering_cutoff : ℤ → ℤ → Num → Result RangeError CutoffDecision
unfolding calculate_ordering_cutoff
decide_ordering_cutoff now slot_starts_at minutes = do
  cutoff_at ← calculate_ordering_cutoff slot_starts_at minutes
  ok (
      if leb_ℤ cutoff_at now
      then record { allowed = false; cutoff_at = cutoff_at; now = now; cutoff_passed = true }
      else record { allowed = true; cutoff_at = cutoff_at; now = now; cutoff_passed = false })

-- For a whole number of minutes, not negative, a decision is made. It allows the order exactly when
-- from now to the start of the slot there are more than that many minutes, and gives a reason exactly
-- when it refuses. For any other number the call throws.
pub decide_ordering_cutoff_iff :
    (now slot_starts_at : ℤ) (minutes : Num)
    → ((n : ℕ) × (d : CutoffDecision) × (minutes ≡ nat n)
        × (decide_ordering_cutoff now slot_starts_at minutes ≡ ok d)
        × ((d.allowed ≡ true) ↔ (pos (n * 60000) <ℤ slot_starts_at -ℤ now))
        × (d.cutoff_passed ≡ not d.allowed))
      ⊎ (decide_ordering_cutoff now slot_starts_at minutes ≡ err bad_cutoff_minutes)
unfolding decide_ordering_cutoff
decide_ordering_cutoff_iff now slot_starts_at (nat n) =
    let cutoff : ℤ = slot_starts_at -ℤ pos (n * 60000) in
    elim (Bool-cases (leb_ℤ cutoff now)) [
      | inl late ↦ inl (
        n,
        record { allowed = false; cutoff_at = cutoff; now = now; cutoff_passed = true },
        refl,
        rw late,
        ((λ e. cc), λ h. absurd (omega (int_laws, leb→le _ _ late))),
        refl,
      )
      | inr early ↦ inl (
        n,
        record { allowed = true; cutoff_at = cutoff; now = now; cutoff_passed = false },
        refl,
        rw early,
        ((λ e. omega (int_laws, leb→gt _ _ early)), λ h. refl),
        refl,
      )
    ]
decide_ordering_cutoff_iff now slot_starts_at (neg n) = inr refl
decide_ordering_cutoff_iff now slot_starts_at fractional = inr refl
