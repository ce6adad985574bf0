-- ===== src/Worker/Outbox/Attempts.antt =====
-- How often the worker of src/worker/outbox-processor.ts attempts an event.
use mealdirectbackend.Common.{
  ℕ, suc, ◌+◌, ◌-◌, ◌≤◌, ◌<◌, leb, ◌⊎◌, ◌≡◌, refl, List, [], ◌∷◌, true, String, str_eq,
  if◌then◌else◌, length, any, Bool-cases, inl, inr, arith, All,
}
use mealdirectbackend.Worker.Outbox.{
  OutboxRow, is_claimable, claimed, claim_ids, update_row, completed, failed,
}

-- The attempts that are left for a row: none once it is processed or dead.
abbrev pub left_for : ℕ → OutboxRow → ℕ
left_for max_attempts r =
    if r.is_processed then 0 else if r.is_failed then 0 else max_attempts - r.attempts

abbrev pub attempts_left : ℕ → List OutboxRow → ℕ
attempts_left max_attempts [] = 0
attempts_left max_attempts (r ∷ rows) = left_for max_attempts r + attempts_left max_attempts rows

-- A row has had at most the maximum of attempts, and fewer if it may be claimed again.
pub record IsWithin (max_attempts : ℕ) (r : OutboxRow) : Type 0 where
  pub attempts : r.attempts ≤ max_attempts
  pub waiting :
      (r.is_processed ≡ true)
      ⊎ (r.is_failed ≡ true)
      ⊎ (r.is_locked ≡ true)
      ⊎ (r.attempts < max_attempts)

waiting_left :
    (max_attempts now : ℕ) (r : OutboxRow)
    → is_claimable now r ≡ true
    → IsWithin max_attempts r
    → r.attempts < max_attempts
waiting_left max_attempts now r free within = elim within.waiting [
  | inl e ↦ ground (arith, e)
  | inr (inl e) ↦ ground (arith, e)
  | inr (inr (inl e)) ↦ ground (arith, e)
  | inr (inr (inr less)) ↦ less
]

-- A claim takes one of the attempts that are left.
claimed_left :
    (max_attempts now : ℕ) (r : OutboxRow)
    → is_claimable now r ≡ true
    → IsWithin max_attempts r
    → IsWithin max_attempts (claimed r)
      × (suc (left_for max_attempts (claimed r)) ≡ left_for max_attempts r)
claimed_left max_attempts now r free within =
    let less = waiting_left max_attempts now r free within in
    (record { attempts = omega arith; waiting = inr (inr (inl refl)) }, ground arith)

pub claim_ids_left :
    (max_attempts now : ℕ) (ids : List String) (rows : List OutboxRow)
    → All (IsWithin max_attempts) rows
    → All (IsWithin max_attempts) (claim_ids now ids rows).1
      × (attempts_left max_attempts (claim_ids now ids rows).1 + length (claim_ids now ids rows).0
          ≡ attempts_left max_attempts rows)
unfolding claim_ids
claim_ids_left max_attempts now ids [] all = (tt, omega arith)
claim_ids_left max_attempts now ids (r ∷ rows) (within, all) =
    let (rest, sum) = claim_ids_left max_attempts now ids rows all in
    elim (Bool-cases (is_claimable now r)) [
      | inr held ↦ rw held ((within, rest), omega arith)
      | inl free ↦ elim (Bool-cases (any (str_eq r.id) ids)) [
        | inr other ↦ rw (free, other) ((within, rest), omega arith)
        | inl mine ↦
            let (one, left) = claimed_left max_attempts now r free within in
            rw (free, mine) ((one, rest), omega arith)
      ]
    ]

pub completed-left :
    (max_attempts : ℕ) (r : OutboxRow)
    → left_for max_attempts (completed r) ≤ left_for max_attempts r
unfolding completed
completed-left max_attempts r = omega arith

pub failed-left :
    (now : ℕ) (message : String) (max_attempts : ℕ) (r : OutboxRow)
    → left_for max_attempts (failed now message max_attempts r) ≤ left_for max_attempts r
unfolding failed
failed-left now message max_attempts r = ground arith

pub completed-IsWithin :
    (max_attempts : ℕ) (r : OutboxRow)
    → IsWithin max_attempts r
    → IsWithin max_attempts (completed r)
unfolding completed
completed-IsWithin max_attempts r w = record { attempts = w.attempts; waiting = inl refl }

pub failed-IsWithin :
    (now : ℕ) (message : String) (max_attempts : ℕ) (r : OutboxRow)
    → IsWithin max_attempts r
    → IsWithin max_attempts (failed now message max_attempts r)
unfolding failed
failed-IsWithin now message max_attempts r w = elim (Bool-cases (leb max_attempts r.attempts)) [
  | inl spent ↦ rw spent (record { attempts = w.attempts; waiting = inr (inl refl) })
  | inr some_left ↦
      rw some_left (record { attempts = w.attempts; waiting = inr (inr (inr (ground arith))) })
]

-- What an update of the rows keeps.
abbrev pub Keeps : ℕ → List OutboxRow → List OutboxRow → Type 0
Keeps max_attempts rows rows' =
    All (IsWithin max_attempts) rows'
    × (attempts_left max_attempts rows' ≤ attempts_left max_attempts rows)

pub update_row-Keeps :
    (max_attempts : ℕ) (id : String) (f : OutboxRow → OutboxRow) (rows : List OutboxRow)
    → ((r : OutboxRow) → IsWithin max_attempts r → IsWithin max_attempts (f r))
    → ((r : OutboxRow) → left_for max_attempts (f r) ≤ left_for max_attempts r)
    → All (IsWithin max_attempts) rows
    → Keeps max_attempts rows (update_row id f rows)
unfolding update_row
update_row-Keeps max_attempts id f [] keep le all = (tt, omega arith)
update_row-Keeps max_attempts id f (r ∷ rows) keep le (within, all) =
    let (rest, sum) = update_row-Keeps max_attempts id f rows keep le all in
    elim (Bool-cases (str_eq r.id id)) [
      | inl same ↦ rw same ((keep r within, rest), omega (arith, le r))
      | inr other ↦ rw other ((within, rest), omega arith)
    ]
