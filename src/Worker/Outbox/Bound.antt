-- ===== src/Worker/Outbox/Bound.antt =====
-- The worker of src/worker/outbox-processor.ts comes to an end with every event.
use mathlib.Core.Path.{subst}
use mealdirectbackend.Common.{
  ℕ, ◌+◌, ◌≤◌, ◌≡◌, refl, sym, ◌∙◌, ap, List, [], ◌∷◌, some, Result, ok, err, String, length, inl,
  inr, arith, All, value_or,
}
use mealdirectbackend.Payouts.Client.{Thrown}
use mealdirectbackend.Payments.Machine.{World, pure, resume, access}
use mealdirectbackend.Payments.Machine.Accesses.{access_cases}
use mealdirectbackend.Worker.Outbox.{
  OutboxRow, OutboxHandler, HandlerRegistry, handlers_for, claim_batch, take_ids,
  claimable_in_order, update_row, completed, failed, ProcessorConfig, run_handlers, handle_event,
  caught, process_events, drain_once,
}
use mealdirectbackend.Worker.Outbox.Attempts.{
  IsWithin, attempts_left, left_for, Keeps, update_row-Keeps, claim_ids_left, completed-left,
  failed-left, completed-IsWithin, failed-IsWithin,
}

Keeps-trans : (n : ℕ) (a b c : List OutboxRow) → Keeps n a b → Keeps n b c → Keeps n a c
Keeps-trans n a b c (p, le) (q, le') = (q, omega arith)

Keeps-refl : (n : ℕ) (a : List OutboxRow) → All (IsWithin n) a → Keeps n a a
Keeps-refl n a all = (all, omega arith)

module _ {H : Type 0} (registry : HandlerRegistry H) (config : ProcessorConfig)
    (message_of : Thrown → String) where
  -- The handlers do not touch the outbox.
  run_handlers-state :
      (handlers : List (OutboxHandler H)) (event : OutboxRow) (w : World (List OutboxRow) H)
      → (run_handlers registry config message_of handlers event w).1.state ≡ w.state
  unfolding run_handlers
  run_handlers-state [] event w = refl
  run_handlers-state (h ∷ handlers) event w =
      by_answer (h event w.provider).0 (record w { provider = (h event w.provider).1 })
        (run_handlers-state handlers event (record w { provider = (h event w.provider).1 }))
    where
      by_answer :
          (r : Result Thrown (Unit {0})) (w' : World (List OutboxRow) H)
          → (run_handlers registry config message_of handlers event w').1.state ≡ w'.state
          → (resume
              (r, w')
              (λ done. run_handlers registry config message_of handlers event)).1.state
            ≡ w'.state
      by_answer (ok done) w' rest = rest
      by_answer (err e) w' rest = refl

  update-Keeps :
      (id : String) (f : OutboxRow → OutboxRow) (w : World (List OutboxRow) H)
      → ((r : OutboxRow) → IsWithin config.max_attempts r → IsWithin config.max_attempts (f r))
      → ((r : OutboxRow) → left_for config.max_attempts (f r) ≤ left_for config.max_attempts r)
      → All (IsWithin config.max_attempts) w.state
      → Keeps config.max_attempts w.state
          (access (λ rows. some (tt, update_row id f rows)) w).1.state
  update-Keeps id f w keep le all =
      elim (access_cases (λ (rows : List OutboxRow). some (tt, update_row id f rows)) w) [
        | inr (e, w1, e1, s1) ↦ rw (e1, s1) (Keeps-refl config.max_attempts w.state all)
        | inl (done, rows, w1, written, e1, s1) ↦
            let same : rows ≡ update_row id f w.state = cc written in
            rw (e1, s1, same) (update_row-Keeps config.max_attempts id f w.state keep le all)
      ]

  handle_event-Keeps :
      (event : OutboxRow) (w : World (List OutboxRow) H)
      → All (IsWithin config.max_attempts) w.state
      → Keeps config.max_attempts w.state (handle_event registry config message_of event w).1.state
  unfolding handle_event
  handle_event-Keeps event w all =
      by_run
        (run_handlers registry config message_of (handlers_for registry event.event_type) event w)
        (run_handlers-state (handlers_for registry event.event_type) event w)
    where
      by_run :
          (x : Result Thrown (Unit {0}) × World (List OutboxRow) H)
          → x.1.state ≡ w.state
          → Keeps config.max_attempts w.state
              (resume x
                (λ done. access (λ rows. some (tt, update_row event.id completed rows)))).1.state
      by_run (ok done, w1) same =
          subst
            (λ s.
              Keeps config.max_attempts s
                (access (λ rows. some (tt, update_row event.id completed rows)) w1).1.state)
            same
            (update-Keeps event.id completed w1 (completed-IsWithin config.max_attempts)
              (completed-left config.max_attempts)
              (subst (All (IsWithin config.max_attempts)) (sym same) all))
      by_run (err e, w1) same = rw same (Keeps-refl config.max_attempts w.state all)

  caught-Keeps :
      (now : ℕ) (event : OutboxRow) (s : List OutboxRow)
      (x : Result Thrown (Unit {0}) × World (List OutboxRow) H)
      → Keeps config.max_attempts s x.1.state
      → Keeps config.max_attempts s (caught registry config message_of now event x).1.state
  unfolding caught
  caught-Keeps now event s (ok done, w) kept = kept
  caught-Keeps now event s (err e, w) kept = Keeps-trans config.max_attempts s w.state _ kept (
      update-Keeps event.id (failed now (message_of e) config.max_attempts) w
        (failed-IsWithin now (message_of e) config.max_attempts)
        (failed-left now (message_of e) config.max_attempts) kept.0)

  process_events-Keeps :
      (now : ℕ) (events : List OutboxRow) (w : World (List OutboxRow) H)
      → All (IsWithin config.max_attempts) w.state
      → Keeps config.max_attempts w.state
          (process_events registry config message_of now events w).1.state
  unfolding process_events
  process_events-Keeps now [] w all = Keeps-refl config.max_attempts w.state all
  process_events-Keeps now (event ∷ events) w all =
      by_caught
        (caught registry config message_of now event
          (handle_event registry config message_of event w))
        (caught-Keeps now event w.state _ (handle_event-Keeps event w all))
        (process_events-Keeps now events)
    where
      by_caught :
          (x : Result Thrown (Unit {0}) × World (List OutboxRow) H)
          → Keeps config.max_attempts w.state x.1.state
          → ((w' : World (List OutboxRow) H)
              → All (IsWithin config.max_attempts) w'.state
              → Keeps config.max_attempts w'.state
                  (process_events registry config message_of now events w').1.state)
          → Keeps config.max_attempts w.state
              (resume x (λ done. process_events registry config message_of now events)).1.state
      by_caught (ok done, w1) kept rest =
          Keeps-trans config.max_attempts w.state w1.state _ kept (rest w1 kept.0)
      by_caught (err e, w1) kept rest = kept

  counted :
      (now : ℕ) (events : List OutboxRow) (w : World (List OutboxRow) H) (left : ℕ)
      → All (IsWithin config.max_attempts) w.state
      → attempts_left config.max_attempts w.state + length events ≡ left
      → All
          (IsWithin config.max_attempts)
          (resume
            (process_events registry config message_of now events w)
            (λ done. pure (length events))).1.state
        × (value_or
                (resume
                  (process_events registry config message_of now events w)
                  (λ done. pure (length events))).0
                0
              + attempts_left config.max_attempts
                  (resume
                    (process_events registry config message_of now events w)
                    (λ done. pure (length events))).1.state
            ≤ left)
  counted now events w left all sum =
      by_run (process_events registry config message_of now events w)
        (process_events-Keeps now events w all)
    where
      by_run :
          (x : Result Thrown (Unit {0}) × World (List OutboxRow) H)
          → Keeps config.max_attempts w.state x.1.state
          → All (IsWithin config.max_attempts) (resume x (λ done. pure (length events))).1.state
            × (value_or (resume x (λ done. pure (length events))).0 0
                  + attempts_left config.max_attempts
                      (resume x (λ done. pure (length events))).1.state
                ≤ left)
      by_run (ok done, w1) (within, le) = (within, omega arith)
      by_run (err e, w1) (within, le) = (within, omega arith)

  drain_once_left :
      (now : ℕ) (w : World (List OutboxRow) H)
      → All (IsWithin config.max_attempts) w.state
      → All (IsWithin config.max_attempts) (drain_once registry config message_of now w).1.state
        × (value_or (drain_once registry config message_of now w).0 0
              + attempts_left config.max_attempts
                  (drain_once registry config message_of now w).1.state
            ≤ attempts_left config.max_attempts w.state)
  unfolding drain_once claim_batch
  drain_once_left now w all =
      elim (access_cases (λ (rows : List OutboxRow). some (claim_batch config.batch_size now rows))
        w) [
          | inr (e, w1, e1, s1) ↦ rw (e1, s1) (all, omega arith)
          | inl (events, rows, w1, claimed, e1, s1) ↦
              let (within, sum) =
                claim_ids_left config.max_attempts now
                  (take_ids config.batch_size (claimable_in_order now w.state [])) w.state all in
              let same : rows ≡ (claim_batch config.batch_size now w.state).1 = cc claimed in
              let first : events ≡ (claim_batch config.batch_size now w.state).0 = cc claimed in
              rw e1 (
                counted now events w1 (attempts_left config.max_attempts w.state)
                  (subst (All (IsWithin config.max_attempts)) (sym (s1 ∙ same)) within)
                  (ap (λ r. attempts_left config.max_attempts r + length events) (s1 ∙ same)
                    ∙ ap
                        (λ l.
                          attempts_left config.max_attempts
                            (claim_batch config.batch_size now w.state).1
                          + length l)
                        first
                    ∙ sum))
        ]

  -- The ticks of a worker, at the given times, with the number of events that they return.
  unfoldable pub run_drains : List ℕ → World (List OutboxRow) H → ℕ × World (List OutboxRow) H
  run_drains [] w = (0, w)
  run_drains (now ∷ times) w =
      let (r, w1) = drain_once registry config message_of now w in
      let (total, w2) = run_drains times w1 in (value_or r 0 + total, w2)

  -- Whatever the handlers do and whichever accesses to the database fail, no row is attempted more
  -- often than the maximum, and all events that any number of ticks return are at most the attempts
  -- that were left before, so that the worker comes to rest.
  pub run_drains_bounded :
      (times : List ℕ) (w : World (List OutboxRow) H)
      → All (IsWithin config.max_attempts) w.state
      → All (IsWithin config.max_attempts) (run_drains times w).1.state
        × ((run_drains times w).0 + attempts_left config.max_attempts (run_drains times w).1.state
            ≤ attempts_left config.max_attempts w.state)
  unfolding run_drains
  run_drains_bounded [] w all = (all, omega arith)
  run_drains_bounded (now ∷ times) w all =
      let (within, left) = drain_once_left now w all in
      let (rest, sum) =
        run_drains_bounded times (drain_once registry config message_of now w).1 within in
      (rest, omega arith)
