-- ===== src/Worker/Outbox.antt =====
-- The outbox: src/worker/outbox-processor.ts, handler-registry.ts and outbox.repository.ts, with the
-- stored functions of supabase/migrations/20260619000800_outbox_worker_lifecycle.sql. Times are
-- seconds; the name of the worker, the kind and id of an aggregate and the payload are left out.
pub mod Attempts
pub mod Bound
use Prim.Native.Nat.{◌^◌}
use Prim.Native.Char.{code}
use Prim.Native.String
use mealdirectbackend.Common.{
  ℕ, zero, suc, ◌+◌, ltb, leb, List, [], ◌∷◌, ◌++◌, Bool, true, false, Option, none, some, Result,
  ok, err, String, str_eq, not, ◌&&◌, if◌then◌else◌, length, any, map, ◌==◌,
}
use mealdirectbackend.Payouts.Client.{Thrown}
use mealdirectbackend.Payments.Machine.{World, M, pure, resume, ◌>>=◌, ◌>>◌, access}

pub record OutboxRow : Type 0 where
  pub id : String
  pub event_type : String
  pub attempts : ℕ
  pub available_at : ℕ
  pub is_locked : Bool
  pub is_processed : Bool
  pub is_failed : Bool
  pub last_error : Option String

abbrev pub codes : String → List ℕ
codes String.[] = []
codes (String.◌∷◌ c s) = code c ∷ codes s

abbrev pub is_prefix : List ℕ → List ℕ → Bool
is_prefix [] s = true
is_prefix (c ∷ p) [] = false
is_prefix (c ∷ p) (d ∷ s) = let rest = is_prefix p s in if c == d then rest else false

-- `s.startsWith(prefix)`
abbrev pub starts_with : String → String → Bool
starts_with s prefix = is_prefix (codes prefix) (codes s)

-- A handler acts on the world outside the outbox, and returns or throws.
abbrev pub OutboxHandler : Type 0 → Type 0
OutboxHandler H = OutboxRow → H → Result Thrown (Unit {0}) × H

pub record HandlerRegistry (H : Type 0) : Type 0 where
  pub handlers : List (String × OutboxHandler H)
  pub prefix_handlers : List (String × OutboxHandler H)

-- The handlers whose key passes a test, in the order of their registration.
abbrev pub select : {H : Type 0} → (String → Bool) → List (String × H) → List H
select p [] = []
select p ((key, h) ∷ rest) = let others = select p rest in if p key then h ∷ others else others

unfoldable pub handlers_for : {H : Type 0} → HandlerRegistry H → String → List (OutboxHandler H)
handlers_for registry event_type =
    select (λ key. str_eq key event_type) registry.handlers
    ++ select (λ prefix. starts_with event_type prefix) registry.prefix_handlers

-- `processed_at is null and failed_at is null and locked_at is null and available_at <= now()`
abbrev pub is_claimable : ℕ → OutboxRow → Bool
is_claimable now r =
    not r.is_processed && not r.is_failed && not r.is_locked && leb r.available_at now

-- By the time from which it is available; the rows stand in the order of their creation.
abbrev pub insert_by_time : OutboxRow → List OutboxRow → List OutboxRow
insert_by_time r [] = r ∷ []
insert_by_time r (x ∷ xs) =
    let rest = insert_by_time r xs in
    if ltb r.available_at x.available_at then r ∷ x ∷ xs else x ∷ rest

abbrev pub claimable_in_order : ℕ → List OutboxRow → List OutboxRow → List OutboxRow
claimable_in_order now [] sorted = sorted
claimable_in_order now (r ∷ rows) sorted =
    claimable_in_order now rows (if is_claimable now r then insert_by_time r sorted else sorted)

abbrev pub take_ids : ℕ → List OutboxRow → List String
take_ids zero rows = []
take_ids (suc n) [] = []
take_ids (suc n) (r ∷ rows) = r.id ∷ take_ids n rows

abbrev pub claimed : OutboxRow → OutboxRow
claimed r = record r { is_locked = true; attempts = suc r.attempts }

-- The update of `claim_outbox_batch` on the rows with the claimed ids: the rows returned, and all rows.
-- An id that was claimed is the id of one row, which is claimable.
unfoldable pub claim_ids : ℕ → List String → List OutboxRow → List OutboxRow × List OutboxRow
claim_ids now ids [] = ([], [])
claim_ids now ids (r ∷ rows) =
    let (events, rest) = claim_ids now ids rows in
    if is_claimable now r && any (str_eq r.id) ids
    then (claimed r ∷ events, claimed r ∷ rest)
    else (events, r ∷ rest)

unfoldable pub claim_batch : ℕ → ℕ → List OutboxRow → List OutboxRow × List OutboxRow
claim_batch limit now rows = claim_ids now (take_ids limit (claimable_in_order now rows [])) rows

unfoldable pub update_row : String → (OutboxRow → OutboxRow) → List OutboxRow → List OutboxRow
update_row id f rows = map (λ r. if str_eq r.id id then f r else r) rows

-- `complete_outbox_event`
unfoldable pub completed : OutboxRow → OutboxRow
completed r = record r { is_processed = true; is_locked = false; last_error = none }

-- `fail_outbox_event`: `power(2, attempts)` seconds until the next attempt.
unfoldable pub failed : ℕ → String → ℕ → OutboxRow → OutboxRow
failed now message max_attempts r =
    if leb max_attempts r.attempts
    then record r { is_failed = true; is_locked = false; last_error = some message }
    else record r {
      is_locked = false;
      last_error = some message;
      available_at = now + 2 ^ r.attempts;
    }

pub record ProcessorConfig : Type 0 where
  pub batch_size : ℕ
  pub max_attempts : ℕ

-- `message_of` is the message of an error. The clock is read once for a batch.
module _ {H : Type 0} (registry : HandlerRegistry H) (config : ProcessorConfig)
    (message_of : Thrown → String) where
  -- `for (const handler of ...) await handler(event);`
  unfoldable pub run_handlers : List (OutboxHandler H) → OutboxRow → M (List OutboxRow) H (Unit {0})
  run_handlers [] event w = pure tt w
  run_handlers (handler ∷ handlers) event w =
      let (r, h) = handler event w.provider in
      resume (r, record w { provider = h }) (λ done. run_handlers handlers event)

  unfoldable pub handle_event : OutboxRow → M (List OutboxRow) H (Unit {0})
  handle_event event =
      run_handlers (handlers_for registry event.event_type) event
      >> access (λ rows. some (tt, update_row event.id completed rows))

  -- `catch (error) { ... fail(...) }`
  unfoldable pub caught :
      ℕ
      → OutboxRow
      → Result Thrown (Unit {0}) × World (List OutboxRow) H
      → Result Thrown (Unit {0}) × World (List OutboxRow) H
  caught now event (ok done, w) = (ok done, w)
  caught now event (err e, w) =
      access
        (λ rows.
          some (tt, update_row event.id (failed now (message_of e) config.max_attempts) rows))
        w

  unfoldable pub process_events : ℕ → List OutboxRow → M (List OutboxRow) H (Unit {0})
  process_events now [] w = pure tt w
  process_events now (event ∷ events) w =
      resume (caught now event (handle_event event w)) (λ done. process_events now events)

  unfoldable pub drain_once : ℕ → M (List OutboxRow) H ℕ
  drain_once now = do
    events ← access (λ rows. some (claim_batch config.batch_size now rows))
    process_events now events
    pure (length events)
