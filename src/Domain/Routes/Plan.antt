-- ===== src/Domain/Routes/Plan.antt =====
-- The estimates along a route: src/domain/geo.ts, `planRoute`. `leg_meters` and `leg_seconds` are
-- `estimateLegMeters` and, at the given speed, `estimateLegSeconds`, which are computed with doubles
-- and return whole numbers. A time is its count of milliseconds.
pub mod Known
use mealdirectbackend.Common.{
  ℕ, ◌+◌, ◌*◌, ◌/◌, List, [], ◌∷◌, Bool, true, false, Option, none, some, is_some, if◌then◌else◌,
  ◌&&◌, max, ℤ, pos, ◌+ℤ◌,
}

pub record PlannedStop (T : Type 0) : Type 0 where
  pub stop : T
  pub sequence : ℕ
  pub leg_distance_meters : Option ℕ
  pub eta_at : Option ℤ
  pub eta_minutes : Option ℕ

pub record RoutePlan (T : Type 0) : Type 0 where
  pub stops : List (PlannedStop T)
  pub total_distance_meters : Option ℕ
  pub final_eta_at : Option ℤ

-- The variables that the function given to `map` changes.
pub record Progress (Point : Type 0) : Type 0 where
  pub cursor : Option Point
  pub elapsed_seconds : ℕ
  pub eta_known : Bool
  pub total_distance : ℕ
  pub distance_known : Bool

abbrev pub stop_dwell_seconds : ℕ
stop_dwell_seconds = 120

-- `stops.at(-1)?.etaAt ?? null`
unfoldable pub last_eta : {T : Type 0} → List (PlannedStop T) → Option ℤ
last_eta [] = none
last_eta (stop ∷ stops) = elim stops [ [] ↦ stop.eta_at | next ∷ rest ↦ last_eta stops ]

abbrev pub start_at : {Point : Type 0} → Option Point → Progress Point
start_at origin = record {
  cursor = origin;
  elapsed_seconds = 0;
  eta_known = is_some origin;
  total_distance = 0;
  distance_known = is_some origin;
}

abbrev pub plan_of : {T Point : Type 0} → List (PlannedStop T) × Progress Point → RoutePlan T
plan_of ([], s) = record { stops = []; total_distance_meters = none; final_eta_at = none }
plan_of (stop ∷ stops, s) = record {
  stops = stop ∷ stops;
  total_distance_meters = if s.distance_known then some s.total_distance else none;
  final_eta_at = last_eta (stop ∷ stops);
}

module _ {T Point : Type 0} (point : T → Option Point) (leg_meters : Point → Point → ℕ)
    (leg_seconds : ℕ → ℕ) (now : ℤ) where
  abbrev pub leg : Option Point → T → Option ℕ
  leg none stop = none
  leg (some from) stop = elim (point stop) [ none ↦ none | some to ↦ some (leg_meters from to) ]

  -- A stop whose leg is measured.
  abbrev pub measured : ℕ → T → ℕ → Progress Point → PlannedStop T × Progress Point
  measured index stop meters s =
      let elapsed = s.elapsed_seconds + leg_seconds meters in
      if s.eta_known
      then (
        record {
          stop = stop;
          sequence = index + 1;
          leg_distance_meters = some meters;
          eta_at = some (now +ℤ pos (elapsed * 1000));
          eta_minutes = some (max 1 ((elapsed + 59) / 60));
        },
        record s {
          cursor = point stop;
          elapsed_seconds = elapsed + stop_dwell_seconds;
          total_distance = s.total_distance + meters;
        },
      )
      else (
        record {
          stop = stop;
          sequence = index + 1;
          leg_distance_meters = some meters;
          eta_at = none;
          eta_minutes = none;
        },
        record s { cursor = point stop; total_distance = s.total_distance + meters },
      )

  abbrev pub unmeasured : ℕ → T → Progress Point → PlannedStop T × Progress Point
  unmeasured index stop s = (
    record {
      stop = stop;
      sequence = index + 1;
      leg_distance_meters = none;
      eta_at = none;
      eta_minutes = none;
    },
    record s { cursor = point stop; eta_known = false; distance_known = false },
  )

  unfoldable pub plan_stop : ℕ → T → Progress Point → PlannedStop T × Progress Point
  plan_stop index stop s = elim (leg s.cursor stop) [
    | some meters ↦ measured index stop meters s
    | none ↦ unmeasured index stop s
  ]

  unfoldable pub plan_stops : ℕ → List T → Progress Point → List (PlannedStop T) × Progress Point
  plan_stops index [] s = ([], s)
  plan_stops index (stop ∷ stops) s =
      let (planned, s') = plan_stop index stop s in
      let (rest, s'') = plan_stops (index + 1) stops s' in (planned ∷ rest, s'')

  unfoldable pub plan_route : Option Point → List T → RoutePlan T
  plan_route origin stops = plan_of (plan_stops 0 stops (start_at origin))
