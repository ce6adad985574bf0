-- ===== src/Domain/Routes/Plan/Known.antt =====
-- What of a route is known: src/domain/geo.ts, `planRoute`.
use mealdirectbackend.Common.{
  ℕ, ◌+◌, ◌≡◌, refl, ◌∙◌, List, [], ◌∷◌, Bool, true, Option, none, some, is_some, if◌then◌else◌,
  ◌&&◌, ℤ, map, arith,
}
use mealdirectbackend.Domain.Routes.Plan.{
  PlannedStop, Progress, plan_stop, plan_stops, start_at, plan_route,
}

-- Whether the arrival at each stop is known: as long as every place so far is.
abbrev pub known_from : {T Point : Type 0} → (T → Option Point) → Bool → List T → List Bool
known_from point known [] = []
known_from point known (stop ∷ stops) =
    (known && is_some (point stop)) ∷ known_from point (known && is_some (point stop)) stops

abbrev pub all_known : {T Point : Type 0} → (T → Option Point) → Bool → List T → Bool
all_known point known [] = known
all_known point known (stop ∷ stops) = all_known point (known && is_some (point stop)) stops

abbrev pub sequence_from : {T : Type 0} → ℕ → List T → List ℕ
sequence_from index [] = []
sequence_from index (stop ∷ stops) = (index + 1) ∷ sequence_from (index + 1) stops

abbrev pub legs_of : {T : Type 0} → List (PlannedStop T) → ℕ
legs_of [] = 0
legs_of (stop ∷ stops) = elim stop.leg_distance_meters [
  | none ↦ legs_of stops
  | some m ↦ m + legs_of stops
]

legs_of-cons :
    {T : Type 0} (stop : PlannedStop T) (stops : List (PlannedStop T))
    → legs_of (stop ∷ stops) ≡ legs_of (stop ∷ []) + legs_of stops
legs_of-cons stop stops = ground arith

module _ {T Point : Type 0} (point : T → Option Point) (leg_meters : Point → Point → ℕ)
    (leg_seconds : ℕ → ℕ) (now : ℤ) where
  -- Both flags say whether everything so far is known, and then so is the place.
  abbrev IsTracked : Bool → Progress Point → Type 0
  IsTracked known s =
      (s.eta_known ≡ known) × (s.distance_known ≡ known) × (known ≡ true → is_some s.cursor ≡ true)

  plan_stop-IsTracked :
      (index : ℕ) (stop : T) (known : Bool) (s : Progress Point)
      → IsTracked known s
      → let (planned, s') = plan_stop point leg_meters leg_seconds now index stop s in
        (is_some planned.eta_at ≡ known && is_some (point stop))
        × (is_some planned.eta_minutes ≡ is_some planned.eta_at)
        × (planned.sequence ≡ index + 1)
        × IsTracked (known && is_some (point stop)) s'
        × (s'.total_distance ≡ s.total_distance + legs_of (planned ∷ []))
  unfolding plan_stop
  plan_stop-IsTracked index stop known s (e, d, c) = (
    ground (arith, e, d, c),
    ground arith,
    ground arith,
    (ground (arith, e, d, c), ground (arith, e, d, c), ground (arith, e, d, c)),
    ground arith,
  )

  -- The plan of the stops from an index on.
  abbrev IsPlanned :
      ℕ → List T → Bool → Progress Point → List (PlannedStop T) × Progress Point → Type 0
  IsPlanned index stops known s (planned, s') =
      (map (λ p. is_some p.eta_at) planned ≡ known_from point known stops)
      × (map (λ p. p.sequence) planned ≡ sequence_from index stops)
      × (s'.distance_known ≡ all_known point known stops)
      × (s'.total_distance ≡ s.total_distance + legs_of planned)

  plan_stops-IsPlanned :
      (index : ℕ) (stops : List T) (known : Bool) (s : Progress Point)
      → IsTracked known s
      → IsPlanned index stops known s (plan_stops point leg_meters leg_seconds now index stops s)
  unfolding plan_stops
  plan_stops-IsPlanned index [] known s (e, d, c) = (refl, refl, d, omega arith)
  plan_stops-IsPlanned index (stop ∷ stops) known s h =
      let (planned, s') = plan_stop point leg_meters leg_seconds now index stop s in
      let (eta, _, number, tracked, total) = plan_stop-IsTracked index stop known s h in
      let (etas, numbers, flag, totals) =
        plan_stops-IsPlanned (index + 1) stops (known && is_some (point stop)) s' tracked in
      (
        (λ i. eta i ∷ etas i),
        (λ i. number i ∷ numbers i),
        flag,
        omega (
          arith,
          total,
          totals,
          legs_of-cons planned (plan_stops point leg_meters leg_seconds now (index + 1) stops s').0,
        ),
      )

  -- The arrival at a stop is known exactly if the origin and every stop up to it have a place. The
  -- stops are numbered from 1. A route with a stop has a total distance exactly if the origin and all
  -- stops have a place, and then it is the sum of the legs.
  plan_route_known :
      (origin : Option Point) (first : T) (others : List T)
      → let plan = plan_route point leg_meters leg_seconds now origin (first ∷ others) in
        (map (λ p. is_some p.eta_at) plan.stops
          ≡ known_from point (is_some origin) (first ∷ others))
        × (map (λ p. p.sequence) plan.stops ≡ sequence_from 0 (first ∷ others))
        × (plan.total_distance_meters ≡ (
            if all_known point (is_some origin) (first ∷ others)
            then some (legs_of plan.stops)
            else none))
  unfolding plan_route plan_stops
  plan_route_known origin first others =
      let (etas, numbers, flag, total) =
        plan_stops-IsPlanned 0 (first ∷ others) (is_some origin) (start_at origin)
          (refl, refl, λ e. e) in
      let legs =
        legs_of
          (plan_stops point leg_meters leg_seconds now 0 (first ∷ others) (start_at origin)).0 in
      let from_zero : 0 + legs ≡ legs = omega arith in
      (etas, numbers, λ i. if flag i then some ((total ∙ from_zero) i) else none)
