-- ===== src/Domain/Routes.antt =====
-- The order of the stops of a delivery, and the estimates along the way: src/domain/geo.ts. A point,
-- a distance and how they compare are parameters: `haversine` is `haversineMeters`, and `less a b` is
-- `a < b` on what it returns, where none is `Number.POSITIVE_INFINITY`.
pub mod Order
pub mod Plan
use mealdirectbackend.Common.{
  ℕ, ◌+◌, ◌-◌, ◌==◌, List, [], ◌∷◌, ◌++◌, Bool, true, false, Option, none, some, is_some,
  if◌then◌else◌, not,
}

module _ {T Point : Type 0} (point : T → Option Point) where
  -- `stops.filter((stop) => stop.point !== null)`
  unfoldable pub located : List T → List T
  located [] = []
  located (stop ∷ stops) = if is_some (point stop) then stop ∷ located stops else located stops

  unfoldable pub unlocated : List T → List T
  unlocated [] = []
  unlocated (stop ∷ stops) =
      if is_some (point stop) then unlocated stops else stop ∷ unlocated stops

-- `remaining.splice(index, 1)`: the stop at the index, if there is one, and the others.
unfoldable pub splice : {T : Type 0} → ℕ → List T → Option (T × List T)
splice index [] = none
splice index (stop ∷ stops) =
    let behind = splice (index - 1) stops in
    if index == 0
    then some (stop, stops)
    else elim behind [ none ↦ none | some (next, rest) ↦ some (next, stop ∷ rest) ]

module _ {T Point Distance : Type 0} (point : T → Option Point)
    (haversine : Point → Point → Distance) (less : Distance → Option Distance → Bool) where
  -- One call of the function given to `forEach`, on `bestIndex` and `bestDistance`.
  abbrev pub closer : Point → ℕ → T → ℕ × Option Distance → ℕ × Option Distance
  closer cursor index stop (best_index, best_distance) = elim (point stop) [
    | none ↦ (best_index, best_distance)
    | some p ↦
        let distance = haversine cursor p in
        if less distance best_distance then (index, some distance) else (best_index, best_distance)
  ]

  -- `remaining.forEach(...)`, from an index on.
  unfoldable pub nearest_from : Point → ℕ → List T → ℕ × Option Distance → ℕ × Option Distance
  nearest_from cursor index [] best = best
  nearest_from cursor index (stop ∷ stops) best =
      nearest_from cursor (index + 1) stops (closer cursor index stop best)

  -- The loop, which ends as `remaining` is empty. It is run on a list as long as `remaining`, which
  -- loses a stop in each round.
  unfoldable pub visit_nearest : List T → Point → List T → List T
  visit_nearest [] cursor remaining = []
  visit_nearest (_ ∷ rounds) cursor [] = []
  visit_nearest (_ ∷ rounds) cursor (stop ∷ stops) =
      elim (splice (nearest_from cursor 0 (stop ∷ stops) (0, none)).0 (stop ∷ stops)) [
        | none ↦ []
        | some (next, rest) ↦ elim (point next) [
          | none ↦ []
          | some p ↦ next ∷ visit_nearest rounds p rest
        ]
      ]

  unfoldable pub order_by_nearest_neighbour : Option Point → List T → List T
  order_by_nearest_neighbour none stops = located point stops ++ unlocated point stops
  order_by_nearest_neighbour (some start) stops =
      visit_nearest (located point stops) start (located point stops) ++ unlocated point stops
