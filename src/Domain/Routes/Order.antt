-- ===== src/Domain/Routes/Order.antt =====
-- That the order of the stops leaves none out: src/domain/geo.ts, `orderByNearestNeighbour`.
use mathlib.Core.List.{Permᴰ}
use mathlib.Core.List.Permᴰ
use mealdirectbackend.Common.{
  ℕ, ◌+◌, ◌-◌, ◌==◌, ◌≤◌, ◌<◌, ◌≡◌, refl, inl, inr, List, [], ◌∷◌, ◌++◌, Bool, true, Option, none,
  some, is_some, length, All, arith, Bool-cases, Option-cases,
}
use mealdirectbackend.Domain.Routes.{
  located, unlocated, splice, closer, nearest_from, visit_nearest, order_by_nearest_neighbour,
}

module _ {T Point : Type 0} (point : T → Option Point) where
  abbrev IsLocated : T → Type 0
  IsLocated stop = is_some (point stop) ≡ true

  located-IsLocated : (stops : List T) → All IsLocated (located point stops)
  unfolding located
  located-IsLocated [] = tt
  located-IsLocated (stop ∷ stops) = elim (Bool-cases (is_some (point stop))) [
    | inl h ↦ rw h (h, located-IsLocated stops)
    | inr h ↦ rw h (located-IsLocated stops)
  ]

  partition_perm : (stops : List T) → Permᴰ (located point stops ++ unlocated point stops) stops
  unfolding located unlocated
  partition_perm [] = Permᴰ.nil
  partition_perm (stop ∷ stops) = elim (Bool-cases (is_some (point stop))) [
    | inl h ↦ rw h (Permᴰ.cons refl (partition_perm stops))
    | inr h ↦ rw h (
        Permᴰ.trans (Permᴰ.middle stop (located point stops) (unlocated point stops))
          (Permᴰ.cons refl (partition_perm stops)))
  ]

  -- Within the list a stop is taken out, and no other.
  splice_lem :
      (index : ℕ) (stops : List T)
      → index < length stops
      → All IsLocated stops
      → (next : T) × (rest : List T) × (splice index stops ≡ some (next, rest))
        × Permᴰ (next ∷ rest) stops
        × IsLocated next
        × All IsLocated rest
        × (length rest + 1 ≡ length stops)
  unfolding splice
  splice_lem index [] h l = ground arith
  splice_lem index (stop ∷ stops) h (here, there) = elim (Bool-cases (index == 0)) [
    | inl z ↦ (stop, stops, rw z refl, Permᴰ.refl (stop ∷ stops), here, there, omega arith)
    | inr z ↦
        let (next, rest, e, p, found, others, n) =
          splice_lem (index - 1) stops (ground (arith, h, z)) there in
        (
          next,
          stop ∷ rest,
          rw (z, e) refl,
          Permᴰ.trans (Permᴰ.swap refl refl) (Permᴰ.cons refl p),
          found,
          (here, others),
          omega (arith, n),
        )
  ]

module _ {T Point Distance : Type 0} (point : T → Option Point)
    (haversine : Point → Point → Distance) (less : Distance → Option Distance → Bool) where
  closer-lt :
      (cursor : Point) (index n : ℕ) (stop : T) (best : ℕ × Option Distance)
      → best.0 < n
      → index < n
      → (closer point haversine less cursor index stop best).0 < n
  closer-lt cursor index n stop (index', distance) h k = elim (Option-cases (point stop)) [
    | inl o ↦ rw (o, closer) h
    | inr (p, o) ↦ elim (Bool-cases (less (haversine cursor p) distance)) [
      | inl c ↦ rw (o, closer, c) k
      | inr c ↦ rw (o, closer, c) h
    ]
  ]

  nearest_from-lt :
      (cursor : Point) (index n : ℕ) (stops : List T) (best : ℕ × Option Distance)
      → best.0 < n
      → index + length stops ≤ n
      → (nearest_from point haversine less cursor index stops best).0 < n
  unfolding nearest_from
  nearest_from-lt cursor index n [] best h k = h
  nearest_from-lt cursor index n (stop ∷ stops) best h k =
      nearest_from-lt cursor (index + 1) n stops _
        (closer-lt cursor index n stop best h (omega arith)) (omega arith)

  visit_nearest_perm :
      (rounds : List T) (cursor : Point) (remaining : List T)
      → length rounds ≡ length remaining
      → All (IsLocated point) remaining
      → Permᴰ (visit_nearest point haversine less rounds cursor remaining) remaining
  unfolding visit_nearest
  visit_nearest_perm [] cursor [] h l = Permᴰ.nil
  visit_nearest_perm [] cursor (stop ∷ stops) h l = ground arith
  visit_nearest_perm (_ ∷ rounds) cursor [] h l = ground arith
  visit_nearest_perm (_ ∷ rounds) cursor (stop ∷ stops) h l =
      let i = (nearest_from point haversine less cursor 0 (stop ∷ stops) (0, none)).0 in
      let bound : i < length (stop ∷ stops) =
        nearest_from-lt cursor 0 (length (stop ∷ stops)) (stop ∷ stops) (0, none) (ground arith)
          (omega arith) in
      let (next, rest, e, p, found, others, n) = splice_lem point i (stop ∷ stops) bound l in
      elim (Option-cases (point next)) [
        | inl o ↦ ground (arith, found, o)
        | inr (at, o) ↦
            rw (e, o, visit_nearest)
              (Permᴰ.trans
                (Permᴰ.cons refl (visit_nearest_perm rounds at rest (omega (arith, n, h)) others))
                p)
      ]

  -- The stops come out as they went in, but for their order: none is left out, added or doubled,
  -- whatever the distances are and however they compare.
  order_by_nearest_neighbour_perm :
      (start : Option Point) (stops : List T)
      → Permᴰ (order_by_nearest_neighbour point haversine less start stops) stops
  unfolding order_by_nearest_neighbour
  order_by_nearest_neighbour_perm none stops = partition_perm point stops
  order_by_nearest_neighbour_perm (some start) stops =
      Permᴰ.trans
        (Permᴰ.append_right (unlocated point stops) (
          visit_nearest_perm (located point stops) start (located point stops) refl
            (located-IsLocated point stops)))
        (partition_perm point stops)
