-- ===== src/Auth/Throttle/Keys.antt =====
-- The guard of src/common/http/auth-throttle.guard.ts counts each key on its own, and the sweep of
-- expired windows never shows.
use mealdirectbackend.Common.{
  ℕ, suc, ◌+◌, ◌-◌, ◌≤◌, ltb, leb, ◌≡◌, refl, sym, ◌∙◌, ap, List, [], ◌∷◌, false, Option, none,
  some, String, str_eq, eq_iff, if◌then◌else◌, Bool-cases, inl, inr, arith,
}
use mealdirectbackend.Auth.Throttle.{
  Window, Throttle, ThrottleLimits, Decision, passes, too_many, Attempt, key_of, unexpired, sweep,
  set_window, retry_after, decide, can_activate,
}

-- One key with its window alone, which is never swept.
unfoldable pub decide_alone : ThrottleLimits → ℕ → Option Window → Decision × Option Window
decide_alone limits now none =
    (passes, some (record { count = 1; reset_at = now + limits.window_ms }))
decide_alone limits now (some w) =
    if leb w.reset_at now
    then (passes, some (record { count = 1; reset_at = now + limits.window_ms }))
    else if leb limits.max_attempts w.count
    then (too_many (retry_after w.reset_at now), some w)
    else (passes, some (record w { count = suc w.count }))

-- The decisions on the attempts with a key.
unfoldable pub decisions : ThrottleLimits → String → List Attempt → Throttle → List Decision
decisions limits key [] t = []
decisions limits key (a ∷ attempts) t =
    let rest = decisions limits key attempts (can_activate limits a t).1 in
    if str_eq (key_of a) key then (can_activate limits a t).0 ∷ rest else rest

unfoldable pub times_of : String → List Attempt → List ℕ
times_of key [] = []
times_of key (a ∷ attempts) =
    let rest = times_of key attempts in if str_eq (key_of a) key then a.now ∷ rest else rest

unfoldable pub decisions_alone : ThrottleLimits → List ℕ → Option Window → List Decision
decisions_alone limits [] w = []
decisions_alone limits (now ∷ times) w =
    (decide_alone limits now w).0 ∷ decisions_alone limits times (decide_alone limits now w).1

-- The clock does not go back.
abbrev pub InOrder : ℕ → List Attempt → Type 0
InOrder t [] = Unit
InOrder t (a ∷ attempts) = (t ≤ a.now) × InOrder a.now attempts

unexpired_later :
    (t now : ℕ) (v w : Option Window)
    → t ≤ now
    → unexpired t v ≡ unexpired t w
    → unexpired now v ≡ unexpired now w
unfolding unexpired
unexpired_later t now none none h e = refl
unexpired_later t now none (some w) h e = ground arith
unexpired_later t now (some v) none h e = ground arith
unexpired_later t now (some v) (some w) h e = ground arith

unexpired_twice : (now : ℕ) (w : Option Window) → unexpired now (unexpired now w) ≡ unexpired now w
unfolding unexpired
unexpired_twice now none = refl
unexpired_twice now (some w) = ground arith

-- The sweep removes only what has expired.
unexpired-sweep :
    (now : ℕ) (t : Throttle) (key : String)
    → unexpired now ((sweep now t).windows key) ≡ unexpired now (t.windows key)
unfolding sweep
unexpired-sweep now t key = elim (Bool-cases (ltb (now - t.last_sweep) 60000)) [
  | inl e ↦ rw e refl
  | inr e ↦ rw e (unexpired_twice now (t.windows key))
]

decide_alone-unexpired :
    (limits : ThrottleLimits) (now : ℕ) (w : Option Window)
    → decide_alone limits now (unexpired now w) ≡ decide_alone limits now w
unfolding decide_alone unexpired
decide_alone-unexpired limits now none = refl
decide_alone-unexpired limits now (some w) = ground arith

decide_alone_same :
    (limits : ThrottleLimits) (now : ℕ) (v w : Option Window)
    → unexpired now v ≡ unexpired now w
    → decide_alone limits now v ≡ decide_alone limits now w
decide_alone_same limits now v w e =
    sym (decide_alone-unexpired limits now v)
    ∙ ap (decide_alone limits now) e
    ∙ decide_alone-unexpired limits now w

decide_own :
    (limits : ThrottleLimits) (key : String) (now : ℕ) (w : Option Window) (t : Throttle)
    → t.windows key ≡ w
    → ((decide limits key now w t).0 ≡ (decide_alone limits now w).0)
      × ((decide limits key now w t).1.windows key ≡ (decide_alone limits now w).1)
unfolding decide decide_alone set_window
decide_own limits key now none t e = (refl, rw ((eq_iff key key).1 refl) refl)
decide_own limits key now (some w) t e = elim (Bool-cases (leb w.reset_at now)) [
  | inl over ↦ (rw over refl, rw (over, (eq_iff key key).1 refl) refl)
  | inr live ↦ elim (Bool-cases (leb limits.max_attempts w.count)) [
    | inl full ↦ (rw (live, full) refl, rw (live, full) e)
    | inr room ↦ (rw (live, room) refl, rw (live, room, (eq_iff key key).1 refl) refl)
  ]
]

decide_other :
    (limits : ThrottleLimits) (key other : String) (now : ℕ) (w : Option Window) (t : Throttle)
    → str_eq other key ≡ false
    → (decide limits key now w t).1.windows other ≡ t.windows other
unfolding decide set_window
decide_other limits key other now none t e = rw e refl
decide_other limits key other now (some w) t e = elim (Bool-cases (leb w.reset_at now)) [
  | inl over ↦ rw (over, e) refl
  | inr live ↦ elim (Bool-cases (leb limits.max_attempts w.count)) [
    | inl full ↦ rw (live, full) refl
    | inr room ↦ rw (live, room, e) refl
  ]
]

-- One attempt under another key, and one under the key itself.
can_activate_other :
    (limits : ThrottleLimits) (a : Attempt) (t : Throttle) (key : String)
    → str_eq key (key_of a) ≡ false
    → unexpired a.now ((can_activate limits a t).1.windows key) ≡ unexpired a.now (t.windows key)
unfolding can_activate
can_activate_other limits a t key e =
    ap (unexpired a.now) (decide_other limits (key_of a) key a.now _ (sweep a.now t) e)
    ∙ unexpired-sweep a.now t key

pub can_activate_own :
    (limits : ThrottleLimits) (a : Attempt) (t : Throttle) (w : Option Window)
    → unexpired a.now (t.windows (key_of a)) ≡ unexpired a.now w
    → ((can_activate limits a t).0 ≡ (decide_alone limits a.now w).0)
      × ((can_activate limits a t).1.windows (key_of a) ≡ (decide_alone limits a.now w).1)
unfolding can_activate
can_activate_own limits a t w e =
    let swept = sweep a.now t in
    let own = decide_own limits (key_of a) a.now (swept.windows (key_of a)) swept refl in
    let same =
      decide_alone_same limits a.now (swept.windows (key_of a)) w
        (unexpired-sweep a.now t (key_of a) ∙ e) in
    (own.0 ∙ ap (λ x. x.0) same, own.1 ∙ ap (λ x. x.1) same)

other_key : (k key : String) → str_eq k key ≡ false → str_eq key k ≡ false
other_key k key e = elim (Bool-cases (str_eq key k)) [
  | inl same ↦ cc (e, (eq_iff k key).1 (sym ((eq_iff key k).0 same)))
  | inr other ↦ other
]

-- While the clock does not go back, the guard decides on the attempts with a key as if there were no
-- other key and no sweep, from the window of the key, which counts only until it expires.
pub decisions-eq-alone :
    (limits : ThrottleLimits) (key : String) (attempts : List Attempt) (t : Throttle) (start : ℕ)
    (w : Option Window)
    → InOrder start attempts
    → unexpired start (t.windows key) ≡ unexpired start w
    → decisions limits key attempts t ≡ decisions_alone limits (times_of key attempts) w
unfolding decisions times_of decisions_alone
decisions-eq-alone limits key [] t start w order e = refl
decisions-eq-alone limits key (a ∷ attempts) t start w (le, order) e =
    elim (Bool-cases (str_eq (key_of a) key)) [
      | inl own ↦
          let same = (eq_iff (key_of a) key).0 own in
          let before : unexpired a.now (t.windows (key_of a)) ≡ unexpired a.now w =
            ap (λ k. unexpired a.now (t.windows k)) same
            ∙ unexpired_later start a.now (t.windows key) w le e in
          let (decision, window) = can_activate_own limits a t w before in
          let after : (can_activate limits a t).1.windows key ≡ (decide_alone limits a.now w).1 =
            ap (can_activate limits a t).1.windows (sym same) ∙ window in
          let rest =
            decisions-eq-alone limits key attempts (can_activate limits a t).1 a.now
              (decide_alone limits a.now w).1 order (ap (unexpired a.now) after) in
          rw own (cc (decision, rest))
      | inr other ↦ rw other (
          decisions-eq-alone limits key attempts (can_activate limits a t).1 a.now w order (
            can_activate_other limits a t key (other_key (key_of a) key other)
            ∙ unexpired_later start a.now (t.windows key) w le e))
    ]
