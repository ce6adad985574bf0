-- ===== src/Auth/Throttle/Limit.antt =====
-- How many attempts the guard of src/common/http/auth-throttle.guard.ts lets pass.
use mealdirectbackend.Common.{
  ℕ, suc, ◌+◌, ◌-◌, ◌*◌, ◌≤◌, ◌<◌, max, leb, ◌≡◌, refl, sym, ◌∙◌, ap, List, [], ◌∷◌, true, Option,
  none, some, String, Bool-cases, inl, inr, arith, All,
}
use mealdirectbackend.Auth.Throttle.{
  Window, Throttle, ThrottleLimits, Decision, passes, too_many, Attempt, key_of, unexpired,
  retry_after, can_activate,
}
use mealdirectbackend.Auth.Throttle.Keys.{
  decide_alone, decisions, times_of, decisions_alone, InOrder, decisions-eq-alone, can_activate_own,
}

abbrev pub passed : List Decision → ℕ
passed [] = 0
passed (passes ∷ rest) = suc (passed rest)
passed (too_many seconds ∷ rest) = passed rest

-- Within a window no more pass than its count leaves.
passed-in_window :
    (limits : ThrottleLimits) (w : Window) (times : List ℕ)
    → All (λ now. now < w.reset_at) times
    → passed (decisions_alone limits times (some w)) ≤ limits.max_attempts - w.count
unfolding decisions_alone decide_alone
passed-in_window limits w [] all = omega arith
passed-in_window limits w (now ∷ times) (live, all) =
    let rest = passed-in_window limits (record w { count = suc w.count }) times all in
    let same = passed-in_window limits w times all in ground arith

-- From the first attempt with a key until its window ends, at most the maximum pass, though always the
-- first: of attempts in order, all before the end of the window that the first one opens.
pub decisions-passed :
    (limits : ThrottleLimits) (key : String) (attempts : List Attempt) (t : Throttle)
    (start first : ℕ) (times : List ℕ)
    → InOrder start attempts
    → unexpired start (t.windows key) ≡ none
    → times_of key attempts ≡ first ∷ times
    → All (λ now. now < first + limits.window_ms) times
    → (1 ≤ passed (decisions limits key attempts t))
      × (passed (decisions limits key attempts t) ≤ max 1 limits.max_attempts)
unfolding decisions_alone decide_alone unexpired
decisions-passed limits key attempts t start first times order fresh own inside =
    let alone = decisions-eq-alone limits key attempts t start none order fresh in
    let rest =
      passed-in_window limits (record { count = 1; reset_at = first + limits.window_ms }) times
        inside in
    rw (alone, own) (omega arith, omega arith)

retry_after_enough :
    (reset_at now later : ℕ) → now + 1000 * retry_after reset_at now ≤ later → reset_at ≤ later
unfolding retry_after
retry_after_enough reset_at now later h = omega arith

decide_alone_retry :
    (limits : ThrottleLimits) (now later seconds : ℕ) (w : Option Window)
    → (decide_alone limits now w).0 ≡ too_many seconds
    → now + 1000 * seconds ≤ later
    → (decide_alone limits later (decide_alone limits now w).1).0 ≡ passes
unfolding decide_alone
decide_alone_retry limits now later seconds none h le = cc h
decide_alone_retry limits now later seconds (some w) h le = elim (Bool-cases (leb w.reset_at now)) [
  | inl over ↦ cc (rw over at h)
  | inr live ↦ elim (Bool-cases (leb limits.max_attempts w.count)) [
    | inr room ↦ cc (rw (live, room) at h)
    | inl full ↦
        let told : too_many (retry_after w.reset_at now) ≡ too_many seconds =
          rw (live, full) at h in
        let same : retry_after w.reset_at now ≡ seconds = cc told in
        let over : leb w.reset_at later ≡ true =
          ground (arith, retry_after_enough w.reset_at now later (rw same le)) in
        rw (live, full, over) refl
  ]
]

-- A client that is told to wait and comes back with the same key after those seconds passes.
pub can_activate_retry :
    (limits : ThrottleLimits) (a b : Attempt) (t : Throttle) (seconds : ℕ)
    → (can_activate limits a t).0 ≡ too_many seconds
    → key_of b ≡ key_of a
    → a.now + 1000 * seconds ≤ b.now
    → (can_activate limits b (can_activate limits a t).1).0 ≡ passes
can_activate_retry limits a b t seconds told key le =
    let first = can_activate_own limits a t (t.windows (key_of a)) refl in
    let window : (can_activate limits a t).1.windows (key_of b)
        ≡ (decide_alone limits a.now (t.windows (key_of a))).1 =
      ap (can_activate limits a t).1.windows key ∙ first.1 in
    (can_activate_own limits b (can_activate limits a t).1
      (decide_alone limits a.now (t.windows (key_of a))).1 (ap (unexpired b.now) window)).0
    ∙ decide_alone_retry limits a.now b.now seconds (t.windows (key_of a)) (sym first.0 ∙ told) le
