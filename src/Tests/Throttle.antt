-- ===== src/Tests/Throttle.antt =====
-- Attempts to sign in at concrete times, with at most two in a second.
use mealdirectbackend.Common.{ℕ, ◌≡◌, ◌≤◌, refl, List, [], ◌∷◌, none, some, String, arith, max}
use mealdirectbackend.Auth.Throttle.{
  Throttle, ThrottleLimits, Attempt, passes, too_many, can_activate, key_of, decide, sweep,
  set_window, retry_after, unexpired,
}
use mealdirectbackend.Auth.Throttle.Keys.{decisions, times_of, decisions_alone, decisions-eq-alone}
use mealdirectbackend.Auth.Throttle.Limit.{passed, decisions-passed, can_activate_retry}

abbrev two_a_second : ThrottleLimits
two_a_second = record { max_attempts = 2; window_ms = 1000 }

abbrev attempt_at : ℕ → Attempt
attempt_at now = record { ip = "10.0.0.1"; route_url = some "/login"; url = "/login?x"; now = now }

abbrev elsewhere_at : ℕ → Attempt
elsewhere_at now = record { ip = "10.0.0.2"; route_url = none; url = "/login"; now = now }

abbrev no_windows : Throttle
no_windows = record { windows = λ key. none; last_sweep = 0 }

abbrev login_key : String
login_key = "10.0.0.1:/login"

abbrev four_attempts : List Attempt
four_attempts = attempt_at 5 ∷ elsewhere_at 6 ∷ attempt_at 7 ∷ attempt_at 900 ∷ []

third_is_refused :
    decisions two_a_second login_key four_attempts no_windows ≡ passes ∷ passes ∷ too_many 1 ∷ []
unfolding decisions can_activate decide sweep set_window retry_after key_of unexpired
third_is_refused = refl

decisions-eq-alone_example :
    decisions two_a_second login_key four_attempts no_windows
    ≡ decisions_alone two_a_second (times_of login_key four_attempts) none
decisions-eq-alone_example =
    decisions-eq-alone two_a_second login_key four_attempts no_windows 0 none
      (omega arith, (omega arith, (omega arith, (omega arith, tt)))) refl

four_times : times_of login_key four_attempts ≡ 5 ∷ 7 ∷ 900 ∷ []
unfolding times_of key_of
four_times = refl

no_window_before : unexpired 0 (no_windows.windows login_key) ≡ none
unfolding unexpired
no_window_before = refl

decisions-passed_example :
    (1 ≤ passed (decisions two_a_second login_key four_attempts no_windows))
    × (passed (decisions two_a_second login_key four_attempts no_windows) ≤ max 1 2)
decisions-passed_example =
    decisions-passed two_a_second login_key four_attempts no_windows 0 5 (7 ∷ 900 ∷ [])
      (omega arith, (omega arith, (omega arith, (omega arith, tt)))) no_window_before four_times
      (omega arith, (omega arith, tt))

abbrev full_throttle : Throttle
full_throttle = record {
  windows = λ key. some (record { count = 2; reset_at = 1005 });
  last_sweep = 0;
}

refused_at_900 : (can_activate two_a_second (attempt_at 900) full_throttle).0 ≡ too_many 1
unfolding can_activate decide sweep set_window retry_after key_of unexpired
refused_at_900 = refl

can_activate_retry_example :
    (can_activate two_a_second
      (attempt_at 1900)
      (can_activate two_a_second (attempt_at 900) full_throttle).1).0
    ≡ passes
unfolding key_of
can_activate_retry_example =
    can_activate_retry two_a_second (attempt_at 900) (attempt_at 1900) full_throttle 1
      refused_at_900 refl (omega arith)
