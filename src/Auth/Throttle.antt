-- ===== src/Auth/Throttle.antt =====
-- The limit on attempts to sign in: src/common/http/auth-throttle.guard.ts. Times are milliseconds;
-- the map of windows is a function from keys.
pub mod Keys
pub mod Limit
use Prim.Native.String.{◌++◌}
use mealdirectbackend.Common.{
  ℕ, suc, ◌+◌, ◌-◌, ◌/◌, max, ltb, leb, Option, none, some, String, str_eq, if◌then◌else◌, or_else,
}

pub record Window : Type 0 where
  pub count : ℕ
  pub reset_at : ℕ

pub record Throttle : Type 0 where
  pub windows : String → Option Window
  pub last_sweep : ℕ

-- `AUTH_RATE_LIMIT_MAX` and `AUTH_RATE_LIMIT_WINDOW_MS`
pub record ThrottleLimits : Type 0 where
  pub max_attempts : ℕ
  pub window_ms : ℕ

-- The guard passes, or it throws with the seconds to wait.
pub data Decision : Type 0 where
  passes : Decision
  too_many : (retry_after_seconds : ℕ) → Decision

pub record Attempt : Type 0 where
  pub ip : String
  pub route_url : Option String
  pub url : String
  pub now : ℕ

unfoldable pub key_of : Attempt → String
key_of a = a.ip ++ ":" ++ or_else a.route_url a.url

-- `if (window.resetAt <= now) this.windows.delete(key)`
unfoldable pub unexpired : ℕ → Option Window → Option Window
unexpired now none = none
unexpired now (some w) = if leb w.reset_at now then none else some w

-- `now - lastSweep` is negative, and so below the bound, where `-` gives 0.
unfoldable pub sweep : ℕ → Throttle → Throttle
sweep now t =
    if ltb (now - t.last_sweep) 60000
    then t
    else record { windows = λ key. unexpired now (t.windows key); last_sweep = now }

-- `this.windows.set(key, window)`
unfoldable pub set_window : String → Window → Throttle → Throttle
set_window key window t = record t {
  windows = λ k. if str_eq k key then some window else t.windows k;
}

unfoldable pub retry_after : ℕ → ℕ → ℕ
retry_after reset_at now = max 1 ((reset_at - now + 999) / 1000)

unfoldable pub decide : ThrottleLimits → String → ℕ → Option Window → Throttle → Decision × Throttle
decide limits key now none t =
    (passes, set_window key (record { count = 1; reset_at = now + limits.window_ms }) t)
decide limits key now (some existing) t =
    if leb existing.reset_at now
    then (passes, set_window key (record { count = 1; reset_at = now + limits.window_ms }) t)
    else if leb limits.max_attempts existing.count
    then (too_many (retry_after existing.reset_at now), t)
    else (passes, set_window key (record existing { count = suc existing.count }) t)

unfoldable pub can_activate : ThrottleLimits → Attempt → Throttle → Decision × Throttle
can_activate limits a t =
    let swept = sweep a.now t in decide limits (key_of a) a.now (swept.windows (key_of a)) swept
