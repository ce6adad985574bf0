-- ===== src/Domain/Spoons.antt =====
-- The limit on the spoons of an order: src/domain/spoons.ts.
use mealdirectbackend.Common.{
  ℕ, Bool, true, false, Num, nat, ok, err, ltb, Result, ◌>>=◌, if◌then◌else◌,
}
use mealdirectbackend.Domain.Money.{RangeError, bad_requested_spoons, bad_max_spoons}

pub record SpoonLimitDecision : Type 0 where
  pub allowed : Bool
  pub requested_spoons : ℕ
  pub max_spoons : ℕ
  -- `reason` is set, to SPOON_LIMIT_EXCEEDED.
  pub limit_exceeded : Bool

unfoldable pub assert_natural : Num → RangeError → Result RangeError ℕ
assert_natural (nat n) e = ok n
assert_natural _ e = err e

unfoldable pub decide_spoon_limit : Num → Num → Result RangeError SpoonLimitDecision
unfolding assert_natural
decide_spoon_limit requested_spoons max_spoons = do
  requested ← assert_natural requested_spoons bad_requested_spoons
  most ← assert_natural max_spoons bad_max_spoons
  ok (
      if ltb most requested
      then record {
        allowed = false;
        requested_spoons = requested;
        max_spoons = most;
        limit_exceeded = true;
      }
      else record {
        allowed = true;
        requested_spoons = requested;
        max_spoons = most;
        limit_exceeded = false;
      })
