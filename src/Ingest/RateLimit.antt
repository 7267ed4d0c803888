-- ===== src/Ingest/RateLimit.antt =====
-- `RateLimiter` of crates/oracle-automate-ingest/src/rate_limit.rs. Instants and durations are
-- numbers of one unit; the clock is an argument of each call that reads it.
pub mod Spacing
mod Tests
use oracle_automate.Prelude.{
  ℕ, ◌+◌, ◌-◌, max, String, Option, none, some, leb, string_Eq, if◌then◌else◌,
}
use mathlib.Core.List.{[]}
use oracle_automate.Prelude.Map
use oracle_automate.Prelude.Map.{Map}

pub record BucketState : Type 0 where
  pub next_ready : ℕ
  pub interval : ℕ

pub record RateLimiter : Type 0 where
  pub default_interval : ℕ
  pub state : Map String BucketState

abbrev pub new_limiter : ℕ → RateLimiter
new_limiter default_interval = record { default_interval = default_interval; state = [] }

-- `entry(host).or_insert_with(..)`: the bucket, or the one that is made for it.
abbrev pub or_insert : Option BucketState → BucketState → BucketState
or_insert none b = b
or_insert (some b) _ = b

abbrev pub bucket : RateLimiter → String → ℕ → ℕ → BucketState
bucket rl host now interval =
    or_insert (Map.get host rl.state) (record { next_ready = now; interval = interval })

unfoldable pub set_interval : RateLimiter → String → ℕ → ℕ → RateLimiter
set_interval rl host interval now = record rl {
  state = Map.insert host (record (bucket rl host now interval) { interval = interval }) rl.state;
}

-- The wait before the fetch of a bucket that is ready at an instant.
abbrev pub wait_for : ℕ → BucketState → ℕ
wait_for now b = if leb b.next_ready now then 0 else b.next_ready - now

abbrev pub advance : ℕ → BucketState → BucketState
advance now b = record b { next_ready = max b.next_ready now + b.interval }

unfoldable pub acquire_wait : RateLimiter → String → ℕ → ℕ × RateLimiter
acquire_wait rl host now =
    let b = bucket rl host now rl.default_interval in
    (wait_for now b, record rl { state = Map.insert host (advance now b) rl.state })

abbrev interval_or : Option BucketState → ℕ → ℕ
interval_or none d = d
interval_or (some b) d = b.interval

unfoldable pub interval_of : RateLimiter → String → ℕ
interval_of rl host = interval_or (Map.get host rl.state) rl.default_interval
