-- ===== src/Ingest/RateLimit/Tests.antt =====
-- The unit tests of the source, and the theorems at concrete inputs.
use mathlib.Core.List.{[], ◌∷◌}
use mathlib.Core.Path.{◌≡◌, refl}
use Prim.Native.Nat.{◌+◌, ◌≤◌}
use oracle_automate.Prelude.Map
use oracle_automate.Ingest.RateLimit.{
  RateLimiter, new_limiter, set_interval, acquire_wait, interval_of,
}
use oracle_automate.Ingest.RateLimit.Spacing.{acquires, sets, run, fetch_at, fetch_spacing}

abbrev limiter : RateLimiter
limiter = new_limiter 200

first_is_free : (acquire_wait limiter "a" 5).0 ≡ 0
unfolding acquire_wait Map.get
first_is_free = refl

second_waits : (acquire_wait (acquire_wait limiter "a" 5).1 "a" 15).0 ≡ 190
unfolding acquire_wait Map.get Map.insert
second_waits = refl

hosts_are_independent : (acquire_wait (acquire_wait limiter "a" 5).1 "b" 5).0 ≡ 0
unfolding acquire_wait Map.get Map.insert
hosts_are_independent = refl

set_interval_later : interval_of (set_interval limiter "a" 50 3) "a" ≡ 50
unfolding set_interval interval_of Map.get Map.insert
set_interval_later = refl

fetch_spacing_example :
    fetch_at limiter "a" 5 + interval_of limiter "a"
    ≤ fetch_at (run (acquire_wait limiter "a" 5).1 (sets "a" 50 6 ∷ acquires "b" 7 ∷ [])) "a" 9
fetch_spacing_example = fetch_spacing limiter "a" 5 9 (sets "a" 50 6 ∷ acquires "b" 7 ∷ [])
