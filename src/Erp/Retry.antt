-- ===== src/Erp/Retry.antt =====
-- `BackoffPolicy` and `retry_with_backoff` of crates/oracle-automate-erp/src/retry.rs. Durations are
-- numbers of nanoseconds. The product with the f32 `multiplier`, truncated to a u64 number of
-- milliseconds, is the field `scale`. The loop takes fuel: each round but the last counts one of
-- `max_attempts`.
pub mod Outcome
mod Tests
use oracle_automate.Prelude.{
  ℕ, zero, suc, ◌+◌, ◌*◌, ◌/◌, min, Option, none, some, List, [], ◌∷◌, ◌++◌, leb, if◌then◌else◌,
}
use oracle_automate.Erp.Error.{ErpError, ErpResult, ok, err, is_transient}

pub record BackoffPolicy : Type 0 where
  pub max_attempts : ℕ
  pub initial : ℕ
  pub scale : ℕ → ℕ
  pub max_delay : ℕ

-- What a run leaves: the result, the world, the number of the calls made and the sleeps taken.
pub record Run (W A : Type 0) : Type 0 where
  pub result : ErpResult A
  pub world : W
  pub attempts : ℕ
  pub sleeps : List ℕ

abbrev pub next_delay : BackoffPolicy → ℕ → ℕ
next_delay policy delay = min (policy.scale (delay / 1000000) * 1000000) policy.max_delay

module _ {W A : Type 0} (policy : BackoffPolicy) (f : W → ErpResult A × W) where
  abbrev finish : ErpResult A → W → ℕ → List ℕ → Option (Run W A)
  finish r w n sleeps = some (record { result = r; world = w; attempts = n; sleeps = sleeps })

  -- The arms of the `match`, with the rest of the loop for the last.
  after_result : ErpResult A → W → ℕ → List ℕ → Option (Run W A) → Option (Run W A)
  after_result (ok v) w attempt sleeps rest = finish (ok v) w attempt sleeps
  after_result (err e) w attempt sleeps rest =
      if is_transient e
      then (if leb policy.max_attempts attempt then finish (err e) w attempt sleeps else rest)
      else finish (err e) w attempt sleeps

  retry_loop : ℕ → ℕ → ℕ → List ℕ → W → Option (Run W A)
  retry_loop zero attempt delay sleeps w = none
  retry_loop (suc fuel) attempt delay sleeps w =
      let (r, w') = f w in
      let rest =
        retry_loop fuel (attempt + 1) (next_delay policy delay) (sleeps ++ delay ∷ []) w' in
      after_result r w' (attempt + 1) sleeps rest

  unfoldable pub retry_with_backoff : ℕ → W → Option (Run W A)
  unfolding retry_loop after_result
  retry_with_backoff fuel w = retry_loop fuel 0 policy.initial [] w
