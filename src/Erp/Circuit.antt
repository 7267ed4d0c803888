-- ===== src/Erp/Circuit.antt =====
-- `CircuitBreaker` of crates/oracle-automate-erp/src/retry.rs. Instants and durations are numbers of
-- nanoseconds; `Instant::elapsed` stops at zero. `call` takes the lock twice, before and after the
-- operation: its two halves are `admit` and `settle`, which other calls may come between.
pub mod Invariant
pub mod Tripping
mod Tests
use oracle_automate.Prelude.{
  ℕ, ◌+◌, ◌-◌, ◌/◌, ◌%◌, ◌^◌, Bool, Option, none, some, leb, if◌then◌else◌,
}
use oracle_automate.Erp.Error.{ErpError, ErpResult, ok, err, is_transient}

pub data CircuitState : Type 0 where
  closed open_now half_open : CircuitState

-- The configuration and, behind the lock, `CircuitInner`.
pub record CircuitBreaker : Type 0 where
  pub failure_threshold : ℕ
  pub open_duration : ℕ
  pub state : CircuitState
  pub failures : ℕ
  pub opened_at : Option ℕ

unfoldable pub new : ℕ → ℕ → CircuitBreaker
new failure_threshold open_duration = record {
  failure_threshold = failure_threshold;
  open_duration = open_duration;
  state = closed;
  failures = 0;
  opened_at = none;
}

-- `opened.elapsed() >= self.open_duration`
cooled : CircuitBreaker → ℕ → ℕ → Bool
cooled cb opened now = leb cb.open_duration (now - opened)

tick_open : Option ℕ → CircuitBreaker → ℕ → CircuitBreaker
unfolding cooled
tick_open none cb now = cb
tick_open (some opened) cb now =
    if cooled cb opened now then record cb { state = half_open } else cb

tick_state : CircuitState → CircuitBreaker → ℕ → CircuitBreaker
unfolding tick_open
tick_state open_now cb now = tick_open cb.opened_at cb now
tick_state _ cb now = cb

unfoldable pub tick : CircuitBreaker → ℕ → CircuitBreaker
unfolding tick_state
tick cb now = tick_state cb.state cb now

-- `state()`
unfoldable pub observe : CircuitBreaker → ℕ → CircuitState
unfolding tick
observe cb now = (tick cb now).state

remaining : Option ℕ → ℕ → ℕ → ℕ
remaining none open_duration later = open_duration
remaining (some t) open_duration later = open_duration - (later - t)

refusal : CircuitState → CircuitBreaker → ℕ → Option ErpError
unfolding remaining
refusal open_now cb later =
    some (ErpError.circuit_open (remaining cb.opened_at cb.open_duration later / 1000000 % 2 ^ 64))
refusal _ cb later = none

-- The first half of `call`: the error that refuses it, if any. `later` is the clock when the
-- remaining time is computed.
unfoldable pub admit : CircuitBreaker → ℕ → ℕ → Option ErpError × CircuitBreaker
unfolding tick refusal
admit cb now later = let cb' = tick cb now in (refusal cb'.state cb' later, cb')

fail_once : CircuitBreaker → ℕ → CircuitBreaker
fail_once cb now =
    let n = (cb.failures + 1) % 2 ^ 32 in
    if leb cb.failure_threshold n
    then record cb { failures = n; state = open_now; opened_at = some now }
    else record cb { failures = n }

-- The second half of `call`, once the operation has returned.
unfoldable pub settle {ℓ} : {A : Type ℓ} → CircuitBreaker → ErpResult A → ℕ → CircuitBreaker
unfolding fail_once
settle cb (ok a) now = record cb { failures = 0; state = closed; opened_at = none }
settle cb (err e) now = if is_transient e then fail_once cb now else cb

-- `call` with nobody in between: the operation acts on a world, and three readings of the clock.
call_admitted {ℓ} :
    {W : Type 0} {A : Type ℓ}
    → Option ErpError
    → CircuitBreaker
    → (W → ErpResult A × W)
    → W
    → ℕ
    → ErpResult A × CircuitBreaker × W
call_admitted (some e) cb f w done = (err e, cb, w)
call_admitted none cb f w done = let (r, w') = f w in (r, settle cb r done, w')

unfoldable pub call {ℓ} :
    {W : Type 0} {A : Type ℓ}
    → CircuitBreaker
    → (W → ErpResult A × W)
    → W
    → ℕ
    → ℕ
    → ℕ
    → ErpResult A × CircuitBreaker × W
unfolding call_admitted admit settle
call cb f w now later done =
    let (refused, cb') = admit cb now later in call_admitted refused cb' f w done
