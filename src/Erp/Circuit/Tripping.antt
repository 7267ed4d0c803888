-- ===== src/Erp/Circuit/Tripping.antt =====
-- When a `CircuitBreaker` (crates/oracle-automate-erp/src/retry.rs) opens, refuses and closes.
use mathlib.Core.Path.{subst}
use oracle_automate.Prelude.{
  ℕ, ◌+◌, ◌-◌, ◌/◌, ◌^◌, ◌%◌, if◌then◌else◌, ◌≤◌, ◌<◌, ◌≡◌, ◌≢◌, refl, inl, inr, Bool-cases, leb,
  true, some, List, [], ◌∷◌, length, All, arith,
}
use oracle_automate.Erp.Error.{ErpError, ErpResult, ok, err, is_transient}
use oracle_automate.Erp.Circuit.{
  CircuitBreaker, closed, open_now, half_open, fail_once, settle, call,
}

-- A breaker that was opened at `t` refuses every call while less than `open_duration` has passed: the operation is
-- not run (the world is as it was), the breaker is as it was, and the caller is told the rest of the
-- cool-down in milliseconds, which is at most `open_duration`.
pub call_refused {ℓ} :
    {W : Type 0} {A : Type ℓ} (cb : CircuitBreaker) (f : W → ErpResult A × W) (w : W)
    (t now later done : ℕ)
    → cb.state ≡ open_now
    → cb.opened_at ≡ some t
    → now - t < cb.open_duration
    → cb.open_duration / 1000000 < 2 ^ 64
    → (ms : ℕ) × (call cb f w now later done ≡ (err (ErpError.circuit_open ms), cb, w))
      × (ms ≡ (cb.open_duration - (later - t)) / 1000000)
      × (ms ≤ cb.open_duration / 1000000)
unfolding call
call_refused cb f w t now later done hs ho early fits =
    ((cb.open_duration - (later - t)) / 1000000, ground arith, refl, omega arith)

-- Once `open_duration` has passed the operation is run, and the breaker settles with its
-- result from the half-open state.
pub call_after_cooling {ℓ} :
    {W : Type 0} {A : Type ℓ} (cb : CircuitBreaker) (f : W → ErpResult A × W) (w : W)
    (t now later done : ℕ)
    → cb.state ≡ open_now
    → cb.opened_at ≡ some t
    → cb.open_duration ≤ now - t
    → let (r, w') = f w in
      call cb f w now later done ≡ (r, settle (record cb { state = half_open }) r done, w')
unfolding call
call_after_cooling cb f w t now later done hs ho late = ground arith

-- An operation that fails with `e`, in a world that counts its runs.
abbrev pub failing : ErpError → ℕ → ErpResult (Unit {0}) × ℕ
failing e runs = (err e, runs + 1)

-- Calls of failing operations one after the other, each at its instant.
unfoldable pub call_each : CircuitBreaker → ℕ → List (ErpError × ℕ) → CircuitBreaker × ℕ
call_each cb runs [] = (cb, runs)
call_each cb runs ((e, now) ∷ es) =
    let (_, cb', runs') = call cb (failing e) runs now now now in call_each cb' runs' es

abbrev pub AllTransient : List (ErpError × ℕ) → Type 0
AllTransient = All (λ x. is_transient x.0 ≡ true)

-- A closed breaker stays closed, and runs and counts every operation, while the transient failures
-- in a row stay under the threshold.
pub call_each_below :
    (cb : CircuitBreaker) (runs : ℕ) (es : List (ErpError × ℕ))
    → cb.state ≡ closed
    → AllTransient es
    → cb.failures + length es < cb.failure_threshold
    → cb.failure_threshold < 2 ^ 32
    → call_each cb runs es ≡ (record cb { failures = cb.failures + length es }, runs + length es)
unfolding call_each call
call_each_below cb runs [] hs ht hl hw = ground arith
call_each_below cb runs ((e, now) ∷ es) hs ht hl hw =
    ground (arith, call_each_below (record cb { failures = cb.failures + 1 }) (runs + 1) es)

-- The transient failure that reaches the threshold opens the breaker at its instant.
pub call_each_trips :
    (cb : CircuitBreaker) (runs : ℕ) (es : List (ErpError × ℕ)) (e : ErpError) (now : ℕ)
    → cb.state ≡ closed
    → AllTransient es
    → is_transient e ≡ true
    → cb.failures + length es + 1 ≡ cb.failure_threshold
    → cb.failure_threshold < 2 ^ 32
    → let (cb', runs') = call_each cb runs es in
      (call cb' (failing e) runs' now now now).1
      ≡ record cb { state = open_now; failures = cb.failure_threshold; opened_at = some now }
unfolding call
call_each_trips cb runs es e now hs ht he hl hw =
    rw (call_each_below cb runs es hs ht (omega arith) hw) (ground arith)

reached : (a b : ℕ) → leb a b ≡ true → a ≤ b
reached a b h = ground arith

fail_once_opens :
    (cb : CircuitBreaker) (now : ℕ)
    → cb.state ≢ open_now
    → (fail_once cb now).state ≡ open_now
    → (cb.failure_threshold ≤ (fail_once cb now).failures)
      × ((fail_once cb now).opened_at ≡ some now)
unfolding fail_once
fail_once_opens cb now n h =
    elim (Bool-cases (leb cb.failure_threshold ((cb.failures + 1) % 2 ^ 32))) [
      | inl at_threshold ↦ rw at_threshold (reached cb.failure_threshold _ at_threshold, refl)
      | inr below ↦ absurd (
          n (
            subst
              (λ b.
                (if b
                  then (record cb {
                    failures = (cb.failures + 1) % 2 ^ 32;
                    state = open_now;
                    opened_at = some now;
                  })
                  else (record cb { failures = (cb.failures + 1) % 2 ^ 32 })).state
                ≡ open_now)
              below h))
    ]

-- Only a transient error opens a breaker that is not open: when a result leaves it open, the result
-- is such an error, the failures counted with it have reached the threshold, and the instant of the
-- result is the one from which the cool-down runs.
pub settle_opens {ℓ} :
    {A : Type ℓ} (cb : CircuitBreaker) (r : ErpResult A) (now : ℕ)
    → cb.state ≢ open_now
    → (settle cb r now).state ≡ open_now
    → (e : ErpError) × (r ≡ err e)
      × (is_transient e ≡ true)
      × (cb.failure_threshold ≤ (settle cb r now).failures)
      × ((settle cb r now).opened_at ≡ some now)
unfolding settle
settle_opens cb (ok a) now n h = absurd (ground (arith, h))
settle_opens cb (err e) now n h = elim (Bool-cases (is_transient e)) [
  | inr permanent ↦
      absurd (n (subst (λ b. (if b then fail_once cb now else cb).state ≡ open_now) permanent h))
  | inl transient ↦
      let failed : (fail_once cb now).state ≡ open_now =
        subst (λ b. (if b then fail_once cb now else cb).state ≡ open_now) transient h in
      let (enough, instant) = fail_once_opens cb now n failed in
      (e, refl, transient, rw transient enough, rw transient instant)
]
