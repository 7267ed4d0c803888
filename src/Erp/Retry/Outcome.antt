-- ===== src/Erp/Retry/Outcome.antt =====
-- What `retry_with_backoff` (crates/oracle-automate-erp/src/retry.rs) returns, how often it calls and
-- how long it sleeps.
use native.Mathlib.Decide.{dec_le}
use oracle_automate.Prelude.{
  ℕ, zero, suc, ◌+◌, ◌≤◌, ◌<◌, max, ◌≡◌, ◌⊎◌, inl, inr, refl, true, false, Option, some, List, [],
  ◌∷◌, ◌++◌, length, length-append, All, arith, Bool-cases,
}
use oracle_automate.Erp.Error.{ErpResult, ok, err, is_transient}
use oracle_automate.Erp.Retry.{
  BackoffPolicy, Run, next_delay, after_result, retry_loop, retry_with_backoff,
}

module _ {A : Type 0} where
  -- A transient error.
  abbrev pub IsTransient : ErpResult A → Type 0
  IsTransient (ok v) = ⊥
  IsTransient (err e) = is_transient e ≡ true

  -- A success or a permanent error.
  abbrev pub IsFinal : ErpResult A → Type 0
  IsFinal (ok v) = Unit {0}
  IsFinal (err e) = is_transient e ≡ false

  result_cases : (r : ErpResult A) → IsFinal r ⊎ IsTransient r
  result_cases (ok v) = inl tt
  result_cases (err e) = elim (Bool-cases (is_transient e)) [ inl t ↦ inr t | inr f ↦ inl f ]

-- No sleep is longer than the first or than `max_delay`.
abbrev pub Capped : BackoffPolicy → List ℕ → Type 0
Capped policy = All (λ d. d ≤ max policy.initial policy.max_delay)

All-snoc :
    (m : ℕ) (ds : List ℕ) (d : ℕ) → All (λ x. x ≤ m) ds → d ≤ m → All (λ x. x ≤ m) (ds ++ d ∷ [])
All-snoc m [] d h hd = (hd, tt)
All-snoc m (x ∷ ds) d h hd = (h.0, All-snoc m ds d h.1 hd)

module _ {W A : Type 0} (policy : BackoffPolicy) (f : W → ErpResult A × W) where
  -- The world after `n` calls.
  abbrev pub world_after : ℕ → W → W
  world_after zero w = w
  world_after (suc n) w = world_after n (f w).1

  -- The run `r` from `w` after `done` calls: it made at least one more; all results but the last were
  -- transient; the last one is the result, and is final or spent the budget.
  pub record IsRun (done : ℕ) (sleeps : List ℕ) (w : W) (r : Run W A) : Type 0 where
    pub more : ℕ
    pub attempts_eq : r.attempts ≡ done + suc more
    pub retried : (i : ℕ) → i < more → IsTransient (f (world_after i w)).0
    pub result_eq : r.result ≡ (f (world_after more w)).0
    pub world_eq : r.world ≡ world_after (suc more) w
    pub stopped : IsFinal r.result ⊎ (IsTransient r.result × (policy.max_attempts ≤ r.attempts))
    pub budget : r.attempts ≤ max (suc done) policy.max_attempts
    pub slept : length r.sleeps ≡ length sleeps + more
    pub capped : Capped policy r.sleeps

  run_here : ℕ → List ℕ → W → Run W A
  run_here done sleeps w = record {
    result = (f w).0;
    world = (f w).1;
    attempts = done + 1;
    sleeps = sleeps;
  }

  run_here-IsRun :
      (done : ℕ) (sleeps : List ℕ) (w : W)
      → IsFinal (f w).0 ⊎ (IsTransient (f w).0 × (policy.max_attempts ≤ done + 1))
      → Capped policy sleeps
      → IsRun done sleeps w (run_here done sleeps w)
  unfolding run_here
  run_here-IsRun done sleeps w stop cap = record {
    more = 0;
    attempts_eq = omega arith;
    retried = λ i h. elim h [ ];
    result_eq = refl;
    world_eq = refl;
    stopped = stop;
    budget = omega arith;
    slept = omega arith;
    capped = cap;
  }

  later-IsRun :
      (done delay : ℕ) (sleeps : List ℕ) (w : W) (r : Run W A)
      → IsTransient (f w).0
      → done + 1 < policy.max_attempts
      → IsRun (done + 1) (sleeps ++ delay ∷ []) (f w).1 r
      → IsRun done sleeps w r
  later-IsRun done delay sleeps w r t more_left h = record {
    more = suc h.more;
    attempts_eq = omega (arith, h.attempts_eq);
    retried = elim [ zero ↦ λ l. t | suc i ↦ λ l. h.retried i (omega arith) ];
    result_eq = h.result_eq;
    world_eq = h.world_eq;
    stopped = h.stopped;
    budget = omega (arith, h.budget);
    slept = omega (arith, h.slept, length-append sleeps (delay ∷ []));
    capped = h.capped;
  }

  after_final :
      (r : ErpResult A) (w : W) (n : ℕ) (sleeps : List ℕ) (rest : Option (Run W A))
      → IsFinal r ⊎ (IsTransient r × (policy.max_attempts ≤ n))
      → after_result policy f r w n sleeps rest
        ≡ some (record { result = r; world = w; attempts = n; sleeps = sleeps })
  unfolding after_result
  after_final (ok v) w n sleeps rest h = refl
  after_final (err e) w n sleeps rest h = ground arith

  after_transient :
      (r : ErpResult A) (w : W) (n : ℕ) (sleeps : List ℕ) (rest : Option (Run W A))
      → IsTransient r
      → n < policy.max_attempts
      → after_result policy f r w n sleeps rest ≡ rest
  unfolding after_result
  after_transient (ok v) w n sleeps rest t h = absurd t
  after_transient (err e) w n sleeps rest t h = ground arith

  -- Does the loop stop after this call?
  stops_or_not :
      (r : ErpResult A) (n : ℕ)
      → (IsFinal r ⊎ (IsTransient r × (policy.max_attempts ≤ n)))
        ⊎ (IsTransient r × (n < policy.max_attempts))
  stops_or_not r n = elim (result_cases r) [
    | inl f ↦ inl (inl f)
    | inr t ↦ elim (dec_le policy.max_attempts n) [
      | yes p ↦ inl (inr (t, p))
      | no p ↦ inr (t, omega arith)
    ]
  ]

  retry_loop_lem :
      (fuel done delay : ℕ) (sleeps : List ℕ) (w : W)
      → policy.max_attempts ≤ done + fuel
      → 0 < fuel
      → delay ≤ max policy.initial policy.max_delay
      → Capped policy sleeps
      → (r : Run W A) × (retry_loop policy f fuel done delay sleeps w ≡ some r)
        × IsRun done sleeps w r
  unfolding retry_loop run_here
  retry_loop_lem zero done delay sleeps w enough pos hd hs = absurd (omega arith)
  retry_loop_lem (suc fuel) done delay sleeps w enough pos hd hs =
      elim (stops_or_not (f w).0 (done + 1)) [
        | inl stop ↦ (
          run_here done sleeps w,
          after_final (f w).0 (f w).1 (done + 1) sleeps _ stop,
          run_here-IsRun done sleeps w stop hs,
        )
        | inr (t, left) ↦
            let d = next_delay policy delay in
            let (r, e, h) =
              retry_loop_lem fuel (done + 1) d (sleeps ++ delay ∷ []) (f w).1 (omega arith)
                (omega arith) (omega arith) (All-snoc _ sleeps delay hs hd) in
            (
              r,
              rw
                  (after_transient (f w).0 (f w).1 (done + 1) sleeps
                    (retry_loop policy f fuel (done + 1) d (sleeps ++ delay ∷ []) (f w).1) t left)
                  e,
              later-IsRun done delay sleeps w r t left h,
            )
      ]

  -- With fuel for `max_attempts` calls, and for one at least, the loop returns. It has made at least
  -- one call and at most `max_attempts` (one, if that is zero); every result but the last was a
  -- transient error; the last is returned, and is a success, a permanent error, or the transient
  -- error that spent the budget. It slept once between two calls, never longer than the larger of
  -- `initial` and `max_delay`.
  pub retry_with_backoff-IsRun :
      (fuel : ℕ) (w : W)
      → policy.max_attempts ≤ fuel
      → 0 < fuel
      → (r : Run W A) × (retry_with_backoff policy f fuel w ≡ some r) × IsRun 0 [] w r
  unfolding retry_with_backoff
  retry_with_backoff-IsRun fuel w enough pos =
      retry_loop_lem fuel 0 policy.initial [] w (omega arith) pos (omega arith) tt
