-- ===== src/Ingest/RateLimit/Spacing.antt =====
-- What `RateLimiter` (crates/oracle-automate-ingest/src/rate_limit.rs) promises a host: fetches that
-- are at least its interval apart.
use oracle_automate.Prelude.{
  ℕ, zero, suc, ◌+◌, ◌*◌, ◌≤◌, String, ◌≡◌, refl, inl, inr, Option, none, some, List, [], ◌∷◌,
  arith, eq_iff, str_eq, string_Eq, Bool-cases,
}
use oracle_automate.Prelude.Map
use oracle_automate.Prelude.Map.{beq_refl}
use oracle_automate.Ingest.RateLimit.{
  BucketState, RateLimiter, or_insert, bucket, wait_for, advance, set_interval, acquire_wait,
  interval_or, interval_of,
}

pub data Call : Type 0 where
  acquires : String → ℕ → Call
  sets : String → ℕ → ℕ → Call

pub step : RateLimiter → Call → RateLimiter
step rl (acquires host now) = (acquire_wait rl host now).1
step rl (sets host interval now) = set_interval rl host interval now

unfoldable pub run : RateLimiter → List Call → RateLimiter
unfolding step
run rl [] = rl
run rl (c ∷ cs) = run (step rl c) cs

-- The instant of the fetch that a call schedules.
abbrev pub fetch_at : RateLimiter → String → ℕ → ℕ
fetch_at rl host now = now + (acquire_wait rl host now).0

-- The host has a bucket, and it is not ready before `t`.
abbrev NotBefore : Option BucketState → ℕ → Type 0
NotBefore none t = ⊥
NotBefore (some b) t = t ≤ b.next_ready

Holds : RateLimiter → String → ℕ → Type 0
Holds rl host t = NotBefore (Map.get host rl.state) t

advance-NotBefore :
    (o : Option BucketState) (b : BucketState) (now t : ℕ)
    → NotBefore o t
    → t ≤ (advance now (or_insert o b)).next_ready
advance-NotBefore none b now t h = absurd h
advance-NotBefore (some c) b now t h = omega arith

kept-NotBefore :
    (o : Option BucketState) (b : BucketState) (t : ℕ)
    → NotBefore o t
    → t ≤ (or_insert o b).next_ready
kept-NotBefore none b t h = absurd h
kept-NotBefore (some c) b t h = h

step-Holds :
    (rl : RateLimiter) (host : String) (t : ℕ) (c : Call)
    → Holds rl host t
    → Holds (step rl c) host t
unfolding step Holds acquire_wait set_interval
step-Holds rl host t (acquires j now) h = elim (Bool-cases (str_eq j host)) [
  | inl same ↦
      rw (Map.get-insert, same, (eq_iff j host).0 same)
        (advance-NotBefore (Map.get host rl.state) _ now t h)
  | inr other ↦ rw (Map.get-insert, other) h
]
step-Holds rl host t (sets j i now) h = elim (Bool-cases (str_eq j host)) [
  | inl same ↦
      rw (Map.get-insert, same, (eq_iff j host).0 same)
        (kept-NotBefore (Map.get host rl.state) _ t h)
  | inr other ↦ rw (Map.get-insert, other) h
]

run-Holds :
    (rl : RateLimiter) (host : String) (t : ℕ) (cs : List Call)
    → Holds rl host t
    → Holds (run rl cs) host t
unfolding run
run-Holds rl host t [] h = h
run-Holds rl host t (c ∷ cs) h = run-Holds (step rl c) host t cs (step-Holds rl host t c h)

fetch_after :
    (o : Option BucketState) (b : BucketState) (t now : ℕ)
    → NotBefore o t
    → t ≤ now + wait_for now (or_insert o b)
fetch_after none b t now h = absurd h
fetch_after (some c) b t now h = ground arith

scheduled :
    (o : Option BucketState) (now d : ℕ)
    → let b = or_insert o (record { next_ready = now; interval = d }) in
      now + wait_for now b + interval_or o d ≤ (advance now b).next_ready
scheduled none now d = ground arith
scheduled (some c) now d = ground arith

acquire-Holds :
    (rl : RateLimiter) (host : String) (now : ℕ)
    → Holds (acquire_wait rl host now).1 host (fetch_at rl host now + interval_of rl host)
unfolding Holds acquire_wait interval_of
acquire-Holds rl host now =
    rw (Map.get-insert, beq_refl host) (scheduled (Map.get host rl.state) now rl.default_interval)

-- Whatever calls come between, for this host or another, changes of intervals included, two fetches
-- of a host are apart by at least the interval that was in force at the first.
pub fetch_spacing :
    (rl : RateLimiter) (host : String) (now later : ℕ) (cs : List Call)
    → fetch_at rl host now + interval_of rl host
      ≤ fetch_at (run (acquire_wait rl host now).1 cs) host later
unfolding Holds acquire_wait
fetch_spacing rl host now later cs =
    fetch_after (Map.get host (run (acquire_wait rl host now).1 cs).state) _ _ later (
      run-Holds (acquire_wait rl host now).1 host (fetch_at rl host now + interval_of rl host) cs
        (acquire-Holds rl host now))

-- `n` calls for a host at one instant.
pub acquire_times : ℕ → RateLimiter → String → ℕ → RateLimiter
acquire_times zero rl host now = rl
acquire_times (suc n) rl host now = (acquire_wait (acquire_times n rl host now) host now).1

default_interval-acquire_times :
    (n : ℕ) (rl : RateLimiter) (host : String) (now : ℕ)
    → (acquire_times n rl host now).default_interval ≡ rl.default_interval
unfolding acquire_times acquire_wait
default_interval-acquire_times zero rl host now = refl
default_interval-acquire_times (suc n) rl host now = default_interval-acquire_times n rl host now

bucket-acquire_times :
    (n : ℕ) (rl : RateLimiter) (host : String) (now : ℕ)
    → Map.get host rl.state ≡ none
    → bucket (acquire_times n rl host now) host now rl.default_interval
      ≡ record { next_ready = now + n * rl.default_interval; interval = rl.default_interval }
unfolding acquire_times acquire_wait
bucket-acquire_times zero rl host now h = rw h (ground arith)
bucket-acquire_times (suc n) rl host now h =
    rw
      (
        Map.get-insert,
        beq_refl host,
        default_interval-acquire_times n rl host now,
        bucket-acquire_times n rl host now h,
      )
      (ground arith)

-- The calls for a new host at one instant are spread over the default interval: the one after `n`
-- others waits `n` intervals.
pub acquire_wait_burst :
    (n : ℕ) (rl : RateLimiter) (host : String) (now : ℕ)
    → Map.get host rl.state ≡ none
    → (acquire_wait (acquire_times n rl host now) host now).0 ≡ n * rl.default_interval
unfolding acquire_wait
acquire_wait_burst n rl host now h =
    rw (default_interval-acquire_times n rl host now, bucket-acquire_times n rl host now h)
      (ground arith)
