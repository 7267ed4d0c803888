-- ===== src/Erp/Circuit/Invariant.antt =====
-- What stays true of a `CircuitBreaker` (crates/oracle-automate-erp/src/retry.rs) whatever calls run
-- at the same time: the two halves of any number of calls, in any order.
use oracle_automate.Prelude.{ℕ, suc, ◌^◌, ◌<◌, max, ◌≡◌, ◌≢◌, none, arith}
use oracle_automate.Erp.Error.{ErpResult}
use oracle_automate.Erp.Circuit.{CircuitBreaker, closed, new, tick, admit, settle}

-- The breaker is closed exactly when it holds no opening instant, and while it is closed it has
-- counted fewer failures than the threshold (than one, if the threshold is zero).
pub record IsCoherent (cb : CircuitBreaker) : Type 0 where
  pub closed_none : cb.state ≡ closed → cb.opened_at ≡ none
  pub none_closed : cb.opened_at ≡ none → cb.state ≡ closed
  pub below : cb.state ≡ closed → cb.failures < max cb.failure_threshold 1
  pub threshold_u32 : cb.failure_threshold < 2 ^ 32

pub new-IsCoherent : (n d : ℕ) → n < 2 ^ 32 → IsCoherent (new n d)
unfolding new
new-IsCoherent n d h = ground arith

pub tick-IsCoherent : (cb : CircuitBreaker) (now : ℕ) → IsCoherent cb → IsCoherent (tick cb now)
unfolding tick
tick-IsCoherent cb now h = ground arith

pub settle-IsCoherent {ℓ} :
    {A : Type ℓ} (cb : CircuitBreaker) (r : ErpResult A) (now : ℕ)
    → IsCoherent cb
    → IsCoherent (settle cb r now)
unfolding settle
settle-IsCoherent cb r now h = ground arith

-- The breaker beside the number of operations that it has let through and that still run.
pub record Traffic : Type 0 where
  pub breaker : CircuitBreaker
  pub running : ℕ

-- One half of a call of anybody, or a look at the state.
pub data Step (A : Type 0) (s : Traffic) : Traffic → Type 0 where
  enter :
      (now later : ℕ)
      → (admit s.breaker now later).0 ≡ none
      → Step A s (record { breaker = (admit s.breaker now later).1; running = suc s.running })
  refused :
      (now later : ℕ)
      → (admit s.breaker now later).0 ≢ none
      → Step A s (record s { breaker = (admit s.breaker now later).1 })
  leave :
      (n : ℕ) (r : ErpResult A) (now : ℕ)
      → s.running ≡ suc n
      → Step A s (record { breaker = settle s.breaker r now; running = n })
  look : (now : ℕ) → Step A s (record s { breaker = tick s.breaker now })

pub data Reach (A : Type 0) (s : Traffic) : Traffic → Type 0 where
  here : Reach A s s
  next : {t u : Traffic} → Reach A s t → Step A t u → Reach A s u

admit-IsCoherent :
    (cb : CircuitBreaker) (now later : ℕ) → IsCoherent cb → IsCoherent (admit cb now later).1
unfolding admit
admit-IsCoherent cb now later h = tick-IsCoherent cb now h

Step-IsCoherent :
    {A : Type 0} {s t : Traffic} → Step A s t → IsCoherent s.breaker → IsCoherent t.breaker
Step-IsCoherent {s} (enter now later h) c = admit-IsCoherent s.breaker now later c
Step-IsCoherent {s} (refused now later h) c = admit-IsCoherent s.breaker now later c
Step-IsCoherent {s} (leave n r now h) c = settle-IsCoherent s.breaker r now c
Step-IsCoherent {s} (look now) c = tick-IsCoherent s.breaker now c

-- Whatever calls overlap, and however they end, a breaker that starts coherent stays so.
pub Reach-IsCoherent :
    {A : Type 0} {s t : Traffic} → IsCoherent s.breaker → Reach A s t → IsCoherent t.breaker
Reach-IsCoherent c here = c
Reach-IsCoherent c (next r st) = Step-IsCoherent st (Reach-IsCoherent c r)
