-- ===== src/Erp/Circuit/Tests.antt =====
-- The unit test `breaker_opens_after_threshold` of the source, and the theorems at concrete inputs.
use oracle_automate.Prelude.{ℕ, ◌+◌, ◌≡◌, refl, false, true, none, some, [], ◌∷◌, arith}
use oracle_automate.Erp.Error.{ErpError, ErpResult, ok, err, is_transient}
use oracle_automate.Erp.Circuit.{
  CircuitBreaker, closed, open_now, half_open, new, admit, settle, call, observe,
}
use oracle_automate.Erp.Circuit.Invariant.{
  IsCoherent, new-IsCoherent, Traffic, enter, leave, Reach, here, next, Reach-IsCoherent,
}
use oracle_automate.Erp.Circuit.Tripping.{failing, call_each, call_each_trips}

abbrev down : ErpError
down = ErpError.destination_down "T01" "down"

down-is_transient : is_transient down ≡ true
unfolding is_transient
down-is_transient = refl

missing_is_permanent : is_transient (ErpError.not_found "Z") ≡ false
unfolding is_transient
missing_is_permanent = refl

abbrev breaker : CircuitBreaker
breaker = record {
  failure_threshold = 2;
  open_duration = 50000000;
  state = closed;
  failures = 0;
  opened_at = none;
}

abbrev opened : CircuitBreaker
opened = record breaker { state = open_now; failures = 2; opened_at = some 7 }

opens_after_threshold : (call_each breaker 0 ((down, 5) ∷ (down, 7) ∷ [])) ≡ (opened, 2)
unfolding call_each call is_transient
opens_after_threshold = refl

cools : observe opened 50000007 ≡ half_open
unfolding observe
cools = refl

-- One operation is let through and fails while another is let through.
abbrev both_running : Traffic
both_running = record { breaker = (admit (admit breaker 1 1).1 2 2).1; running = 2 }

overlap : Reach (Unit {0}) (record { breaker = breaker; running = 0 }) both_running
unfolding admit
overlap = next (next here (enter 1 1 refl)) (enter 2 2 refl)

abbrev down_result : ErpResult (Unit {0})
down_result = err down

overlap_settled :
    Reach
      (Unit {0})
      (record { breaker = breaker; running = 0 })
      (record { breaker = settle both_running.breaker down_result 3; running = 1 })
overlap_settled = next overlap (leave 1 down_result 3 refl)

breaker-IsCoherent : IsCoherent breaker
unfolding new
breaker-IsCoherent = new-IsCoherent 2 50000000 (omega arith)

Reach-IsCoherent_example : IsCoherent (settle both_running.breaker down_result 3)
Reach-IsCoherent_example = Reach-IsCoherent breaker-IsCoherent overlap_settled

abbrev operation : ℕ → ErpResult ℕ × ℕ
operation w = (ok w, w + 1)

call_each_trips_example :
    let (cb', runs') = call_each breaker 0 ((down, 5) ∷ []) in
    (call cb' (failing down) runs' 7 7 7).1 ≡ opened
call_each_trips_example =
    call_each_trips breaker 0 ((down, 5) ∷ []) down 7 refl (down-is_transient, tt) down-is_transient
      refl (omega arith)

abbrev threshold_one : CircuitBreaker
threshold_one = record breaker { failure_threshold = 1 }
