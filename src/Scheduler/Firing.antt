-- ===== src/Scheduler/Firing.antt =====
-- `ScheduledJob`, `Scheduler` and its methods of crates/oracle-automate-scheduler/src/lib.rs. What
-- the scheduler calls and does not implement (the executor and the clocks) is an `Executor`.
pub mod Accounting
use oracle_automate.Prelude.{
  ℕ, zero, suc, ◌+◌, ◌%◌, String, Bool, true, false, not, Option, none, some, List, [], ◌∷◌, length,
  get_elem?, if◌then◌else◌,
}
use oracle_automate.Json.{Json}
use oracle_automate.Scheduler.Cadence.{Schedule, u64_mod}

pub record ScheduledJob : Type 0 where
  pub name : String
  pub schedule : Schedule
  pub tool : String
  pub arguments : Json
  pub channel : Option String
  pub enabled : Bool

pub record ScheduleReport : Type 0 where
  pub job : String
  pub fired_at_ms : ℕ
  pub duration_ms : ℕ
  pub succeeded : Bool
  pub summary : String

pub record SchedulerStats : Type 0 where
  pub jobs_declared : ℕ
  pub fires : ℕ
  pub errors : ℕ
  pub last : Option ScheduleReport

pub data Outcome : Type 0 where
  ok : String → Outcome
  err : String → Outcome

-- `JobExecutor::invoke` over the world that it acts on, `SystemTime::now` in milliseconds, and
-- `t0.elapsed()` between two worlds.
pub record Executor (W : Type 0) : Type 0 where
  pub invoke : W → ScheduledJob → Outcome × W
  pub now_ms : W → ℕ
  pub elapsed_ms : W → W → ℕ

abbrev pub is_ok : Outcome → Bool
is_ok (ok s) = true
is_ok (err s) = false

abbrev pub text_of : Outcome → String
text_of (ok s) = s
text_of (err s) = s

-- `Scheduler::new`
unfoldable pub new_stats : List ScheduledJob → SchedulerStats
new_stats jobs = record { jobs_declared = length jobs; fires = 0; errors = 0; last = none }

-- The update under the lock of `stats`.
pub note_report : SchedulerStats → ScheduleReport → SchedulerStats
note_report s r = record s {
  fires = (s.fires + 1) % u64_mod;
  errors = if r.succeeded then s.errors else (s.errors + 1) % u64_mod;
  last = some r;
}

abbrev push_report : Option ScheduleReport → List ScheduleReport → List ScheduleReport
push_report none out = out
push_report (some r) out = r ∷ out

module _ {W : Type 0} (ex : Executor W) where
  pub report_of : ScheduledJob → W → Outcome → W → ScheduleReport
  report_of job before out after = record {
    job = job.name;
    fired_at_ms = ex.now_ms before;
    duration_ms = ex.elapsed_ms before after;
    succeeded = is_ok out;
    summary = text_of out;
  }

  -- `fire_once` once the job is found.
  pub fire_job : ScheduledJob → SchedulerStats → W → Option ScheduleReport × SchedulerStats × W
  unfolding report_of note_report
  fire_job job s w =
      if not job.enabled
      then (none, s, w)
      else (let (out, w') = ex.invoke w job in
          let report = report_of job w out w' in (some report, note_report s report, w'))

  pub fire_found :
      Option ScheduledJob → SchedulerStats → W → Option ScheduleReport × SchedulerStats × W
  unfolding fire_job
  fire_found none s w = (none, s, w)
  fire_found (some job) s w = fire_job job s w

  pub fire_once :
      List ScheduledJob → ℕ → SchedulerStats → W → Option ScheduleReport × SchedulerStats × W
  unfolding fire_found
  fire_once jobs idx s w = fire_found (get_elem? jobs idx) s w

  -- The loop `for i in 0..self.jobs.len()` with the rounds that are left.
  fire_from :
      ℕ → ℕ → List ScheduledJob → SchedulerStats → W → List ScheduleReport × SchedulerStats × W
  fire_from zero i jobs s w = ([], s, w)
  fire_from (suc n) i jobs s w =
      let (r, s', w') = fire_once jobs i s w in
      let (out, s'', w'') = fire_from n (suc i) jobs s' w' in (push_report r out, s'', w'')

  unfoldable pub fire_all_now :
      List ScheduledJob → SchedulerStats → W → List ScheduleReport × SchedulerStats × W
  unfolding fire_from fire_once note_report
  fire_all_now jobs s w = fire_from (length jobs) 0 jobs s w
