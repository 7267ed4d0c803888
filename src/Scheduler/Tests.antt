-- ===== src/Scheduler/Tests.antt =====
-- Runs of the scheduler, the two unit tests of the source among them, and the theorems at concrete
-- inputs.
use oracle_automate.Prelude.{
  ℕ, ◌+◌, ◌%◌, ◌≤◌, ◌<◌, ◌*◌, ◌≡◌, ◌≢◌, ◌↔◌, refl, true, false, none, List, [], ◌∷◌, String, str_eq,
  if◌then◌else◌,
}
use oracle_automate.Json.{null}
use oracle_automate.Scheduler.Cadence.{hourly, daily, weekly, day_secs, next_in}
use oracle_automate.Scheduler.Cadence.Alignment
use oracle_automate.Scheduler.Firing.{ScheduledJob, Executor, Outcome}

hourly_aligns : next_in (hourly 15) (30 * 60) ≡ 45 * 60
unfolding next_in
hourly_aligns = refl

daily_skips : next_in (daily 8 0) (9 * 3600) ≡ 23 * 3600
unfolding next_in
daily_skips = refl

-- Tuesday 1970-01-06 at 10:00, for Wednesday at 08:00: the job fires on Wednesday at 10:00.
tuesday : ℕ
tuesday = 5 * 86400 + 10 * 3600

weekly_late : next_in (weekly 3 8 0) tuesday ≡ 24 * 3600
unfolding next_in tuesday
weekly_late = refl

next_in-daily_example :
    ((32400 + next_in (daily 8 0) 32400) % day_secs ≡ 28800)
    × (0 < next_in (daily 8 0) 32400)
    × (next_in (daily 8 0) 32400 ≤ day_secs)
    × ((t : ℕ) → 32400 < t → t < 32400 + next_in (daily 8 0) 32400 → t % day_secs ≢ 28800)
next_in-daily_example = Alignment.next_in-daily 8 0 32400

next_in-weekly_exact_iff_example :
    ((468000 + next_in (weekly 3 8 0) 468000) % day_secs ≡ 28800) ↔ (36000 ≤ 28800)
next_in-weekly_exact_iff_example = Alignment.next_in-weekly_exact_iff 3 8 0 468000

abbrev job : String → ScheduledJob
job name = record {
  name = name;
  schedule = hourly 0;
  tool = "oracle.docs.search";
  arguments = null;
  channel = none;
  enabled = true;
}

abbrev jobs : List ScheduledJob
jobs = job "a" ∷ record (job "b") { enabled = false } ∷ record (job "c") { tool = "" } ∷ []

-- The world is the list of the tools invoked; a job with no tool fails.
abbrev logging : Executor (List String)
logging = record {
  invoke =
      λ w j. (if str_eq j.tool "" then Outcome.err "no tool" else Outcome.ok "done", j.name ∷ w);
  now_ms = λ w. 7;
  elapsed_ms = λ w w'. 1;
}
