-- ===== src/Scheduler/Cadence/Alignment.antt =====
-- Where the fires of `next_in` (crates/oracle-automate-scheduler/src/lib.rs) land.
use oracle_automate.Prelude.{ℕ, ◌+◌, ◌*◌, ◌/◌, ◌%◌, ◌≤◌, ◌<◌, min, max, ◌≡◌, ◌≢◌, ◌↔◌, arith}
use oracle_automate.Scheduler.Cadence.{
  hourly, daily, weekly, day_secs, target_secs, weekday_of, clamp_weekday, next_in,
}

-- An hourly job fires within the hour, at its minute (59 if it asks for a later one) and at the
-- same second of the minute as now.
pub next_in-hourly :
    (minute now : ℕ)
    → let d = next_in (hourly minute) now in
      (((now + d) / 60) % 60 ≡ min minute 59) × (0 < d) × (d ≤ 3600) × ((now + d) % 60 ≡ now % 60)
unfolding next_in
next_in-hourly minute now = ground arith

-- A daily job fires within the day, at its time of day in UTC, and at no earlier instant after now is
-- it that time of day.
pub next_in-daily :
    (hour minute now : ℕ)
    → let d = next_in (daily hour minute) now in
      ((now + d) % day_secs ≡ target_secs hour minute)
      × (0 < d)
      × (d ≤ day_secs)
      × ((t : ℕ) → now < t → t < now + d → t % day_secs ≢ target_secs hour minute)
unfolding next_in
next_in-daily hour minute now =
    (ground arith, ground arith, ground arith, λ t after before. ground arith)

-- A weekly job fires on its weekday and within seven days, at its time of day or, if that is later,
-- at the time of day that it is now.
pub next_in-weekly :
    (weekday hour minute now : ℕ)
    → let d = next_in (weekly weekday hour minute) now in
      (weekday_of (now + d) ≡ clamp_weekday weekday)
      × ((now + d) % day_secs ≡ max (now % day_secs) (target_secs hour minute))
      × (0 < d)
      × (d ≤ 7 * day_secs)
unfolding next_in
next_in-weekly weekday hour minute now = (ground arith, ground arith, ground arith, ground arith)

-- A weekly job fires at its time of day in UTC exactly when it is asked no later in the day than that.
pub next_in-weekly_exact_iff :
    (weekday hour minute now : ℕ)
    → ((now + next_in (weekly weekday hour minute) now) % day_secs ≡ target_secs hour minute)
      ↔ (now % day_secs ≤ target_secs hour minute)
next_in-weekly_exact_iff weekday hour minute now = (
  λ e. omega (arith, (next_in-weekly weekday hour minute now).1),
  λ h. omega (arith, (next_in-weekly weekday hour minute now).1),
)
