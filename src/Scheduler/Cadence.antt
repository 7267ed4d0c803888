-- ===== src/Scheduler/Cadence.antt =====
-- `Schedule` and `Schedule::next_in` of crates/oracle-automate-scheduler/src/lib.rs. A `Duration` is
-- its number of seconds; `hour`, `minute`, `weekday` and `day` are u32, so the sums of products in
-- `Daily` and `Weekly` stay below 2^64 and only `mins * 60` can wrap.
pub mod Alignment
use oracle_automate.Prelude.{
  ℕ, ◌+◌, ◌-◌, ◌*◌, ◌/◌, ◌%◌, ◌^◌, min, ◌&&◌, ltb, leb, nat_eq, if◌then◌else◌,
}

pub data Schedule : Type 0 where
  every_n_seconds : ℕ → Schedule
  every_n_minutes : ℕ → Schedule
  hourly : ℕ → Schedule
  daily : ℕ → ℕ → Schedule
  weekly : ℕ → ℕ → ℕ → Schedule
  quarterly : ℕ → ℕ → ℕ → Schedule

abbrev pub u64_mod : ℕ
u64_mod = 2 ^ 64

abbrev pub day_secs : ℕ
day_secs = 86400

-- `(hour * 3600 + minute * 60) % 86400`
abbrev pub target_secs : ℕ → ℕ → ℕ
target_secs hour minute = (hour * 3600 + minute * 60) % day_secs

-- `(now_secs / 86400 + 3) % 7 + 1`: 1 is Monday, and the epoch is a Thursday.
abbrev pub weekday_of : ℕ → ℕ
weekday_of now = (now / day_secs + 3) % 7 + 1

-- `(*weekday).clamp(1, 7)`
abbrev pub clamp_weekday : ℕ → ℕ
clamp_weekday w = if ltb w 1 then 1 else if ltb 7 w then 7 else w

day_offset : ℕ → ℕ → ℕ → ℕ → ℕ
day_offset now_day target now_in_day at =
    let ahead = if leb now_day target then target - now_day else 7 - (now_day - target) in
    if nat_eq ahead 0 && leb at now_in_day then 7 else ahead

unfoldable pub next_in : Schedule → ℕ → ℕ
unfolding day_offset
next_in (every_n_seconds secs) now = secs
next_in (every_n_minutes mins) now = (mins * 60) % u64_mod
next_in (hourly minute) now =
    let m = min minute 59 in
    let now_min = (now / 60) % 60 in
    (if ltb now_min m then m - now_min else 60 - (now_min - m)) * 60
next_in (daily hour minute) now =
    let at = target_secs hour minute in
    let now_in_day = now % day_secs in
    if ltb now_in_day at then at - now_in_day else day_secs - (now_in_day - at)
next_in (weekly weekday hour minute) now =
    let at = target_secs hour minute in
    let now_in_day = now % day_secs in
    day_offset (weekday_of now) (clamp_weekday weekday) now_in_day at * day_secs + (at - now_in_day)
next_in (quarterly day hour minute) now = 90 * day_secs
