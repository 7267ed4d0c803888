-- ===== src/Scheduler/Firing/Accounting.antt =====
-- What a round of `fire_all_now` (crates/oracle-automate-scheduler/src/lib.rs) does and counts.
use mathlib.Core.List.{foldl}
use oracle_automate.Prelude.{
  ℕ, suc, ◌+◌, ◌%◌, ◌<◌, ◌≡◌, refl, Option, some, List, [], ◌∷◌, map, arith, length, drop, keep_if,
  drop-get_elem?, Bool-cases, inl, inr, if◌then◌else◌,
}
use oracle_automate.Scheduler.Cadence.{u64_mod}
use oracle_automate.Scheduler.Firing.{
  ScheduledJob, ScheduleReport, SchedulerStats, Executor, note_report, report_of, fire_job,
  fire_once, push_report, fire_from, fire_all_now,
}

abbrev pub enabled_jobs : List ScheduledJob → List ScheduledJob
enabled_jobs = keep_if (λ j. j.enabled)

abbrev pub failures : List ScheduleReport → ℕ
failures [] = 0
failures (r ∷ rs) = if r.succeeded then failures rs else suc (failures rs)

abbrev pub last_report : Option ScheduleReport → List ScheduleReport → Option ScheduleReport
last_report o [] = o
last_report o (r ∷ rs) = last_report (some r) rs

module _ {W : Type 0} (ex : Executor W) where
  -- The round as a recursion on the jobs: what the loop over indices computes.
  rounds : List ScheduledJob → SchedulerStats → W → List ScheduleReport × SchedulerStats × W
  rounds [] s w = ([], s, w)
  rounds (j ∷ js) s w =
      let (r, s', w') = fire_job ex j s w in
      let (out, s'', w'') = rounds js s' w' in (push_report r out, s'', w'')

  fire_from-eq-rounds :
      (rest jobs : List ScheduledJob) (i : ℕ) (s : SchedulerStats) (w : W)
      → drop i jobs ≡ rest
      → fire_from ex (length rest) i jobs s w ≡ rounds rest s w
  unfolding fire_from rounds fire_once
  fire_from-eq-rounds [] jobs i s w h = refl
  fire_from-eq-rounds (j ∷ js) jobs i s w h =
      let (found, next) = drop-get_elem? i jobs j js h in
      let (r, s', w') = fire_job ex j s w in
      rw found (rw (fire_from-eq-rounds js jobs (suc i) s' w' next))

  abbrev after_jobs : W → List ScheduledJob → W
  after_jobs = foldl (λ w j. (ex.invoke w j).1)

  rounds-reports :
      (jobs : List ScheduledJob) (s : SchedulerStats) (w : W)
      → (map (λ r. r.job) (rounds jobs s w).0 ≡ map (λ j. j.name) (enabled_jobs jobs))
        × ((rounds jobs s w).2 ≡ after_jobs w (enabled_jobs jobs))
  unfolding rounds fire_job report_of
  rounds-reports [] s w = (refl, refl)
  rounds-reports (j ∷ js) s w = elim (Bool-cases j.enabled) [
    | inl on ↦
        let (out, w') = ex.invoke w j in
        ground (arith, rounds-reports js (note_report s (report_of ex j w out w')) w')
    | inr off ↦ ground (arith, rounds-reports js s w)
  ]

  rounds-counts :
      (jobs : List ScheduledJob) (s : SchedulerStats) (w : W)
      → s.fires < u64_mod
      → s.errors < u64_mod
      → let r = rounds jobs s w in
        (r.1.fires ≡ (s.fires + length r.0) % u64_mod)
        × (r.1.errors ≡ (s.errors + failures r.0) % u64_mod)
        × (r.1.last ≡ last_report s.last r.0)
        × (r.1.jobs_declared ≡ s.jobs_declared)
  unfolding rounds fire_job note_report
  rounds-counts [] s w hf he = ground arith
  rounds-counts (j ∷ js) s w hf he = elim (Bool-cases j.enabled) [
    | inl on ↦
        let (out, w') = ex.invoke w j in
        ground (arith, rounds-counts js (note_report s (report_of ex j w out w')) w')
    | inr off ↦ ground (arith, rounds-counts js s w)
  ]

  fire_all_now-eq-rounds :
      (jobs : List ScheduledJob) (s : SchedulerStats) (w : W)
      → fire_all_now ex jobs s w ≡ rounds jobs s w
  unfolding fire_all_now
  fire_all_now-eq-rounds jobs s w = fire_from-eq-rounds jobs jobs 0 s w refl

  -- `fire_all_now` invokes the enabled jobs and no others, once each and in order, and reports them
  -- under their names in that order.
  pub fire_all_now-enabled :
      (jobs : List ScheduledJob) (s : SchedulerStats) (w : W)
      → (map (λ r. r.job) (fire_all_now ex jobs s w).0 ≡ map (λ j. j.name) (enabled_jobs jobs))
        × ((fire_all_now ex jobs s w).2 ≡ after_jobs w (enabled_jobs jobs))
  fire_all_now-enabled jobs s w = rw (fire_all_now-eq-rounds jobs s w) (rounds-reports jobs s w)

  -- After `fire_all_now` on counters below 2^64, `fires` has grown by the number of the reports and
  -- `errors` by that of the failed ones, both modulo 2^64; `last` is the last report, if there is
  -- one, and `jobs_declared` is as before.
  pub fire_all_now-counts :
      (jobs : List ScheduledJob) (s : SchedulerStats) (w : W)
      → s.fires < u64_mod
      → s.errors < u64_mod
      → let r = fire_all_now ex jobs s w in
        (r.1.fires ≡ (s.fires + length r.0) % u64_mod)
        × (r.1.errors ≡ (s.errors + failures r.0) % u64_mod)
        × (r.1.last ≡ last_report s.last r.0)
        × (r.1.jobs_declared ≡ s.jobs_declared)
  fire_all_now-counts jobs s w hf he =
      rw (fire_all_now-eq-rounds jobs s w) (rounds-counts jobs s w hf he)
