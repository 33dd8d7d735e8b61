-- ===== src/Beat/Minutes.antt =====
-- What the schedule of config/celery.py achieves while nothing else happens.
use robotics_io_t_smart_auto.Base.{
  ℕ, zero, suc, ◌+◌, ◌*◌, ◌%◌, ◌≡◌, refl, sym, ap, ◌∙◌, subst, inl, inr, true, List, [], ◌∷◌, arith,
  if◌then◌else◌, Bool-cases, seconds, count_where,
}
use robotics_io_t_smart_auto.Alerts.Backstop.{evaluate_threshold_alerts_lem}
use robotics_io_t_smart_auto.Alerts.Services.Dedup.{OpenUnique}
use robotics_io_t_smart_auto.Beat.Fades.{Pairwise, Fades, Fades-trans}
use robotics_io_t_smart_auto.Beat.Jobs.{
  Keeps, Keeps-refl, Keeps-trans, expire-Keeps, commands-purge, run_job-Keeps,
}
use robotics_io_t_smart_auto.Beat.Schedule.{
  Job, beat_schedule, half_minute, is_due, run_job, run_jobs, beat, minutes,
}
use robotics_io_t_smart_auto.Devices.Health.{expire_stale_commands_lem}
use robotics_io_t_smart_auto.Devices.Models.{DeviceStatus, Device}
use robotics_io_t_smart_auto.Devices.Tasks.{
  is_stale, detect_offline_devices, is_stale_command, expire_stale_commands,
}
use robotics_io_t_smart_auto.Devices.Watchdog.{detect_offline_devices_lem}
use robotics_io_t_smart_auto.World.{World}

-- a job of the list, if it is due
abbrev if_due : Job → World → World
if_due j w = if is_due j w.now then run_job j w else w

if_due-Keeps : (j : Job) (w : World) → OpenUnique w.alerts → Keeps w (if_due j w)
if_due-Keeps j w u = elim (Bool-cases (is_due j w.now)) [
  | inl due ↦ rw due (run_job-Keeps j w u)
  | inr not_due ↦ rw not_due (Keeps-refl w)
]

pub run_jobs-Keeps : (js : List Job) (w : World) → OpenUnique w.alerts → Keeps w (run_jobs js w)
unfolding run_jobs
run_jobs-Keeps [] w u = Keeps-refl w
run_jobs-Keeps (j ∷ js) w u =
    let first = if_due-Keeps j w u in
    Keeps-trans first (run_jobs-Keeps js (if_due j w) (first.unique u))

-- nobody is silent for too long while ONLINE or DEGRADED
abbrev NoneStale : ℕ → List Device → Type 0
NoneStale now ds = count_where (is_stale now) ds ≡ 0

-- and that stays so while devices only fade
NoneStale-Fades :
    (now : ℕ) (xs ys : List Device) → Fades xs ys → NoneStale now xs → NoneStale now ys
unfolding is_stale
NoneStale-Fades now [] [] f h = refl
NoneStale-Fades now [] (y ∷ ys) f h = absurd f
NoneStale-Fades now (x ∷ xs) [] f h = absurd f
NoneStale-Fades now (x ∷ xs) (y ∷ ys) f h =
    ground (arith, h, f.0.deleted_at, f.0.last_seen, f.0.status, NoneStale-Fades now xs ys f.1)

-- what a device that was stale has become, where none is
Offline-Fades :
    (now : ℕ) (xs ys : List Device)
    → Fades xs ys
    → NoneStale now ys
    → Pairwise (λ x y. is_stale now x ≡ true → y.status ≡ DeviceStatus.offline) xs ys
unfolding is_stale
Offline-Fades now [] [] f h = tt
Offline-Fades now [] (y ∷ ys) f h = absurd f
Offline-Fades now (x ∷ xs) [] f h = absurd f
Offline-Fades now (x ∷ xs) (y ∷ ys) f h = (
  (λ stale. ground (arith, h, stale, f.0.deleted_at, f.0.last_seen, f.0.status)),
  Offline-Fades now xs ys f.1 (ground (arith, h)),
)

-- no pending command is past its deadline
abbrev NoneOverdue : World → Type 0
NoneOverdue w = count_where (is_stale_command w.now) w.commands ≡ 0

module _ (w : World) (u : OpenUnique w.alerts) where
  -- a run of the schedule in which the watchdog is due
  run_jobs-NoneStale : w.now % seconds 60 ≡ 0 → NoneStale w.now (run_jobs beat_schedule w).devices
  unfolding run_jobs is_due run_job
  run_jobs-NoneStale due =
      let watched = (detect_offline_devices w).1 in
      let (n, none_left, clean) = detect_offline_devices_lem w u in
      let rest =
        run_jobs-Keeps
          (Job.rollup_health ∷ Job.expire_commands ∷ Job.evaluate_alerts ∷ Job.purge_telemetry ∷ [])
          watched clean in
      let due' : is_due Job.detect_offline w.now ≡ true = ground (arith, due) in
      rw due' (NoneStale-Fades w.now watched.devices _ rest.fades none_left)

  -- the jobs behind the expiry leave the commands alone
  commands-evaluate : (if_due Job.evaluate_alerts w).commands ≡ w.commands
  unfolding run_job
  commands-evaluate = elim (Bool-cases (is_due Job.evaluate_alerts w.now)) [
    | inl due ↦ let (n, clean, tables) = evaluate_threshold_alerts_lem w u in rw due tables.commands
    | inr not_due ↦ rw not_due refl
  ]

commands-purge_due : (w : World) → (if_due Job.purge_telemetry w).commands ≡ w.commands
unfolding run_job
commands-purge_due w = elim (Bool-cases (is_due Job.purge_telemetry w.now)) [
  | inl due ↦ rw due (commands-purge w)
  | inr not_due ↦ rw not_due refl
]

due_job : (j : Job) (w : World) → is_due j w.now ≡ true → if_due j w ≡ run_job j w
due_job j w due = rw due refl

-- the last three jobs, where the expiry is due
expiry-NoneOverdue :
    (w : World)
    → OpenUnique w.alerts
    → w.now % seconds 60 ≡ 0
    → NoneOverdue
        (run_jobs (Job.expire_commands ∷ Job.evaluate_alerts ∷ Job.purge_telemetry ∷ []) w)
unfolding run_jobs is_due run_job
expiry-NoneOverdue w u due =
    let expired = (expire_stale_commands w).1 in
    let evaluated = if_due Job.evaluate_alerts expired in
    let purged = if_due Job.purge_telemetry evaluated in
    let first : if_due Job.expire_commands w ≡ expired =
      due_job Job.expire_commands w (ground (arith, due)) in
    let clean : OpenUnique expired.alerts = (expire-Keeps w).unique u in
    let second = if_due-Keeps Job.evaluate_alerts expired clean in
    let third = if_due-Keeps Job.purge_telemetry evaluated (second.unique clean) in
    let same : purged.commands ≡ expired.commands =
      commands-purge_due evaluated ∙ commands-evaluate expired clean in
    let now : purged.now ≡ w.now = third.now ∙ second.now ∙ (expire-Keeps w).now in
    rw first (rw (now, same) ((expire_stale_commands_lem w).0))

-- a run of the schedule at a full minute
run_jobs-NoneOverdue :
    (w : World)
    → OpenUnique w.alerts
    → w.now % seconds 60 ≡ 0
    → NoneOverdue (run_jobs beat_schedule w)
unfolding run_jobs
run_jobs-NoneOverdue w u due =
    let first = run_jobs-Keeps (Job.detect_offline ∷ Job.rollup_health ∷ []) w u in
    expiry-NoneOverdue (run_jobs (Job.detect_offline ∷ Job.rollup_health ∷ []) w) (first.unique u)
      (ap (λ n. n % seconds 60) first.now ∙ due)

-- What some minutes of the beat come to.
record Minutes (k : ℕ) (w w' : World) : Type 0 where
  now : w'.now ≡ w.now + seconds 60 * k
  fades : Fades w.devices w'.devices
  unique : OpenUnique w'.alerts
  watched : NoneStale w'.now w'.devices
  expired : NoneOverdue w'

abbrev half_later : World → World
half_later w = record w { now = w.now + half_minute }

minute_lem :
    (w : World) → OpenUnique w.alerts → w.now % seconds 60 ≡ 0 → Minutes 1 w (beat (beat w))
unfolding beat
minute_lem w u full =
    let first = run_jobs-Keeps beat_schedule (half_later w) u in
    let between = beat w in
    let later = half_later between in
    let clean = first.unique u in
    let second = run_jobs-Keeps beat_schedule later clean in
    let on_time : later.now ≡ w.now + seconds 60 = omega (arith, first.now) in
    let full' : later.now % seconds 60 ≡ 0 = omega (arith, on_time, full) in
    record {
      now = second.now ∙ on_time ∙ omega arith;
      fades = Fades-trans w.devices between.devices _ first.fades second.fades;
      unique = second.unique clean;
      watched =
          subst (λ n. NoneStale n (run_jobs beat_schedule later).devices) (sym second.now)
            (run_jobs-NoneStale later clean full');
      expired = run_jobs-NoneOverdue later clean full';
    }

minutes_lem :
    (n : ℕ) (w : World)
    → OpenUnique w.alerts
    → w.now % seconds 60 ≡ 0
    → Minutes (suc n) w (minutes (suc n) w)
unfolding minutes
minutes_lem zero w u full = minute_lem w u full
minutes_lem (suc n) w u full =
    let first = minute_lem w u full in
    let next = beat (beat w) in
    let rest = minutes_lem n next first.unique (omega (arith, first.now, full)) in
    record {
      now = omega (arith, first.now, rest.now);
      fades = Fades-trans w.devices next.devices _ first.fades rest.fades;
      unique = rest.unique;
      watched = rest.watched;
      expired = rest.expired;
    }

-- The schedule notices: from a full minute on, with at most one open alert for each rule and device,
-- after any positive number of minutes in which only the periodic jobs run, every device that was
-- live, ONLINE or DEGRADED, and by then not seen for more than OFFLINE_AFTER is OFFLINE; no pending
-- command is past its deadline; and there is still at most one open alert for each.
pub minutes-offline :
    (n : ℕ) (w : World)
    → OpenUnique w.alerts
    → w.now % seconds 60 ≡ 0
    → Pairwise
        (λ x y. is_stale (w.now + seconds 60 * suc n) x ≡ true → y.status ≡ DeviceStatus.offline)
        w.devices
        (minutes (suc n) w).devices
      × (count_where (is_stale_command (w.now + seconds 60 * suc n)) (minutes (suc n) w).commands
          ≡ 0)
      × OpenUnique (minutes (suc n) w).alerts
minutes-offline n w u full =
    let all = minutes_lem n w u full in
    (
      Offline-Fades (w.now + seconds 60 * suc n) w.devices _ all.fades
          (subst (λ t. NoneStale t (minutes (suc n) w).devices) all.now all.watched),
      subst (λ t. count_where (is_stale_command t) (minutes (suc n) w).commands ≡ 0) all.now
          all.expired,
      all.unique,
    )
