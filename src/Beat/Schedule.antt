-- ===== src/Beat/Schedule.antt =====
-- config/celery.py: the schedule of the periodic jobs. Celery itself is not modelled: here the beat
-- wakes every half minute, the interval of its most frequent job, and runs the jobs that are due, one
-- after the other in the order of the dictionary; what a job raises is only logged.
use robotics_io_t_smart_auto.Base.{
  ℕ, zero, suc, ◌+◌, ◌%◌, Bool, none, some, List, [], ◌∷◌, ◌==◌, if◌then◌else◌, seconds, length,
  swallow,
}
use robotics_io_t_smart_auto.Alerts.Tasks.{evaluate_threshold_alerts}
use robotics_io_t_smart_auto.Devices.Tasks.{
  detect_offline_devices, rollup_device_health, expire_stale_commands,
}
use robotics_io_t_smart_auto.Telemetry.Tasks.{purge_old_telemetry}
use robotics_io_t_smart_auto.World.{World}

-- the entries of app.conf.beat_schedule
pub data Job : Type 0 where
  detect_offline rollup_health expire_commands evaluate_alerts purge_telemetry : Job

abbrev pub beat_schedule : List Job
beat_schedule =
    Job.detect_offline ∷ Job.rollup_health ∷ Job.expire_commands ∷ Job.evaluate_alerts
    ∷ Job.purge_telemetry ∷ []

abbrev pub half_minute : ℕ
half_minute = seconds 30

-- schedule: an interval, or crontab(hour=3, minute=0)
unfoldable pub is_due : Job → ℕ → Bool
is_due Job.detect_offline now = now % seconds 60 == 0
is_due Job.rollup_health now = now % seconds 300 == 0
is_due Job.expire_commands now = now % seconds 60 == 0
is_due Job.evaluate_alerts now = now % seconds 30 == 0
is_due Job.purge_telemetry now = now % seconds 86400 == seconds 10800

-- the fuel is enough for every table with distinct keys
abbrev pub purge_world : World → World
purge_world w = elim (purge_old_telemetry (length w.readings + 1) w) [
  | none ↦ w
  | some (n, w') ↦ w'
]

-- the task of an entry
unfoldable pub run_job : Job → World → World
run_job Job.detect_offline w = swallow (detect_offline_devices w)
run_job Job.rollup_health w = (rollup_device_health w).1
run_job Job.expire_commands w = (expire_stale_commands w).1
run_job Job.evaluate_alerts w = swallow (evaluate_threshold_alerts w)
run_job Job.purge_telemetry w = purge_world w

unfoldable pub run_jobs : List Job → World → World
unfolding is_due run_job
run_jobs [] w = w
run_jobs (j ∷ js) w = run_jobs js (if is_due j w.now then run_job j w else w)

-- half a minute passes, and the due jobs run
unfoldable pub beat : World → World
unfolding run_jobs
beat w = run_jobs beat_schedule (record w { now = w.now + half_minute })

-- so many minutes in which nothing but the beat runs
unfoldable pub minutes : ℕ → World → World
unfolding beat
minutes zero w = w
minutes (suc n) w = minutes n (beat (beat w))
