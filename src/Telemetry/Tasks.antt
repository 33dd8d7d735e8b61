-- ===== src/Telemetry/Tasks.antt =====
-- apps/telemetry/tasks.py: the retention job.
use robotics_io_t_smart_auto.Base.{
  ℕ, zero, suc, ◌+◌, Bool, not, Option, none, some, List, [], ◌∷◌, map, ltb, seconds, take, select,
  count_where, sort_by,
}
use robotics_io_t_smart_auto.Alerts.Services.Notify.{is_listed}
use robotics_io_t_smart_auto.Telemetry.Models.{Reading}
use robotics_io_t_smart_auto.World.{World}

-- RAW_RETENTION_DAYS, as a time span
abbrev pub raw_retention : ℕ
raw_retention = seconds 7776000

-- time < now - retention
abbrev pub is_old : ℕ → Reading → Bool
is_old now r = ltb (r.time + raw_retention) now

abbrev pub batch_limit : ℕ
batch_limit = 10000

-- the ids of the next batch: the table is ordered by -time
abbrev pub batch_of : ℕ → ℕ → List Reading → List ℕ
batch_of limit now readings =
    map (λ r. r.id) (take limit (sort_by (λ r t. ltb t.time r.time) (select (is_old now) readings)))

-- Reading.objects.filter(id__in=ids)
abbrev pub in_ids : List ℕ → Reading → Bool
in_ids ids r = is_listed ids r.id

-- the `while True` loop, for a batch limit; the fuel is the number of rounds that it may take
unfoldable pub purge_loop : ℕ → ℕ → ℕ → List Reading → ℕ → Option (ℕ × List Reading)
purge_loop zero limit now readings total = none
purge_loop (suc fuel) limit now readings total = elim (batch_of limit now readings) [
  | [] ↦ some (total, readings)
  | i ∷ ids ↦
      purge_loop fuel limit now (select (λ r. not (in_ids (i ∷ ids) r)) readings)
        (total + count_where (in_ids (i ∷ ids)) readings)
]

-- purge_old_telemetry
unfoldable pub purge_old_telemetry : ℕ → World → Option (ℕ × World)
unfolding purge_loop
purge_old_telemetry fuel w = elim (purge_loop fuel batch_limit w.now w.readings 0) [
  | none ↦ none
  | some (n, rows) ↦ some (n, record w { readings = rows })
]
