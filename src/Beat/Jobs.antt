-- ===== src/Beat/Jobs.antt =====
-- What each periodic job of config/celery.py keeps.
use robotics_io_t_smart_auto.Base.{
  ℕ, ◌+◌, ◌≡◌, refl, sym, ◌∙◌, subst, inl, inr, List, [], ◌∷◌, ◌++◌, arith, ◌==◌, Bool-cases,
  Option-cases, length, select, flt_eq, Outcome, ok, fail,
}
use robotics_io_t_smart_auto.Alerts.Backstop.{evaluate_threshold_alerts_lem}
use robotics_io_t_smart_auto.Alerts.Services.Dedup.{OpenUnique}
use robotics_io_t_smart_auto.Alerts.Tasks.{evaluate_threshold_alerts}
use robotics_io_t_smart_auto.Beat.Fades.{
  Fades, Fades-refl, Fades-trans, Fades-update, offline-RowFades, score-RowFades,
}
use robotics_io_t_smart_auto.Beat.Schedule.{Job, purge_world, run_job}
use robotics_io_t_smart_auto.Devices.Models.{Device}
use robotics_io_t_smart_auto.Devices.Saves.{written, save_device-Quiet}
use robotics_io_t_smart_auto.Devices.Signals.{DeviceField}
use robotics_io_t_smart_auto.Devices.Tasks.{
  is_stale, take_offline, count_round, sweep, detect_offline_devices, compute_health_score,
  in_service, snapshot_of, refresh_score, refresh_scores, store_snapshots, rollup_device_health,
  expire_stale_commands,
}
use robotics_io_t_smart_auto.Devices.Watchdog.{offline_of, take_offline-Round}
use robotics_io_t_smart_auto.Frame.{Quiet, Quiet-refl, Quiet-trans}
use robotics_io_t_smart_auto.Telemetry.Tasks.{batch_limit, purge_loop, purge_old_telemetry}
use robotics_io_t_smart_auto.World.{World}

pub record Keeps (w w' : World) : Type 0 where
  pub now : w'.now ≡ w.now
  pub fades : Fades w.devices w'.devices
  pub unique : OpenUnique w.alerts → OpenUnique w'.alerts

pub Keeps-refl : (w : World) → Keeps w w
Keeps-refl w = record { now = refl; fades = Fades-refl w.devices; unique = λ u. u }

pub Keeps-trans : {u v w : World} → Keeps u v → Keeps v w → Keeps u w
Keeps-trans {u} {v} {w} f g = record {
  now = g.now ∙ f.now;
  fades = Fades-trans u.devices v.devices w.devices f.fades g.fades;
  unique = λ h. g.unique (f.unique h);
}

-- where neither devices nor alerts change
pub Keeps-Quiet : {w w' : World} → Quiet w w' → Keeps w w'
Keeps-Quiet {w} {w'} q = record {
  now = q.tables.now;
  fades = subst (Fades w.devices) (sym q.tables.devices) (Fades-refl w.devices);
  unique = subst OpenUnique (sym q.alerts);
}

take_offline-Keeps : (d : Device) (w : World) → Keeps w (take_offline d w).1
take_offline-Keeps d w =
    let round = take_offline-Round d w in
    record {
      now = round.now;
      fades = subst (Fades w.devices) (sym round.devices) (
          Fades-update (λ r. r.id == d.id) _ w.devices
            (λ x. offline-RowFades (offline_of d) w.now x refl));
      unique = λ u. (round.total u).1;
    }

count_round-Keeps :
    (rest : World → Outcome ℕ × World) (v : World) (p : Outcome (Unit {0}) × World)
    → Keeps v p.1
    → Keeps p.1 (rest p.1).1
    → Keeps v (count_round rest p).1
count_round-Keeps rest v (ok _, w) f g = Keeps-trans f g
count_round-Keeps rest v (fail e, w) f g = f

sweep-Keeps : (ds : List Device) (w : World) → Keeps w (sweep ds w).1
unfolding sweep
sweep-Keeps [] w = Keeps-refl w
sweep-Keeps (d ∷ ds) w =
    count_round-Keeps (sweep ds) w (take_offline d w) (take_offline-Keeps d w)
      (sweep-Keeps ds (take_offline d w).1)

refresh_score-Keeps : (d : Device) (w : World) → Keeps w (refresh_score d w)
unfolding refresh_score
refresh_score-Keeps d w = elim (Bool-cases (flt_eq (compute_health_score d) d.health_score)) [
  | inl same ↦ rw same (Keeps-refl w)
  | inr other ↦
      let fresh = record d { health_score = compute_health_score d } in
      let saved = save_device-Quiet fresh (DeviceField.health_score ∷ []) w in
      let wrote : Keeps w (written fresh (DeviceField.health_score ∷ []) w) = record {
        now = refl;
        fades = Fades-update (λ r. r.id == d.id) _ w.devices (score-RowFades fresh w.now);
        unique = λ u. u;
      } in
      rw other (Keeps-trans wrote (Keeps-Quiet saved))
]

refresh_scores-Keeps : (ds : List Device) (w : World) → Keeps w (refresh_scores ds w)
unfolding refresh_scores
refresh_scores-Keeps [] w = Keeps-refl w
refresh_scores-Keeps (d ∷ ds) w =
    Keeps-trans (refresh_score-Keeps d w) (refresh_scores-Keeps ds (refresh_score d w))

store_snapshots-Quiet : (ds : List Device) (w : World) → Quiet w (store_snapshots ds w)
unfolding store_snapshots
store_snapshots-Quiet [] w = Quiet-refl w
store_snapshots-Quiet (d ∷ ds) w =
    let added = record w {
      snapshots = w.snapshots ++ snapshot_of w.next_id w.now d (compute_health_score d) ∷ [];
      next_id = w.next_id + 1;
    } in
    Quiet-trans {v = added} (ground arith) (store_snapshots-Quiet ds added)

pub detect_offline-Keeps : (w : World) → Keeps w (detect_offline_devices w).1
unfolding detect_offline_devices
detect_offline-Keeps w = sweep-Keeps (select (is_stale w.now) w.devices) w

pub rollup-Keeps : (w : World) → Keeps w (rollup_device_health w).1
unfolding rollup_device_health
rollup-Keeps w =
    Keeps-trans (refresh_scores-Keeps (select in_service w.devices) w)
      (Keeps-Quiet (store_snapshots-Quiet (select in_service w.devices) _))

pub expire-Keeps : (w : World) → Keeps w (expire_stale_commands w).1
unfolding expire_stale_commands
expire-Keeps w = record { now = refl; fades = Fades-refl w.devices; unique = λ u. u }

pub evaluate-Keeps : (w : World) → OpenUnique w.alerts → Keeps w (evaluate_threshold_alerts w).1
evaluate-Keeps w u =
    let (n, clean, tables) = evaluate_threshold_alerts_lem w u in
    record {
      now = tables.now;
      fades = subst (Fades w.devices) (sym tables.devices) (Fades-refl w.devices);
      unique = λ _. clean;
    }

-- the purge changes the readings only
abbrev OnlyReadings : World → World → Type 0
OnlyReadings w w' =
    (w'.now ≡ w.now)
    × (w'.devices ≡ w.devices)
    × (w'.alerts ≡ w.alerts)
    × (w'.commands ≡ w.commands)

purge-OnlyReadings : (w : World) → OnlyReadings w (purge_world w)
unfolding purge_old_telemetry
purge-OnlyReadings w =
    elim (Option-cases (purge_loop (length w.readings + 1) batch_limit w.now w.readings 0)) [
      | inl endless ↦ rw (purge_world, endless) (refl, refl, refl, refl)
      | inr (r, e) ↦ rw (purge_world, e) (refl, refl, refl, refl)
    ]

pub commands-purge : (w : World) → (purge_world w).commands ≡ w.commands
commands-purge w = (purge-OnlyReadings w).3

pub purge-Keeps : (w : World) → Keeps w (purge_world w)
purge-Keeps w =
    let (now, devices, alerts, _) = purge-OnlyReadings w in
    record {
      now = now;
      fades = subst (Fades w.devices) (sym devices) (Fades-refl w.devices);
      unique = subst OpenUnique (sym alerts);
    }

-- every job, whether it is due or not
pub run_job-Keeps : (j : Job) (w : World) → OpenUnique w.alerts → Keeps w (run_job j w)
unfolding run_job
run_job-Keeps Job.detect_offline w u = detect_offline-Keeps w
run_job-Keeps Job.rollup_health w u = rollup-Keeps w
run_job-Keeps Job.expire_commands w u = expire-Keeps w
run_job-Keeps Job.evaluate_alerts w u = evaluate-Keeps w u
run_job-Keeps Job.purge_telemetry w u = purge-Keeps w
