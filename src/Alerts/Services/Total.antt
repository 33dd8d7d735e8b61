-- ===== src/Alerts/Services/Total.antt =====
-- The evaluation of rules as a whole: which tables it touches, and when it raises.
use robotics_io_t_smart_auto.Base.{
  ℕ, ◌≡◌, refl, ap, inl, inr, some, List, [], ◌∷◌, arith, Bool-cases, Option-cases, count-update-le,
  Outcome, ok, fail, ◌>>=◌,
}
use robotics_io_t_smart_auto.Alerts.Models.{AlertRule, matches}
use robotics_io_t_smart_auto.Alerts.Services.Cases.{inserted, Raised, raise_alert_cases}
use robotics_io_t_smart_auto.Alerts.Services.Dedup.{
  OpenUnique, raise_alert-OpenUnique, raise_alert_total,
}
use robotics_io_t_smart_auto.Alerts.Services.Evaluate.{
  rules_for, sensors_for_rule, breach_args, check_sensor, proceed, check_sensors, check_rules,
  touched_sensors, evaluate_device_readings,
}
use robotics_io_t_smart_auto.Alerts.Services.Flapping.{rule_slot, resolved_closed}
use robotics_io_t_smart_auto.Alerts.Services.Frames.{announce-SameTables, refresh-SameTables}
use robotics_io_t_smart_auto.Alerts.Services.Lifecycle.{auto_resolved, auto_resolve}
use robotics_io_t_smart_auto.Alerts.Services.Raise.{RaiseArgs, is_open_for, alert_row, raise_alert}
use robotics_io_t_smart_auto.Devices.Models.{Device}
use robotics_io_t_smart_auto.Frame.{SameTables, SameTables-refl, SameTables-trans}
use robotics_io_t_smart_auto.Telemetry.Models.{Sensor}
use robotics_io_t_smart_auto.World.{World}

pub raise_alert-SameTables : (args : RaiseArgs) (w : World) → SameTables w (raise_alert args w).1
raise_alert-SameTables args w = elim (raise_alert_cases args w) [
  | Raised.created _ _ e ↦ rw e (
      SameTables-trans {v = inserted args w} (ground arith)
        (announce-SameTables args (alert_row args w) (inserted args w)))
  | Raised.blocked _ _ e ↦ rw e (SameTables-refl w)
  | Raised.found a _ e ↦ rw e (refresh-SameTables args a w)
  | Raised.ambiguous _ _ _ _ e ↦ rw e (SameTables-refl w)
]

-- What a step of the evaluation does, whatever it finds.
pub record Settles (w : World) (r : Outcome (Unit {0}) × World) : Type 0 where
  pub tables : SameTables w r.1
  pub total : OpenUnique w.alerts → (r.0 ≡ ok tt) × OpenUnique r.1.alerts

Settles-done : (w : World) → Settles w (ok tt, w)
Settles-done w = record { tables = SameTables-refl w; total = λ u. (refl, u) }

Settles-proceed :
    (w : World) (rest : World → Outcome (Unit {0}) × World) (p : Outcome (Unit {0}) × World)
    → Settles w p
    → Settles p.1 (rest p.1)
    → Settles w (proceed rest p)
Settles-proceed w rest (ok _, w') h k = record {
  tables = SameTables-trans h.tables k.tables;
  total = λ u. k.total (h.total u).1;
}
Settles-proceed w rest (fail e, w') h k = record {
  tables = h.tables;
  total = λ u. ground (arith, (h.total u).0);
}

Settles-raise :
    (args : RaiseArgs) (w : World)
    → Settles w ((raise_alert args w).0 >>= (λ _. ok tt), (raise_alert args w).1)
Settles-raise args w = record {
  tables = raise_alert-SameTables args w;
  total = λ u.
      let (o, h) = raise_alert_total args w u in
      (ap (λ r. r >>= (λ _. ok tt)) h, raise_alert-OpenUnique args w u);
}

module _ (device : Device) where
  Settles-auto : (rule : AlertRule) (w : World) → Settles w (ok tt, auto_resolve rule device w)
  unfolding auto_resolve
  Settles-auto rule w = record {
    tables = ground arith;
    total = λ u. (
      refl,
      record {
        at = λ r d. omega (
          arith,
          u.at r d,
          count-update-le (rule_slot rule device) (is_open_for r d) (auto_resolved w.now) w.alerts
              (λ a h. cc (h, resolved_closed rule device r d w.now a)),
        );
      },
    );
  }

  Settles-sensor :
      (rule : AlertRule) (s : Sensor) (w : World) → Settles w (check_sensor rule device s w)
  unfolding check_sensor
  Settles-sensor rule s w = elim (Option-cases s.last_value) [
    | inl e ↦ rw e (Settles-done w)
    | inr (v, e) ↦ elim (Bool-cases (matches rule (some v))) [
      | inl bad ↦ rw e (rw bad (Settles-raise (breach_args rule device s v) w))
      | inr fine ↦ rw e (rw fine (Settles-auto rule w))
    ]
  ]

  Settles-sensors :
      (rule : AlertRule) (ss : List Sensor) (w : World) → Settles w (check_sensors rule device ss w)
  unfolding check_sensors
  Settles-sensors rule [] w = Settles-done w
  Settles-sensors rule (s ∷ ss) w =
      Settles-proceed w (check_sensors rule device ss) (check_sensor rule device s w)
        (Settles-sensor rule s w) (Settles-sensors rule ss (check_sensor rule device s w).1)

  Settles-rules :
      (sensors : List Sensor) (rs : List AlertRule) (w : World)
      → Settles w (check_rules device sensors rs w)
  unfolding check_rules
  Settles-rules sensors [] w = Settles-done w
  Settles-rules sensors (r ∷ rs) w =
      let first = check_sensors r device (sensors_for_rule r sensors) w in
      Settles-proceed w (check_rules device sensors rs) first
        (Settles-sensors r (sensors_for_rule r sensors) w) (Settles-rules sensors rs first.1)

  pub evaluate_device_readings_total :
      (sensor_ids : List ℕ) (w : World) → Settles w (evaluate_device_readings device sensor_ids w)
  unfolding evaluate_device_readings
  evaluate_device_readings_total [] w = Settles-done w
  evaluate_device_readings_total (i ∷ is) w =
      Settles-rules (touched_sensors device (i ∷ is) w.sensors) (rules_for device (i ∷ is) w.rules)
        w
