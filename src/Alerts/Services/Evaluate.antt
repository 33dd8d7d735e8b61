-- ===== src/Alerts/Services/Evaluate.antt =====
-- `evaluate_device_readings` of apps/alerts/services.py: every active sensor rule of the device's
-- organization against the sensors that a telemetry batch touched.
use robotics_io_t_smart_auto.Base.{
  ℕ, String, Bool, true, false, ◌&&◌, ◌||◌, Option, none, some, List, [], ◌∷◌, str_eq, ◌==◌,
  if◌then◌else◌, refers_to, is_none, show_float, codes, concat, codes_before, select, first?,
  sort_by, Float, Outcome, ok, fail, ◌>>=◌,
}
use robotics_io_t_smart_auto.Alerts.Models.{Source, operator_label, AlertRule, matches}
use robotics_io_t_smart_auto.Alerts.Services.Lifecycle.{auto_resolve}
use robotics_io_t_smart_auto.Alerts.Services.Notify.{is_alive, is_listed}
use robotics_io_t_smart_auto.Alerts.Services.Raise.{RaiseArgs, raise_alert}
use robotics_io_t_smart_auto.Devices.Models.{Device}
use robotics_io_t_smart_auto.Telemetry.Models.{type_value, Sensor}
use robotics_io_t_smart_auto.World.{World}

abbrev pub is_sensor_source : Source → Bool
is_sensor_source Source.sensor = true
is_sensor_source _ = false

abbrev pub names_one_of : Option ℕ → List ℕ → Bool
names_one_of none ids = false
names_one_of (some i) ids = is_listed ids i

-- _rule_scope_q
unfoldable pub rule_scope_q : Device → List ℕ → AlertRule → Bool
rule_scope_q device sensor_ids rule =
    names_one_of rule.sensor_id sensor_ids
    || refers_to rule.device_id device.id && is_none rule.sensor_id
    || is_none rule.device_id && (str_eq rule.sensor_type "" || is_none rule.sensor_id)

-- the rules that evaluate_device_readings loads
unfoldable pub rules_for : Device → List ℕ → List AlertRule → List AlertRule
unfolding rule_scope_q
rules_for device sensor_ids rules =
    select
      (λ r.
        is_alive r.base
        && r.organization_id == device.organization_id
        && r.is_active
        && is_sensor_source r.source
        && rule_scope_q device sensor_ids r)
      rules

-- _sensors_for_rule, over the values of the dictionary `sensors`
unfoldable pub sensors_for_rule : AlertRule → List Sensor → List Sensor
sensors_for_rule rule sensors = elim rule.sensor_id [
  | some i ↦ elim (first? (λ s. s.id == i) sensors) [ none ↦ [] | some s ↦ s ∷ [] ]
  | none ↦
      if str_eq rule.sensor_type ""
      then sensors
      else select (λ s. str_eq (type_value s.sensor_type) rule.sensor_type) sensors
]

abbrev pub show_threshold : Option Float → String
show_threshold none = "None"
show_threshold (some t) = show_float t

-- the arguments of the call of raise_alert
abbrev pub breach_args : AlertRule → Device → Sensor → Float → RaiseArgs
breach_args rule device sensor value = record {
  rule = some rule;
  device = some device;
  sensor = some sensor.id;
  value = some value;
  title =
      concat (
        sensor.name
        ∷ " "
        ∷ operator_label rule.operator
        ∷ " "
        ∷ show_threshold rule.threshold
        ∷ []);
  message = concat (
      sensor.name
      ∷ " reading "
      ∷ show_float value
      ∷ sensor.unit
      ∷ " breached threshold "
      ∷ show_threshold rule.threshold
      ∷ sensor.unit
      ∷ "."
      ∷ []);
  severity = none;
  organization = none;
  channels = [];
}

-- the body of the inner loop
unfoldable pub check_sensor : AlertRule → Device → Sensor → World → Outcome (Unit {0}) × World
check_sensor rule device sensor w = elim sensor.last_value [
  | none ↦ (ok tt, w)
  | some value ↦
      if matches rule (some value)
      then (let (r, w') = raise_alert (breach_args rule device sensor value) w in
          (r >>= (λ _. ok tt), w'))
      else (ok tt, auto_resolve rule device w)
]

-- goes on unless the step raised
abbrev pub proceed :
    (World → Outcome (Unit {0}) × World) → Outcome (Unit {0}) × World → Outcome (Unit {0}) × World
proceed rest (ok _, w) = rest w
proceed rest (fail e, w) = (fail e, w)

-- for sensor in _sensors_for_rule(rule, sensors)
unfoldable pub check_sensors : AlertRule → Device → List Sensor → World → Outcome (Unit {0}) × World
check_sensors rule device [] w = (ok tt, w)
check_sensors rule device (s ∷ ss) w =
    proceed (check_sensors rule device ss) (check_sensor rule device s w)

-- for rule in rules
unfoldable pub check_rules :
    Device → List Sensor → List AlertRule → World → Outcome (Unit {0}) × World
check_rules device sensors [] w = (ok tt, w)
check_rules device sensors (r ∷ rs) w =
    proceed (check_rules device sensors rs) (check_sensors r device (sensors_for_rule r sensors) w)

-- {s.id: s for s in device.sensors.filter(id__in=sensor_ids)}, in the order of the names
unfoldable pub touched_sensors : Device → List ℕ → List Sensor → List Sensor
touched_sensors device sensor_ids sensors =
    sort_by (λ s t. codes_before (codes s.name) (codes t.name))
      (select (λ s. is_alive s.base && s.device_id == device.id && is_listed sensor_ids s.id)
        sensors)

-- evaluate_device_readings
unfoldable pub evaluate_device_readings : Device → List ℕ → World → Outcome (Unit {0}) × World
unfolding rules_for touched_sensors
evaluate_device_readings device [] w = (ok tt, w)
evaluate_device_readings device (i ∷ is) w =
    check_rules device (touched_sensors device (i ∷ is) w.sensors)
      (rules_for device (i ∷ is) w.rules) w
