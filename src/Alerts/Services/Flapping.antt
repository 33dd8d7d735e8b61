-- ===== src/Alerts/Services/Flapping.antt =====
-- A rule that covers several sensors: the inner loop of `evaluate_device_readings`, in which each
-- sensor in turn raises the alert or resolves it.
use robotics_io_t_smart_auto.Base.{
  ℕ, ◌≡◌, refl, ap, ◌∙◌, inl, inr, Bool, true, false, Option, none, some, List, [], ◌∷◌, arith,
  Bool-cases, Option-cases, or_else, count_where, count-update-le, count-update-zero, Float,
  Outcome, ok, fail, ◌>>=◌,
}
use robotics_io_t_smart_auto.Alerts.Models.{AlertRule, matches, Alert}
use robotics_io_t_smart_auto.Alerts.Services.Evaluate.{
  breach_args, check_sensor, proceed, check_sensors,
}
use robotics_io_t_smart_auto.Alerts.Services.Lifecycle.{auto_resolved, auto_resolve}
use robotics_io_t_smart_auto.Alerts.Services.Raise.{is_open_for, raise_alert}
use robotics_io_t_smart_auto.Alerts.Services.Verdict.{
  is_ghost, IsClean, raise_alert-one, count-raise_alert, raise_alert-IsClean,
}
use robotics_io_t_smart_auto.Devices.Models.{Device}
use robotics_io_t_smart_auto.Telemetry.Models.{Sensor}
use robotics_io_t_smart_auto.World.{World}

-- what one sensor says: nothing without a numeric value
abbrev pub verdict : AlertRule → Sensor → Option Bool
verdict rule s = elim s.last_value [ none ↦ none | some v ↦ some (matches rule (some v)) ]

-- the verdict of the last sensor that has one
abbrev pub last_verdict : AlertRule → List Sensor → Option Bool → Option Bool
last_verdict rule [] v = v
last_verdict rule (s ∷ ss) v = last_verdict rule ss (or_else (verdict rule s) v)

-- the number of open alerts that a verdict leaves, where there were `n`
abbrev pub open_after : Option Bool → ℕ → ℕ
open_after none n = n
open_after (some true) n = 1
open_after (some false) n = 0

pub proceed_ok :
    (rest : World → Outcome (Unit {0}) × World) (p : Outcome (Unit {0}) × World)
    → p.0 ≡ ok tt
    → proceed rest p ≡ rest p.1
proceed_ok rest (ok _, w) h = refl
proceed_ok rest (fail e, w) h = cc

open_after-or_else :
    (u v : Option Bool) (n : ℕ) → open_after u (open_after v n) ≡ open_after (or_else u v) n
open_after-or_else u v n = ground arith

module _ (rule : AlertRule) (device : Device) where
  abbrev pub rule_slot : Alert → Bool
  rule_slot = is_open_for (some rule.id) (some device.id)

  -- an alert that `_auto_resolve` closes is open for no slot
  pub resolved_closed :
      (r d : Option ℕ) (now : ℕ) (a : Alert) → is_open_for r d (auto_resolved now a) ≡ false
  resolved_closed r d now a = ground arith

  abbrev settled : World → List Alert
  settled w = (auto_resolve rule device w).alerts

  count-auto_resolve : (w : World) → count_where rule_slot (settled w) ≡ 0
  unfolding auto_resolve
  count-auto_resolve w =
      count-update-zero rule_slot (auto_resolved w.now) w.alerts
        (resolved_closed (some rule.id) (some device.id) w.now)

  auto_resolve-IsClean :
      (w : World)
      → IsClean (some rule.id) (some device.id) w.alerts
      → IsClean (some rule.id) (some device.id) (settled w)
  unfolding auto_resolve
  auto_resolve-IsClean w clean = record {
    unique = record {
      at = λ r d. omega (
        arith,
        clean.unique.at r d,
        count-update-le rule_slot (is_open_for r d) (auto_resolved w.now) w.alerts
            (λ a h. cc (h, resolved_closed r d w.now a)),
      );
    };
    no_ghost = omega (
      arith,
      clean.no_ghost,
      count-update-le rule_slot (is_ghost (some rule.id) (some device.id)) (auto_resolved w.now)
          w.alerts (λ a h. ground arith),
    );
  }

  -- What one step or the whole loop leaves, from `n` open alerts and a verdict.
  pub record Leaves (v : Option Bool) (n : ℕ) (r : Outcome (Unit {0}) × World) : Type 0 where
    pub returns : r.0 ≡ ok tt
    pub open_count : count_where rule_slot r.1.alerts ≡ open_after v n
    pub clean : IsClean (some rule.id) (some device.id) r.1.alerts

  check_breach :
      (s : Sensor) (w : World) (v : Float)
      → IsClean (some rule.id) (some device.id) w.alerts
      → Leaves (some true) (count_where rule_slot w.alerts) (
        (raise_alert (breach_args rule device s v) w).0 >>= (λ _. ok tt),
        (raise_alert (breach_args rule device s v) w).1,
      )
  check_breach s w v clean =
      let args = breach_args rule device s v in
      let (a, h) = raise_alert-one args w clean in
      record {
        returns = ap (λ r. r >>= (λ _. ok tt)) h;
        open_count = count-raise_alert args w clean;
        clean = raise_alert-IsClean args w clean;
      }

  check_calm :
      (w : World)
      → IsClean (some rule.id) (some device.id) w.alerts
      → Leaves (some false) (count_where rule_slot w.alerts) (ok tt, auto_resolve rule device w)
  check_calm w clean = record {
    returns = refl;
    open_count = count-auto_resolve w;
    clean = auto_resolve-IsClean w clean;
  }

  check_sensor-Leaves :
      (s : Sensor) (w : World)
      → IsClean (some rule.id) (some device.id) w.alerts
      → Leaves (verdict rule s) (count_where rule_slot w.alerts) (check_sensor rule device s w)
  unfolding check_sensor
  check_sensor-Leaves s w clean = elim (Option-cases s.last_value) [
    | inl e ↦ rw e (record { returns = refl; open_count = refl; clean = clean })
    | inr (v, e) ↦ elim (Bool-cases (matches rule (some v))) [
      | inl bad ↦ rw e (rw bad (check_breach s w v clean))
      | inr fine ↦ rw e (rw fine (check_calm w clean))
    ]
  ]

  loop-Leaves :
      (ss : List Sensor) (w : World) (v : Option Bool) (n : ℕ)
      → IsClean (some rule.id) (some device.id) w.alerts
      → count_where rule_slot w.alerts ≡ open_after v n
      → Leaves (last_verdict rule ss v) n (check_sensors rule device ss w)
  unfolding check_sensors
  loop-Leaves [] w v n clean h = record { returns = refl; open_count = h; clean = clean }
  loop-Leaves (s ∷ ss) w v n clean h =
      let step = check_sensor-Leaves s w clean in
      let count =
        step.open_count
        ∙ ap (open_after (verdict rule s)) h
        ∙ open_after-or_else (verdict rule s) v n in
      rw (proceed_ok (check_sensors rule device ss) (check_sensor rule device s w) step.returns) (
        loop-Leaves ss (check_sensor rule device s w).1 (or_else (verdict rule s) v) n step.clean
          count)

  -- Where the table has at most one open alert for each rule and device and no soft-deleted open
  -- alert of this rule and device, the evaluation of a rule over any sensors raises no exception,
  -- keeps these two facts, and the last sensor that has a numeric value decides alone: one open
  -- alert if its value breaches, none if not, and the number from before if no sensor has a value.
  pub check_sensors-last :
      (ss : List Sensor) (w : World)
      → IsClean (some rule.id) (some device.id) w.alerts
      → ((check_sensors rule device ss w).0 ≡ ok tt)
        × (count_where rule_slot (check_sensors rule device ss w).1.alerts
            ≡ open_after (last_verdict rule ss none) (count_where rule_slot w.alerts))
        × IsClean (some rule.id) (some device.id) (check_sensors rule device ss w).1.alerts
  check_sensors-last ss w clean =
      let all = loop-Leaves ss w none (count_where rule_slot w.alerts) clean refl in
      (all.returns, all.open_count, all.clean)
