-- ===== src/Alerts/Backstop.antt =====
-- The periodic check of battery and health rules: what it counts, and what it keeps.
use robotics_io_t_smart_auto.Base.{
  ℕ, ◌+◌, ◌≡◌, refl, ap, ◌∙◌, subst, inl, inr, Bool, true, false, ◌&&◌, Option, none, some, List,
  [], ◌∷◌, arith, ◌==◌, if◌then◌else◌, Bool-cases, is_some, is_none, select, count_where, Float,
  Outcome, ok, fail, ◌>>=◌,
}
use robotics_io_t_smart_auto.Alerts.Models.{Source, AlertRule, matches}
use robotics_io_t_smart_auto.Alerts.Services.Dedup.{
  OpenUnique, raise_alert-OpenUnique, raise_alert_total,
}
use robotics_io_t_smart_auto.Alerts.Services.Raise.{RaiseArgs}
use robotics_io_t_smart_auto.Alerts.Services.Total.{raise_alert-SameTables}
use robotics_io_t_smart_auto.Alerts.Tasks.{
  is_battery_source, is_health_source, active_rules, battery_breach, health_breach, battery_args,
  health_args, add_count, raise_one, check_meta_rules, check_fleet, evaluate_threshold_alerts,
}
use robotics_io_t_smart_auto.Devices.Models.{Device}
use robotics_io_t_smart_auto.Devices.Tasks.{in_service}
use robotics_io_t_smart_auto.Frame.{SameTables, SameTables-refl, SameTables-trans}
use robotics_io_t_smart_auto.World.{World}

-- how many pairs of a device and a rule call for an alert
abbrev pub breaches : List AlertRule → List AlertRule → List Device → ℕ
breaches battery_rules health_rules [] = 0
breaches battery_rules health_rules (d ∷ ds) =
    count_where (battery_breach d) battery_rules
    + count_where (health_breach d) health_rules
    + breaches battery_rules health_rules ds

-- a part of the loop that counts `n` alerts
record Counts (n : ℕ) (w : World) (r : Outcome ℕ × World) : Type 0 where
  tables : SameTables w r.1
  total : OpenUnique w.alerts → (r.0 ≡ ok n) × OpenUnique r.1.alerts

Counts-none : (w : World) → Counts 0 w (ok 0, w)
Counts-none w = record { tables = SameTables-refl w; total = λ u. (refl, u) }

Counts-one : (args : RaiseArgs) (w : World) → Counts 1 w (raise_one args w)
Counts-one args w = record {
  tables = raise_alert-SameTables args w;
  total = λ u.
      let (o, h) = raise_alert_total args w u in
      (ap (λ r. r >>= (λ _. ok 1)) h, raise_alert-OpenUnique args w u);
}

Counts-add :
    (n m : ℕ) (w : World) (rest : World → Outcome ℕ × World) (p : Outcome ℕ × World)
    → Counts n w p
    → Counts m p.1 (rest p.1)
    → Counts (n + m) w (add_count rest p)
Counts-add n m w rest (ok k, v) h next = record {
  tables = SameTables-trans h.tables next.tables;
  total = λ u.
      let (e, u') = h.total u in
      let (f, u'') = next.total u' in
      let same : k ≡ n = ground (arith, e) in
      (ap (λ r. r >>= (λ j. ok (k + j))) f ∙ ap (λ i. ok (i + m)) same, u'');
}
Counts-add n m w rest (fail e, v) h next = record {
  tables = h.tables;
  total = λ u. absurd (ground (arith, (h.total u).0));
}

Counts-if :
    (b : Bool) (args : RaiseArgs) (w : World)
    → Counts (if b then 1 else 0) w (if b then raise_one args w else (ok 0, w))
Counts-if true args w = Counts-one args w
Counts-if false args w = Counts-none w

Counts-rules :
    (breach : AlertRule → Bool) (args : AlertRule → RaiseArgs) (rs : List AlertRule) (w : World)
    → Counts (count_where breach rs) w (check_meta_rules breach args rs w)
unfolding check_meta_rules
Counts-rules breach args [] w = Counts-none w
Counts-rules breach args (r ∷ rs) w =
    let first = if breach r then raise_one (args r) w else (ok 0, w) in
    let split : (if breach r then 1 else 0) + count_where breach rs ≡ count_where breach (r ∷ rs) =
      ground arith in
    subst (λ n. Counts n w (check_meta_rules breach args (r ∷ rs) w)) split
      (Counts-add (if breach r then 1 else 0) (count_where breach rs) w
        (check_meta_rules breach args rs) first (Counts-if (breach r) (args r) w)
        (Counts-rules breach args rs first.1))

Counts-fleet :
    (battery_rules health_rules : List AlertRule) (ds : List Device) (w : World)
    → Counts
        (breaches battery_rules health_rules ds)
        w
        (check_fleet battery_rules health_rules ds w)
unfolding check_fleet
Counts-fleet battery_rules health_rules [] w = Counts-none w
Counts-fleet battery_rules health_rules (d ∷ ds) w =
    let first = check_meta_rules (battery_breach d) (battery_args d) battery_rules w in
    let both = add_count (check_meta_rules (health_breach d) (health_args d) health_rules) first in
    Counts-add
      (count_where (battery_breach d) battery_rules + count_where (health_breach d) health_rules)
      (breaches battery_rules health_rules ds) w (check_fleet battery_rules health_rules ds) both
      (Counts-add (count_where (battery_breach d) battery_rules)
        (count_where (health_breach d) health_rules) w
        (check_meta_rules (health_breach d) (health_args d) health_rules) first
        (Counts-rules (battery_breach d) (battery_args d) battery_rules w)
        (Counts-rules (health_breach d) (health_args d) health_rules first.1))
      (Counts-fleet battery_rules health_rules ds both.1)

-- whether a rule calls for an alert on a device: it is not deleted, active, of the device's
-- organization, and its battery or health level breaches it; the device that the rule names is not
-- asked
abbrev pub calls_for : Device → AlertRule → Bool
calls_for d r =
    is_none r.base.deleted_at
    && (r.is_active
        && (r.organization_id == d.organization_id && (elim r.source [
          | Source.battery ↦ matches r d.battery_level
          | Source.health ↦ matches r (some d.health_score)
          | _ ↦ false
        ])))

-- the pairs of a rule and a device in service
abbrev pub calling_pairs : List AlertRule → List Device → ℕ
calling_pairs rules [] = 0
calling_pairs rules (d ∷ ds) =
    let rest = calling_pairs rules ds in
    if in_service d then count_where (calls_for d) rules + rest else rest

-- a level that is absent matches no rule
matches-level :
    (r : AlertRule) (level : Option Float) → (is_some level && matches r level) ≡ matches r level
unfolding matches
matches-level r none = refl
matches-level r (some x) = refl

-- one rule, by its source
calls_at :
    (d : Device) (r : AlertRule) (rs : List AlertRule) (source : Source)
    → r.source ≡ source
    → count_where (battery_breach d) (active_rules is_battery_source (r ∷ rs))
        + count_where (health_breach d) (active_rules is_health_source (r ∷ rs))
      ≡ (if calls_for d r then 1 else 0)
        + (count_where (battery_breach d) (active_rules is_battery_source rs)
            + count_where (health_breach d) (active_rules is_health_source rs))
calls_at d r rs Source.sensor e = ground (arith, e, matches-level r d.battery_level)
calls_at d r rs Source.battery e = ground (arith, e, matches-level r d.battery_level)
calls_at d r rs Source.health e = ground (arith, e, matches-level r d.battery_level)
calls_at d r rs Source.offline e = ground (arith, e, matches-level r d.battery_level)

calls_rules :
    (d : Device) (rules : List AlertRule)
    → count_where (battery_breach d) (active_rules is_battery_source rules)
        + count_where (health_breach d) (active_rules is_health_source rules)
      ≡ count_where (calls_for d) rules
calls_rules d [] = omega arith
calls_rules d (r ∷ rs) = ground (arith, calls_at d r rs r.source refl, calls_rules d rs)

breaches-calling_pairs :
    (rules : List AlertRule) (ds : List Device)
    → breaches
        (active_rules is_battery_source rules)
        (active_rules is_health_source rules)
        (select in_service ds)
      ≡ calling_pairs rules ds
breaches-calling_pairs rules [] = refl
breaches-calling_pairs rules (d ∷ ds) = elim (Bool-cases (in_service d)) [
  | inl serves ↦ rw serves (
      ap
        (λ n.
          n
          + breaches (active_rules is_battery_source rules) (active_rules is_health_source rules)
              (select in_service ds))
        (calls_rules d rules)
      ∙ ap (λ n. count_where (calls_for d) rules + n) (breaches-calling_pairs rules ds))
  | inr retired ↦ rw retired (breaches-calling_pairs rules ds)
]

pub evaluate_threshold_alerts_lem :
    (w : World)
    → OpenUnique w.alerts
    → ((evaluate_threshold_alerts w).0 ≡ ok (calling_pairs w.rules w.devices))
      × OpenUnique (evaluate_threshold_alerts w).1.alerts
      × SameTables w (evaluate_threshold_alerts w).1
unfolding evaluate_threshold_alerts
evaluate_threshold_alerts_lem w u =
    let all =
      Counts-fleet (active_rules is_battery_source w.rules) (active_rules is_health_source w.rules)
        (select in_service w.devices) w in
    let (n, clean) = all.total u in
    (n ∙ ap ok (breaches-calling_pairs w.rules w.devices), clean, all.tables)
