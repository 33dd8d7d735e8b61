-- ===== src/Alerts/Tasks.antt =====
-- apps/alerts/tasks.py: the periodic check of battery and health rules, and the delivery of a
-- notification. What the mail server or the webhook answers is an argument of the delivery.
use robotics_io_t_smart_auto.Base.{
  ℕ, ◌+◌, String, Bool, true, false, ◌&&◌, Option, none, some, List, [], ◌∷◌, ◌==◌, if◌then◌else◌,
  is_some, get_or, show_float, concat, select, first?, Float, Outcome, ok, fail, ◌>>=◌,
}
use robotics_io_t_smart_auto.Alerts.Models.{
  Severity, Source, AlertRule, matches, Alert, Kind, NotificationChannel,
}
use robotics_io_t_smart_auto.Alerts.Services.Notify.{is_alive}
use robotics_io_t_smart_auto.Alerts.Services.Raise.{RaiseArgs, raise_alert}
use robotics_io_t_smart_auto.Core.Json.{Json, Items, get}
use robotics_io_t_smart_auto.Devices.Models.{Device}
use robotics_io_t_smart_auto.Devices.Tasks.{in_service}
use robotics_io_t_smart_auto.World.{World}

abbrev pub is_battery_source : Source → Bool
is_battery_source Source.battery = true
is_battery_source _ = false

abbrev pub is_health_source : Source → Bool
is_health_source Source.health = true
is_health_source _ = false

-- AlertRule.objects.filter(is_active=True, source=...)
abbrev pub active_rules : (Source → Bool) → List AlertRule → List AlertRule
active_rules p rules = select (λ r. is_alive r.base && r.is_active && p r.source) rules

-- the tests of the two inner loops
abbrev pub battery_breach : Device → AlertRule → Bool
battery_breach d r =
    r.organization_id == d.organization_id && is_some d.battery_level && matches r d.battery_level

abbrev pub health_breach : Device → AlertRule → Bool
health_breach d r = r.organization_id == d.organization_id && matches r (some d.health_score)

-- the arguments of the calls of raise_alert
abbrev pub meta_args : Device → Option Float → String → String → AlertRule → RaiseArgs
meta_args d value title message r = record {
  rule = some r;
  device = some d;
  sensor = none;
  value = value;
  title = title;
  message = message;
  severity = none;
  organization = none;
  channels = [];
}

abbrev pub show_level : Option Float → String
show_level none = "None"
show_level (some x) = show_float x

abbrev pub battery_args : Device → AlertRule → RaiseArgs
battery_args d =
    meta_args d d.battery_level (concat (d.name ∷ " low battery" ∷ []))
      (concat ("Battery at " ∷ show_level d.battery_level ∷ "%." ∷ []))

abbrev pub health_args : Device → AlertRule → RaiseArgs
health_args d =
    meta_args d (some d.health_score) (concat (d.name ∷ " health degraded" ∷ []))
      (concat ("Health score " ∷ show_float d.health_score ∷ "." ∷ []))

-- adds what one part of the loop raised to what the rest raises, unless it failed
abbrev pub add_count : (World → Outcome ℕ × World) → Outcome ℕ × World → Outcome ℕ × World
add_count rest (ok n, w) = let (m, w') = rest w in (m >>= (λ k. ok (n + k)), w')
add_count rest (fail e, w) = (fail e, w)

-- raise_alert(...); raised += 1
abbrev pub raise_one : RaiseArgs → World → Outcome ℕ × World
raise_one args w = let (r, w') = raise_alert args w in (r >>= (λ _. ok 1), w')

-- one inner loop
unfoldable pub check_meta_rules :
    (AlertRule → Bool) → (AlertRule → RaiseArgs) → List AlertRule → World → Outcome ℕ × World
check_meta_rules breach args [] w = (ok 0, w)
check_meta_rules breach args (r ∷ rs) w =
    add_count (check_meta_rules breach args rs)
      (if breach r then raise_one (args r) w else (ok 0, w))

-- the loop over the fleet
unfoldable pub check_fleet :
    List AlertRule → List AlertRule → List Device → World → Outcome ℕ × World
unfolding check_meta_rules
check_fleet battery_rules health_rules [] w = (ok 0, w)
check_fleet battery_rules health_rules (d ∷ ds) w =
    add_count (check_fleet battery_rules health_rules ds) (
      add_count (check_meta_rules (health_breach d) (health_args d) health_rules)
        (check_meta_rules (battery_breach d) (battery_args d) battery_rules w))

-- evaluate_threshold_alerts
unfoldable pub evaluate_threshold_alerts : World → Outcome ℕ × World
unfolding check_fleet
evaluate_threshold_alerts w =
    check_fleet (active_rules is_battery_source w.rules) (active_rules is_health_source w.rules)
      (select in_service w.devices) w

-- What a delivery hands to the outside: a mail, or a request to a webhook.
pub data Outgoing : Type 0 where
  mail : (subject message : String) (recipients from_email : Json) → Outgoing
  request :
      (url : Json) (alert_id : ℕ) (title message : String) (severity : Severity)
      (device_id : Option ℕ)
      → Outgoing

-- What deliver_notification ends in.
pub data Delivery : Type 0 where
  skipped : Delivery
  delivered : List Outgoing → Delivery
  retried : Delivery

-- alert.severity.upper()
abbrev pub severity_upper : Severity → String
severity_upper Severity.info = "INFO"
severity_upper Severity.warning = "WARNING"
severity_upper Severity.critical = "CRITICAL"
severity_upper Severity.emergency = "EMERGENCY"

abbrev pub mail_for : Alert → NotificationChannel → Outgoing
mail_for a c =
    Outgoing.mail (concat ("[RoboGrid " ∷ severity_upper a.severity ∷ "] " ∷ a.title ∷ []))
      a.message (get_or (get "recipients" c.config) (Json.arr Items.nil))
      (get_or (get "from_email" c.config) (Json.str "alerts@robogrid.ai"))

-- `accepts` says whether the outside takes it, or raises
unfoldable pub hand_over : (Outgoing → Bool) → Outgoing → Delivery
hand_over accepts m = if accepts m then Delivery.delivered (m ∷ []) else Delivery.retried

-- the `try` block
unfoldable pub deliver : (Outgoing → Bool) → Alert → NotificationChannel → Delivery
unfolding hand_over
deliver accepts a c = elim c.kind [
  | Kind.email ↦ hand_over accepts (mail_for a c)
  | Kind.webhook ↦ elim (get "url" c.config) [
    | none ↦ Delivery.retried
    | some url ↦
        hand_over accepts (Outgoing.request url a.id a.title a.message a.severity a.device_id)
  ]
  | _ ↦ Delivery.delivered []
]

-- deliver_notification
unfoldable pub deliver_notification : (Outgoing → Bool) → ℕ → ℕ → World → Delivery
unfolding deliver
deliver_notification accepts alert_id channel_id w =
    elim (first? (λ a. is_alive a.base && a.id == alert_id) w.alerts) [
      | none ↦ Delivery.skipped
      | some a ↦
          elim (first? (λ c. is_alive c.base && c.id == channel_id && c.is_active) w.channels) [
            | none ↦ Delivery.skipped
            | some c ↦ deliver accepts a c
          ]
    ]
