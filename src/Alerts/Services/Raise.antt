-- ===== src/Alerts/Services/Raise.antt =====
-- `raise_alert` and `raise_device_offline_alert` of apps/alerts/services.py.
use robotics_io_t_smart_auto.Base.{
  ℕ, ◌+◌, String, Bool, true, false, ◌&&◌, ◌||◌, Option, none, some, List, [], ◌∷◌, ◌++◌, str_eq,
  leb, ◌==◌, if◌then◌else◌, refers_to, same_ref, is_some, is_none, or_else, get_or, seconds, concat,
  select, first?, exists_where, Float, multiple_objects, integrity_error, Outcome, ok, fail,
}
use robotics_io_t_smart_auto.Alerts.Models.{
  Severity, Source, AlertRule, AlertStatus, is_opened, Alert, NotificationChannel,
}
use robotics_io_t_smart_auto.Alerts.Services.Notify.{is_alive, save_columns, emit}
use robotics_io_t_smart_auto.Core.Json.{Json, Fields}
use robotics_io_t_smart_auto.Core.Models.{new_base, touch}
use robotics_io_t_smart_auto.Devices.Models.{Device}
use robotics_io_t_smart_auto.World.{World}

-- The named arguments of `raise_alert`.
pub record RaiseArgs : Type 0 where
  pub rule : Option AlertRule
  pub device : Option Device
  pub sensor : Option ℕ
  pub value : Option Float
  pub title : String
  pub message : String
  pub severity : Option Severity
  pub organization : Option ℕ
  pub channels : List NotificationChannel

abbrev pub rule_key : Option AlertRule → Option ℕ
rule_key none = none
rule_key (some r) = some r.id

abbrev pub device_key : Option Device → Option ℕ
device_key none = none
device_key (some d) = some d.id

abbrev pub device_org : Option Device → Option ℕ
device_org none = none
device_org (some d) = some d.organization_id

-- (organization.id if organization else None) or (device.organization_id if device else None)
abbrev pub org_id_of : RaiseArgs → Option ℕ
org_id_of args = or_else args.organization (device_org args.device)

-- severity or (rule.severity if rule else Severity.WARNING)
abbrev pub severity_of : RaiseArgs → Severity
severity_of args =
    get_or args.severity (elim args.rule [ none ↦ Severity.warning | some r ↦ r.severity ])

-- rule=rule, device=device, status=OPEN
abbrev pub holds_slot : Option ℕ → Option ℕ → Alert → Bool
holds_slot rule device a =
    same_ref a.rule_id rule && same_ref a.device_id device && is_opened a.status

-- the same among the rows that `Alert.objects` shows
abbrev pub is_open_for : Option ℕ → Option ℕ → Alert → Bool
is_open_for rule device a = is_alive a.base && holds_slot rule device a

-- The constraint uq_open_alert_per_rule_device: it looks at every row, deleted ones included, and
-- NULL columns never collide.
unfoldable pub violates_unique : Option ℕ → Option ℕ → List Alert → Bool
violates_unique rule device alerts =
    is_some rule && is_some device && exists_where (holds_slot rule device) alerts

-- the row that `get_or_create` inserts; every caller gives an organization or a device, so that
-- organization_id is not NULL
abbrev pub alert_row : RaiseArgs → World → Alert
alert_row args w = record {
  base = new_base w.next_id w.now;
  organization_id = org_id_of args;
  rule_id = rule_key args.rule;
  device_id = device_key args.device;
  sensor_id = args.sensor;
  severity = severity_of args;
  status = AlertStatus.opened;
  title = args.title;
  message = args.message;
  value = args.value;
  context = Json.obj Fields.end;
  acknowledged_by = none;
  acknowledged_at = none;
  resolved_at = none;
  last_notified_at = none;
}

-- Alert.objects.get_or_create(...): what `get` finds decides. After an IntegrityError of the
-- insertion it looks once more and raises the error if there is still no row.
unfoldable pub create_alert : RaiseArgs → World → Outcome (Alert × Bool) × World
unfolding violates_unique
create_alert args w =
    if violates_unique (rule_key args.rule) (device_key args.device) w.alerts
    then (fail integrity_error, w)
    else (
      ok (alert_row args w, true),
      record w { alerts = w.alerts ++ alert_row args w ∷ []; next_id = w.next_id + 1 },
    )

pick : List Alert → RaiseArgs → World → Outcome (Alert × Bool) × World
pick [] args w = create_alert args w
pick (a ∷ []) args w = (ok (a, false), w)
pick (a ∷ b ∷ rest) args w = (fail multiple_objects, w)

unfoldable pub get_or_create : RaiseArgs → World → Outcome (Alert × Bool) × World
unfolding create_alert pick
get_or_create args w =
    pick (select (is_open_for (rule_key args.rule) (device_key args.device)) w.alerts) args w

-- _cooldown_elapsed
unfoldable pub cooldown_elapsed : ℕ → Alert → Option AlertRule → Bool
cooldown_elapsed now alert none = true
cooldown_elapsed now alert (some rule) = elim alert.last_notified_at [
  | none ↦ true
  | some t ↦ leb (t + seconds rule.cooldown_seconds) now
]

-- message or alert.message
abbrev pub message_or : String → String → String
message_or message old = if str_eq message "" then old else message

-- the columns value, message and updated_at
abbrev pub with_value : Option Float → String → ℕ → Alert → Alert
with_value value message now a = record a {
  base = touch now a.base;
  value = value;
  message = message;
}

-- the refreshed alert: the live value, and the message unless it is empty
abbrev pub refreshed : RaiseArgs → ℕ → Alert → Alert
refreshed args now a = with_value args.value (message_or args.message a.message) now a

-- the part of raise_alert behind get_or_create
unfoldable pub refresh : RaiseArgs → Alert → World → Option Alert × World
refresh args a w =
    let fresh = refreshed args w.now a in
    let saved = save_columns a.id (with_value args.value fresh.message w.now) w in
    if cooldown_elapsed w.now fresh args.rule
    then (let (b, w') = emit fresh args.rule args.channels saved in (some b, w'))
    else (some fresh, saved)

unfoldable pub announce : RaiseArgs → Alert → World → Option Alert × World
announce args a w = let (b, w') = emit a args.rule args.channels w in (some b, w')

-- the lookup after an IntegrityError
unfoldable pub again : RaiseArgs → Option Alert → World → Outcome (Option Alert) × World
again args none w = (ok none, w)
again args (some a) w = let (b, w') = refresh args a w in (ok b, w')

after : RaiseArgs → Outcome (Alert × Bool) → World → Outcome (Option Alert) × World
unfolding again
after args (ok (a, true)) w = let (b, w') = announce args a w in (ok b, w')
after args (ok (a, false)) w = let (b, w') = refresh args a w in (ok b, w')
after args (fail integrity_error) w =
    again args (first? (is_open_for (rule_key args.rule) (device_key args.device)) w.alerts) w
after args (fail e) w = (fail e, w)

-- raise_alert. `MultipleObjectsReturned` is not caught.
unfoldable pub raise_alert : RaiseArgs → World → Outcome (Option Alert) × World
unfolding get_or_create after
raise_alert args w = let (r, w') = get_or_create args w in after args r w'

-- AlertRule.objects.filter(organization, source=OFFLINE, is_active).filter(_device_q(device)).first()
abbrev pub is_offline_source : Source → Bool
is_offline_source Source.offline = true
is_offline_source _ = false

-- _device_q
abbrev pub device_q : Device → AlertRule → Bool
device_q device rule = refers_to rule.device_id device.id || is_none rule.device_id

unfoldable pub offline_rule : Device → List AlertRule → Option AlertRule
offline_rule device rules =
    first?
      (λ r.
        is_alive r.base
        && r.organization_id == device.organization_id
        && is_offline_source r.source
        && r.is_active
        && device_q device r)
      rules

abbrev pub offline_args : Device → Option AlertRule → RaiseArgs
offline_args device rule = record {
  rule = rule;
  device = some device;
  sensor = none;
  value = none;
  title = concat (device.name ∷ " is offline" ∷ []);
  message = concat ("Device " ∷ device.serial ∷ " missed its heartbeat window." ∷ []);
  severity = some (elim rule [ none ↦ Severity.critical | some r ↦ r.severity ]);
  organization = some device.organization_id;
  channels = [];
}

-- raise_device_offline_alert
unfoldable pub raise_device_offline_alert : Device → World → Outcome (Option Alert) × World
unfolding offline_rule
raise_device_offline_alert device w =
    raise_alert (offline_args device (offline_rule device w.rules)) w
