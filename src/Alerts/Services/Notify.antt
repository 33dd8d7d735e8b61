-- ===== src/Alerts/Services/Notify.antt =====
-- The fan-out of apps/alerts/services.py: `_broadcast_alert`, `_fan_out` and `_emit`.
use robotics_io_t_smart_auto.Base.{
  ℕ, ◌+◌, String, Bool, false, not, ◌&&◌, Option, none, some, List, [], ◌∷◌, ◌++◌, ltb, ◌==◌,
  if◌then◌else◌, refers_to, same_ref, is_none, concat, select, exists_where, update_where,
}
use robotics_io_t_smart_auto.Accounts.Models.{User}
use robotics_io_t_smart_auto.Alerts.Models.{
  Severity, severity_value, AlertRule, Alert, is_in_app, NotificationChannel, Notification,
}
use robotics_io_t_smart_auto.Core.Models.{BaseModel, new_base, touch, Action}
use robotics_io_t_smart_auto.Core.Realtime.{broadcast}
use robotics_io_t_smart_auto.Core.Services.{entry, record_audit}
use robotics_io_t_smart_auto.World.{Group, Payload, World}

-- _broadcast_alert: to the shared alert group, and to the organization's group if there is one
unfoldable pub broadcast_alert : Alert → String → World → World
broadcast_alert alert event w =
    let payload =
      Payload.alert_state alert.id alert.title alert.severity alert.status alert.device_id
        alert.value alert.created_at in
    let shared = broadcast Group.alerts_group event payload w in
    elim alert.organization_id [
      | none ↦ shared
      | some org ↦ broadcast (Group.org_group org) event payload shared
    ]

-- the table `severity_rank` of _fan_out
abbrev pub severity_rank : Severity → ℕ
severity_rank Severity.info = 0
severity_rank Severity.warning = 1
severity_rank Severity.critical = 2
severity_rank Severity.emergency = 3

-- the recipients of an in-app notification: active members that are no service accounts
abbrev pub is_recipient : Option ℕ → User → Bool
is_recipient org user =
    same_ref user.organization_id org && user.is_active && not user.is_service_account

-- the row that `bulk_create` writes for one recipient
abbrev pub notification_row : ℕ → ℕ → Alert → User → Notification
notification_row id now alert user = record {
  base = new_base id now;
  recipient_id = user.id;
  alert_id = some alert.id;
  severity = alert.severity;
  title = alert.title;
  body = alert.message;
  is_read = false;
  read_at = none;
}

-- Notification.objects.bulk_create([... for u in recipients])
unfoldable pub create_notifications : Alert → List User → World → World
create_notifications alert [] w = w
create_notifications alert (u ∷ us) w = create_notifications alert us (record w {
  notifications = w.notifications ++ notification_row w.next_id w.now alert u ∷ [];
  next_id = w.next_id + 1;
})

-- for u in recipients: broadcast(f"user.{u.id}", "notification", ...)
unfoldable pub broadcast_notifications : Alert → List User → World → World
broadcast_notifications alert [] w = w
broadcast_notifications alert (u ∷ us) w = broadcast_notifications alert us (
    broadcast (Group.user_group u.id) "notification"
      (Payload.notification alert.id alert.title alert.severity) w)

-- one round of the loop of _fan_out
unfoldable pub deliver_to : Alert → NotificationChannel → World → World
deliver_to alert channel w =
    if ltb (severity_rank alert.severity) (severity_rank channel.min_severity)
    then w
    else if is_in_app channel.kind
    then (let recipients = select (is_recipient alert.organization_id) w.users in
        broadcast_notifications alert recipients (create_notifications alert recipients w))
    else record w { deliveries = w.deliveries ++ (alert.id, channel.id) ∷ [] }

-- _fan_out
unfoldable pub fan_out : Alert → List NotificationChannel → World → World
fan_out alert [] w = w
fan_out alert (c ∷ cs) w = fan_out alert cs (deliver_to alert c w)

abbrev pub is_alive : BaseModel → Bool
is_alive b = is_none b.deleted_at

-- rule.notify_channels.all()
abbrev pub is_listed : List ℕ → ℕ → Bool
is_listed ids i = exists_where (λ j. j == i) ids

abbrev pub rule_channels : Option AlertRule → World → List NotificationChannel
rule_channels none w = []
rule_channels (some rule) w =
    select (λ c. is_alive c.base && is_listed rule.notify_channels c.id) w.channels

-- the active in-app channels of an organization
abbrev pub is_default_channel : Option ℕ → NotificationChannel → Bool
is_default_channel org c =
    is_alive c.base && refers_to org c.organization_id && is_in_app c.kind && c.is_active

-- the targets that _emit chooses: given channels, else the rule's, else the organization's default
abbrev pub targets_of :
    Alert → Option AlertRule → List NotificationChannel → World → List NotificationChannel
targets_of alert rule (c ∷ cs) w = c ∷ cs
targets_of alert rule [] w = elim (rule_channels rule w) [
  | [] ↦ select (is_default_channel alert.organization_id) w.channels
  | d ∷ ds ↦ d ∷ ds
]

abbrev pub raised_summary : Alert → String
raised_summary alert =
    concat ("Raised [" ∷ severity_value alert.severity ∷ "]: " ∷ alert.title ∷ [])

-- alert.save(update_fields=[...]): the named columns of the row with this key are written.
abbrev pub save_columns : ℕ → (Alert → Alert) → World → World
save_columns id columns w = record w { alerts = update_where (λ a. a.id == id) columns w.alerts }

-- the columns last_notified_at and updated_at
abbrev pub notified_at : ℕ → Alert → Alert
notified_at now a = record a { base = touch now a.base; last_notified_at = some now }

-- _emit
unfoldable pub emit : Alert → Option AlertRule → List NotificationChannel → World → Alert × World
emit alert rule channels w =
    let notified = notified_at w.now alert in
    let saved = save_columns alert.id (notified_at w.now) w in
    let shown = broadcast_alert notified "alert.raised" saved in
    let sent = fan_out notified (targets_of notified rule channels shown) shown in
    (
      notified,
      record_audit (entry Action.alert "alert" (some alert.id) (raised_summary notified)) sent,
    )
