-- ===== src/Alerts/Services/Lifecycle.antt =====
-- `acknowledge_alert`, `resolve_alert` and `_auto_resolve` of apps/alerts/services.py.
use robotics_io_t_smart_auto.Base.{ℕ, Option, some, [], ◌∷◌, concat, update_where}
use robotics_io_t_smart_auto.Alerts.Models.{AlertRule, AlertStatus, Alert}
use robotics_io_t_smart_auto.Alerts.Services.Notify.{broadcast_alert, save_columns}
use robotics_io_t_smart_auto.Alerts.Services.Raise.{is_open_for}
use robotics_io_t_smart_auto.Core.Models.{touch, Action}
use robotics_io_t_smart_auto.Core.Services.{entry, record_audit}
use robotics_io_t_smart_auto.Devices.Models.{Device}
use robotics_io_t_smart_auto.World.{World}

-- the columns that `acknowledge_alert` writes
abbrev pub acknowledged_by_user : ℕ → ℕ → Alert → Alert
acknowledged_by_user user now a = record a {
  base = touch now a.base;
  status = AlertStatus.acknowledged;
  acknowledged_by = some user;
  acknowledged_at = some now;
}

-- acknowledge_alert
unfoldable pub acknowledge_alert : Alert → ℕ → World → Alert × World
acknowledge_alert alert user w =
    let acked = acknowledged_by_user user w.now alert in
    let saved = save_columns alert.id (acknowledged_by_user user w.now) w in
    let shown = broadcast_alert acked "alert.updated" saved in
    let note =
      entry Action.alert "alert" (some alert.id) (concat ("Acknowledged: " ∷ alert.title ∷ [])) in
    (acked, record_audit (record note { actor = some user }) shown)

-- the columns that `resolve_alert` writes
abbrev pub resolved_now : ℕ → Alert → Alert
resolved_now now a = record a {
  base = touch now a.base;
  status = AlertStatus.resolved;
  resolved_at = some now;
}

-- resolve_alert
unfoldable pub resolve_alert : Alert → Option ℕ → World → Alert × World
resolve_alert alert user w =
    let done = resolved_now w.now alert in
    let saved = save_columns alert.id (resolved_now w.now) w in
    let shown = broadcast_alert done "alert.resolved" saved in
    let note =
      entry Action.alert "alert" (some alert.id) (concat ("Resolved: " ∷ alert.title ∷ [])) in
    (done, record_audit (record note { actor = user }) shown)

-- the columns that `_auto_resolve` updates
abbrev pub auto_resolved : ℕ → Alert → Alert
auto_resolved now a = record a { status = AlertStatus.resolved; resolved_at = some now }

-- _auto_resolve: a bulk update, without a broadcast and without an audit entry
unfoldable pub auto_resolve : AlertRule → Device → World → World
auto_resolve rule device w = record w {
  alerts =
      update_where (is_open_for (some rule.id) (some device.id)) (auto_resolved w.now) w.alerts;
}
