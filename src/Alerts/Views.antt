-- ===== src/Alerts/Views.antt =====
-- apps/alerts/views.py: the alert lists, the two alert actions, and the notification inbox.
use robotics_io_t_smart_auto.Base.{
  ℕ, Bool, true, not, ◌&&◌, Option, none, some, List, ltb, ◌==◌, take, select, first?, count_where,
  update_where, sort_by, not_found, Outcome, ok, fail,
}
use robotics_io_t_smart_auto.Accounts.Models.{User}
use robotics_io_t_smart_auto.Alerts.Models.{Severity, is_opened, is_resolved, Alert, Notification}
use robotics_io_t_smart_auto.Alerts.Services.Lifecycle.{acknowledge_alert, resolve_alert}
use robotics_io_t_smart_auto.Alerts.Services.Notify.{severity_rank, is_alive}
use robotics_io_t_smart_auto.Core.Scope.{scope}
use robotics_io_t_smart_auto.World.{World}

-- AlertViewSet.get_queryset
unfoldable pub visible_alerts : Option User → World → List Alert
visible_alerts user w = scope (λ a. a.organization_id) user (select (λ a. is_alive a.base) w.alerts)

-- AlertViewSet.active, the newest first
unfoldable pub active : Option User → World → List Alert
unfolding visible_alerts
active user w = take 200 (
    sort_by (λ a b. ltb b.created_at a.created_at)
      (select (λ a. not (is_resolved a.status)) (visible_alerts user w)))

-- AlertViewSet.summary: the number of open alerts, and that of one severity
unfoldable pub open_total : Option User → World → ℕ
unfolding visible_alerts
open_total user w = count_where (λ a. is_opened a.status) (visible_alerts user w)

unfoldable pub by_severity : Option User → Severity → World → ℕ
unfolding visible_alerts
by_severity user severity w =
    count_where (λ a. is_opened a.status && severity_rank a.severity == severity_rank severity)
      (visible_alerts user w)

-- AlertViewSet.acknowledge
unfoldable pub acknowledge : User → ℕ → World → Outcome Alert × World
unfolding visible_alerts
acknowledge user pk w = elim (first? (λ a. a.id == pk) (visible_alerts (some user) w)) [
  | none ↦ (fail not_found, w)
  | some a ↦ let (b, w') = acknowledge_alert a user.id w in (ok b, w')
]

-- AlertViewSet.resolve
unfoldable pub resolve : User → ℕ → World → Outcome Alert × World
unfolding visible_alerts
resolve user pk w = elim (first? (λ a. a.id == pk) (visible_alerts (some user) w)) [
  | none ↦ (fail not_found, w)
  | some a ↦ let (b, w') = resolve_alert a (some user.id) w in (ok b, w')
]

-- NotificationViewSet.get_queryset
abbrev pub is_inbox_of : User → Notification → Bool
is_inbox_of user n = is_alive n.base && n.recipient_id == user.id

-- NotificationViewSet.unread_count
unfoldable pub unread_count : User → World → ℕ
unread_count user w = count_where (λ n. is_inbox_of user n && not n.is_read) w.notifications

abbrev pub marked_read : ℕ → Notification → Notification
marked_read now n = record n { is_read = true; read_at = some now }

-- NotificationViewSet.read
unfoldable pub read : User → ℕ → World → Outcome Notification × World
read user pk w = elim (first? (λ n. is_inbox_of user n && n.id == pk) w.notifications) [
  | none ↦ (fail not_found, w)
  | some n ↦ (
    ok (marked_read w.now n),
    record w {
      notifications = update_where (λ m. m.id == n.id) (marked_read w.now) w.notifications;
    },
  )
]

-- NotificationViewSet.read_all
unfoldable pub read_all : User → World → ℕ × World
read_all user w = (
  count_where (λ n. is_inbox_of user n && not n.is_read) w.notifications,
  record w {
    notifications =
        update_where (λ n. is_inbox_of user n && not n.is_read) (marked_read w.now) w.notifications;
  },
)
