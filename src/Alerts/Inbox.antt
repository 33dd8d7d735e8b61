-- ===== src/Alerts/Inbox.antt =====
-- The notification inbox and the alert summary.
use robotics_io_t_smart_auto.Base.{
  ℕ, ◌+◌, ◌≡◌, refl, not, ◌&&◌, Option, List, [], ◌∷◌, arith, ◌==◌, select, count_where,
  update_where,
}
use robotics_io_t_smart_auto.Accounts.Models.{User}
use robotics_io_t_smart_auto.Alerts.Models.{Severity, is_opened, Alert, Notification}
use robotics_io_t_smart_auto.Alerts.Services.Notify.{severity_rank}
use robotics_io_t_smart_auto.Alerts.Views.{
  visible_alerts, open_total, by_severity, is_inbox_of, unread_count, marked_read, read_all,
}
use robotics_io_t_smart_auto.World.{World}

read_all_left :
    (user : User) (now : ℕ) (ns : List Notification)
    → count_where
        (λ n. is_inbox_of user n && not n.is_read)
        (update_where (λ n. is_inbox_of user n && not n.is_read) (marked_read now) ns)
      ≡ 0
read_all_left user now [] = refl
read_all_left user now (n ∷ ns) = ground (arith, read_all_left user now ns)

read_all_others :
    (user : User) (now : ℕ) (ns : List Notification)
    → select
        (λ n. not (is_inbox_of user n))
        (update_where (λ n. is_inbox_of user n && not n.is_read) (marked_read now) ns)
      ≡ select (λ n. not (is_inbox_of user n)) ns
read_all_others user now [] = refl
read_all_others user now (n ∷ ns) = ground (arith, read_all_others user now ns)

-- After `read_all` the caller has no unread notification, the call reports how many there were,
-- and the notifications outside the caller's inbox are as they were.
pub read_all_lem :
    (user : User) (w : World)
    → (unread_count user (read_all user w).1 ≡ 0)
      × ((read_all user w).0 ≡ unread_count user w)
      × (select (λ n. not (is_inbox_of user n)) (read_all user w).1.notifications
          ≡ select (λ n. not (is_inbox_of user n)) w.notifications)
unfolding read_all unread_count
read_all_lem user w =
    (read_all_left user w.now w.notifications, refl, read_all_others user w.now w.notifications)

severity_split :
    (alerts : List Alert)
    → count_where (λ a. is_opened a.status) alerts
      ≡ count_where (λ a. is_opened a.status && severity_rank a.severity == 0) alerts
        + count_where (λ a. is_opened a.status && severity_rank a.severity == 1) alerts
        + count_where (λ a. is_opened a.status && severity_rank a.severity == 2) alerts
        + count_where (λ a. is_opened a.status && severity_rank a.severity == 3) alerts
severity_split [] = refl
severity_split (a ∷ as') = ground (arith, severity_split as')

-- The summary adds up: the open alerts that a caller sees are those of the four severities.
open_total-by_severity :
    (user : Option User) (w : World)
    → open_total user w
      ≡ by_severity user Severity.info w
        + by_severity user Severity.warning w
        + by_severity user Severity.critical w
        + by_severity user Severity.emergency w
unfolding open_total by_severity
open_total-by_severity user w = severity_split (visible_alerts user w)
