-- ===== src/Alerts/Services/Fresh.antt =====
-- The keys that the fan-out and `raise_alert` of apps/alerts/services.py hand out.
use robotics_io_t_smart_auto.Base.{
  ◌+◌, ◌≤◌, String, ◌≡◌, refl, Option, List, [], ◌∷◌, ◌++◌, arith, select,
}
use robotics_io_t_smart_auto.Accounts.Models.{User}
use robotics_io_t_smart_auto.Alerts.Models.{AlertRule, Alert, NotificationChannel}
use robotics_io_t_smart_auto.Alerts.Services.Notify.{
  broadcast_alert, is_recipient, notification_row, create_notifications, broadcast_notifications,
  deliver_to, fan_out, targets_of, save_columns, notified_at, emit,
}
use robotics_io_t_smart_auto.Alerts.Services.Raise.{
  RaiseArgs, with_value, refreshed, refresh, announce,
}
use robotics_io_t_smart_auto.Core.Realtime.{broadcast}
use robotics_io_t_smart_auto.Core.Services.{record_audit}
use robotics_io_t_smart_auto.World.{Group, Payload, World}

pub broadcast_alert-next_id :
    (a : Alert) (e : String) (w : World) → (broadcast_alert a e w).next_id ≡ w.next_id
unfolding broadcast_alert broadcast
broadcast_alert-next_id a e w = ground arith

create_notifications-next_id :
    (a : Alert) (us : List User) (w : World) → w.next_id ≤ (create_notifications a us w).next_id
unfolding create_notifications
create_notifications-next_id a [] w = omega arith
create_notifications-next_id a (u ∷ us) w =
    let added = record w {
      notifications = w.notifications ++ notification_row w.next_id w.now a u ∷ [];
      next_id = w.next_id + 1;
    } in
    omega (arith, create_notifications-next_id a us added)

broadcast_notifications-next_id :
    (a : Alert) (us : List User) (w : World) → (broadcast_notifications a us w).next_id ≡ w.next_id
unfolding broadcast_notifications broadcast
broadcast_notifications-next_id a [] w = refl
broadcast_notifications-next_id a (u ∷ us) w =
    let shown =
      broadcast (Group.user_group u.id) "notification"
        (Payload.notification a.id a.title a.severity) w in
    ground (arith, broadcast_notifications-next_id a us shown)

deliver_to-next_id :
    (a : Alert) (c : NotificationChannel) (w : World) → w.next_id ≤ (deliver_to a c w).next_id
unfolding deliver_to
deliver_to-next_id a c w =
    let recipients = select (is_recipient a.organization_id) w.users in
    ground (
      arith,
      create_notifications-next_id a recipients w,
      broadcast_notifications-next_id a recipients (create_notifications a recipients w),
    )

fan_out-next_id :
    (a : Alert) (cs : List NotificationChannel) (w : World) → w.next_id ≤ (fan_out a cs w).next_id
unfolding fan_out
fan_out-next_id a [] w = omega arith
fan_out-next_id a (c ∷ cs) w =
    omega (arith, deliver_to-next_id a c w, fan_out-next_id a cs (deliver_to a c w))

pub emit-next_id :
    (a : Alert) (rule : Option AlertRule) (cs : List NotificationChannel) (w : World)
    → w.next_id ≤ (emit a rule cs w).1.next_id
unfolding emit record_audit
emit-next_id a rule cs w =
    let notified = notified_at w.now a in
    let saved = save_columns a.id (notified_at w.now) w in
    let shown = broadcast_alert notified "alert.raised" saved in
    omega (
      arith,
      broadcast_alert-next_id notified "alert.raised" saved,
      fan_out-next_id notified (targets_of notified rule cs shown) shown,
    )

pub announce-next_id :
    (args : RaiseArgs) (a : Alert) (w : World) → w.next_id ≤ (announce args a w).1.next_id
unfolding announce
announce-next_id args a w = emit-next_id a args.rule args.channels w

pub refresh-next_id :
    (args : RaiseArgs) (a : Alert) (w : World) → w.next_id ≤ (refresh args a w).1.next_id
unfolding refresh
refresh-next_id args a w =
    let fresh = refreshed args w.now a in
    let saved = save_columns a.id (with_value args.value fresh.message w.now) w in
    ground (arith, emit-next_id fresh args.rule args.channels saved)
