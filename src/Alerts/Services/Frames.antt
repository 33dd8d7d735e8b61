-- ===== src/Alerts/Services/Frames.antt =====
-- What `emit`, `raise_alert` and the evaluation of rules leave alone.
use robotics_io_t_smart_auto.Base.{
  ◌+◌, String, ◌≡◌, refl, Option, List, [], ◌∷◌, ◌++◌, arith, ◌==◌, select, update_where,
}
use robotics_io_t_smart_auto.Accounts.Models.{User}
use robotics_io_t_smart_auto.Alerts.Models.{AlertRule, Alert, NotificationChannel}
use robotics_io_t_smart_auto.Alerts.Services.Notify.{
  broadcast_alert, is_recipient, notification_row, create_notifications, broadcast_notifications,
  deliver_to, fan_out, targets_of, save_columns, notified_at, emit,
}
use robotics_io_t_smart_auto.Alerts.Services.Raise.{
  RaiseArgs, with_value, refreshed, refresh, announce,
}
use robotics_io_t_smart_auto.Core.Realtime.{broadcast}
use robotics_io_t_smart_auto.Frame.{
  SameTables, Quiet, SameTables-trans, Quiet-refl, Quiet-trans, broadcast-Quiet, record_audit-Quiet,
}
use robotics_io_t_smart_auto.World.{World}

pub broadcast_alert-Quiet : (a : Alert) (e : String) (w : World) → Quiet w (broadcast_alert a e w)
unfolding broadcast_alert broadcast
broadcast_alert-Quiet a e w = ground arith

pub create_notifications-Quiet :
    (a : Alert) (us : List User) (w : World) → Quiet w (create_notifications a us w)
unfolding create_notifications
create_notifications-Quiet a [] w = Quiet-refl w
create_notifications-Quiet a (u ∷ us) w =
    let added = record w {
      notifications = w.notifications ++ notification_row w.next_id w.now a u ∷ [];
      next_id = w.next_id + 1;
    } in
    Quiet-trans {v = added} (ground arith) (create_notifications-Quiet a us added)

pub broadcast_notifications-Quiet :
    (a : Alert) (us : List User) (w : World) → Quiet w (broadcast_notifications a us w)
unfolding broadcast_notifications
broadcast_notifications-Quiet a [] w = Quiet-refl w
broadcast_notifications-Quiet a (u ∷ us) w =
    Quiet-trans (broadcast-Quiet _ _ _ w) (broadcast_notifications-Quiet a us _)

pub deliver_to-Quiet :
    (a : Alert) (c : NotificationChannel) (w : World) → Quiet w (deliver_to a c w)
unfolding deliver_to
deliver_to-Quiet a c w =
    let recipients = select (is_recipient a.organization_id) w.users in
    ground (
      arith,
      create_notifications-Quiet a recipients w,
      broadcast_notifications-Quiet a recipients (create_notifications a recipients w),
    )

pub fan_out-Quiet :
    (a : Alert) (cs : List NotificationChannel) (w : World) → Quiet w (fan_out a cs w)
unfolding fan_out
fan_out-Quiet a [] w = Quiet-refl w
fan_out-Quiet a (c ∷ cs) w = Quiet-trans (deliver_to-Quiet a c w) (fan_out-Quiet a cs _)

abbrev marked : Alert → World → World
marked a w = save_columns a.id (notified_at w.now) w

-- `emit` stamps the row of the alert; all else that it does is sending.
emit-Quiet :
    (a : Alert) (rule : Option AlertRule) (cs : List NotificationChannel) (w : World)
    → Quiet (marked a w) (emit a rule cs w).1
unfolding emit
emit-Quiet a rule cs w =
    let notified = notified_at w.now a in
    let shown = broadcast_alert notified "alert.raised" (marked a w) in
    Quiet-trans (broadcast_alert-Quiet notified "alert.raised" (marked a w)) (
      Quiet-trans (fan_out-Quiet notified (targets_of notified rule cs shown) shown)
        (record_audit-Quiet _ _))

module _ (a : Alert) (rule : Option AlertRule) (cs : List NotificationChannel) (w : World) where
  pub emit-SameTables : SameTables w (emit a rule cs w).1
  emit-SameTables = SameTables-trans {v = marked a w} (ground arith) (emit-Quiet a rule cs w).tables

  pub alerts-emit :
      (emit a rule cs w).1.alerts ≡ update_where (λ b. b.id == a.id) (notified_at w.now) w.alerts
  alerts-emit = (emit-Quiet a rule cs w).alerts

  pub alert-emit : (emit a rule cs w).0 ≡ notified_at w.now a
  unfolding emit
  alert-emit = refl

pub announce-SameTables :
    (args : RaiseArgs) (a : Alert) (w : World) → SameTables w (announce args a w).1
unfolding announce
announce-SameTables args a w = emit-SameTables a args.rule args.channels w

pub refresh-SameTables :
    (args : RaiseArgs) (a : Alert) (w : World) → SameTables w (refresh args a w).1
unfolding refresh
refresh-SameTables args a w =
    let fresh = refreshed args w.now a in
    let saved = save_columns a.id (with_value args.value fresh.message w.now) w in
    ground (arith, emit-SameTables fresh args.rule args.channels saved)
