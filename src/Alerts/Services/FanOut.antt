-- ===== src/Alerts/Services/FanOut.antt =====
-- Who hears of an alert: the channels that `_fan_out` of apps/alerts/services.py writes to.
use robotics_io_t_smart_auto.Base.{
  ℕ, zero, suc, ◌+◌, ◌≡◌, refl, sym, ap, ◌∙◌, inl, inr, Bool, true, false, not, ◌&&◌, Option, some,
  List, [], ◌∷◌, ◌++◌, map, append-nil, append_assoc, arith, ltb, leb, Bool-cases, select,
  count_where,
}
use robotics_io_t_smart_auto.Accounts.Models.{User}
use robotics_io_t_smart_auto.Alerts.Models.{Alert, is_in_app, NotificationChannel, Notification}
use robotics_io_t_smart_auto.Alerts.Services.Frames.{deliver_to-Quiet}
use robotics_io_t_smart_auto.Alerts.Services.Notify.{
  severity_rank, is_recipient, notification_row, create_notifications, broadcast_notifications,
  deliver_to, fan_out,
}
use robotics_io_t_smart_auto.Core.Realtime.{broadcast}
use robotics_io_t_smart_auto.World.{Group, Payload, World}

-- the channel takes alerts of this severity
abbrev pub meets : Alert → NotificationChannel → Bool
meets a c = leb (severity_rank c.min_severity) (severity_rank a.severity)

abbrev pub external : Alert → List NotificationChannel → List NotificationChannel
external a cs = select (λ c. meets a c && not (is_in_app c.kind)) cs

abbrev pub internal : Alert → NotificationChannel → Bool
internal a c = meets a c && is_in_app c.kind

-- whom a notification is for, and about what
abbrev pub addressed : List Notification → List (ℕ × Option ℕ)
addressed ns = map (λ n. (n.recipient_id, n.alert_id)) ns

abbrev pub members : Alert → World → List (ℕ × Option ℕ)
members a w = map (λ u. (u.id, some a.id)) (select (is_recipient a.organization_id) w.users)

-- the list so many times
abbrev pub copies {ℓ} : {A : Type ℓ} → ℕ → List A → List A
copies zero xs = []
copies (suc n) xs = xs ++ copies n xs

addressed-append : (ns ms : List Notification) → addressed (ns ++ ms) ≡ addressed ns ++ addressed ms
addressed-append [] ms = refl
addressed-append (n ∷ ns) ms = ap (λ l. (n.recipient_id, n.alert_id) ∷ l) (addressed-append ns ms)

module _ (a : Alert) where
  created_notes :
      (us : List User) (w : World)
      → addressed (create_notifications a us w).notifications
        ≡ addressed w.notifications ++ map (λ u. (u.id, some a.id)) us
  unfolding create_notifications
  created_notes [] w = sym (append-nil _)
  created_notes (u ∷ us) w =
      let added = record w {
        notifications = w.notifications ++ notification_row w.next_id w.now a u ∷ [];
        next_id = w.next_id + 1;
      } in
      created_notes us added
      ∙ ap (λ l. l ++ map (λ u. (u.id, some a.id)) us) (addressed-append w.notifications _)
      ∙ append_assoc (addressed w.notifications) ((u.id, some a.id) ∷ [])
          (map (λ u. (u.id, some a.id)) us)

  -- what a list of recipients adds to the tables that the fan-out writes
  created_deliveries :
      (us : List User) (w : World) → (create_notifications a us w).deliveries ≡ w.deliveries
  unfolding create_notifications
  created_deliveries [] w = refl
  created_deliveries (u ∷ us) w = created_deliveries us _

  shown_notes :
      (us : List User) (w : World)
      → ((broadcast_notifications a us w).notifications ≡ w.notifications)
        × ((broadcast_notifications a us w).deliveries ≡ w.deliveries)
  unfolding broadcast_notifications broadcast
  shown_notes [] w = (refl, refl)
  shown_notes (u ∷ us) w =
      let shown =
        broadcast (Group.user_group u.id) "notification"
          (Payload.notification a.id a.title a.severity) w in
      ground (arith, shown_notes us shown)

  abbrev delivery_rows : List NotificationChannel → List (ℕ × ℕ)
  delivery_rows cs = map (λ c. (a.id, c.id)) (external a cs)

  delivered_one :
      (c : NotificationChannel) (w : World)
      → ((deliver_to a c w).deliveries ≡ w.deliveries ++ delivery_rows (c ∷ []))
        × (addressed (deliver_to a c w).notifications
            ≡ addressed w.notifications ++ copies (count_where (internal a) (c ∷ [])) (members a w))
  unfolding deliver_to
  delivered_one c w = elim (Bool-cases (meets a c)) [
    | inl high ↦
        let above : ltb (severity_rank a.severity) (severity_rank c.min_severity) ≡ false =
          ground arith in
        elim (Bool-cases (is_in_app c.kind)) [
          | inl inner ↦
              let us = select (is_recipient a.organization_id) w.users in
              let shown = shown_notes us (create_notifications a us w) in
              rw (above, high, inner)
                (
                  shown.1 ∙ created_deliveries us w ∙ sym (append-nil _),
                  ap addressed shown.0
                      ∙ created_notes us w
                      ∙ ap (λ l. addressed w.notifications ++ l) (sym (append-nil _)),
                )
          | inr outer ↦ rw (above, high, outer) (refl, sym (append-nil _))
        ]
    | inr low ↦
        let below : ltb (severity_rank a.severity) (severity_rank c.min_severity) ≡ true =
          ground arith in
        rw (below, low) (sym (append-nil _), sym (append-nil _))
  ]

  delivery_rows-cons :
      (c : NotificationChannel) (cs : List NotificationChannel)
      → delivery_rows (c ∷ cs) ≡ delivery_rows (c ∷ []) ++ delivery_rows cs
  delivery_rows-cons c cs = elim (Bool-cases (meets a c && not (is_in_app c.kind))) [
    | inl hit ↦ rw hit refl
    | inr miss ↦ rw miss refl
  ]

  copies-cons :
      (c : NotificationChannel) (cs : List NotificationChannel) (xs : List (ℕ × Option ℕ))
      → copies (count_where (internal a) (c ∷ cs)) xs
        ≡ copies (count_where (internal a) (c ∷ [])) xs ++ copies (count_where (internal a) cs) xs
  copies-cons c cs xs = elim (Bool-cases (internal a c)) [
    | inl hit ↦
        rw hit (ap (λ l. l ++ copies (count_where (internal a) cs) xs) (sym (append-nil xs)))
    | inr miss ↦ rw miss refl
  ]

-- The fan-out is exact: every channel that is not in-app and takes the severity is handed to the
-- delivery task once, in order, and no other; and every in-app channel that takes it adds one
-- notification about the alert for each active member of its organization who is no service
-- account, and none for anybody else.
pub fan_out-exact :
    (a : Alert) (cs : List NotificationChannel) (w : World)
    → ((fan_out a cs w).deliveries ≡ w.deliveries ++ map (λ c. (a.id, c.id)) (external a cs))
      × (addressed (fan_out a cs w).notifications
          ≡ addressed w.notifications ++ copies (count_where (internal a) cs) (members a w))
unfolding fan_out
fan_out-exact a [] w = (sym (append-nil _), sym (append-nil _))
fan_out-exact a (c ∷ cs) w =
    let next = deliver_to a c w in
    let (d, n) = delivered_one a c w in
    let (ds, ns) = fan_out-exact a cs next in
    let same : members a next ≡ members a w =
      ap (λ us. map (λ u. (u.id, some a.id)) (select (is_recipient a.organization_id) us))
        (deliver_to-Quiet a c w).tables.users in
    (
      ds
          ∙ ap (λ l. l ++ delivery_rows a cs) d
          ∙ append_assoc w.deliveries (delivery_rows a (c ∷ [])) (delivery_rows a cs)
          ∙ ap (λ l. w.deliveries ++ l) (sym (delivery_rows-cons a c cs)),
      ns
          ∙ ap (λ l. l ++ copies (count_where (internal a) cs) (members a next)) n
          ∙ ap
              (λ m.
                (addressed w.notifications
                  ++ copies (count_where (internal a) (c ∷ [])) (members a w))
                ++ copies (count_where (internal a) cs) m)
              same
          ∙ append_assoc (addressed w.notifications)
              (copies (count_where (internal a) (c ∷ [])) (members a w))
              (copies (count_where (internal a) cs) (members a w))
          ∙ ap (λ l. addressed w.notifications ++ l) (sym (copies-cons a c cs (members a w))),
    )
