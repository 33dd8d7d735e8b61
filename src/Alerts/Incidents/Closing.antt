-- ===== src/Alerts/Incidents/Closing.antt =====
-- `_auto_resolve`, `acknowledge_alert` and `resolve_alert` on the table of incidents.
use robotics_io_t_smart_auto.Base.{
  ℕ, ◌≤◌, ◌<◌, String, ◌≡◌, refl, sym, ap, ◌∙◌, subst, inl, inr, Bool, true, false, Option, some,
  List, [], ◌∷◌, arith, ◌==◌, Bool-cases, is_none, count_where, update_where, All, count-update-le,
  All-update,
}
use robotics_io_t_smart_auto.Alerts.Incidents.Slots.{
  key_slots, slots, cleared_slot, dropped_id, key_status, key_slots-cleared, key_slots-dropped,
}
use robotics_io_t_smart_auto.Alerts.Incidents.Table.{IsFresh, IncidentTable, StepsTo, StepsTo-then}
use robotics_io_t_smart_auto.Alerts.Models.{AlertRule, AlertStatus, is_opened, Alert}
use robotics_io_t_smart_auto.Alerts.Services.Frames.{broadcast_alert-Quiet}
use robotics_io_t_smart_auto.Alerts.Services.Fresh.{broadcast_alert-next_id}
use robotics_io_t_smart_auto.Alerts.Services.Keys.{AlertKey, key_of, keys, key_open_for, count-keys}
use robotics_io_t_smart_auto.Alerts.Services.Lifecycle.{
  acknowledged_by_user, acknowledge_alert, resolved_now, resolve_alert, auto_resolved, auto_resolve,
}
use robotics_io_t_smart_auto.Alerts.Services.Notify.{broadcast_alert, save_columns}
use robotics_io_t_smart_auto.Alerts.Services.Raise.{is_open_for}
use robotics_io_t_smart_auto.Core.Services.{Entry, record_audit}
use robotics_io_t_smart_auto.Devices.Models.{Device}
use robotics_io_t_smart_auto.World.{World}

-- a closing write, on the keys
keys-closed :
    (p : Alert → Bool) (q : AlertKey → Bool) (f : Alert → Alert) (s : AlertStatus)
    (as' : List Alert)
    → ((a : Alert) → p a ≡ q (key_of a))
    → ((a : Alert) → key_of (f a) ≡ key_status s (key_of a))
    → keys (update_where p f as') ≡ update_where q (key_status s) (keys as')
keys-closed p q f s [] h g = refl
keys-closed p q f s (a ∷ as') h g = elim (Bool-cases (p a)) [
  | inl hit ↦ rw (hit, sym (h a) ∙ hit, g a, keys-closed p q f s as' h g)
  | inr miss ↦ rw (miss, sym (h a) ∙ miss, keys-closed p q f s as' h g)
]

-- What the three closing operations share: they write a status that is not open into some rows.
module _ (w w' : World) (t : IncidentTable w) (q : AlertKey → Bool) (s : AlertStatus) where
  closed_table :
      keys w'.alerts ≡ update_where q (key_status s) (keys w.alerts)
      → w.next_id ≡ w'.next_id
      → is_opened s ≡ false
      → IncidentTable w'
  closed_table e n h = record {
    unique = record {
      at = λ r d. omega (
        arith,
        t.unique.at r d,
        count-keys r d w.alerts,
        count-keys r d w'.alerts,
        ap (count_where (key_open_for r d)) e,
        count-update-le q (key_open_for r d) (key_status s) (keys w.alerts)
            (λ k live. absurd (ground arith)),
      );
    };
    alive = subst (All (λ k. is_none k.deleted_at ≡ true)) (sym e) (
        All-update (λ k. is_none k.deleted_at ≡ true) q (key_status s) (keys w.alerts)
          (λ k _ here. here) t.alive);
    below =
        subst (λ b. IsFresh b (keys w'.alerts)) n
          (subst (IsFresh w.next_id) (sym e) (
            All-update (λ k. k.id < w.next_id) q (key_status s) (keys w.alerts) (λ k _ here. here)
              t.below));
  }

-- what follows such a write: the push and the audit entry
shown_audited :
    (a : Alert) (event : String) (e : Entry) (w : World)
    → ((record_audit e (broadcast_alert a event w)).alerts ≡ w.alerts)
      × (w.next_id ≤ (record_audit e (broadcast_alert a event w)).next_id)
unfolding record_audit
shown_audited a event e w =
    ((broadcast_alert-Quiet a event w).alerts, omega (arith, broadcast_alert-next_id a event w))

module _ (w : World) (t : IncidentTable w) where
  pub auto_resolve-StepsTo :
      (rule : AlertRule) (device : Device)
      → StepsTo w
          (auto_resolve rule device w)
          (cleared_slot (some rule.id) (some device.id) (slots w))
  unfolding auto_resolve
  auto_resolve-StepsTo rule device =
      let e =
        keys-closed (is_open_for (some rule.id) (some device.id))
          (key_open_for (some rule.id) (some device.id)) (auto_resolved w.now) AlertStatus.resolved
          w.alerts (λ a. refl) (λ a. refl) in
      record {
        table =
            closed_table w (auto_resolve rule device w) t
              (key_open_for (some rule.id) (some device.id)) AlertStatus.resolved e refl refl;
        moved = λ r d.
            ap (λ ks. key_slots ks r d) e
            ∙ key_slots-cleared (some rule.id) (some device.id) r d AlertStatus.resolved
                (keys w.alerts) refl;
      }

  -- a write of such a status to the rows of one id
  StepsTo-dropped :
      (w' : World) (id : ℕ) (f : Alert → Alert) (s : AlertStatus)
      → ((a : Alert) → key_of (f a) ≡ key_status s (key_of a))
      → is_opened s ≡ false
      → w'.alerts ≡ update_where (λ a. a.id == id) f w.alerts
      → w.next_id ≤ w'.next_id
      → StepsTo w w' (dropped_id id (slots w))
  StepsTo-dropped w' id f s keeps h e n =
      let saved = save_columns id f w in
      let e' = keys-closed (λ a. a.id == id) (λ k. k.id == id) f s w.alerts (λ a. refl) keeps in
      StepsTo-then
        (record {
          table = closed_table w saved t (λ k. k.id == id) s e' refl h;
          moved = λ r d.
              ap (λ ks. key_slots ks r d) e'
              ∙ key_slots-dropped id s r d (keys w.alerts) h
                  (omega (arith, t.unique.at r d, count-keys r d w.alerts));
        })
        (ap keys e) n

  pub acknowledge_alert-StepsTo :
      (a : Alert) (user : ℕ) → StepsTo w (acknowledge_alert a user w).1 (dropped_id a.id (slots w))
  unfolding acknowledge_alert
  acknowledge_alert-StepsTo a user =
      let acked = acknowledged_by_user user w.now a in
      let saved = save_columns a.id (acknowledged_by_user user w.now) w in
      StepsTo-dropped _ a.id (acknowledged_by_user user w.now) AlertStatus.acknowledged (λ b. refl)
        refl (shown_audited acked "alert.updated" _ saved).0
        (shown_audited acked "alert.updated" _ saved).1

  pub resolve_alert-StepsTo :
      (a : Alert) (user : Option ℕ)
      → StepsTo w (resolve_alert a user w).1 (dropped_id a.id (slots w))
  unfolding resolve_alert
  resolve_alert-StepsTo a user =
      let done = resolved_now w.now a in
      let saved = save_columns a.id (resolved_now w.now) w in
      StepsTo-dropped _ a.id (resolved_now w.now) AlertStatus.resolved (λ b. refl) refl
        (shown_audited done "alert.resolved" _ saved).0
        (shown_audited done "alert.resolved" _ saved).1
