-- ===== src/Alerts/Incidents/Refines.antt =====
-- The operations of apps/alerts/services.py that open and close alerts, against the map of the open
-- incidents.
use robotics_io_t_smart_auto.Base.{
  ℕ, ◌+◌, ◌≡◌, refl, subst, false, Option, some, List, [], ◌∷◌, arith, refers_to,
}
use robotics_io_t_smart_auto.Alerts.Incidents.Closing.{
  auto_resolve-StepsTo, acknowledge_alert-StepsTo, resolve_alert-StepsTo,
}
use robotics_io_t_smart_auto.Alerts.Incidents.Raising.{raise_alert-StepsTo}
use robotics_io_t_smart_auto.Alerts.Incidents.Slots.{
  Slots, key_slots, slots, opened_slot, cleared_slot, dropped_id,
}
use robotics_io_t_smart_auto.Alerts.Incidents.Table.{IsFresh, IncidentTable, StepsTo, StepsTo-keys}
use robotics_io_t_smart_auto.Alerts.Models.{AlertRule, Alert}
use robotics_io_t_smart_auto.Alerts.Services.Keys.{AlertKey, keys}
use robotics_io_t_smart_auto.Alerts.Services.Lifecycle.{
  acknowledge_alert, resolve_alert, auto_resolve,
}
use robotics_io_t_smart_auto.Alerts.Services.Raise.{RaiseArgs, rule_key, device_key, raise_alert}
use robotics_io_t_smart_auto.Devices.Models.{Device}
use robotics_io_t_smart_auto.World.{World}

-- what the engine, the operators and the clock do
pub data Event : Type 0 where
  raised : RaiseArgs → Event
  calmed : AlertRule → Device → Event
  acked : Alert → ℕ → Event
  closed : Alert → Option ℕ → Event
  elapsed : ℕ → Event

abbrev pub perform : Event → World → World
perform (Event.raised args) w = (raise_alert args w).1
perform (Event.calmed rule device) w = auto_resolve rule device w
perform (Event.acked alert user) w = (acknowledge_alert alert user w).1
perform (Event.closed alert user) w = (resolve_alert alert user w).1
perform (Event.elapsed n) w = record w { now = w.now + n }

-- the same on the map; `fresh` is the id of a new incident
abbrev pub perform_on_slots : Event → ℕ → Slots → Slots
perform_on_slots (Event.raised args) fresh s =
    opened_slot (rule_key args.rule) (device_key args.device) fresh s
perform_on_slots (Event.calmed rule device) fresh s = cleared_slot (some rule.id) (some device.id) s
perform_on_slots (Event.acked alert user) fresh s = dropped_id alert.id s
perform_on_slots (Event.closed alert user) fresh s = dropped_id alert.id s
perform_on_slots (Event.elapsed n) fresh s = s

-- a whole run of events
abbrev pub perform_all : List Event → World → World
perform_all [] w = w
perform_all (e ∷ es) w = perform_all es (perform e w)

-- The runs that the map allows: each event acts on the map, with an id that no open incident has.
pub data SlotRun : List Event → Slots → Slots → Type 0 where
  done : {s t : Slots} → ((r d : Option ℕ) → s r d ≡ t r d) → SlotRun [] s t
  next :
      {e : Event} {es : List Event} {s t : Slots} (fresh : ℕ)
      → ((r d : Option ℕ) → refers_to (s r d) fresh ≡ false)
      → SlotRun es (perform_on_slots e fresh s) t
      → SlotRun (e ∷ es) s t

-- One event keeps the table and moves the map as it should.
pub perform-StepsTo :
    (e : Event) (w : World)
    → IncidentTable w
    → StepsTo w (perform e w) (perform_on_slots e w.next_id (slots w))
perform-StepsTo (Event.raised args) w t = raise_alert-StepsTo args w t
perform-StepsTo (Event.calmed rule device) w t = auto_resolve-StepsTo w t rule device
perform-StepsTo (Event.acked alert user) w t = acknowledge_alert-StepsTo w t alert user
perform-StepsTo (Event.closed alert user) w t = resolve_alert-StepsTo w t alert user
perform-StepsTo (Event.elapsed n) w t =
    StepsTo-keys w (perform (Event.elapsed n) w) t refl (omega arith)

unused :
    (id : ℕ) (ks : List AlertKey) (r d : Option ℕ)
    → IsFresh id ks
    → refers_to (key_slots ks r d) id ≡ false
unused id [] r d h = refl
unused id (k ∷ ks) r d h = ground (arith, unused id ks r d h.1, h.0)

-- The alert engine implements the map of open incidents: from a table with at most one open row for
-- each rule and device, no soft-deleted row and keys below the next one, every sequence of raised
-- and calmed conditions, acknowledgements, resolutions and waiting opens an incident exactly where
-- the rule and device have none, with an id that no open incident has, closes those that it names,
-- and leaves every other rule and device alone; and it ends in such a table.
pub perform_all-SlotRun :
    (es : List Event) (w : World)
    → IncidentTable w
    → SlotRun es (slots w) (slots (perform_all es w)) × IncidentTable (perform_all es w)
perform_all-SlotRun [] w t = (SlotRun.done (λ r d. refl), t)
perform_all-SlotRun (e ∷ es) w t =
    let step = perform-StepsTo e w t in
    let (run, end) = perform_all-SlotRun es (perform e w) step.table in
    (
      SlotRun.next w.next_id (λ r d. unused w.next_id (keys w.alerts) r d t.below)
          (subst (λ s. SlotRun es s (slots (perform_all es (perform e w))))
            (λ i r d. step.moved r d i) run),
      end,
    )
