-- ===== src/Alerts/Incidents/Raising.antt =====
-- `raise_alert` on the table of incidents.
use robotics_io_t_smart_auto.Base.{
  ℕ, ◌+◌, ◌<◌, ◌≡◌, refl, sym, ap, ◌∙◌, subst, inl, inr, true, false, Option, none, some, [], ◌∷◌,
  arith, Bool-cases, is_none, length, first?, All, length-select, All-append, All-imp,
  first-of-none, first-of-one,
}
use robotics_io_t_smart_auto.Alerts.Incidents.Slots.{
  Slots, id_of_key, key_slots, slots, is_slot, opened_slot, is_slot_eq, key_slots-append,
}
use robotics_io_t_smart_auto.Alerts.Incidents.Table.{
  IsFresh, IncidentTable, no_block, StepsTo, StepsTo-keys, StepsTo-then,
}
use robotics_io_t_smart_auto.Alerts.Models.{Alert}
use robotics_io_t_smart_auto.Alerts.Services.Cases.{
  slot_rule, slot_device, open_alerts, inserted, Raised, raise_alert_cases,
}
use robotics_io_t_smart_auto.Alerts.Services.Dedup.{OpenUnique-inserted}
use robotics_io_t_smart_auto.Alerts.Services.Fresh.{announce-next_id, refresh-next_id}
use robotics_io_t_smart_auto.Alerts.Services.Keys.{
  key_of, keys, key_open_for, keys-append, keys-select, keys-announce, keys-refresh,
}
use robotics_io_t_smart_auto.Alerts.Services.Raise.{
  RaiseArgs, is_open_for, violates_unique, alert_row, refresh, raise_alert,
}
use robotics_io_t_smart_auto.Alerts.Services.Twice.{new_row-IsOpen}
use robotics_io_t_smart_auto.World.{World}

-- where the slot is taken, opening it changes nothing
opened_slot-taken :
    (rule device : Option ℕ) (fresh id : ℕ) (s : Slots) (r d : Option ℕ)
    → s rule device ≡ some id
    → opened_slot rule device fresh s r d ≡ s r d
opened_slot-taken rule device fresh id s r d h = elim (Bool-cases (is_slot rule device r d)) [
  | inl mine ↦ let (e, f) = is_slot_eq rule device r d mine in rw (mine, ← e, ← f, h) refl
  | inr other ↦ rw other refl
]

module _ (args : RaiseArgs) (w : World) (t : IncidentTable w) where
  abbrev expected : Slots
  expected = opened_slot (slot_rule args) (slot_device args) w.next_id (slots w)

  free_key :
      open_alerts args w ≡ []
      → first? (key_open_for (slot_rule args) (slot_device args)) (keys w.alerts) ≡ none
  free_key free =
      first-of-none (key_open_for (slot_rule args) (slot_device args)) (keys w.alerts)
        (sym (keys-select (slot_rule args) (slot_device args) w.alerts) ∙ ap keys free)

  inserted-StepsTo : open_alerts args w ≡ [] → StepsTo w (inserted args w) expected
  inserted-StepsTo free =
      let row = alert_row args w in
      let split = keys-append w.alerts (row ∷ []) in
      record {
        table = record {
          unique = OpenUnique-inserted args w free t.unique;
          alive = subst (All (λ k. is_none k.deleted_at ≡ true)) (sym split) (
              All-append (λ k. is_none k.deleted_at ≡ true) (keys w.alerts) (key_of row ∷ [])
                t.alive (refl, tt));
          below = subst (IsFresh (w.next_id + 1)) (sym split) (
              All-append (λ k. k.id < w.next_id + 1) (keys w.alerts) (key_of row ∷ [])
                (All-imp (λ k. k.id < w.next_id) (λ k. k.id < w.next_id + 1)
                  (λ k h. omega (arith, h)) (keys w.alerts) t.below)
                (omega arith, tt));
        };
        moved = λ r d.
            ap (λ ks. key_slots ks r d) split
            ∙ key_slots-append (slot_rule args) (slot_device args) r d (keys w.alerts) (key_of row)
                (free_key free) (new_row-IsOpen args w);
      }

  found_key :
      (a : Alert)
      → open_alerts args w ≡ a ∷ []
      → slots w (slot_rule args) (slot_device args) ≡ some a.id
  found_key a one = ap id_of_key (
      first-of-one (key_open_for (slot_rule args) (slot_device args)) (keys w.alerts) (key_of a)
        (sym (keys-select (slot_rule args) (slot_device args) w.alerts) ∙ ap keys one))

  StepsTo-found :
      (a : Alert) → open_alerts args w ≡ a ∷ [] → StepsTo w (refresh args a w).1 expected
  StepsTo-found a one =
      let kept = StepsTo-keys w _ t (keys-refresh args a w) (refresh-next_id args a w) in
      record {
        table = kept.table;
        moved = λ r d.
            kept.moved r d
            ∙ sym (
                opened_slot-taken (slot_rule args) (slot_device args) w.next_id a.id (slots w) r d
                  (found_key a one));
      }

  admitted :
      open_alerts args w ≡ [] → violates_unique (slot_rule args) (slot_device args) w.alerts ≡ false
  unfolding violates_unique
  admitted free = ground (arith, no_block (slot_rule args) (slot_device args) w.alerts t.alive free)

  pub raise_alert-StepsTo : StepsTo w (raise_alert args w).1 expected
  raise_alert-StepsTo = elim (raise_alert_cases args w) [
    | Raised.created free _ e ↦ rw e (
        StepsTo-then (inserted-StepsTo free) (keys-announce args _ (inserted args w))
          (announce-next_id args _ (inserted args w)))
    | Raised.blocked free bad e ↦ absurd (cc (bad, admitted free))
    | Raised.found a one e ↦ rw e (StepsTo-found a one)
    | Raised.ambiguous a b rest two e ↦ absurd (
        omega (
          arith,
          t.unique.at (slot_rule args) (slot_device args),
          length-select (is_open_for (slot_rule args) (slot_device args)) w.alerts,
          ap length two,
        ))
  ]
