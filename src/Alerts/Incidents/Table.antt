-- ===== src/Alerts/Incidents/Table.antt =====
-- The alert table of apps/alerts/services.py while nothing deletes from it, and the steps on it.
use robotics_io_t_smart_auto.Base.{
  ℕ, ◌≤◌, ◌<◌, ◌≡◌, refl, sym, ap, ◌∙◌, subst, true, false, Option, List, [], ◌∷◌, arith, is_none,
  select, exists_where, count_where, All, All-imp,
}
use robotics_io_t_smart_auto.Alerts.Incidents.Slots.{Slots, key_slots, slots}
use robotics_io_t_smart_auto.Alerts.Models.{Alert}
use robotics_io_t_smart_auto.Alerts.Services.Dedup.{OpenUnique}
use robotics_io_t_smart_auto.Alerts.Services.Keys.{AlertKey, keys, key_open_for, count-keys}
use robotics_io_t_smart_auto.Alerts.Services.Raise.{holds_slot, is_open_for}
use robotics_io_t_smart_auto.World.{World}

-- an id that no incident and no earlier row has
abbrev pub IsFresh : ℕ → List AlertKey → Type 0
IsFresh id ks = All (λ k. k.id < id) ks

-- One open row at most for each rule and device, no soft-deleted row, and keys below the next one.
pub record IncidentTable (w : World) : Type 0 where
  pub unique : OpenUnique w.alerts
  pub alive : All (λ k. is_none k.deleted_at ≡ true) (keys w.alerts)
  pub below : IsFresh w.next_id (keys w.alerts)

pub no_block :
    (rule device : Option ℕ) (alerts : List Alert)
    → All (λ k. is_none k.deleted_at ≡ true) (keys alerts)
    → select (is_open_for rule device) alerts ≡ []
    → exists_where (holds_slot rule device) alerts ≡ false
no_block rule device [] h e = refl
no_block rule device (a ∷ as') h e = ground (arith, no_block rule device as' h.1)

-- What every step of the engine shows: the table is kept, and the map moves as it should.
pub record StepsTo (w w' : World) (s : Slots) : Type 0 where
  pub table : IncidentTable w'
  pub moved : (r d : Option ℕ) → slots w' r d ≡ s r d

-- A step that keeps the keys of the alerts keeps the table and the map.
pub StepsTo-keys :
    (w w' : World)
    → IncidentTable w
    → keys w'.alerts ≡ keys w.alerts
    → w.next_id ≤ w'.next_id
    → StepsTo w w' (slots w)
StepsTo-keys w w' t e n = record {
  table = record {
    unique = record {
      at = λ r d. omega (
        arith,
        t.unique.at r d,
        count-keys r d w.alerts,
        count-keys r d w'.alerts,
        ap (count_where (key_open_for r d)) e,
      );
    };
    alive = subst (All (λ k. is_none k.deleted_at ≡ true)) (sym e) t.alive;
    below = subst (All (λ k. k.id < w'.next_id)) (sym e) (
        All-imp (λ k. k.id < w.next_id) (λ k. k.id < w'.next_id) (λ k h. omega (arith, h, n))
          (keys w.alerts) t.below);
  };
  moved = λ r d. ap (λ ks. key_slots ks r d) e;
}

-- A step, and then one that keeps the keys.
pub StepsTo-then :
    {u v w : World} {s : Slots}
    → StepsTo u v s
    → keys w.alerts ≡ keys v.alerts
    → v.next_id ≤ w.next_id
    → StepsTo u w s
StepsTo-then {v} {w} first e n =
    let more = StepsTo-keys v w first.table e n in
    record { table = more.table; moved = λ r d. more.moved r d ∙ first.moved r d }
