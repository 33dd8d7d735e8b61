-- ===== src/Alerts/Services/Cases.antt =====
-- The four ways in which `raise_alert` ends, and what each leaves alone.
use robotics_io_t_smart_auto.Base.{
  ℕ, ◌+◌, ◌≡◌, refl, ap, ◌⊎◌, inl, inr, true, false, Option, none, List, [], ◌∷◌, ◌++◌, Bool-cases,
  select, first-of-none, multiple_objects, integrity_error, Outcome, ok, fail,
}
use robotics_io_t_smart_auto.Alerts.Models.{Alert}
use robotics_io_t_smart_auto.Alerts.Services.Raise.{
  RaiseArgs, rule_key, device_key, is_open_for, violates_unique, alert_row, create_alert, refresh,
  announce, again, raise_alert,
}
use robotics_io_t_smart_auto.World.{World}

abbrev pub slot_rule : RaiseArgs → Option ℕ
slot_rule args = rule_key args.rule

abbrev pub slot_device : RaiseArgs → Option ℕ
slot_device args = device_key args.device

-- the open alerts that `get_or_create` finds
abbrev pub open_alerts : RaiseArgs → World → List Alert
open_alerts args w = select (is_open_for (slot_rule args) (slot_device args)) w.alerts

-- the state after the insertion
abbrev pub inserted : RaiseArgs → World → World
inserted args w = record w { alerts = w.alerts ++ alert_row args w ∷ []; next_id = w.next_id + 1 }

pub data Raised (args : RaiseArgs) (w : World) (r : Outcome (Option Alert) × World) : Type 0 where
  created :
      open_alerts args w ≡ []
      → violates_unique (slot_rule args) (slot_device args) w.alerts ≡ false
      → r ≡ (
        ok (announce args (alert_row args w) (inserted args w)).0,
        (announce args (alert_row args w) (inserted args w)).1,
      )
      → Raised args w r
  blocked :
      open_alerts args w ≡ []
      → violates_unique (slot_rule args) (slot_device args) w.alerts ≡ true
      → r ≡ (ok none, w)
      → Raised args w r
  found :
      (a : Alert)
      → open_alerts args w ≡ a ∷ []
      → r ≡ (ok (refresh args a w).0, (refresh args a w).1)
      → Raised args w r
  ambiguous :
      (a b : Alert) (rest : List Alert)
      → open_alerts args w ≡ a ∷ b ∷ rest
      → r ≡ (fail multiple_objects, w)
      → Raised args w r

List-cases :
    (xs : List Alert)
    → (xs ≡ [])
      ⊎ ((a : Alert) × (xs ≡ a ∷ []))
      ⊎ ((a : Alert) × (b : Alert) × (rest : List Alert) × (xs ≡ a ∷ b ∷ rest))
List-cases [] = inl refl
List-cases (a ∷ []) = inr (inl (a, refl))
List-cases (a ∷ b ∷ rest) = inr (inr (a, b, rest, refl))

module _ (args : RaiseArgs) (w : World) where
  create_bad :
      violates_unique (slot_rule args) (slot_device args) w.alerts ≡ true
      → create_alert args w ≡ (fail integrity_error, w)
  unfolding create_alert
  create_bad h = rw h

  create_good :
      violates_unique (slot_rule args) (slot_device args) w.alerts ≡ false
      → create_alert args w ≡ (ok (alert_row args w, true), inserted args w)
  unfolding create_alert
  create_good h = rw h

  raise_none : open_alerts args w ≡ [] → Raised args w (raise_alert args w)
  unfolding raise_alert
  raise_none e = elim (Bool-cases (violates_unique (slot_rule args) (slot_device args) w.alerts)) [
    | inl bad ↦
        let missing = first-of-none (is_open_for (slot_rule args) (slot_device args)) w.alerts e in
        Raised.blocked e bad (rw e (rw (create_bad bad) (ap (λ o. again args o w) missing)))
    | inr good ↦ Raised.created e good (rw e (rw (create_good good)))
  ]

  -- `raise_alert` ends in one of the four ways.
  pub raise_alert_cases : Raised args w (raise_alert args w)
  unfolding raise_alert
  raise_alert_cases = elim (List-cases (open_alerts args w)) [
    | inl e ↦ raise_none e
    | inr (inl (a, e)) ↦ Raised.found a e (rw e)
    | inr (inr (a, b, rest, e)) ↦ Raised.ambiguous a b rest e (rw e)
  ]
