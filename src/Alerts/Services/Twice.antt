-- ===== src/Alerts/Services/Twice.antt =====
-- What a second call of `raise_alert` for the same rule and device does.
use robotics_io_t_smart_auto.Base.{
  ℕ, ◌≡◌, refl, sym, ap, ◌∙◌, inl, inr, true, Option, none, some, List, [], ◌∷◌, ◌++◌, arith,
  Bool-cases, same_ref_refl, select, select-append, select-one, Outcome, ok, fail,
}
use robotics_io_t_smart_auto.Alerts.Models.{Alert}
use robotics_io_t_smart_auto.Alerts.Services.Cases.{
  slot_rule, slot_device, open_alerts, inserted, Raised, raise_alert_cases,
}
use robotics_io_t_smart_auto.Alerts.Services.Keys.{
  AlertKey, key_of, keys, key_open_for, keys-select, keys-announce, keys-refresh,
}
use robotics_io_t_smart_auto.Alerts.Services.Notify.{notified_at, emit}
use robotics_io_t_smart_auto.Alerts.Services.Raise.{
  RaiseArgs, is_open_for, alert_row, cooldown_elapsed, refreshed, refresh, announce, raise_alert,
}
use robotics_io_t_smart_auto.World.{World}

abbrev pub returned : Outcome (Option Alert) → Option Alert
returned (ok o) = o
returned (fail e) = none

-- exactly one live open alert, with this id
abbrev pub HasOpen : Option ℕ → Option ℕ → ℕ → List Alert → Type 0
HasOpen rule device id alerts =
    (a : Alert) × (select (is_open_for rule device) alerts ≡ a ∷ []) × (a.id ≡ id)

abbrev singleton : AlertKey → List AlertKey
singleton k = k ∷ []

singleton_of_keys :
    (as' : List Alert) (k : AlertKey)
    → keys as' ≡ k ∷ []
    → (a : Alert) × (as' ≡ a ∷ []) × (a.id ≡ k.id)
singleton_of_keys [] k e = ground arith
singleton_of_keys (a ∷ []) k e = (a, refl, ground arith)
singleton_of_keys (a ∷ b ∷ rest) k e = ground arith

HasOpen-keys :
    (rule device : Option ℕ) (id : ℕ) (xs ys : List Alert)
    → keys xs ≡ keys ys
    → HasOpen rule device id ys
    → HasOpen rule device id xs
HasOpen-keys rule device id xs ys e (a, one, named) =
    let (b, single, same) = singleton_of_keys (select (is_open_for rule device) xs) (key_of a) (
      keys-select rule device xs
      ∙ ap (select (key_open_for rule device)) e
      ∙ sym (keys-select rule device ys)
      ∙ ap keys one) in
    (b, single, same ∙ named)

module _ (args : RaiseArgs) (w : World) where
  pub id-refresh : (a : Alert) → (b : Alert) × ((refresh args a w).0 ≡ some b) × (b.id ≡ a.id)
  unfolding refresh emit
  id-refresh a = elim (Bool-cases (cooldown_elapsed w.now (refreshed args w.now a) args.rule)) [
    | inl past ↦ (notified_at w.now (refreshed args w.now a), rw past, refl)
    | inr early ↦ (refreshed args w.now a, rw early, refl)
  ]

  pub id-announce :
      (announce args (alert_row args w) (inserted args w)).0
      ≡ some (notified_at w.now (alert_row args w))
  unfolding announce emit
  id-announce = refl

  pub new_row-IsOpen : is_open_for (slot_rule args) (slot_device args) (alert_row args w) ≡ true
  new_row-IsOpen = rw (same_ref_refl (slot_rule args), same_ref_refl (slot_device args))

  select-inserted :
      open_alerts args w ≡ []
      → select (is_open_for (slot_rule args) (slot_device args)) (inserted args w).alerts
        ≡ alert_row args w ∷ []
  select-inserted free =
      select-append (is_open_for (slot_rule args) (slot_device args)) w.alerts
        (alert_row args w ∷ [])
      ∙ ap
          (λ l.
            l ++ select (is_open_for (slot_rule args) (slot_device args)) (alert_row args w ∷ []))
          free
      ∙ select-one (is_open_for (slot_rule args) (slot_device args)) (alert_row args w)
          new_row-IsOpen

  -- An alert that is returned is the one open alert of its slot afterwards.
  pub raise_alert-HasOpen :
      {a : Alert}
      → (raise_alert args w).0 ≡ ok (some a)
      → HasOpen (slot_rule args) (slot_device args) a.id (raise_alert args w).1.alerts
  raise_alert-HasOpen {a} h = elim (raise_alert_cases args w) [
    | Raised.created free _ e ↦
        let named : w.next_id ≡ a.id = ground (arith, ap (λ r. r.0) e, id-announce) in
        rw e (
          HasOpen-keys (slot_rule args) (slot_device args) a.id _ (inserted args w).alerts
            (keys-announce args (alert_row args w) (inserted args w))
            (alert_row args w, select-inserted free, named))
    | Raised.blocked _ _ e ↦ ground (arith, ap (λ r. r.0) e)
    | Raised.found b one e ↦
        let (c, returns, same) = id-refresh b in
        rw e (
          HasOpen-keys (slot_rule args) (slot_device args) a.id _ w.alerts (keys-refresh args b w)
            (b, one, ground (arith, ap (λ r. r.0) e, returns, same)))
    | Raised.ambiguous _ _ _ _ e ↦ ground (arith, ap (λ r. r.0) e)
  ]

  raise_found :
      (id : ℕ)
      → HasOpen (slot_rule args) (slot_device args) id w.alerts
      → (b : Alert) × ((raise_alert args w).0 ≡ ok (some b))
        × (b.id ≡ id)
        × (keys (raise_alert args w).1.alerts ≡ keys w.alerts)
  raise_found id (a, one, named) = elim (raise_alert_cases args w) [
    | Raised.created free _ _ ↦ ground (arith, one, free)
    | Raised.blocked free _ _ ↦ ground (arith, one, free)
    | Raised.found b one' e ↦
        let (c, returns, same) = id-refresh b in
        (
          c,
          ground (arith, ap (λ r. r.0) e, returns),
          ground (arith, one, one', same, named),
          rw e (keys-refresh args b w),
        )
    | Raised.ambiguous b c rest two _ ↦ ground (arith, one, two)
  ]

-- Raising for the same rule and device once more returns the same alert, and the table keeps its
-- rows with their keys, severities and statuses: no second incident is opened.
pub raise_alert_twice :
    (args again : RaiseArgs) (w : World) {a : Alert}
    → slot_rule again ≡ slot_rule args
    → slot_device again ≡ slot_device args
    → (raise_alert args w).0 ≡ ok (some a)
    → (b : Alert) × ((raise_alert again (raise_alert args w).1).0 ≡ ok (some b))
      × (b.id ≡ a.id)
      × (keys (raise_alert again (raise_alert args w).1).1.alerts
          ≡ keys (raise_alert args w).1.alerts)
raise_alert_twice args again w {a} r d h =
    raise_found again (raise_alert args w).1 a.id (rw (r, d) (raise_alert-HasOpen args w h))
