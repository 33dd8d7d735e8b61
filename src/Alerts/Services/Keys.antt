-- ===== src/Alerts/Services/Keys.antt =====
-- The columns of an alert that decide which incident it is, which de-duplication reads, and what
-- the refresh and the notification of an alert do to them.
use robotics_io_t_smart_auto.Base.{
  ℕ, ◌≡◌, refl, ap, ◌∙◌, inl, inr, Bool, ◌&&◌, Option, List, [], ◌∷◌, ◌++◌, map, arith, ◌==◌,
  Bool-cases, same_ref, is_none, select, count_where, update_where,
}
use robotics_io_t_smart_auto.Alerts.Models.{Severity, AlertStatus, is_opened, Alert}
use robotics_io_t_smart_auto.Alerts.Services.Frames.{alerts-emit}
use robotics_io_t_smart_auto.Alerts.Services.Notify.{save_columns, notified_at, emit}
use robotics_io_t_smart_auto.Alerts.Services.Raise.{
  RaiseArgs, is_open_for, cooldown_elapsed, with_value, refreshed, refresh, announce,
}
use robotics_io_t_smart_auto.World.{World}

pub record AlertKey : Type 0 where
  pub id : ℕ
  pub deleted_at : Option ℕ
  pub organization_id : Option ℕ
  pub rule_id : Option ℕ
  pub device_id : Option ℕ
  pub severity : Severity
  pub status : AlertStatus

abbrev pub key_of : Alert → AlertKey
key_of a = record {
  id = a.id;
  deleted_at = a.deleted_at;
  organization_id = a.organization_id;
  rule_id = a.rule_id;
  device_id = a.device_id;
  severity = a.severity;
  status = a.status;
}

abbrev pub keys : List Alert → List AlertKey
keys alerts = map key_of alerts

-- `is_open_for`, read from the key
abbrev pub key_open_for : Option ℕ → Option ℕ → AlertKey → Bool
key_open_for rule device k =
    is_none k.deleted_at
    && (same_ref k.rule_id rule && same_ref k.device_id device && is_opened k.status)

pub keys-update :
    (p : Alert → Bool) (f : Alert → Alert) (alerts : List Alert)
    → ((a : Alert) → key_of (f a) ≡ key_of a)
    → keys (update_where p f alerts) ≡ keys alerts
keys-update p f [] h = refl
keys-update p f (a ∷ as') h = ground (arith, h a, keys-update p f as' h)

pub keys-append : (xs ys : List Alert) → keys (xs ++ ys) ≡ keys xs ++ keys ys
keys-append [] ys = refl
keys-append (x ∷ xs) ys = rw (keys-append xs ys)

pub keys-select :
    (rule device : Option ℕ) (alerts : List Alert)
    → keys (select (is_open_for rule device) alerts)
      ≡ select (key_open_for rule device) (keys alerts)
keys-select rule device [] = refl
keys-select rule device (a ∷ as') = ground (arith, keys-select rule device as')

pub count-keys :
    (rule device : Option ℕ) (alerts : List Alert)
    → count_where (is_open_for rule device) alerts
      ≡ count_where (key_open_for rule device) (keys alerts)
count-keys rule device [] = refl
count-keys rule device (a ∷ as') = ground (arith, count-keys rule device as')

module _ (args : RaiseArgs) (a : Alert) (w : World) where
  pub keys-announce : keys (announce args a w).1.alerts ≡ keys w.alerts
  unfolding announce
  keys-announce =
      ap keys (alerts-emit a args.rule args.channels w)
      ∙ keys-update (λ b. b.id == a.id) (notified_at w.now) w.alerts (λ b. refl)

  abbrev refreshed_world : World
  refreshed_world =
      save_columns a.id (with_value args.value (refreshed args w.now a).message w.now) w

  keys-refreshed : keys refreshed_world.alerts ≡ keys w.alerts
  keys-refreshed =
      keys-update (λ b. b.id == a.id) (with_value args.value (refreshed args w.now a).message w.now)
        w.alerts (λ b. refl)

  keys-emitted :
      (b : Alert) → keys (emit b args.rule args.channels refreshed_world).1.alerts ≡ keys w.alerts
  keys-emitted b =
      ap keys (alerts-emit b args.rule args.channels refreshed_world)
      ∙ keys-update (λ c. c.id == b.id) (notified_at w.now) refreshed_world.alerts (λ c. refl)
      ∙ keys-refreshed

  pub keys-refresh : keys (refresh args a w).1.alerts ≡ keys w.alerts
  unfolding refresh
  keys-refresh = elim (Bool-cases (cooldown_elapsed w.now (refreshed args w.now a) args.rule)) [
    | inl yes' ↦ rw yes' (keys-emitted (refreshed args w.now a))
    | inr no' ↦ rw no' keys-refreshed
  ]
