-- ===== src/Alerts/Services/Cooldown.antt =====
-- The cooldown of apps/alerts/services.py: a condition that is raised again and again.
use robotics_io_t_smart_auto.Base.{
  ℕ, ◌+◌, ◌<◌, ◌≡◌, refl, ap, ◌∙◌, false, Option, some, List, [], ◌∷◌, arith, ◌==◌, ==_refl,
  seconds, select, update_where, All, select-update,
}
use robotics_io_t_smart_auto.Alerts.Models.{AlertRule, Alert}
use robotics_io_t_smart_auto.Alerts.Services.Cases.{
  slot_rule, slot_device, open_alerts, Raised, raise_alert_cases,
}
use robotics_io_t_smart_auto.Alerts.Services.Notify.{save_columns}
use robotics_io_t_smart_auto.Alerts.Services.Raise.{
  RaiseArgs, rule_key, device_key, is_open_for, cooldown_elapsed, message_or, with_value, refreshed,
  refresh, raise_alert,
}
use robotics_io_t_smart_auto.World.{World}

-- what an alert sends out: pushes, notifications, deliveries and audit entries
pub record Silent (w w' : World) : Type 0 where
  pub broadcasts : w'.broadcasts ≡ w.broadcasts
  pub notifications : w'.notifications ≡ w.notifications
  pub deliveries : w'.deliveries ≡ w.deliveries
  pub audit_logs : w'.audit_logs ≡ w.audit_logs

-- the condition of a rule holds for a device, again and again: how long later, and with what
abbrev pub storm : List (ℕ × RaiseArgs) → World → World
storm [] w = w
storm ((n, args) ∷ rest) w = storm rest (raise_alert args (record w { now = w.now + n })).1

abbrev pub duration : List (ℕ × RaiseArgs) → ℕ
duration [] = 0
duration ((n, args) ∷ rest) = n + duration rest

-- each of the calls is for this rule and device
abbrev pub AboutSlot : AlertRule → Option ℕ → List (ℕ × RaiseArgs) → Type 0
AboutSlot rule device calls =
    All (λ c. (c.1.rule ≡ some rule) × (device_key c.1.device ≡ device)) calls

module _ (args : RaiseArgs) (w : World) (rule : AlertRule) (a : Alert) where
  early_test :
      {t : ℕ}
      → args.rule ≡ some rule
      → a.last_notified_at ≡ some t
      → w.now < t + seconds rule.cooldown_seconds
      → cooldown_elapsed w.now (refreshed args w.now a) args.rule ≡ false
  unfolding cooldown_elapsed
  early_test r told early = rw (r, told) (ground arith)

  abbrev saved_quietly : World
  saved_quietly =
      save_columns a.id (with_value args.value (message_or args.message a.message) w.now) w

  -- a call while the cooldown runs
  raise_alert-in_cooldown :
      {t : ℕ}
      → args.rule ≡ some rule
      → open_alerts args w ≡ a ∷ []
      → a.last_notified_at ≡ some t
      → w.now < t + seconds rule.cooldown_seconds
      → (raise_alert args w).1 ≡ saved_quietly
  unfolding refresh
  raise_alert-in_cooldown {t} r one told early = elim (raise_alert_cases args w) [
    | Raised.created free _ _ ↦ absurd (ground (arith, one, free))
    | Raised.blocked free _ _ ↦ absurd (ground (arith, one, free))
    | Raised.found b one' e ↦
        let same : b ≡ a = ground (arith, one, one') in
        ap (λ r. r.1) e ∙ ap (λ c. (refresh args c w).1) same ∙ rw (early_test r told early) refl
    | Raised.ambiguous b c rest two _ ↦ absurd (ground (arith, one, two))
  ]

  -- the open alert of the slot after such a call
  open_alerts-quiet :
      open_alerts args w ≡ a ∷ []
      → select (is_open_for (slot_rule args) (slot_device args)) saved_quietly.alerts
        ≡ with_value args.value (message_or args.message a.message) w.now a ∷ []
  open_alerts-quiet one =
      select-update (is_open_for (slot_rule args) (slot_device args)) (λ b. b.id == a.id)
        (with_value args.value (message_or args.message a.message) w.now) w.alerts (λ b. refl)
      ∙ ap
          (update_where (λ b. b.id == a.id)
            (with_value args.value (message_or args.message a.message) w.now))
          one
      ∙ rw (==_refl a.id) refl

-- An alert storm is silent: while the cooldown of the rule since the last notification runs, raising
-- the open alert of the rule and the device any number of times, whatever the values and the
-- messages, pushes nothing, writes no notification, hands nothing to the delivery task and audits
-- nothing.
pub storm-Silent :
    (calls : List (ℕ × RaiseArgs)) (w : World) (rule : AlertRule) (device : Option ℕ) (a : Alert)
    {t : ℕ}
    → AboutSlot rule device calls
    → select (is_open_for (some rule.id) device) w.alerts ≡ a ∷ []
    → a.last_notified_at ≡ some t
    → w.now + duration calls < t + seconds rule.cooldown_seconds
    → Silent w (storm calls w)
storm-Silent [] w rule device a about one told early = ground arith
storm-Silent ((n, args) ∷ rest) w rule device a {t} about one told early =
    let later = record w { now = w.now + n } in
    let slot : slot_rule args ≡ some rule.id = ap rule_key about.0.0 in
    let one' : open_alerts args later ≡ a ∷ [] = rw (slot, about.0.1) one in
    let quiet =
      raise_alert-in_cooldown args later rule a about.0.0 one' told (omega (arith, early)) in
    let still =
      storm-Silent rest (saved_quietly args later rule a) rule device
        (with_value args.value (message_or args.message a.message) later.now a) about.1
        (rw (← slot, ← about.0.1) (open_alerts-quiet args later rule a one')) told
        (omega (arith, early)) in
    rw quiet (ground (arith, still))
