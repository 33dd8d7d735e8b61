-- ===== src/Alerts/Services/Verdict.antt =====
-- What the evaluation of a rule over the touched sensors of a device leaves in the alert table.
use robotics_io_t_smart_auto.Base.{
  ℕ, ◌+◌, ◌≡◌, refl, sym, ap, ◌∙◌, Bool, false, not, ◌&&◌, Option, some, List, [], ◌∷◌, arith,
  same_ref, is_none, length, count_where, count-append, length-select, count-exists, ok,
}
use robotics_io_t_smart_auto.Alerts.Models.{is_opened, Alert}
use robotics_io_t_smart_auto.Alerts.Services.Cases.{
  slot_rule, slot_device, open_alerts, inserted, Raised, raise_alert_cases,
}
use robotics_io_t_smart_auto.Alerts.Services.Dedup.{OpenUnique, raise_alert-OpenUnique}
use robotics_io_t_smart_auto.Alerts.Services.Keys.{AlertKey, keys, keys-announce, keys-refresh}
use robotics_io_t_smart_auto.Alerts.Services.Notify.{is_alive}
use robotics_io_t_smart_auto.Alerts.Services.Raise.{
  RaiseArgs, holds_slot, is_open_for, violates_unique, alert_row, raise_alert,
}
use robotics_io_t_smart_auto.Alerts.Services.Twice.{id-refresh, id-announce, raise_alert-HasOpen}
use robotics_io_t_smart_auto.World.{World}

-- An alert that is soft-deleted and still open: the unique constraint sees it, and no query does.
abbrev pub is_ghost : Option ℕ → Option ℕ → Alert → Bool
is_ghost rule device a = not (is_alive a.base) && holds_slot rule device a

abbrev key_ghost : Option ℕ → Option ℕ → AlertKey → Bool
key_ghost rule device k =
    not (is_none k.deleted_at)
    && (same_ref k.rule_id rule && same_ref k.device_id device && is_opened k.status)

abbrev pub NoGhost : Option ℕ → Option ℕ → List Alert → Type 0
NoGhost rule device alerts = count_where (is_ghost rule device) alerts ≡ 0

ghost_keys :
    (rule device : Option ℕ) (alerts : List Alert)
    → count_where (is_ghost rule device) alerts ≡ count_where (key_ghost rule device) (keys alerts)
ghost_keys rule device [] = refl
ghost_keys rule device (a ∷ as') = ground (arith, ghost_keys rule device as')

NoGhost-keys :
    (rule device : Option ℕ) (xs ys : List Alert)
    → keys xs ≡ keys ys
    → NoGhost rule device ys
    → NoGhost rule device xs
NoGhost-keys rule device xs ys e h =
    ghost_keys rule device xs
    ∙ ap (count_where (key_ghost rule device)) e
    ∙ sym (ghost_keys rule device ys)
    ∙ h

-- a slot is held by live open alerts and by ghosts
holds_split :
    (rule device : Option ℕ) (alerts : List Alert)
    → count_where (holds_slot rule device) alerts
      ≡ count_where (is_open_for rule device) alerts + count_where (is_ghost rule device) alerts
holds_split rule device [] = refl
holds_split rule device (a ∷ as') = ground (arith, holds_split rule device as')

-- What the evaluation of a rule needs of the table, and keeps.
pub record IsClean (rule device : Option ℕ) (alerts : List Alert) : Type 0 where
  pub unique : OpenUnique alerts
  pub no_ghost : NoGhost rule device alerts

-- With no ghost a breach has its alert: afterwards the slot has exactly one.
module _ (args : RaiseArgs) (w : World)
    (clean : IsClean (slot_rule args) (slot_device args) w.alerts) where
  abbrev slot : Alert → Bool
  slot = is_open_for (slot_rule args) (slot_device args)

  not_blocked :
      open_alerts args w ≡ [] → violates_unique (slot_rule args) (slot_device args) w.alerts ≡ false
  unfolding violates_unique
  not_blocked free =
      let none_open : count_where slot w.alerts ≡ 0 =
        sym (length-select slot w.alerts) ∙ ap length free in
      let none_held : count_where (holds_slot (slot_rule args) (slot_device args)) w.alerts ≡ 0 =
        omega (
          arith,
          holds_split (slot_rule args) (slot_device args) w.alerts,
          none_open,
          clean.no_ghost,
        ) in
      ground
        (arith, count-exists (holds_slot (slot_rule args) (slot_device args)) w.alerts none_held)

  pub raise_alert-one : (a : Alert) × ((raise_alert args w).0 ≡ ok (some a))
  raise_alert-one = elim (raise_alert_cases args w) [
    | Raised.created _ _ e ↦ (_, ap (λ r. r.0) e ∙ ap ok (id-announce args w))
    | Raised.blocked free bad _ ↦ ground (arith, not_blocked free, bad)
    | Raised.found a _ e ↦ let (b, h, _) = id-refresh args w a in (b, ap (λ r. r.0) e ∙ ap ok h)
    | Raised.ambiguous a b rest two e ↦ absurd (
        omega (
          arith,
          clean.unique.at (slot_rule args) (slot_device args),
          length-select slot w.alerts,
          ap length two,
        ))
  ]

  pub count-raise_alert : count_where slot (raise_alert args w).1.alerts ≡ 1
  count-raise_alert =
      let (a, h) = raise_alert-one in
      let (b, one, _) = raise_alert-HasOpen args w h in
      sym (length-select slot (raise_alert args w).1.alerts) ∙ ap length one

  pub raise_alert-IsClean :
      IsClean (slot_rule args) (slot_device args) (raise_alert args w).1.alerts
  raise_alert-IsClean = record {
    unique = raise_alert-OpenUnique args w clean.unique;
    no_ghost = elim (raise_alert_cases args w) [
      | Raised.created _ _ e ↦ rw e (
          NoGhost-keys (slot_rule args) (slot_device args) _ (inserted args w).alerts
            (keys-announce args (alert_row args w) (inserted args w))
            (count-append (is_ghost (slot_rule args) (slot_device args)) w.alerts
                (alert_row args w ∷ [])
              ∙ omega (arith, clean.no_ghost)))
      | Raised.blocked _ _ e ↦ rw e clean.no_ghost
      | Raised.found a _ e ↦ rw e (
          NoGhost-keys (slot_rule args) (slot_device args) _ w.alerts (keys-refresh args a w)
            clean.no_ghost)
      | Raised.ambiguous _ _ _ _ e ↦ rw e clean.no_ghost
    ];
  }
