-- ===== src/Alerts/Services/Dedup.antt =====
-- De-duplication of alerts: the table while `raise_alert` works on it.
use robotics_io_t_smart_auto.Base.{
  ℕ, ◌≤◌, ◌≡◌, sym, ap, ◌∙◌, inl, inr, true, Option, none, List, [], ◌∷◌, ◌++◌, arith, Bool-cases,
  same_ref_iff, length, count_where, count-append, length-select, count-le-length, ok,
}
use robotics_io_t_smart_auto.Alerts.Models.{Alert}
use robotics_io_t_smart_auto.Alerts.Services.Cases.{
  slot_rule, slot_device, open_alerts, inserted, Raised, raise_alert_cases,
}
use robotics_io_t_smart_auto.Alerts.Services.Keys.{
  key_of, keys, key_open_for, keys-append, count-keys, keys-announce, keys-refresh,
}
use robotics_io_t_smart_auto.Alerts.Services.Raise.{
  RaiseArgs, is_open_for, alert_row, announce, raise_alert,
}
use robotics_io_t_smart_auto.World.{World}

-- The rows that `Alert.objects` shows hold at most one open alert for each rule and device.
pub record OpenUnique (alerts : List Alert) : Type 0 where
  pub at : (rule device : Option ℕ) → count_where (is_open_for rule device) alerts ≤ 1

-- Alerts with the same keys are as unique.
OpenUnique-keys : (xs ys : List Alert) → keys xs ≡ keys ys → OpenUnique ys → OpenUnique xs
OpenUnique-keys xs ys e u = record {
  at = λ rule device. omega (
    arith,
    u.at rule device,
    count-keys rule device xs,
    count-keys rule device ys,
    ap (count_where (key_open_for rule device)) e,
  );
}

module _ (args : RaiseArgs) (w : World) where
  abbrev row : Alert
  row = alert_row args w

  -- the table that an insertion leaves
  keys-created :
      keys (announce args row (inserted args w)).1.alerts ≡ keys w.alerts ++ key_of row ∷ []
  keys-created = keys-announce args row (inserted args w) ∙ keys-append w.alerts (row ∷ [])

  row_slot :
      (rule device : Option ℕ)
      → is_open_for rule device row ≡ true
      → (slot_rule args ≡ rule) × (slot_device args ≡ device)
  row_slot rule device h =
      ground (arith, same_ref_iff (slot_rule args) rule, same_ref_iff (slot_device args) device)

  free_count :
      (rule device : Option ℕ)
      → open_alerts args w ≡ []
      → slot_rule args ≡ rule
      → slot_device args ≡ device
      → count_where (is_open_for rule device) w.alerts ≡ 0
  free_count rule device free e f =
      sym (length-select (is_open_for rule device) w.alerts) ∙ rw (← e, ← f) (ap length free)

  -- an insertion takes only a free slot
  pub OpenUnique-inserted :
      open_alerts args w ≡ [] → OpenUnique w.alerts → OpenUnique (w.alerts ++ row ∷ [])
  OpenUnique-inserted free u = record {
    at = λ rule device.
        let split = count-append (is_open_for rule device) w.alerts (row ∷ []) in
        elim (Bool-cases (is_open_for rule device row)) [
          | inl mine ↦
              let (e, f) = row_slot rule device mine in
              omega (
                arith,
                split,
                free_count rule device free e f,
                count-le-length (is_open_for rule device) (row ∷ []),
              )
          | inr other ↦ ground (arith, split, other, u.at rule device)
        ];
  }

-- Raising an alert keeps at most one open alert for each rule and device.
pub raise_alert-OpenUnique :
    (args : RaiseArgs) (w : World) → OpenUnique w.alerts → OpenUnique (raise_alert args w).1.alerts
raise_alert-OpenUnique args w u = elim (raise_alert_cases args w) [
  | Raised.created free _ e ↦ rw e (
      OpenUnique-keys _ (w.alerts ++ row args w ∷ [])
        (keys-announce args (row args w) (inserted args w)) (OpenUnique-inserted args w free u))
  | Raised.blocked _ _ e ↦ rw e u
  | Raised.found a _ e ↦ rw e (OpenUnique-keys _ w.alerts (keys-refresh args a w) u)
  | Raised.ambiguous _ _ _ _ e ↦ rw e u
]

-- With at most one open alert for each slot, raising an alert never fails.
pub raise_alert_total :
    (args : RaiseArgs) (w : World)
    → OpenUnique w.alerts
    → (o : Option Alert) × ((raise_alert args w).0 ≡ ok o)
raise_alert_total args w u = elim (raise_alert_cases args w) [
  | Raised.created _ _ e ↦ (_, ap (λ r. r.0) e)
  | Raised.blocked _ _ e ↦ (none, ap (λ r. r.0) e)
  | Raised.found a _ e ↦ (_, ap (λ r. r.0) e)
  | Raised.ambiguous a b rest two e ↦ absurd (
      omega (
        arith,
        u.at (slot_rule args) (slot_device args),
        length-select (is_open_for (slot_rule args) (slot_device args)) w.alerts,
        ap length two,
      ))
]
