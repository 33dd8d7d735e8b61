-- ===== src/Devices/Watchdog.antt =====
-- The offline watchdog `detect_offline_devices`: the state after a sweep.
use robotics_io_t_smart_auto.Base.{
  ℕ, ◌+◌, ◌≡◌, refl, sym, ap, ◌∙◌, subst, inl, inr, true, List, [], ◌∷◌, map, arith, ◌==◌, ==_refl,
  Bool-cases, length, select, count_where, update_where, All, length-select, Outcome, ok, fail,
  ◌>>=◌,
}
use robotics_io_t_smart_auto.Alerts.Services.Dedup.{
  OpenUnique, raise_alert-OpenUnique, raise_alert_total,
}
use robotics_io_t_smart_auto.Alerts.Services.Notify.{is_listed}
use robotics_io_t_smart_auto.Alerts.Services.Raise.{
  offline_rule, offline_args, raise_device_offline_alert,
}
use robotics_io_t_smart_auto.Alerts.Services.Total.{raise_alert-SameTables}
use robotics_io_t_smart_auto.Devices.Models.{DeviceStatus, Device}
use robotics_io_t_smart_auto.Devices.Saves.{written, save_device-Quiet}
use robotics_io_t_smart_auto.Devices.Signals.{DeviceField, saved_row, save_device}
use robotics_io_t_smart_auto.Devices.Tasks.{
  is_stale, take_offline, count_round, sweep, detect_offline_devices,
}
use robotics_io_t_smart_auto.World.{World}

abbrev pub offline_of : Device → Device
offline_of d = record d { status = DeviceStatus.offline }

abbrev offline_world : Device → World → World
offline_world d w = save_device (offline_of d) (DeviceField.status ∷ []) w

-- What one round does: the row goes offline, and the alert table stays clean.
pub record Round (d : Device) (w : World) (r : Outcome (Unit {0}) × World) : Type 0 where
  pub now : r.1.now ≡ w.now
  pub devices : r.1.devices ≡ (written (offline_of d) (DeviceField.status ∷ []) w).devices
  pub total : OpenUnique w.alerts → (r.0 ≡ ok tt) × OpenUnique r.1.alerts

pub take_offline-Round : (d : Device) (w : World) → Round d w (take_offline d w)
unfolding take_offline raise_device_offline_alert
take_offline-Round d w =
    let v = offline_world d w in
    let saved = save_device-Quiet (offline_of d) (DeviceField.status ∷ []) w in
    let args = offline_args (offline_of d) (offline_rule (offline_of d) v.rules) in
    let raised = raise_alert-SameTables args v in
    record {
      now = raised.now ∙ saved.tables.now;
      devices = raised.devices ∙ saved.tables.devices;
      total = λ u.
          let clean : OpenUnique v.alerts = subst OpenUnique (sym saved.alerts) u in
          let (o, h) = raise_alert_total args v clean in
          (ap (λ r. r >>= (λ _. ok tt)) h, raise_alert-OpenUnique args v clean);
    }

-- every stale row has its key in the list
abbrev Covered : ℕ → List ℕ → List Device → Type 0
Covered now ids = All (λ r. is_stale now r ≡ true → is_listed ids r.id ≡ true)

abbrev keys_of : List Device → List ℕ
keys_of ds = map (λ d. d.id) ds

Covered-step :
    (now at : ℕ) (d : Device) (ids : List ℕ) (rows : List Device)
    → Covered now (d.id ∷ ids) rows
    → Covered now ids (
        update_where
          (λ r. r.id == d.id)
          (saved_row (offline_of d) (DeviceField.status ∷ []) at)
          rows)
unfolding is_stale
Covered-step now at d ids [] h = tt
Covered-step now at d ids (r ∷ rows) h = elim (Bool-cases (r.id == d.id)) [
  | inl mine ↦ rw mine ((λ stale. ground arith), Covered-step now at d ids rows h.1)
  | inr other ↦ rw other ((λ stale. ground (arith, h.0 stale)), Covered-step now at d ids rows h.1)
]

Covered-none :
    (now : ℕ) (rows : List Device) → Covered now [] rows → count_where (is_stale now) rows ≡ 0
Covered-none now [] h = refl
Covered-none now (r ∷ rows) h = elim (Bool-cases (is_stale now r)) [
  | inl stale ↦ cc (h.0 stale)
  | inr fine ↦ rw fine (Covered-none now rows h.1)
]

-- a sweep over `ds`, where every stale row has its key among them
record Swept (now n : ℕ) (w : World) (r : Outcome ℕ × World) : Type 0 where
  counted : OpenUnique w.alerts → (r.0 ≡ ok n) × OpenUnique r.1.alerts
  none_left : OpenUnique w.alerts → count_where (is_stale now) r.1.devices ≡ 0

count_round_ok :
    (rest : World → Outcome ℕ × World) (p : Outcome (Unit {0}) × World)
    → p.0 ≡ ok tt
    → count_round rest p ≡ ((rest p.1).0 >>= (λ k. ok (k + 1)), (rest p.1).1)
count_round_ok rest (ok _, w) h = refl
count_round_ok rest (fail e, w) h = cc

sweep_lem :
    (ds : List Device) (w : World) (now : ℕ)
    → Covered now (keys_of ds) w.devices
    → Swept now (length ds) w (sweep ds w)
unfolding sweep
sweep_lem [] w now h = record {
  counted = λ u. (refl, u);
  none_left = λ u. Covered-none now w.devices h;
}
sweep_lem (d ∷ ds) w now h =
    let round = take_offline-Round d w in
    let later = (take_offline d w).1 in
    let covered = Covered-step now w.now d (keys_of ds) w.devices h in
    let rest =
      sweep_lem ds later now (subst (Covered now (keys_of ds)) (sym round.devices) covered) in
    record {
      counted = λ u.
          let (returns, clean) = round.total u in
          let (n, clean') = rest.counted clean in
          rw (count_round_ok (sweep ds) (take_offline d w) returns)
            (ap (λ r. r >>= (λ k. ok (k + 1))) n ∙ ap ok (omega arith), clean');
      none_left = λ u.
          let (returns, clean) = round.total u in
          rw (count_round_ok (sweep ds) (take_offline d w) returns) (rest.none_left clean);
    }

Covered-cons :
    (now i : ℕ) (ids : List ℕ) (rows : List Device)
    → Covered now ids rows
    → Covered now (i ∷ ids) rows
Covered-cons now i ids [] h = tt
Covered-cons now i ids (r ∷ rows) h =
    ((λ stale. ground (arith, h.0 stale)), Covered-cons now i ids rows h.1)

Covered-select :
    (now : ℕ) (rows : List Device) → Covered now (keys_of (select (is_stale now) rows)) rows
Covered-select now [] = tt
Covered-select now (r ∷ rows) =
    let stale_keys = keys_of (select (is_stale now) rows) in
    let all_keys = keys_of (select (is_stale now) (r ∷ rows)) in
    elim (Bool-cases (is_stale now r)) [
      | inl stale ↦
          let e : all_keys ≡ r.id ∷ stale_keys = rw stale refl in
          subst (λ ids. Covered now ids (r ∷ rows)) (sym e)
            (
              (λ _. ground (arith, ==_refl r.id)),
              Covered-cons now r.id stale_keys rows (Covered-select now rows),
            )
      | inr fine ↦
          let e : all_keys ≡ stale_keys = rw fine refl in
          subst (λ ids. Covered now ids (r ∷ rows)) (sym e) ((λ stale. cc), Covered-select now rows)
    ]

-- Where there is at most one open alert for each rule and device, the watchdog raises no
-- exception and returns the number of the devices that were silent for too long; afterwards no
-- device that is ONLINE or DEGRADED is, and there is still at most one open alert for each.
pub detect_offline_devices_lem :
    (w : World)
    → OpenUnique w.alerts
    → ((detect_offline_devices w).0 ≡ ok (count_where (is_stale w.now) w.devices))
      × (count_where (is_stale w.now) (detect_offline_devices w).1.devices ≡ 0)
      × OpenUnique (detect_offline_devices w).1.alerts
unfolding detect_offline_devices
detect_offline_devices_lem w u =
    let swept =
      sweep_lem (select (is_stale w.now) w.devices) w w.now (Covered-select w.now w.devices) in
    let (n, clean) = swept.counted u in
    (n ∙ ap ok (length-select (is_stale w.now) w.devices), swept.none_left u, clean)
