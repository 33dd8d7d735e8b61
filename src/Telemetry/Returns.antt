-- ===== src/Telemetry/Returns.antt =====
-- That an ingestion returns: the sensors of the device are found or created, and nothing raises.
use robotics_io_t_smart_auto.Base.{
  ℕ, suc, ◌+◌, String, ◌≡◌, refl, sym, ap, ◌∙◌, subst, Bool, true, false, not, ◌&&◌, Option, none,
  some, List, [], ◌∷◌, arith, ◌==◌, get_or, length, first?, exists_where, count_where, update_where,
  All, count-append, count-update, Outcome, ok, fail, and_then, ok_eq, and_then-at,
}
use robotics_io_t_smart_auto.Alerts.Services.Notify.{is_alive}
use robotics_io_t_smart_auto.Core.Codec.{Codec}
use robotics_io_t_smart_auto.Core.Columns.{fits_column, storable_column}
use robotics_io_t_smart_auto.Core.Json.{Json, Fields}
use robotics_io_t_smart_auto.Devices.Models.{Device}
use robotics_io_t_smart_auto.Devices.Saves.{save_device-Quiet}
use robotics_io_t_smart_auto.Devices.Signals.{save_device}
use robotics_io_t_smart_auto.Telemetry.Models.{Sensor}
use robotics_io_t_smart_auto.Telemetry.Naming.{
  resolve_sensor-old, insert_sensor, resolve_sensor-absent,
}
use robotics_io_t_smart_auto.Telemetry.Services.Coerce.{Sample, coerce}
use robotics_io_t_smart_auto.Telemetry.Services.Ingest.{
  has_key, takes_key, new_sensor, key_width, text_width, resolve_sensor, with_sample, Draft,
  store_sample, draft, store_item, prepend, store_samples, is_storable_draft, bulk_create,
  carry_out, ingest_payload,
}
use robotics_io_t_smart_auto.Telemetry.Services.Liveness.{seen_fields, readings_of, Plan, plan}
use robotics_io_t_smart_auto.World.{World}

-- a deleted sensor of the device: its key is taken, and the lookup does not see it
abbrev pub is_deleted_of : ℕ → Sensor → Bool
is_deleted_of device_id s = not (is_alive s.base) && s.device_id == device_id

-- without deleted sensors, a key that the lookup does not find is free
free_key :
    (device_id : ℕ) (key : String) (rows : List Sensor)
    → count_where (is_deleted_of device_id) rows ≡ 0
    → first? (has_key device_id key) rows ≡ none
    → exists_where (takes_key device_id key) rows ≡ false
free_key device_id key [] h k = refl
free_key device_id key (s ∷ ss) h k = ground (arith, free_key device_id key ss)

-- a channel that the columns take: the key and a text are short enough, a number is no integer beyond
-- a float, and a list or dictionary is one that JSON has a notation for
pub record IsStorable (codec : Codec) (item : String × Json) : Type 0 where
  pub sample : Sample
  pub key_fits : fits_column key_width item.0 ≡ true
  pub converted : coerce codec item.1 ≡ ok sample
  pub text_fits : fits_column text_width (get_or sample.text "") ≡ true
  pub json_fits : storable_column sample.json ≡ true

-- the sensor that a channel gets
record Got (device : Device) (r : Outcome Sensor × World) : Type 0 where
  sensor : Sensor
  found : r.0 ≡ ok sensor
  none_deleted : count_where (is_deleted_of device.id) r.1.sensors ≡ 0

resolve_sensor-Got :
    (device : Device) (key : String) (w : World) (found : Option Sensor)
    → first? (has_key device.id key) w.sensors ≡ found
    → fits_column key_width key ≡ true
    → count_where (is_deleted_of device.id) w.sensors ≡ 0
    → Got device (resolve_sensor device key w)
resolve_sensor-Got device key w (some s) e fits h =
    subst (Got device) (sym (resolve_sensor-old device key w s e))
      (record { sensor = s; found = refl; none_deleted = h })
resolve_sensor-Got device key w none e fits h =
    let fresh = new_sensor device key w in
    let taken = exists_where (takes_key device.id key) w.sensors in
    let run =
      resolve_sensor-absent device key w e
      ∙ ap (λ b. insert_sensor device key w b taken) fits
      ∙ ap (insert_sensor device key w true) (free_key device.id key w.sensors h e) in
    subst (Got device) (sym run) (record {
      sensor = fresh;
      found = refl;
      none_deleted =
          count-append (is_deleted_of device.id) w.sensors (fresh ∷ []) ∙ ap (λ n. n + 0) h;
    })

-- the save of the sensor
abbrev sampled : Sensor → Sample → ℕ → World → World
sampled sensor x ts w = record w {
  sensors = update_where (λ s. s.id == sensor.id) (with_sample x ts) w.sensors;
}

store_sample-fits :
    (sensor : Sensor) (x : Sample) (ts : ℕ) (w : World)
    → fits_column text_width (get_or x.text "") ≡ true
    → store_sample sensor x ts w ≡ (ok tt, sampled sensor x ts w)
unfolding store_sample
store_sample-fits sensor x ts w fits = rw fits refl

module _ (codec : Codec) where
  -- the draft of a channel
  record ItemDrafted (device : Device) (r : Outcome Draft × World) : Type 0 where
    drafted : Draft
    found : r.0 ≡ ok drafted
    fine : is_storable_draft drafted ≡ true
    none_deleted : count_where (is_deleted_of device.id) r.1.sensors ≡ 0

  store_item-ItemDrafted :
      (device : Device) (ts : ℕ) (key : String) (raw : Json) (w : World)
      → IsStorable codec (key, raw)
      → count_where (is_deleted_of device.id) w.sensors ≡ 0
      → ItemDrafted device (store_item codec device ts key raw w)
  unfolding store_item
  store_item-ItemDrafted device ts key raw w item h =
      let r = resolve_sensor-Got device key w _ refl item.key_fits h in
      let x = item.sample in
      let v = (resolve_sensor device key w).1 in
      let run =
        and_then-at (resolve_sensor device key w)
          (λ sensor w1.
            and_then (coerce codec raw, w1)
              λ x w2.
                and_then (store_sample sensor x ts w2) λ saved w3. (ok (draft sensor key x), w3))
          r.sensor r.found
        ∙ and_then-at (coerce codec raw, v)
            (λ x w2.
              and_then (store_sample r.sensor x ts w2) λ saved w3. (ok (draft r.sensor key x), w3))
            x item.converted
        ∙ ap (λ p. and_then p λ saved w3. (ok (draft r.sensor key x), w3))
            (store_sample-fits r.sensor x ts v item.text_fits) in
      subst (ItemDrafted device) (sym run) (record {
        drafted = draft r.sensor key x;
        found = refl;
        fine = item.json_fits;
        none_deleted =
            count-update (λ s. s.id == r.sensor.id) (is_deleted_of device.id) (with_sample x ts)
              v.sensors (λ s e. refl)
            ∙ r.none_deleted;
      })

  -- every item has its draft, which the batch takes
  record Drafted (items : List (String × Json)) (r : Outcome (List Draft) × World) : Type 0 where
    drafts : List Draft
    found : r.0 ≡ ok drafts
    all : length drafts ≡ length items
    fine : exists_where (λ d. not (is_storable_draft d)) drafts ≡ false

  Drafted-prepend :
      (d : Draft) (i : String × Json) (items : List (String × Json))
      (r : Outcome (List Draft) × World)
      → is_storable_draft d ≡ true
      → Drafted items r
      → Drafted (i ∷ items) (prepend d r)
  Drafted-prepend d i items (ok ds, w) fine h = record {
    drafts = d ∷ ds;
    found = refl;
    all = ap suc (ap length (ok_eq h.found) ∙ h.all);
    fine = rw fine (ap (exists_where (λ d. not (is_storable_draft d))) (ok_eq h.found) ∙ h.fine);
  }
  Drafted-prepend d i items (fail e, w) fine h = absurd (ground (arith, h.found))

  store_samples-Drafted :
      (device : Device) (ts : ℕ) (items : List (String × Json)) (w : World)
      → All (IsStorable codec) items
      → count_where (is_deleted_of device.id) w.sensors ≡ 0
      → Drafted items (store_samples codec device ts items w)
  unfolding store_samples
  store_samples-Drafted device ts [] w fit h = record {
    drafts = [];
    found = refl;
    all = refl;
    fine = refl;
  }
  store_samples-Drafted device ts ((key, raw) ∷ items) w fit h =
      let one = store_item-ItemDrafted device ts key raw w fit.0 h in
      let next = (store_item codec device ts key raw w).1 in
      subst (Drafted ((key, raw) ∷ items))
        (sym (
          and_then-at (store_item codec device ts key raw w)
            (λ d w'. prepend d (store_samples codec device ts items w')) one.drafted one.found))
        (Drafted-prepend one.drafted (key, raw) items (store_samples codec device ts items next)
          one.fine (store_samples-Drafted device ts items next fit.1 one.none_deleted))

  bulk_create-fine :
      (device : Device) (ts : ℕ) (ds : List Draft) (w : World)
      → exists_where (λ d. not (is_storable_draft d)) ds ≡ false
      → (bulk_create device ts ds w).0 ≡ ok tt
  unfolding bulk_create
  bulk_create-fine device ts ds w h = rw h refl

  pub ingest_payload-returns :
      (payload : Fields) (w : World) (p : Plan) (items : List (String × Json))
      → plan codec payload w ≡ ok p
      → readings_of codec payload ≡ ok items
      → All (IsStorable codec) items
      → count_where (is_deleted_of p.device.id) w.sensors ≡ 0
      → (ingest_payload codec payload w).0
        ≡ ok (record { device = p.serial; stored = length items })
  unfolding ingest_payload carry_out
  ingest_payload-returns payload w p items planned given fit h =
      let saved = save_device p.device (seen_fields codec payload) w in
      let quiet = save_device-Quiet p.device (seen_fields codec payload) w in
      let looped = store_samples codec p.device p.ts items saved in
      let batch =
        store_samples-Drafted p.device p.ts items saved fit
          (ap (count_where (is_deleted_of p.device.id)) quiet.tables.sensors ∙ h) in
      ap (λ r. r.0)
        (and_then-at (plan codec payload w, w) (carry_out codec payload) p planned
          ∙ and_then-at (readings_of codec payload, saved) _ items given
          ∙ and_then-at looped _ batch.drafts batch.found
          ∙ and_then-at (bulk_create p.device p.ts batch.drafts looped.1) _ tt
              (bulk_create-fine p.device p.ts batch.drafts looped.1 batch.fine))
      ∙ ap (λ n. ok (record { device = p.serial; stored = n })) batch.all
