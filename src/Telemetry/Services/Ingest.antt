-- ===== src/Telemetry/Services/Ingest.antt =====
-- `ingest_payload` of apps/telemetry/services.py: sensors, readings, the push and the rules. The
-- payload is the dictionary that the MQTT bridge decodes; the HTTP endpoint hands over the same
-- dictionary after validation.
use robotics_io_t_smart_auto.Base.{
  ℕ, ◌+◌, String, Bool, true, not, ◌&&◌, none, some, List, [], ◌∷◌, ◌++◌, map, str_eq, ◌==◌,
  if◌then◌else◌, get_or, pos, length, first?, exists_where, update_where, integrity_error,
  data_error, Outcome, ok, fail, and_then, swallow,
}
use robotics_io_t_smart_auto.Alerts.Services.Evaluate.{evaluate_device_readings}
use robotics_io_t_smart_auto.Alerts.Services.Notify.{is_alive}
use robotics_io_t_smart_auto.Core.Codec.{Codec}
use robotics_io_t_smart_auto.Core.Columns.{fits_column, storable_column}
use robotics_io_t_smart_auto.Core.Json.{Json, Fields}
use robotics_io_t_smart_auto.Core.Models.{new_base}
use robotics_io_t_smart_auto.Core.Realtime.{broadcast}
use robotics_io_t_smart_auto.Devices.Models.{Device}
use robotics_io_t_smart_auto.Devices.Signals.{save_device}
use robotics_io_t_smart_auto.Telemetry.Models.{Sensor, Reading}
use robotics_io_t_smart_auto.Telemetry.Services.Coerce.{Sample, coerce, guess_type}
use robotics_io_t_smart_auto.Telemetry.Services.Liveness.{seen_fields, readings_of, Plan, plan}
use robotics_io_t_smart_auto.World.{Group, Live, Payload, World}

-- a live sensor of the device with this key: an entry of the dictionary `sensors`
abbrev pub has_key : ℕ → String → Sensor → Bool
has_key device_id key s = is_alive s.base && s.device_id == device_id && str_eq s.key key

-- the constraint uq_sensor_device_key, over all rows
abbrev pub takes_key : ℕ → String → Sensor → Bool
takes_key device_id key s = s.device_id == device_id && str_eq s.key key

-- the row of an unknown channel
abbrev pub new_sensor : Device → String → World → Sensor
new_sensor device key w = record {
  base = new_base w.next_id w.now;
  device_id = device.id;
  name = key;
  key = key;
  sensor_type = guess_type key;
  unit = "";
  is_active = true;
  last_value = none;
  last_value_text = "";
  last_reading_at = none;
  min_threshold = none;
  max_threshold = none;
  metadata = Json.obj Fields.end;
}

-- max_length of Sensor.key, and of Sensor.last_value_text and Reading.value_text
abbrev pub key_width : ℕ
key_width = 64

abbrev pub text_width : ℕ
text_width = 255

-- sensors.get(key), or Sensor.objects.create(...)
unfoldable pub resolve_sensor : Device → String → World → Outcome Sensor × World
unfolding fits_column
resolve_sensor device key w = elim (first? (has_key device.id key) w.sensors) [
  | some s ↦ (ok s, w)
  | none ↦
      if not (fits_column key_width key)
      then (fail data_error, w)
      else if exists_where (takes_key device.id key) w.sensors
      then (fail integrity_error, w)
      else (
        ok (new_sensor device key w),
        record w { sensors = w.sensors ++ new_sensor device key w ∷ []; next_id = w.next_id + 1 },
      )
]

-- the columns that sensor.save(update_fields=[...]) writes
abbrev pub with_sample : Sample → ℕ → Sensor → Sensor
with_sample x ts s = record s {
  last_value = x.numeric;
  last_value_text = get_or x.text "";
  last_reading_at = some ts;
}

-- numeric if numeric is not None else (text or js)
abbrev pub live_of : Sample → Live
live_of x = elim x.numeric [
  | some n ↦ Live.number n
  | none ↦ elim x.text [
    | none ↦ Live.json x.json
    | some s ↦ if str_eq s "" then Live.json x.json else Live.text s
  ]
]

-- A reading that waits for `bulk_create`.
pub record Draft : Type 0 where
  pub sensor_id : ℕ
  pub sample : Sample
  pub live : String × Live

-- sensor.save(update_fields=[...])
unfoldable pub store_sample : Sensor → Sample → ℕ → World → Outcome (Unit {0}) × World
unfolding fits_column
store_sample sensor x ts w =
    if fits_column text_width (get_or x.text "")
    then (
      ok tt,
      record w { sensors = update_where (λ s. s.id == sensor.id) (with_sample x ts) w.sensors },
    )
    else (fail data_error, w)

abbrev pub draft : Sensor → String → Sample → Draft
draft sensor key x = record { sensor_id = sensor.id; sample = x; live = (key, live_of x) }

-- one round of the loop
unfoldable pub store_item : Codec → Device → ℕ → String → Json → World → Outcome Draft × World
unfolding resolve_sensor coerce store_sample
store_item codec device ts key raw w = and_then (resolve_sensor device key w) λ sensor w1.
    and_then (coerce codec raw, w1)
      λ x w2. and_then (store_sample sensor x ts w2) λ saved w3. (ok (draft sensor key x), w3)

abbrev pub prepend : Draft → Outcome (List Draft) × World → Outcome (List Draft) × World
prepend d (ok ds, w) = (ok (d ∷ ds), w)
prepend d (fail e, w) = (fail e, w)

-- for key, raw in readings_in.items()
unfoldable pub store_samples :
    Codec → Device → ℕ → List (String × Json) → World → Outcome (List Draft) × World
unfolding store_item
store_samples codec device ts [] w = (ok [], w)
store_samples codec device ts ((key, raw) ∷ rest) w =
    and_then (store_item codec device ts key raw w)
      λ d w'. prepend d (store_samples codec device ts rest w')

-- the row of a draft
abbrev pub reading_row : ℕ → Device → ℕ → Draft → Reading
reading_row id device ts d = record {
  id = id;
  sensor_id = d.sensor_id;
  device_id = device.id;
  time = ts;
  value = d.sample.numeric;
  value_text = get_or d.sample.text "";
  value_json = d.sample.json;
  quality = pos 100;
}

-- the rows of bulk_create, in order
unfoldable pub create_readings : Device → ℕ → List Draft → World → World
create_readings device ts [] w = w
create_readings device ts (d ∷ ds) w = create_readings device ts ds (record w {
  readings = w.readings ++ reading_row w.next_id device ts d ∷ [];
  next_id = w.next_id + 1;
})

-- the JSON columns of the batch
abbrev pub is_storable_draft : Draft → Bool
is_storable_draft d = storable_column d.sample.json

-- the call of bulk_create: one transaction, so that all the rows are stored or none
unfoldable pub bulk_create : Device → ℕ → List Draft → World → Outcome (Unit {0}) × World
unfolding create_readings
bulk_create device ts ds w =
    if exists_where (λ d. not (is_storable_draft d)) ds
    then (fail data_error, w)
    else (ok tt, create_readings device ts ds w)

-- what ingest_payload returns
pub record Summary : Type 0 where
  pub device : String
  pub stored : ℕ

abbrev pub live_readings : List Draft → List (String × Live)
live_readings ds = map (λ d. d.live) ds

abbrev pub drafted_sensors : List Draft → List ℕ
drafted_sensors ds = map (λ d. d.sensor_id) ds

-- the broadcast and the alert rules, whose exceptions are only logged
unfoldable pub publish_samples : Plan → List Draft → World → World
publish_samples p ds w = swallow (
    evaluate_device_readings p.device (drafted_sensors ds) (
      broadcast (Group.device_group p.device.id) "telemetry"
        (Payload.telemetry p.device.id p.serial p.ts (live_readings ds)) w))

-- the save of the device, and all that follows it
unfoldable pub carry_out : Codec → Fields → Plan → World → Outcome Summary × World
unfolding seen_fields store_samples bulk_create publish_samples
carry_out codec payload p w =
    and_then (readings_of codec payload, save_device p.device (seen_fields codec payload) w)
      λ items saved. and_then (store_samples codec p.device p.ts items saved) λ ds resolved.
        and_then (bulk_create p.device p.ts ds resolved) λ done stored.
          (ok (record { device = p.serial; stored = length ds }), publish_samples p ds stored)

-- ingest_payload
unfoldable pub ingest_payload : Codec → Fields → World → Outcome Summary × World
unfolding plan carry_out
ingest_payload codec payload w = and_then (plan codec payload w, w) (carry_out codec payload)
