-- ===== src/Telemetry/Services/Liveness.antt =====
-- The first part of `ingest_payload` of apps/telemetry/services.py: the device of the payload, its
-- instant, and the columns that the batch updates.
use robotics_io_t_smart_auto.Base.{
  ℕ, String, ◌&&◌, Option, none, some, List, [], ◌∷◌, ◌++◌, str_eq, if◌then◌else◌, is_some, first?,
  whole, flt_eq, does_not_exist, value_error, type_error, key_error, attribute_error, Outcome, ok,
  fail, ◌>>=◌,
}
use robotics_io_t_smart_auto.Alerts.Services.Notify.{is_alive}
use robotics_io_t_smart_auto.Core.Codec.{Codec}
use robotics_io_t_smart_auto.Core.Json.{Json, Items, Fields, get}
use robotics_io_t_smart_auto.Devices.Models.{DeviceStatus, Device, wakes}
use robotics_io_t_smart_auto.Devices.Signals.{DeviceField}
use robotics_io_t_smart_auto.World.{World}

module _ (codec : Codec) where
  -- payload["serial"], as the text that the query compares
  abbrev pub serial_of : Fields → Outcome String
  serial_of payload = elim (get "serial" payload) [
    | none ↦ fail key_error
    | some (Json.str s) ↦ ok s
    | some Json.null ↦ fail does_not_exist
    | some j ↦ ok (codec.str_of j)
  ]

  -- payload.get("time") or timezone.now(): a text is parsed, and what is no datetime is refused
  -- when the device is saved
  abbrev pub stamp_of : ℕ → Fields → Outcome ℕ
  stamp_of now payload = elim (get "time" payload) [
    | none ↦ ok now
    | some Json.null ↦ ok now
    | some (Json.bool b) ↦ if b then fail type_error else ok now
    | some (Json.num x) ↦ if flt_eq x (whole 0) then ok now else fail type_error
    | some (Json.str s) ↦
        if str_eq s ""
        then ok now
        else elim (codec.parse_time s) [ none ↦ fail value_error | some t ↦ ok t ]
    | some (Json.arr Items.nil) ↦ ok now
    | some (Json.obj Fields.end) ↦ ok now
    | some j ↦ fail type_error
  ]

  -- A column that is present in the payload, or the one that the device has.
  abbrev pub column {ℓ} : {A : Type ℓ} → (Json → Outcome A) → Option Json → A → Outcome A
  column convert none old = ok old
  column convert (some j) old = convert j

  -- payload.get("location") or {}: a dictionary, or nothing
  abbrev pub location_of : Fields → Fields
  location_of payload = elim (get "location" payload) [ some (Json.obj fs) ↦ fs | _ ↦ Fields.end ]

  -- the assignments of the position, where both "lat" and "lon" are given
  abbrev pub place : Fields → Device → Outcome Device
  place loc device =
      if is_some (get "lat" loc) && is_some (get "lon" loc)
      then (do
        lat ← column codec.float_column (get "lat" loc) none
        lon ← column codec.float_column (get "lon" loc) none
        alt ← column codec.float_column (get "alt" loc) none
        ok (record device { latitude = lat; longitude = lon; altitude = alt }))
      else ok device

  -- the device as it is before its save
  unfoldable pub seen_device : ℕ → Fields → Device → Outcome Device
  seen_device ts payload device = do
    battery ← column codec.float_column (get "battery_level" payload) device.battery_level
    signal ← column codec.int_column (get "signal_strength" payload) device.signal_strength
    place (location_of payload) (record device {
      last_seen = some ts;
      status = if wakes device.status then DeviceStatus.online else device.status;
      battery_level = battery;
      signal_strength = signal;
    })

  abbrev pub when_some : Option Json → List DeviceField → List DeviceField
  when_some none fs = []
  when_some (some _) fs = fs

  -- update_fields
  unfoldable pub seen_fields : Fields → List DeviceField
  seen_fields payload =
      DeviceField.last_seen
      ∷ DeviceField.status
      ∷ (when_some (get "battery_level" payload) (DeviceField.battery_level ∷ [])
          ++ (when_some (get "signal_strength" payload) (DeviceField.signal_strength ∷ [])
              ++ (if is_some (get "lat" (location_of payload))
                    && is_some (get "lon" (location_of payload))
                  then DeviceField.latitude ∷ DeviceField.longitude ∷ DeviceField.altitude ∷ []
                  else [])))

  -- payload.get("readings", {}).items()
  abbrev pub items_of : Fields → List (String × Json)
  items_of Fields.end = []
  items_of (Fields.field k v rest) = (k, v) ∷ items_of rest

  abbrev pub readings_of : Fields → Outcome (List (String × Json))
  readings_of payload = elim (get "readings" payload) [
    | none ↦ ok []
    | some (Json.obj fs) ↦ ok (items_of fs)
    | some j ↦ fail attribute_error
  ]

-- Device.objects.get(serial=serial)
unfoldable pub find_device : String → World → Outcome Device
find_device serial w = elim (first? (λ d. is_alive d.base && str_eq d.serial serial) w.devices) [
  | none ↦ fail does_not_exist
  | some d ↦ ok d
]

-- What the payload determines before anything is written: the device to save, and the instant.
pub record Plan : Type 0 where
  pub serial : String
  pub device : Device
  pub ts : ℕ

unfoldable pub plan : Codec → Fields → World → Outcome Plan
unfolding find_device seen_device
plan codec payload w = do
  serial ← serial_of codec payload
  device ← find_device serial w
  ts ← stamp_of codec w.now payload
  seen ← seen_device codec ts payload device
  ok (record { serial = serial; device = seen; ts = ts })
