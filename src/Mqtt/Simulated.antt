-- ===== src/Mqtt/Simulated.antt =====
-- The telemetry of the simulated device, taken in by the bridge.
use robotics_io_t_smart_auto.Base.{
  ℕ, String, ◌≡◌, refl, sym, ap, ◌∙◌, subst, true, false, ◌&&◌, Option, none, some, List, [], ◌∷◌,
  ◌++◌, map, arith, str_eq, if◌then◌else◌, ℤ, first?, count_where, All, Float, ok, ◌>>=◌, ok_eq,
  bind-at,
}
use robotics_io_t_smart_auto.Alerts.Services.Notify.{is_alive}
use robotics_io_t_smart_auto.Core.Codec.{Codec}
use robotics_io_t_smart_auto.Core.Columns.{fits_column}
use robotics_io_t_smart_auto.Core.Json.{Json, Fields}
use robotics_io_t_smart_auto.Devices.Models.{DeviceStatus, Device, wakes}
use robotics_io_t_smart_auto.Devices.Saves.{written}
use robotics_io_t_smart_auto.Devices.Signals.{DeviceField}
use robotics_io_t_smart_auto.Mqtt.Arrival.{NoPlus, replace_plus-telemetry_sub, on_message-ingested}
use robotics_io_t_smart_auto.Mqtt.Handlers.{on_message}
use robotics_io_t_smart_auto.Mqtt.RoundTrip.{NoSlash}
use robotics_io_t_smart_auto.Mqtt.Simulator.{
  Draws, simulated_readings, simulated_payload, publish_telemetry,
}
use robotics_io_t_smart_auto.Mqtt.Topics.{split}
use robotics_io_t_smart_auto.Telemetry.Models.{Sensor}
use robotics_io_t_smart_auto.Telemetry.Naming.{sensor_named}
use robotics_io_t_smart_auto.Telemetry.Redelivery.{Content, content_of}
use robotics_io_t_smart_auto.Telemetry.Returns.{is_deleted_of, IsStorable, ingest_payload-returns}
use robotics_io_t_smart_auto.Telemetry.Rounds.{wanted}
use robotics_io_t_smart_auto.Telemetry.Services.Coerce.{numeric_sample, is_huge, buckets, coerce}
use robotics_io_t_smart_auto.Telemetry.Services.Ingest.{key_width, ingest_payload}
use robotics_io_t_smart_auto.Telemetry.Services.Liveness.{
  seen_device, seen_fields, items_of, find_device, Plan, plan,
}
use robotics_io_t_smart_auto.Telemetry.Stored.{ingest_payload-stored}
use robotics_io_t_smart_auto.World.{World}

-- what the columns of the device make of the numbers of a message
pub record Converts (codec : Codec) (x : Draws) (level : Option ℤ) : Type 0 where
  pub numbers : (y : Float) → codec.float_column (Json.num y) ≡ ok (some y)
  pub signal : codec.int_column (Json.num x.signal) ≡ ok level

-- the device after the message
abbrev pub reporting : ℕ → Draws → Option ℤ → Device → Device
reporting now x level row = record row {
  last_seen = some now;
  status = if wakes row.status then DeviceStatus.online else row.status;
  battery_level = some x.battery;
  signal_strength = level;
  latitude = some x.lat;
  longitude = some x.lon;
  altitude = none;
}

-- the columns that the message updates
abbrev pub reported_columns : List DeviceField
reported_columns =
    DeviceField.last_seen ∷ DeviceField.status ∷ DeviceField.battery_level
    ∷ DeviceField.signal_strength ∷ DeviceField.latitude ∷ DeviceField.longitude
    ∷ DeviceField.altitude ∷ []

-- the reading of a channel, for the device's sensor with the key of the channel
abbrev pub measured : List Sensor → ℕ → ℕ → String × Float → Content
measured sensors device_id ts m = record {
  sensor_id = sensor_named sensors device_id m.0;
  device_id = device_id;
  time = ts;
  value = some m.1;
  value_text = "";
  value_json = none;
}

-- the four channels of the message
abbrev pub measurements : Draws → List (String × Float)
measurements x =
    ("temp_c", x.temp_c)
    ∷ ("humidity", x.humidity)
    ∷ ("motion", x.motion)
    ∷ ("vibration", x.vibration)
    ∷ []

-- What one message of the simulated device does.
pub record Arrived (x : Draws) (level : Option ℤ) (row : Device) (w w' : World) : Type 0 where
  pub readings :
      map content_of w'.readings
      ≡ map content_of w.readings ++ map (measured w'.sensors row.id w.now) (measurements x)
  pub devices : w'.devices ≡ (written (reporting w.now x level row) reported_columns w).devices

module _ (codec : Codec) (serial : String) (x : Draws) (level : Option ℤ) (w : World)
    (row : Device) where
  abbrev message : Fields
  message = simulated_payload serial x

  abbrev pub simulated_plan : Plan
  simulated_plan = record { serial = serial; device = reporting w.now x level row; ts = w.now }

  seen_device-simulated :
      Converts codec x level
      → seen_device codec w.now message row ≡ ok (reporting w.now x level row)
  unfolding seen_device
  seen_device-simulated c =
      rw (c.numbers x.battery, c.signal, c.numbers x.lat, c.numbers x.lon) refl

  find_device-simulated :
      first? (λ d. is_alive d.base && str_eq d.serial serial) w.devices ≡ some row
      → find_device serial w ≡ ok row
  unfolding find_device
  find_device-simulated found = ground (arith, found)

  pub plan-simulated :
      Converts codec x level
      → first? (λ d. is_alive d.base && str_eq d.serial serial) w.devices ≡ some row
      → plan codec message w ≡ ok simulated_plan
  unfolding plan
  plan-simulated c found =
      bind-at (find_device serial w)
        (λ d. seen_device codec w.now message d >>= λ seen.
          ok (record { serial = serial; device = seen; ts = w.now }))
        row (find_device-simulated found)
      ∙ bind-at (seen_device codec w.now message row)
          (λ seen. ok (record { serial = serial; device = seen; ts = w.now }))
          (reporting w.now x level row) (seen_device-simulated c)

  -- a number below the limit of float() on a short key
  number-IsStorable :
      (key : String) (y : Float)
      → fits_column key_width key ≡ true
      → is_huge y ≡ false
      → IsStorable codec (key, Json.num y)
  unfolding coerce fits_column
  number-IsStorable key y fits small = record {
    sample = numeric_sample y;
    key_fits = fits;
    converted = rw small refl;
    text_fits = refl;
    json_fits = refl;
  }

  pub readings-IsStorable :
      All (λ m. is_huge m.1 ≡ false) (measurements x)
      → All (IsStorable codec) (items_of codec (simulated_readings x))
  unfolding fits_column
  readings-IsStorable (a, (b, (c, (d, _)))) = (
    number-IsStorable "temp_c" x.temp_c refl a,
    (
      number-IsStorable "humidity" x.humidity refl b,
      (
        number-IsStorable "motion" x.motion refl c,
        (number-IsStorable "vibration" x.vibration refl d, tt),
      ),
    ),
  )

  simulated-Arrived :
      Converts codec x level
      → All (λ m. is_huge m.1 ≡ false) (measurements x)
      → first? (λ d. is_alive d.base && str_eq d.serial serial) w.devices ≡ some row
      → count_where (is_deleted_of row.id) w.sensors ≡ 0
      → Arrived x level row w (ingest_payload codec message w).1
  unfolding seen_fields buckets
  simulated-Arrived c small found clean =
      let after = (ingest_payload codec message w).1 in
      let planned = plan-simulated c found in
      let returned =
        ingest_payload-returns codec message w simulated_plan _ planned refl
          (readings-IsStorable small) clean in
      let stored = ingest_payload-stored codec message w _ returned in
      let same : stored.planned ≡ simulated_plan = ok_eq (sym stored.determined ∙ planned) in
      let items = ok_eq (sym stored.given) in
      record {
        readings =
            stored.contents
            ∙ ap
                (λ p.
                  map content_of w.readings
                  ++ wanted codec p.device p.ts after.sensors stored.items)
                same
            ∙ ap
                (λ l.
                  map content_of w.readings
                  ++ wanted codec (reporting w.now x level row) w.now after.sensors l)
                items;
        devices =
            stored.devices
            ∙ ap (λ p. (written p.device (seen_fields codec message) w).devices) same;
      }

-- For a base topic without a plus sign and without a level "devices", and a serial that is not empty
-- and has no slash: where the serial is that of a live device with no deleted sensor, the columns
-- take the numbers, and the four measured ones are below the limit of float(), a telemetry message
-- of the simulated device, taken in by the bridge, appends its four readings in order as numbers of
-- the device at this instant, each for the device's live sensor with the key of its channel; and of
-- the device rows it writes the columns of that device: seen now, ONLINE if it was OFFLINE or
-- PROVISIONING and else with its status, with the levels and the position of the message and without
-- an altitude.
pub publish_telemetry-Arrived :
    (codec : Codec) (base serial : String) (x : Draws) (level : Option ℤ) (w : World) (row : Device)
    → NoPlus base
    → NoSlash serial
    → str_eq serial "" ≡ false
    → All (λ p. str_eq p "devices" ≡ false) (split base)
    → Converts codec x level
    → All (λ m. is_huge m.1 ≡ false) (measurements x)
    → first? (λ d. is_alive d.base && str_eq d.serial serial) w.devices ≡ some row
    → count_where (is_deleted_of row.id) w.sensors ≡ 0
    → Arrived x level row w (
        on_message codec
          (publish_telemetry base serial x).0
          (some (publish_telemetry base serial x).1)
          w)
unfolding publish_telemetry
publish_telemetry-Arrived codec base serial x level w row plus plain full levels c small found
      clean =
    let message = simulated_payload serial x in
    let topic = replace_plus-telemetry_sub base serial plus in
    let taken =
      ap (λ t. on_message codec t (some (Json.obj message)) w) topic
      ∙ on_message-ingested codec base serial message (Json.str serial) w plain full levels refl in
    subst (Arrived x level row w) (sym taken)
      (simulated-Arrived codec serial x level w row c small found clean)
