-- ===== src/Mqtt/Handlers.antt =====
-- apps/mqtt/handlers.py, and the callback of apps/mqtt/client.py that calls it. A handler takes
-- the result of `json.loads(payload)`: a value, or nothing where it raises JSONDecodeError.
use robotics_io_t_smart_auto.Base.{
  ℕ, String, Bool, true, false, not, ◌&&◌, Option, none, some, List, [], ◌∷◌, ◌++◌, str_eq, ◌==◌,
  if◌then◌else◌, lowers_to, first?, whole, flt_eq, does_not_exist, validation_error,
  attribute_error, Outcome, ok, fail, ◌>>=◌, swallow,
}
use robotics_io_t_smart_auto.Alerts.Services.Notify.{is_alive}
use robotics_io_t_smart_auto.Core.Codec.{Codec}
use robotics_io_t_smart_auto.Core.Json.{Json, Items, Fields, get}
use robotics_io_t_smart_auto.Devices.Models.{
  DeviceStatus, parse_status, Device, mark_seen, CommandStatus,
}
use robotics_io_t_smart_auto.Devices.Services.{transition_command}
use robotics_io_t_smart_auto.Devices.Signals.{DeviceField, save_device}
use robotics_io_t_smart_auto.Mqtt.Topics.{serial_from_topic, ends_with}
use robotics_io_t_smart_auto.Telemetry.Services.Ingest.{Summary, ingest_payload}
use robotics_io_t_smart_auto.Telemetry.Services.Liveness.{column, when_some}
use robotics_io_t_smart_auto.World.{World}

-- data.setdefault("serial", serial)
abbrev pub with_serial : String → Fields → Fields
with_serial serial fs = elim (get "serial" fs) [
  | none ↦ Fields.field "serial" (Json.str serial) fs
  | some _ ↦ fs
]

-- `except Device.DoesNotExist`: logged and dropped
abbrev pub drop_unknown : Outcome Summary × World → Outcome (Unit {0}) × World
drop_unknown (ok _, w) = (ok tt, w)
drop_unknown (fail does_not_exist, w) = (ok tt, w)
drop_unknown (fail e, w) = (fail e, w)

-- `if not serial: return`
abbrev pub with_topic_serial :
    String → (String → World → Outcome (Unit {0}) × World) → World → Outcome (Unit {0}) × World
with_topic_serial topic f w = elim (serial_from_topic topic) [
  | none ↦ (ok tt, w)
  | some serial ↦ if str_eq serial "" then (ok tt, w) else f serial w
]

-- An object is handled; invalid JSON is dropped; a value of another kind raises AttributeError.
abbrev pub with_object :
    Option Json → (Fields → World → Outcome (Unit {0}) × World) → World → Outcome (Unit {0}) × World
with_object none f w = (ok tt, w)
with_object (some (Json.obj fs)) f w = f fs w
with_object (some _) f w = (fail attribute_error, w)

module _ (codec : Codec) where
  -- handle_telemetry
  unfoldable pub handle_telemetry : String → Option Json → World → Outcome (Unit {0}) × World
  handle_telemetry topic message = with_topic_serial topic λ serial.
      with_object message
        λ data_fields w. drop_unknown (ingest_payload codec (with_serial serial data_fields) w)

  -- the status that a heartbeat reports: that of the message if it is one, else a device that
  -- was offline or in provisioning is online
  abbrev pub reported_status : Fields → Option DeviceStatus
  reported_status fs = elim (get "status" fs) [ some (Json.str s) ↦ parse_status s | _ ↦ none ]

  abbrev pub apply_status : ℕ → Option DeviceStatus → Device → Device
  apply_status now (some status) device = record device { last_seen = some now; status = status }
  apply_status now none device = mark_seen now device

  -- the assignments of handle_status, with the conversions of the save
  unfoldable pub reported_device : ℕ → Fields → Device → Outcome Device
  reported_device now fs device = do
    battery ← column codec codec.float_column (get "battery_level" fs) device.battery_level
    signal ← column codec codec.int_column (get "signal_strength" fs) device.signal_strength
    firmware ← column codec codec.text_column (get "firmware_version" fs) device.firmware_version
    ip ← column codec codec.ip_column (get "ip_address" fs) device.ip_address
    ok (record (apply_status now (reported_status fs) device) {
      battery_level = battery;
      signal_strength = signal;
      firmware_version = firmware;
      ip_address = ip;
    })

  -- the list `fields`
  unfoldable pub reported_fields : Fields → List DeviceField
  reported_fields fs =
      DeviceField.last_seen
      ∷ DeviceField.status
      ∷ (when_some codec (get "battery_level" fs) (DeviceField.battery_level ∷ [])
          ++ (when_some codec (get "signal_strength" fs) (DeviceField.signal_strength ∷ [])
              ++ (when_some codec (get "firmware_version" fs) (DeviceField.firmware_version ∷ [])
                  ++ when_some codec (get "ip_address" fs) (DeviceField.ip_address ∷ []))))

  abbrev pub report_status : String → Fields → World → Outcome (Unit {0}) × World
  report_status serial fs w =
      elim (first? (λ d. is_alive d.base && str_eq d.serial serial) w.devices) [
        | none ↦ (ok tt, w)
        | some device ↦ elim (reported_device w.now fs device) [
          | fail e ↦ (fail e, w)
          | ok d ↦ (ok tt, save_device d (reported_fields fs) w)
        ]
      ]

  -- handle_status
  unfoldable pub handle_status : String → Option Json → World → Outcome (Unit {0}) × World
  unfolding reported_device reported_fields
  handle_status topic message =
      with_topic_serial topic λ serial. with_object message (report_status serial)

  -- status_map, with its default
  unfoldable pub result_status : String → CommandStatus
  result_status s =
      if lowers_to s "ack"
      then CommandStatus.acked
      else if lowers_to s "acknowledged"
      then CommandStatus.acked
      else if lowers_to s "ok"
      then CommandStatus.completed
      else if lowers_to s "completed"
      then CommandStatus.completed
      else if lowers_to s "done"
      then CommandStatus.completed
      else if lowers_to s "error"
      then CommandStatus.failed
      else if lowers_to s "failed"
      then CommandStatus.failed
      else CommandStatus.acked

  -- str(data.get("status", ""))
  abbrev pub status_text : Fields → String
  status_text fs = elim (get "status" fs) [
    | none ↦ ""
    | some (Json.str s) ↦ s
    | some j ↦ codec.str_of j
  ]

  -- data.get("result"), where null is no result
  abbrev pub result_of : Fields → Option Json
  result_of fs = elim (get "result" fs) [ some Json.null ↦ none | other ↦ other ]

  -- what Python takes for false, as in `if not command_id: return`
  abbrev pub is_falsy : Json → Bool
  is_falsy Json.null = true
  is_falsy (Json.bool b) = not b
  is_falsy (Json.num x) = flt_eq x (whole 0)
  is_falsy (Json.str s) = str_eq s ""
  is_falsy (Json.arr Items.nil) = true
  is_falsy (Json.obj Fields.end) = true
  is_falsy _ = false

  -- data.get("error", ""), which is left where it is false; what is no text is stored as its text
  abbrev pub error_of : Fields → String
  error_of fs = elim (get "error" fs) [
    | none ↦ ""
    | some (Json.str s) ↦ s
    | some j ↦ if is_falsy j then "" else codec.str_of j
  ]

  abbrev pub complete : ℕ → Fields → World → Outcome (Unit {0}) × World
  complete id fs w = elim (first? (λ c. is_alive c.base && c.id == id) w.commands) [
    | none ↦ (ok tt, w)
    | some cmd ↦ (
      ok tt,
      transition_command cmd (result_status (status_text fs)) (result_of fs) (error_of fs) w,
    )
  ]

  abbrev pub apply_result : Fields → World → Outcome (Unit {0}) × World
  apply_result fs w = elim (get "command_id" fs) [
    | none ↦ (ok tt, w)
    | some j ↦ if is_falsy j then (ok tt, w) else elim (codec.uuid_column j) [
      | none ↦ (fail validation_error, w)
      | some id ↦ complete id fs w
    ]
  ]

  -- handle_result: the topic plays no part
  unfoldable pub handle_result : String → Option Json → World → Outcome (Unit {0}) × World
  unfolding result_status
  handle_result topic message = with_object message apply_result

  -- dispatch
  unfoldable pub dispatch : String → Option Json → World → Outcome (Unit {0}) × World
  unfolding handle_telemetry handle_status handle_result
  dispatch topic message =
      if ends_with "/telemetry" topic
      then handle_telemetry topic message
      else if ends_with "/status" topic
      then handle_status topic message
      else if ends_with "/results" topic
      then handle_result topic message
      else (λ w. (ok tt, w))

  -- MQTTBridge._on_message: no exception leaves the callback
  unfoldable pub on_message : String → Option Json → World → World
  unfolding dispatch
  on_message topic message w = swallow (dispatch topic message w)
