-- ===== src/Mqtt/Simulator.antt =====
-- The answer of apps/mqtt/management/commands/simulate_device.py to a command, its telemetry, and the
-- message that publish_command of apps/mqtt/client.py sends. `uuid_text` is str() of a key; a message
-- arrives as the value that was sent; what the random generator gives is an argument.
use robotics_io_t_smart_auto.Base.{ℕ, String, true, get_or, Float}
use robotics_io_t_smart_auto.Core.Json.{Json, Fields, get}
use robotics_io_t_smart_auto.Mqtt.Topics.{device_topic, telemetry_sub, replace_plus}
use robotics_io_t_smart_auto.World.{Publication}

-- {"command_id": str(cmd.id), "command": cmd.command, "payload": cmd.payload}
abbrev pub command_message : (ℕ → String) → Publication → Fields
command_message uuid_text p =
    Fields.field "command_id" (Json.str (uuid_text p.command_id))
      (Fields.field "command" (Json.str p.command) (Fields.field "payload" p.payload Fields.end))

-- data.get("command_id")
abbrev pub command_id_of : Fields → Json
command_id_of message = get_or (get "command_id" message) Json.null

-- {"command_id": ..., "status": "completed", "result": {"ok": True}}
abbrev pub answer_fields : Json → Fields
answer_fields command_id = Fields.field "command_id" command_id (
    Fields.field "status" (Json.str "completed")
      (Fields.field "result" (Json.obj (Fields.field "ok" (Json.bool true) Fields.end)) Fields.end))

-- on_command: the topic and the value that the simulated device publishes
unfoldable pub on_command : (base serial : String) → Fields → String × Json
on_command base serial message =
    (device_topic base serial "results", Json.obj (answer_fields (command_id_of message)))

-- The numbers of one telemetry message, drawn and rounded.
pub record Draws : Type 0 where
  pub battery : Float
  pub signal : Float
  pub lat : Float
  pub lon : Float
  pub temp_c : Float
  pub humidity : Float
  pub motion : Float
  pub vibration : Float

abbrev pub simulated_readings : Draws → Fields
simulated_readings x = Fields.field "temp_c" (Json.num x.temp_c) (
    Fields.field "humidity" (Json.num x.humidity) (
      Fields.field "motion" (Json.num x.motion)
        (Fields.field "vibration" (Json.num x.vibration) Fields.end)))

abbrev pub simulated_location : Draws → Fields
simulated_location x =
    Fields.field "lat" (Json.num x.lat) (Fields.field "lon" (Json.num x.lon) Fields.end)

-- the dictionary `payload` of the loop
abbrev pub simulated_payload : String → Draws → Fields
simulated_payload serial x = Fields.field "serial" (Json.str serial) (
    Fields.field "battery_level" (Json.num x.battery) (
      Fields.field "signal_strength" (Json.num x.signal) (
        Fields.field "location" (Json.obj (simulated_location x))
          (Fields.field "readings" (Json.obj (simulated_readings x)) Fields.end))))

-- client.publish(telemetry_sub().replace("+", serial), json.dumps(payload))
unfoldable pub publish_telemetry : (base serial : String) → Draws → String × Json
unfolding replace_plus
publish_telemetry base serial x =
    (replace_plus serial (telemetry_sub base), Json.obj (simulated_payload serial x))
