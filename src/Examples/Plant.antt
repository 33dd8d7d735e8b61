-- ===== src/Examples/Plant.antt =====
-- The data of the tests: a plant with one press, its sensor, a rule and a few rows.
use robotics_io_t_smart_auto.Base.{
  true, false, none, some, [], ◌∷◌, seconds, pos, negsuc, whole, type_error, ok, fail,
}
use robotics_io_t_smart_auto.Accounts.Models.{Role, User, DevicePermission}
use robotics_io_t_smart_auto.Alerts.Models.{
  Severity, Source, Operator, AlertRule, Kind, NotificationChannel, Notification,
}
use robotics_io_t_smart_auto.Core.Codec.{Codec}
use robotics_io_t_smart_auto.Core.Json.{Json, Items, Fields}
use robotics_io_t_smart_auto.Core.Models.{new_base}
use robotics_io_t_smart_auto.Devices.Models.{
  DeviceType, DeviceStatus, Device, CommandStatus, DeviceCommand,
}
use robotics_io_t_smart_auto.Telemetry.Models.{SensorType, Sensor, Reading}
use robotics_io_t_smart_auto.World.{World}

-- a stand-in for the conversions of Python and Django
abbrev pub plain_codec : Codec
plain_codec = record {
  parse_float = λ _. none;
  parse_time = λ _. none;
  str_of = λ _. "value";
  float_column = λ j. elim j [ Json.num x ↦ ok (some x) | _ ↦ fail type_error ];
  int_column = λ _. ok (some (negsuc 94));
  text_column = λ j. elim j [ Json.str s ↦ ok s | _ ↦ fail type_error ];
  ip_column = λ _. ok none;
  uuid_column = λ _. some 40;
}

abbrev pub engineer : User
engineer = record {
  id = 2;
  email = "eng@plant.example";
  first_name = "Ada";
  last_name = "B";
  organization_id = some 1;
  role = Role.engineer;
  phone = "";
  avatar = none;
  is_service_account = false;
  is_active = true;
  is_staff = false;
  is_superuser = false;
}

abbrev pub viewer : User
viewer = record engineer { id = 3; email = "view@plant.example"; role = Role.viewer }

abbrev pub grant : DevicePermission
grant = record {
  id = 4;
  created_at = 0;
  updated_at = 0;
  user_id = 3;
  device_id = 10;
  can_control = true;
  granted_by = none;
  expires_at = some 1;
}

abbrev pub press : Device
press = record {
  base = new_base 10 0;
  organization_id = 1;
  group = none;
  name = "Press";
  serial = "PRS-1";
  device_type = DeviceType.robot;
  status = DeviceStatus.online;
  ip_address = none;
  firmware_version = "1.0";
  model_number = "P";
  manufacturer = "M";
  last_seen = some 0;
  battery_level = some (whole 12);
  signal_strength = some (negsuc 94);
  health_score = whole 100;
  latitude = none;
  longitude = none;
  altitude = none;
  capabilities =
      Fields.field "commands" (Json.arr (Items.cons (Json.str "stop") Items.nil)) Fields.end;
  metadata = Json.null;
  auth_token_hash = "";
  service_account = none;
}

abbrev pub thermometer : Sensor
thermometer = record {
  base = new_base 20 0;
  device_id = 10;
  name = "temp";
  key = "temp";
  sensor_type = SensorType.temperature;
  unit = "C";
  is_active = true;
  last_value = some (whole 90);
  last_value_text = "";
  last_reading_at = some 0;
  min_threshold = none;
  max_threshold = none;
  metadata = Json.null;
}

abbrev pub too_hot : AlertRule
too_hot = record {
  base = new_base 5 0;
  organization_id = 1;
  name = "too hot";
  is_active = true;
  severity = Severity.critical;
  source = Source.sensor;
  device_id = some 10;
  sensor_id = none;
  sensor_type = "";
  operator = Operator.gt;
  threshold = some (whole 80);
  for_seconds = 0;
  cooldown_seconds = 300;
  notify_channels = [];
}

abbrev pub low_battery : AlertRule
low_battery = record too_hot {
  base = new_base 6 0;
  name = "low battery";
  source = Source.battery;
  operator = Operator.lt;
  threshold = some (whole 20);
}

abbrev pub old_order : DeviceCommand
old_order = record {
  base = new_base 40 0;
  device_id = 10;
  issued_by = some 2;
  command = "stop";
  payload = Json.null;
  status = CommandStatus.queued;
  result = Json.null;
  error = "";
  sent_at = none;
  acked_at = none;
  completed_at = none;
  expires_at = some 5;
}

abbrev pub old_reading : Reading
old_reading = record {
  id = 50;
  sensor_id = 20;
  device_id = 10;
  time = 0;
  value = some (whole 70);
  value_text = "";
  value_json = none;
  quality = pos 100;
}

abbrev pub new_reading : Reading
new_reading = record old_reading { id = 51; time = seconds 7999999 }

abbrev pub inbox : NotificationChannel
inbox = record {
  base = new_base 60 0;
  organization_id = 1;
  name = "inbox";
  kind = Kind.in_app;
  is_active = true;
  config = Fields.end;
  min_severity = Severity.info;
}

abbrev pub note : Notification
note = record {
  base = new_base 70 0;
  recipient_id = 2;
  alert_id = none;
  severity = Severity.info;
  title = "hello";
  body = "";
  is_read = false;
  read_at = none;
}

abbrev pub plant : World
plant = record {
  organizations = [];
  users = engineer ∷ viewer ∷ [];
  permissions = grant ∷ [];
  groups = [];
  devices = press ∷ [];
  commands = old_order ∷ [];
  snapshots = [];
  sensors = thermometer ∷ [];
  readings = old_reading ∷ new_reading ∷ [];
  rules = too_hot ∷ low_battery ∷ [];
  alerts = [];
  channels = inbox ∷ [];
  notifications = note ∷ [];
  audit_logs = [];
  next_id = 100;
  channel_layer = true;
  broadcasts = [];
  deliveries = [];
  published = [];
  now = seconds 8000000;
  actor = none;
  ip = none;
  broker_error = none;
  base_topic = "robogrid";
}

abbrev pub offline_plant : World
offline_plant = record plant { broker_error = some "no route" }

-- a telemetry message
abbrev pub batch : Fields
batch = Fields.field "serial" (Json.str "PRS-1") (
    Fields.field "readings"
      (Json.obj (
        Fields.field "temp" (Json.num (whole 85))
          (Fields.field "mode" (Json.str "auto") Fields.end)))
      Fields.end)

-- an ack_message to a command
abbrev pub ack_message : Json
ack_message =
    Json.obj (
      Fields.field "command_id" (Json.str "c40") (Fields.field "status" (Json.str "ok") Fields.end))
