-- ===== src/World.antt =====
-- The state that the program works on: the tables of the database, what it has sent to the channel
-- layer, to the task queue and to the broker, and the surroundings of the current call (the clock,
-- the request's actor and address, the broker's answer).
use robotics_io_t_smart_auto.Base.{ℕ, String, Bool, true, false, Option, List, ◌==◌, Float}
use robotics_io_t_smart_auto.Accounts.Models.{Organization, User, DevicePermission}
use robotics_io_t_smart_auto.Alerts.Models.{
  Severity, AlertRule, AlertStatus, Alert, NotificationChannel, Notification,
}
use robotics_io_t_smart_auto.Core.Json.{Json}
use robotics_io_t_smart_auto.Core.Models.{AuditLog}
use robotics_io_t_smart_auto.Devices.Models.{
  DeviceStatus, DeviceGroup, Device, CommandStatus, DeviceCommand, DeviceHealthSnapshot,
}
use robotics_io_t_smart_auto.Telemetry.Models.{Sensor, Reading}

-- Group names of core/realtime.py: device.<id>, org.<id>, user.<id> and GROUP_ALERTS.
pub data Group : Type 0 where
  device_group org_group user_group : ℕ → Group
  alerts_group : Group

abbrev pub same_group : Group → Group → Bool
same_group (Group.device_group i) (Group.device_group j) = i == j
same_group (Group.org_group i) (Group.org_group j) = i == j
same_group (Group.user_group i) (Group.user_group j) = i == j
same_group Group.alerts_group Group.alerts_group = true
same_group _ _ = false

-- What one channel of a telemetry message shows: a number, a text or a JSON value.
pub data Live : Type 0 where
  number : Float → Live
  text : String → Live
  json : Option Json → Live

-- The payloads that are broadcast, one constructor for each dictionary in the source.
pub data Payload : Type 0 where
  device_state :
      (device_id : ℕ) (serial : String) (status : DeviceStatus) (battery_level : Option Float)
      (health_score : Float) (last_seen : Option ℕ) (latitude longitude : Option Float)
      → Payload
  device_command : (command_id device_id : ℕ) (command : String) (status : CommandStatus) → Payload
  telemetry :
      (device_id : ℕ) (serial : String) (time : ℕ) (readings : List (String × Live)) → Payload
  alert_state :
      (id : ℕ) (title : String) (severity : Severity) (status : AlertStatus) (device_id : Option ℕ)
      (value : Option Float) (created_at : ℕ)
      → Payload
  notification : (alert_id : ℕ) (title : String) (severity : Severity) → Payload

-- One `group_send`.
pub record Envelope : Type 0 where
  pub group : Group
  pub event : String
  pub payload : Payload

-- One message to the broker: the topic, and the command that it carries.
pub record Publication : Type 0 where
  pub topic : String
  pub command_id : ℕ
  pub command : String
  pub payload : Json

pub record World : Type 0 where
  -- the database
  pub organizations : List Organization
  pub users : List User
  pub permissions : List DevicePermission
  pub groups : List DeviceGroup
  pub devices : List Device
  pub commands : List DeviceCommand
  pub snapshots : List DeviceHealthSnapshot
  pub sensors : List Sensor
  pub readings : List Reading
  pub rules : List AlertRule
  pub alerts : List Alert
  pub channels : List NotificationChannel
  pub notifications : List Notification
  pub audit_logs : List AuditLog
  -- the next key: it stands for `uuid4` and for the sequence of `Reading`
  pub next_id : ℕ
  -- what was sent
  pub channel_layer : Bool
  pub broadcasts : List Envelope
  pub deliveries : List (ℕ × ℕ)
  pub published : List Publication
  -- the surroundings of the call
  pub now : ℕ
  pub actor : Option ℕ
  pub ip : Option String
  pub broker_error : Option String
  -- settings.MQTT["BASE_TOPIC"]
  pub base_topic : String
