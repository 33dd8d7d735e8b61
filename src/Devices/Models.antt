-- ===== src/Devices/Models.antt =====
-- apps/devices/models.py: device groups, devices, commands and health snapshots.
use robotics_io_t_smart_auto.Base.{
  ℕ, String, ◌≡◌, ◌↔◌, Bool, true, false, Option, none, some, arith, str_eq, ◌==◌, if◌then◌else◌, ℤ,
  Float,
}
use robotics_io_t_smart_auto.Core.Json.{Json, Fields}
use robotics_io_t_smart_auto.Core.Models.{BaseModel}

-- class DeviceType
pub data DeviceType : Type 0 where
  robot drone sensor_hub gateway camera actuator wearable vehicle controller other : DeviceType

-- class DeviceStatus
pub data DeviceStatus : Type 0 where
  provisioning online offline degraded maintenance error decommissioned : DeviceStatus

-- the stored text of a status
abbrev pub status_value : DeviceStatus → String
status_value DeviceStatus.provisioning = "provisioning"
status_value DeviceStatus.online = "online"
status_value DeviceStatus.offline = "offline"
status_value DeviceStatus.degraded = "degraded"
status_value DeviceStatus.maintenance = "maintenance"
status_value DeviceStatus.error = "error"
status_value DeviceStatus.decommissioned = "decommissioned"

-- a position in the declaration, by which statuses are compared
abbrev pub status_index : DeviceStatus → ℕ
status_index DeviceStatus.provisioning = 0
status_index DeviceStatus.online = 1
status_index DeviceStatus.offline = 2
status_index DeviceStatus.degraded = 3
status_index DeviceStatus.maintenance = 4
status_index DeviceStatus.error = 5
status_index DeviceStatus.decommissioned = 6

abbrev pub same_status : DeviceStatus → DeviceStatus → Bool
same_status a b = status_index a == status_index b

pub same_status_iff : (a b : DeviceStatus) → (same_status a b ≡ true) ↔ (a ≡ b)
same_status_iff a b = ground arith

-- `reported in DeviceStatus.values`, with the member that the text names
unfoldable pub parse_status : String → Option DeviceStatus
parse_status s =
    if str_eq s "provisioning"
    then some DeviceStatus.provisioning
    else if str_eq s "online"
    then some DeviceStatus.online
    else if str_eq s "offline"
    then some DeviceStatus.offline
    else if str_eq s "degraded"
    then some DeviceStatus.degraded
    else if str_eq s "maintenance"
    then some DeviceStatus.maintenance
    else if str_eq s "error"
    then some DeviceStatus.error
    else if str_eq s "decommissioned"
    then some DeviceStatus.decommissioned
    else none

-- class DeviceGroup
pub record DeviceGroup : Type 0 where
  pub base : BaseModel
  pub open base use *
  pub organization_id : ℕ
  pub name : String
  pub parent : Option ℕ
  pub description : String

-- class Device
pub record Device : Type 0 where
  pub base : BaseModel
  pub open base use *
  pub organization_id : ℕ
  pub group : Option ℕ
  pub name : String
  pub serial : String
  pub device_type : DeviceType
  pub status : DeviceStatus
  pub ip_address : Option String
  pub firmware_version : String
  pub model_number : String
  pub manufacturer : String
  pub last_seen : Option ℕ
  pub battery_level : Option Float
  pub signal_strength : Option ℤ
  pub health_score : Float
  pub latitude : Option Float
  pub longitude : Option Float
  pub altitude : Option Float
  pub capabilities : Fields
  pub metadata : Json
  pub auth_token_hash : String
  pub service_account : Option ℕ

-- Device.is_online
abbrev pub is_online : DeviceStatus → Bool
is_online DeviceStatus.online = true
is_online _ = false

-- status in {DeviceStatus.OFFLINE, DeviceStatus.PROVISIONING}: such a device wakes up when seen
abbrev pub wakes : DeviceStatus → Bool
wakes DeviceStatus.offline = true
wakes DeviceStatus.provisioning = true
wakes _ = false

-- Device.mark_seen(save=False)
unfoldable pub mark_seen : ℕ → Device → Device
mark_seen now device = record device {
  last_seen = some now;
  status = if wakes device.status then DeviceStatus.online else device.status;
}

-- class DeviceCommand.Status
pub data CommandStatus : Type 0 where
  queued sent acked completed failed expired : CommandStatus

-- class DeviceCommand
pub record DeviceCommand : Type 0 where
  pub base : BaseModel
  pub open base use *
  pub device_id : ℕ
  pub issued_by : Option ℕ
  pub command : String
  pub payload : Json
  pub status : CommandStatus
  pub result : Json
  pub error : String
  pub sent_at : Option ℕ
  pub acked_at : Option ℕ
  pub completed_at : Option ℕ
  pub expires_at : Option ℕ

-- class DeviceHealthSnapshot
pub record DeviceHealthSnapshot : Type 0 where
  pub base : BaseModel
  pub open base use *
  pub device_id : ℕ
  pub health_score : Float
  pub battery_level : Option Float
  pub signal_strength : Option ℤ
  pub cpu_percent : Option Float
  pub memory_percent : Option Float
  pub temperature_c : Option Float
  pub uptime_seconds : Option ℤ
  pub details : Json
