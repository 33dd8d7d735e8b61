-- ===== src/Telemetry/Models.antt =====
-- apps/telemetry/models.py: sensors, readings and camera feeds.
use robotics_io_t_smart_auto.Base.{ℕ, String, Bool, Option, ℤ, Float}
use robotics_io_t_smart_auto.Core.Json.{Json}
use robotics_io_t_smart_auto.Core.Models.{BaseModel}

-- class SensorType
pub data SensorType : Type 0 where
  temperature humidity motion gps battery pressure light sound gas proximity current : SensorType
  vibration heart_rate camera custom : SensorType

-- the stored text of a sensor type
abbrev pub type_value : SensorType → String
type_value SensorType.temperature = "temperature"
type_value SensorType.humidity = "humidity"
type_value SensorType.motion = "motion"
type_value SensorType.gps = "gps"
type_value SensorType.battery = "battery"
type_value SensorType.pressure = "pressure"
type_value SensorType.light = "light"
type_value SensorType.sound = "sound"
type_value SensorType.gas = "gas"
type_value SensorType.proximity = "proximity"
type_value SensorType.current = "current"
type_value SensorType.vibration = "vibration"
type_value SensorType.heart_rate = "heart_rate"
type_value SensorType.camera = "camera"
type_value SensorType.custom = "custom"

-- class Sensor
pub record Sensor : Type 0 where
  pub base : BaseModel
  pub open base use *
  pub device_id : ℕ
  pub name : String
  pub key : String
  pub sensor_type : SensorType
  pub unit : String
  pub is_active : Bool
  pub last_value : Option Float
  pub last_value_text : String
  pub last_reading_at : Option ℕ
  pub min_threshold : Option Float
  pub max_threshold : Option Float
  pub metadata : Json

-- class Reading: an integer key, and no soft deletion
pub record Reading : Type 0 where
  pub id : ℕ
  pub sensor_id : ℕ
  pub device_id : ℕ
  pub time : ℕ
  pub value : Option Float
  pub value_text : String
  pub value_json : Option Json
  pub quality : ℤ

-- class CameraFeed.Protocol
pub data Protocol : Type 0 where
  rtsp webrtc hls mjpeg : Protocol

-- class CameraFeed
pub record CameraFeed : Type 0 where
  pub base : BaseModel
  pub open base use *
  pub device_id : ℕ
  pub name : String
  pub protocol : Protocol
  pub stream_url : String
  pub is_active : Bool
  pub last_snapshot : Option String
  pub last_snapshot_at : Option ℕ
  pub resolution : String
  pub metadata : Json
