-- ===== src/Devices/Seed/Fleet.antt =====
-- The fleet of apps/devices/management/commands/seed_demo.py: its devices and their sensors.
use robotics_io_t_smart_auto.Base.{
  ℕ, ◌+◌, String, Bool, true, ◌&&◌, Option, none, some, List, [], ◌∷◌, ◌++◌, str_eq, negsuc, Float,
  whole,
}
use robotics_io_t_smart_auto.Alerts.Services.Notify.{is_alive}
use robotics_io_t_smart_auto.Core.Json.{Json, Items, Fields}
use robotics_io_t_smart_auto.Core.Models.{new_base}
use robotics_io_t_smart_auto.Devices.Models.{DeviceType, DeviceStatus, Device}
use robotics_io_t_smart_auto.Devices.Seed.GetOrCreate.{Lookup}
use robotics_io_t_smart_auto.Devices.Signals.{create_device}
use robotics_io_t_smart_auto.Telemetry.Models.{SensorType, Sensor}
use robotics_io_t_smart_auto.Telemetry.Services.Ingest.{has_key, takes_key}

-- the test of the lookup
abbrev pub has_serial : String → Device → Bool
has_serial serial d = is_alive d.base && str_eq d.serial serial

-- One device of the fleet.
pub record DemoDevice : Type 0 where
  pub serial : String
  pub name : String
  pub device_type : DeviceType
  pub capabilities : Fields

-- a list of texts
abbrev pub texts : List String → Items
texts [] = Items.nil
texts (s ∷ ss) = Items.cons (Json.str s) (texts ss)

abbrev pub command_list : List String → Json
command_list names = Json.arr (texts names)

abbrev pub fleet : List DemoDevice
fleet =
    record {
      serial = "ROBO-001";
      name = "Assembly Arm A";
      device_type = DeviceType.robot;
      capabilities =
          Fields.field "commands" (command_list ("move" ∷ "home" ∷ "stop" ∷ "calibrate" ∷ []))
            (Fields.field "has_camera" (Json.bool true) Fields.end);
    }
    ∷ record {
      serial = "ROBO-002";
      name = "Mobile AMR 1";
      device_type = DeviceType.vehicle;
      capabilities =
          Fields.field "commands" (command_list ("navigate" ∷ "dock" ∷ "stop" ∷ [])) Fields.end;
    }
    ∷ record {
      serial = "DRONE-001";
      name = "Inspection Drone";
      device_type = DeviceType.drone;
      capabilities =
          Fields.field "commands" (command_list ("takeoff" ∷ "land" ∷ "return_home" ∷ []))
            Fields.end;
    }
    ∷ record {
      serial = "HUB-001";
      name = "Cold Storage Sensor Hub";
      device_type = DeviceType.sensor_hub;
      capabilities = Fields.end;
    }
    ∷ record {
      serial = "CAM-001";
      name = "Perimeter Camera";
      device_type = DeviceType.camera;
      capabilities = Fields.field "has_camera" (Json.bool true) Fields.end;
    }
    ∷ []

-- Device.objects.get_or_create(serial=..., ...), with the signals of the save
abbrev pub device_lookup : DemoDevice → ℕ → ℕ → Lookup Device
device_lookup x org floor = record {
  rows = λ w. w.devices;
  is_found = has_serial x.serial;
  clashes = λ d. str_eq d.serial x.serial;
  new_row = λ w. record {
    base = new_base w.next_id w.now;
    organization_id = org;
    group = some floor;
    name = x.name;
    serial = x.serial;
    device_type = x.device_type;
    status = DeviceStatus.provisioning;
    ip_address = none;
    firmware_version = "";
    model_number = "";
    manufacturer = "RoboGrid Demo";
    last_seen = none;
    battery_level = none;
    signal_strength = none;
    health_score = whole 100;
    latitude = none;
    longitude = none;
    altitude = none;
    capabilities = x.capabilities;
    metadata = Json.obj Fields.end;
    auth_token_hash = "";
    service_account = none;
  };
  insert = λ d w. create_device d (record w { next_id = w.next_id + 1 });
}

-- One entry of `sensor_specs`; `label` is key.replace("_", " ").title().
pub record SensorSpec : Type 0 where
  pub key : String
  pub label : String
  pub sensor_type : SensorType
  pub unit : String
  pub low : Option Float
  pub high : Option Float

abbrev pub sensor_specs : List SensorSpec
sensor_specs =
    record {
      key = "temp_c";
      label = "Temp C";
      sensor_type = SensorType.temperature;
      unit = "°C";
      low = some (Float.finite (negsuc 9999));
      high = some (whole 60);
    }
    ∷ record {
      key = "humidity";
      label = "Humidity";
      sensor_type = SensorType.humidity;
      unit = "%";
      low = some (whole 0);
      high = some (whole 100);
    }
    ∷ record {
      key = "motion";
      label = "Motion";
      sensor_type = SensorType.motion;
      unit = "";
      low = none;
      high = none;
    }
    ∷ record {
      key = "vibration";
      label = "Vibration";
      sensor_type = SensorType.vibration;
      unit = "mm/s";
      low = some (whole 0);
      high = some (whole 10);
    }
    ∷ []

-- Sensor.objects.get_or_create(device=device, key=key, ...)
abbrev pub sensor_lookup : SensorSpec → ℕ → Lookup Sensor
sensor_lookup x device_id = record {
  rows = λ w. w.sensors;
  is_found = has_key device_id x.key;
  clashes = takes_key device_id x.key;
  new_row = λ w. record {
    base = new_base w.next_id w.now;
    device_id = device_id;
    name = x.label;
    key = x.key;
    sensor_type = x.sensor_type;
    unit = x.unit;
    is_active = true;
    last_value = none;
    last_value_text = "";
    last_reading_at = none;
    min_threshold = x.low;
    max_threshold = x.high;
    metadata = Json.obj Fields.end;
  };
  insert = λ s w. record w { sensors = w.sensors ++ s ∷ []; next_id = w.next_id + 1 };
}
