-- ===== src/Devices/Api.antt =====
-- The writing half of DeviceViewSet in apps/devices/views.py, with DeviceSerializer of
-- apps/devices/serializers.py: registering, editing and deleting a device. The checks of the single
-- fields are not modelled; what is validated arrives as a record.
use robotics_io_t_smart_auto.Base.{
  ℕ, ◌+◌, String, Bool, false, not, ◌&&◌, Option, none, some, List, str_eq, ◌==◌, if◌then◌else◌,
  get_or, exists_where, update_where, Float, whole, integrity_error, validation_error, Outcome, ok,
  fail, and_then,
}
use robotics_io_t_smart_auto.Accounts.Models.{User}
use robotics_io_t_smart_auto.Alerts.Services.Notify.{is_alive}
use robotics_io_t_smart_auto.Core.Json.{Json, Fields}
use robotics_io_t_smart_auto.Core.Models.{new_base, touch}
use robotics_io_t_smart_auto.Devices.Models.{DeviceType, DeviceStatus, Device}
use robotics_io_t_smart_auto.Devices.Signals.{previous_status, on_device_saved, create_device}
use robotics_io_t_smart_auto.Devices.Views.{get_device}
use robotics_io_t_smart_auto.World.{World}

-- The writable fields of DeviceSerializer, those that the request gives: everything but its
-- read_only_fields.
pub record DeviceData : Type 0 where
  pub organization : Option ℕ
  pub group : Option (Option ℕ)
  pub name : Option String
  pub serial : Option String
  pub device_type : Option DeviceType
  pub ip_address : Option (Option String)
  pub firmware_version : Option String
  pub model_number : Option String
  pub manufacturer : Option String
  pub latitude : Option (Option Float)
  pub longitude : Option (Option Float)
  pub altitude : Option (Option Float)
  pub capabilities : Option Fields
  pub metadata : Option Json

-- ModelSerializer.update: the given fields are set on the instance
abbrev pub edited : DeviceData → Device → Device
edited x d = record d {
  organization_id = get_or x.organization d.organization_id;
  group = get_or x.group d.group;
  name = get_or x.name d.name;
  serial = get_or x.serial d.serial;
  device_type = get_or x.device_type d.device_type;
  ip_address = get_or x.ip_address d.ip_address;
  firmware_version = get_or x.firmware_version d.firmware_version;
  model_number = get_or x.model_number d.model_number;
  manufacturer = get_or x.manufacturer d.manufacturer;
  latitude = get_or x.latitude d.latitude;
  longitude = get_or x.longitude d.longitude;
  altitude = get_or x.altitude d.altitude;
  capabilities = get_or x.capabilities d.capabilities;
  metadata = get_or x.metadata d.metadata;
}

-- a new instance with the defaults of the model
abbrev pub blank_device : ℕ → ℕ → ℕ → String → String → Device
blank_device id now organization name serial = record {
  base = new_base id now;
  organization_id = organization;
  group = none;
  name = name;
  serial = serial;
  device_type = DeviceType.other;
  status = DeviceStatus.provisioning;
  ip_address = none;
  firmware_version = "";
  model_number = "";
  manufacturer = "";
  last_seen = none;
  battery_level = none;
  signal_strength = none;
  health_score = whole 100;
  latitude = none;
  longitude = none;
  altitude = none;
  capabilities = Fields.end;
  metadata = Json.obj Fields.end;
  auth_token_hash = "";
  service_account = none;
}

-- another row has this serial: among the live ones, which the validator asks, and among all, which
-- the constraint sees
abbrev pub other_serial : ℕ → String → Device → Bool
other_serial id serial d = not (d.id == id) && str_eq d.serial serial

abbrev pub live_serial : ℕ → String → Device → Bool
live_serial id serial d = is_alive d.base && other_serial id serial d

-- the unique validator of the serializer, and behind it the constraint of the table
unfoldable pub check_serial : ℕ → String → List Device → Outcome (Unit {0})
check_serial id serial rows =
    if exists_where (live_serial id serial) rows
    then fail validation_error
    else if exists_where (other_serial id serial) rows
    then fail integrity_error
    else ok tt

-- DeviceViewSet.create: HasDeviceAccess has an object check only, which a creation does not run
unfoldable pub create_view : DeviceData → ℕ → String → String → World → Outcome Device × World
unfolding check_serial
create_view x organization name serial w =
    let d = edited x (blank_device w.next_id w.now organization name serial) in
    and_then (check_serial w.next_id d.serial w.devices, w)
      λ fits v. (ok d, create_device d (record v { next_id = v.next_id + 1 }))

-- device.save(): every column is written
unfoldable pub save_all : Device → World → World
save_all device w =
    on_device_saved device false (previous_status device w)
      (record w { devices = update_where (λ d. d.id == device.id) (λ _. device) w.devices })

abbrev pub touched : ℕ → Device → Device
touched now d = record d { base = touch now d.base }

-- DeviceViewSet.update and partial_update
unfoldable pub update_view : Option User → ℕ → DeviceData → World → Outcome Device × World
unfolding check_serial save_all
update_view user pk x w =
    and_then (get_device user pk w, w)
      λ d v.
        and_then (check_serial d.id (edited x d).serial v.devices, v)
          λ fits u. (ok (touched u.now (edited x d)), save_all (touched u.now (edited x d)) u)

-- instance.delete(): the row is stamped, with both signals of the save
abbrev pub deleted_device : ℕ → Device → Device
deleted_device now d = record d { base = record d.base { deleted_at = some now } }

unfoldable pub delete_device : Device → World → World
delete_device device w =
    on_device_saved (deleted_device w.now device) false (previous_status device w) (record w {
      devices = update_where (λ d. d.id == device.id) (deleted_device w.now) w.devices;
    })

-- DeviceViewSet.destroy
unfoldable pub destroy_view : Option User → ℕ → World → Outcome (Unit {0}) × World
unfolding delete_device
destroy_view user pk w = and_then (get_device user pk w, w) λ d v. (ok tt, delete_device d v)
