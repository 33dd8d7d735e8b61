-- ===== src/Devices/Signals.antt =====
-- apps/devices/signals.py, and the save of a device that they surround: pre_save remembers the
-- stored status, post_save audits a change of status and pushes the state to the dashboards.
use robotics_io_t_smart_auto.Base.{
  ℕ, Bool, true, false, Option, none, some, List, [], ◌∷◌, ◌++◌, ◌==◌, if◌then◌else◌, concat,
  first?, update_where,
}
use robotics_io_t_smart_auto.Core.Json.{Json, Fields}
use robotics_io_t_smart_auto.Core.Models.{touch, Action}
use robotics_io_t_smart_auto.Core.Realtime.{broadcast}
use robotics_io_t_smart_auto.Core.Services.{Entry, entry, record_audit}
use robotics_io_t_smart_auto.Devices.Models.{DeviceStatus, status_value, same_status, Device}
use robotics_io_t_smart_auto.World.{Group, Payload, World}

-- The columns that the program names in `update_fields`. `updated_at` is always among them.
pub data DeviceField : Type 0 where
  last_seen status battery_level signal_strength latitude longitude altitude : DeviceField
  firmware_version ip_address health_score : DeviceField

-- writes one column of the instance into the stored row
abbrev pub write_field : Device → Device → DeviceField → Device
write_field device row DeviceField.last_seen = record row { last_seen = device.last_seen }
write_field device row DeviceField.status = record row { status = device.status }
write_field device row DeviceField.battery_level = record row {
  battery_level = device.battery_level;
}
write_field device row DeviceField.signal_strength = record row {
  signal_strength = device.signal_strength;
}
write_field device row DeviceField.latitude = record row { latitude = device.latitude }
write_field device row DeviceField.longitude = record row { longitude = device.longitude }
write_field device row DeviceField.altitude = record row { altitude = device.altitude }
write_field device row DeviceField.firmware_version = record row {
  firmware_version = device.firmware_version;
}
write_field device row DeviceField.ip_address = record row { ip_address = device.ip_address }
write_field device row DeviceField.health_score = record row { health_score = device.health_score }

abbrev pub write_fields : Device → Device → List DeviceField → Device
write_fields device row [] = row
write_fields device row (f ∷ fs) = write_fields device (write_field device row f) fs

-- the row after the UPDATE statement
abbrev pub saved_row : Device → List DeviceField → ℕ → Device → Device
saved_row device fields now row =
    write_fields device (record row { base = touch now row.base }) fields

-- remember_previous_status: the stored status, also of a soft-deleted row
unfoldable pub previous_status : Device → World → Option DeviceStatus
previous_status device w = elim (first? (λ d. d.id == device.id) w.devices) [
  | none ↦ none
  | some d ↦ some d.status
]

abbrev pub status_change : DeviceStatus → DeviceStatus → Json
status_change from to = Json.obj (
    Fields.field "from" (Json.str (status_value from))
      (Fields.field "to" (Json.str (status_value to)) Fields.end))

abbrev pub change_entry : Device → DeviceStatus → Entry
change_entry device prev =
    let e =
      entry Action.update "device" (some device.id)
        (concat ("Status " ∷ status_value prev ∷ " → " ∷ status_value device.status ∷ [])) in
    record e { metadata = status_change prev device.status }

abbrev pub state_of : Device → Payload
state_of device =
    Payload.device_state device.id device.serial device.status device.battery_level
      device.health_score device.last_seen device.latitude device.longitude

-- on_device_saved, behind its first test
unfoldable pub audit_change : Device → Option DeviceStatus → World → World
audit_change device none w = w
audit_change device (some prev) w =
    if same_status prev device.status then w else record_audit (change_entry device prev) w

unfoldable pub push_state : Device → World → World
push_state device w =
    broadcast (Group.org_group device.organization_id) "device.state" (state_of device)
      (broadcast (Group.device_group device.id) "device.state" (state_of device) w)

-- on_device_saved
unfoldable pub on_device_saved : Device → Bool → Option DeviceStatus → World → World
unfolding audit_change push_state
on_device_saved device true prev w = push_state device (
    record_audit
      (entry Action.create "device" (some device.id)
        (concat ("Device '" ∷ device.name ∷ "' registered" ∷ [])))
      w)
on_device_saved device false prev w = push_state device (audit_change device prev w)

-- device.save(update_fields=[...]), with both signals
unfoldable pub save_device : Device → List DeviceField → World → World
unfolding previous_status on_device_saved
save_device device fields w = on_device_saved device false (previous_status device w) (record w {
  devices = update_where (λ d. d.id == device.id) (saved_row device fields w.now) w.devices;
})

-- Device.objects.create(...), with both signals
unfoldable pub create_device : Device → World → World
unfolding on_device_saved
create_device device w =
    on_device_saved device true none (record w { devices = w.devices ++ device ∷ [] })
