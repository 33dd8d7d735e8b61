-- ===== src/Devices/Saves.antt =====
-- What a save of a device changes: the named columns of its row, the audit trail and the
-- broadcasts.
use robotics_io_t_smart_auto.Base.{
  inl, inr, false, Option, none, some, List, [], ◌∷◌, ◌++◌, ◌==◌, Bool-cases, update_where,
}
use robotics_io_t_smart_auto.Devices.Models.{DeviceStatus, same_status, Device}
use robotics_io_t_smart_auto.Devices.Signals.{
  DeviceField, saved_row, previous_status, change_entry, audit_change, push_state, on_device_saved,
  save_device, create_device,
}
use robotics_io_t_smart_auto.Frame.{
  Quiet, Quiet-refl, Quiet-trans, broadcast-Quiet, record_audit-Quiet,
}
use robotics_io_t_smart_auto.World.{World}

push_state-Quiet : (d : Device) (w : World) → Quiet w (push_state d w)
unfolding push_state
push_state-Quiet d w = Quiet-trans (broadcast-Quiet _ _ _ w) (broadcast-Quiet _ _ _ _)

audit_change-Quiet :
    (d : Device) (prev : Option DeviceStatus) (w : World) → Quiet w (audit_change d prev w)
unfolding audit_change
audit_change-Quiet d none w = Quiet-refl w
audit_change-Quiet d (some prev) w = elim (Bool-cases (same_status prev d.status)) [
  | inl same ↦ rw same (Quiet-refl w)
  | inr other ↦ rw other (record_audit-Quiet (change_entry d prev) w)
]

-- the state with the row written
abbrev pub written : Device → List DeviceField → World → World
written d fs w = record w {
  devices = update_where (λ r. r.id == d.id) (saved_row d fs w.now) w.devices;
}

-- A save writes the row, and all else that it does is auditing and sending.
pub save_device-Quiet :
    (d : Device) (fs : List DeviceField) (w : World) → Quiet (written d fs w) (save_device d fs w)
unfolding save_device on_device_saved
save_device-Quiet d fs w =
    Quiet-trans (audit_change-Quiet d (previous_status d w) (written d fs w)) (push_state-Quiet d _)

-- An insertion adds the row, and all else that it does is auditing and sending.
pub create_device-Quiet :
    (d : Device) (w : World)
    → Quiet (record w { devices = w.devices ++ d ∷ [] }) (create_device d w)
unfolding create_device on_device_saved
create_device-Quiet d w = Quiet-trans (record_audit-Quiet _ _) (push_state-Quiet d _)

-- A save of every column.
pub on_device_saved-Quiet :
    (d : Device) (prev : Option DeviceStatus) (w : World) → Quiet w (on_device_saved d false prev w)
unfolding on_device_saved
on_device_saved-Quiet d prev w = Quiet-trans (audit_change-Quiet d prev w) (push_state-Quiet d _)
