-- ===== src/Devices/Tasks.antt =====
-- apps/devices/tasks.py: the offline watchdog, the health rollup and the expiry of commands.
use robotics_io_t_smart_auto.Base.{
  ℕ, ◌+◌, Bool, true, false, not, ◌&&◌, Option, none, some, List, [], ◌∷◌, ◌++◌, ltb, if◌then◌else◌,
  seconds, ℤ, negsuc, ltb_ℤ, length, select, count_where, update_where, Float, whole, flt_lt,
  flt_eq, flt_sub, flt_min, flt_max, Outcome, ok, fail, ◌>>=◌,
}
use robotics_io_t_smart_auto.Alerts.Services.Notify.{is_alive}
use robotics_io_t_smart_auto.Alerts.Services.Raise.{raise_device_offline_alert}
use robotics_io_t_smart_auto.Core.Json.{Json, Fields}
use robotics_io_t_smart_auto.Core.Models.{new_base, touch}
use robotics_io_t_smart_auto.Devices.Models.{
  DeviceStatus, Device, CommandStatus, DeviceCommand, DeviceHealthSnapshot,
}
use robotics_io_t_smart_auto.Devices.Signals.{DeviceField, save_device}
use robotics_io_t_smart_auto.World.{World}

abbrev pub offline_after : ℕ
offline_after = seconds 120

-- status in [ONLINE, DEGRADED]
abbrev pub is_watched : DeviceStatus → Bool
is_watched DeviceStatus.online = true
is_watched DeviceStatus.degraded = true
is_watched _ = false

-- last_seen < now - OFFLINE_AFTER; a NULL column is never smaller
abbrev pub is_silent : ℕ → Option ℕ → Bool
is_silent now none = false
is_silent now (some t) = ltb (t + offline_after) now

unfoldable pub is_stale : ℕ → Device → Bool
is_stale now d = is_alive d.base && is_silent now d.last_seen && is_watched d.status

-- one round of the loop
unfoldable pub take_offline : Device → World → Outcome (Unit {0}) × World
take_offline device w =
    let off = record device { status = DeviceStatus.offline } in
    let (r, w') = raise_device_offline_alert off (save_device off (DeviceField.status ∷ []) w) in
    (r >>= (λ _. ok tt), w')

-- counts the round and goes on, unless the round raised
abbrev pub count_round :
    (World → Outcome ℕ × World) → Outcome (Unit {0}) × World → Outcome ℕ × World
count_round rest (ok _, w) = let (n, w') = rest w in (n >>= (λ k. ok (k + 1)), w')
count_round rest (fail e, w) = (fail e, w)

-- the loop over the stale devices
unfoldable pub sweep : List Device → World → Outcome ℕ × World
sweep [] w = (ok 0, w)
sweep (d ∷ ds) w = count_round (sweep ds) (take_offline d w)

-- detect_offline_devices
unfoldable pub detect_offline_devices : World → Outcome ℕ × World
unfolding sweep is_stale
detect_offline_devices w = sweep (select (is_stale w.now) w.devices) w

-- the deduction for the status
abbrev pub status_penalty : DeviceStatus → ℕ
status_penalty DeviceStatus.offline = 60
status_penalty DeviceStatus.degraded = 35
status_penalty DeviceStatus.error = 35
status_penalty DeviceStatus.maintenance = 15
status_penalty _ = 0

unfoldable pub battery_step : Option Float → Float → Float
battery_step none score = score
battery_step (some level) score =
    if flt_lt level (whole 20) then flt_sub score (flt_sub (whole 20) level) else score

unfoldable pub signal_step : Option ℤ → Float → Float
signal_step none score = score
signal_step (some rssi) score = if ltb_ℤ rssi (negsuc 89) then flt_sub score (whole 10) else score

abbrev pub clamp_score : Float → Float
clamp_score score = flt_max (whole 0) (flt_min (whole 100) score)

-- the score before it is clamped
unfoldable pub raw_score : Device → Float
unfolding battery_step signal_step
raw_score d =
    signal_step d.signal_strength
      (battery_step d.battery_level (flt_sub (whole 100) (whole (status_penalty d.status))))

-- _compute_health_score
unfoldable pub compute_health_score : Device → Float
unfolding raw_score
compute_health_score d = clamp_score (raw_score d)

abbrev pub is_decommissioned : DeviceStatus → Bool
is_decommissioned DeviceStatus.decommissioned = true
is_decommissioned _ = false

-- Device.objects.exclude(status=DECOMMISSIONED)
abbrev pub in_service : Device → Bool
in_service d = is_alive d.base && not (is_decommissioned d.status)

-- the snapshot that the rollup appends
abbrev pub snapshot_of : ℕ → ℕ → Device → Float → DeviceHealthSnapshot
snapshot_of id now d score = record {
  base = new_base id now;
  device_id = d.id;
  health_score = score;
  battery_level = d.battery_level;
  signal_strength = d.signal_strength;
  cpu_percent = none;
  memory_percent = none;
  temperature_c = none;
  uptime_seconds = none;
  details = Json.obj Fields.end;
}

-- the first half of a round: the score is saved if it changed
unfoldable pub refresh_score : Device → World → World
unfolding compute_health_score
refresh_score d w =
    let score = compute_health_score d in
    if flt_eq score d.health_score
    then w
    else save_device (record d { health_score = score }) (DeviceField.health_score ∷ []) w

unfoldable pub refresh_scores : List Device → World → World
refresh_scores [] w = w
refresh_scores (d ∷ ds) w = refresh_scores ds (refresh_score d w)

-- DeviceHealthSnapshot.objects.bulk_create(snapshots)
unfoldable pub store_snapshots : List Device → World → World
store_snapshots [] w = w
store_snapshots (d ∷ ds) w = store_snapshots ds (record w {
  snapshots = w.snapshots ++ snapshot_of w.next_id w.now d (compute_health_score d) ∷ [];
  next_id = w.next_id + 1;
})

-- rollup_device_health
unfoldable pub rollup_device_health : World → ℕ × World
unfolding refresh_scores store_snapshots
rollup_device_health w =
    let fleet = select in_service w.devices in
    (length fleet, store_snapshots fleet (refresh_scores fleet w))

-- status in [QUEUED, SENT]
abbrev pub is_pending : CommandStatus → Bool
is_pending CommandStatus.queued = true
is_pending CommandStatus.sent = true
is_pending _ = false

-- expires_at < now
abbrev pub is_past : ℕ → Option ℕ → Bool
is_past now none = false
is_past now (some t) = ltb t now

unfoldable pub is_stale_command : ℕ → DeviceCommand → Bool
is_stale_command now c = is_alive c.base && is_past now c.expires_at && is_pending c.status

abbrev pub expire : ℕ → DeviceCommand → DeviceCommand
expire now c = record c { base = touch now c.base; status = CommandStatus.expired }

-- expire_stale_commands
unfoldable pub expire_stale_commands : World → ℕ × World
unfolding is_stale_command
expire_stale_commands w = (
  count_where (is_stale_command w.now) w.commands,
  record w { commands = update_where (is_stale_command w.now) (expire w.now) w.commands },
)
