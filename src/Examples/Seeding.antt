-- ===== src/Examples/Seeding.antt =====
-- The seed command on a database without rows, and run again.
use robotics_io_t_smart_auto.Base.{◌≡◌, refl, [], length, ok}
use robotics_io_t_smart_auto.Core.Realtime.{broadcast}
use robotics_io_t_smart_auto.Core.Services.{record_audit}
use robotics_io_t_smart_auto.Devices.Seed.Command.{
  seed_user, seed_device, add_channel, seed_rule, seed_demo,
}
use robotics_io_t_smart_auto.Devices.Seed.GetOrCreate.{get_or_create_row, fetch}
use robotics_io_t_smart_auto.Devices.Seed.Later.{Later-refl}
use robotics_io_t_smart_auto.Devices.Seed.Rerun.{seed_demo-again}
use robotics_io_t_smart_auto.Devices.Signals.{push_state, on_device_saved, create_device}
use robotics_io_t_smart_auto.Examples.Plant.{plant}
use robotics_io_t_smart_auto.World.{World}

abbrev blank : World
blank = record plant {
  users = [];
  permissions = [];
  devices = [];
  commands = [];
  sensors = [];
  readings = [];
  rules = [];
  channels = [];
  notifications = [];
}

abbrev seeded : World
seeded = (seed_demo blank).1

seeds : seed_demo blank ≡ (ok tt, seeded)
unfolding seed_demo seed_user seed_device seed_rule fetch get_or_create_row create_device
    on_device_saved push_state record_audit broadcast add_channel
seeds = refl

seeded_rows :
    (length seeded.devices ≡ 5)
    × (length seeded.sensors ≡ 20)
    × (length seeded.rules ≡ 4)
    × (length seeded.users ≡ 2)
    × (length seeded.groups ≡ 2)
unfolding seed_demo seed_user seed_device seed_rule fetch get_or_create_row create_device
    on_device_saved push_state record_audit broadcast add_channel
seeded_rows = (refl, refl, refl, refl, refl)

seed_demo-again_example :
    (seed_demo seeded ≡ (ok tt, seeded)) × (seed_demo seeded ≡ (ok tt, seeded))
seed_demo-again_example = seed_demo-again blank seeded seeded seeds (Later-refl seeded)
