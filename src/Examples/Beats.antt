-- ===== src/Examples/Beats.antt =====
-- The schedule of the periodic jobs, at the small plant.
use robotics_io_t_smart_auto.Base.{◌+◌, ◌*◌, ◌≡◌, refl, true, arith, seconds, count_where}
use robotics_io_t_smart_auto.Alerts.Services.Dedup.{OpenUnique}
use robotics_io_t_smart_auto.Beat.Fades.{Pairwise}
use robotics_io_t_smart_auto.Beat.Minutes.{minutes-offline}
use robotics_io_t_smart_auto.Beat.Schedule.{minutes}
use robotics_io_t_smart_auto.Devices.Models.{DeviceStatus}
use robotics_io_t_smart_auto.Devices.Tasks.{is_stale, is_stale_command}
use robotics_io_t_smart_auto.Examples.Plant.{press, offline_plant}
use robotics_io_t_smart_auto.World.{World}

abbrev full_minute : World
full_minute = record offline_plant { now = seconds 8000040 }

full_minute-OpenUnique : OpenUnique full_minute.alerts
full_minute-OpenUnique = record { at = λ rule device. omega arith }

minutes-offline_example :
    Pairwise
      (λ x y.
        is_stale (full_minute.now + seconds 60 * 3) x ≡ true → y.status ≡ DeviceStatus.offline)
      full_minute.devices
      (minutes 3 full_minute).devices
    × (count_where
          (is_stale_command (full_minute.now + seconds 60 * 3))
          (minutes 3 full_minute).commands
        ≡ 0)
    × OpenUnique (minutes 3 full_minute).alerts
minutes-offline_example = minutes-offline 2 full_minute full_minute-OpenUnique refl

-- the press is stale by then
silent_press : is_stale (full_minute.now + seconds 60 * 3) press ≡ true
unfolding is_stale
silent_press = refl
