-- ===== src/Examples/Alerting.antt =====
-- Applications of the theorems on alerts, at the plant with one open alert.
use robotics_io_t_smart_auto.Base.{
  ◌≡◌, refl, not, some, [], ◌∷◌, select, count_where, count-le-length, whole, ok,
}
use robotics_io_t_smart_auto.Alerts.Inbox.{read_all_lem}
use robotics_io_t_smart_auto.Alerts.Models.{matches, Alert}
use robotics_io_t_smart_auto.Alerts.Services.Dedup.{OpenUnique, raise_alert-OpenUnique}
use robotics_io_t_smart_auto.Alerts.Services.Evaluate.{breach_args, check_sensors}
use robotics_io_t_smart_auto.Alerts.Services.Flapping.{rule_slot, check_sensors-last}
use robotics_io_t_smart_auto.Alerts.Services.Keys.{keys}
use robotics_io_t_smart_auto.Alerts.Services.Notify.{notified_at, emit}
use robotics_io_t_smart_auto.Alerts.Services.Raise.{
  RaiseArgs, is_open_for, alert_row, announce, raise_alert,
}
use robotics_io_t_smart_auto.Alerts.Services.Twice.{raise_alert_twice}
use robotics_io_t_smart_auto.Alerts.Services.Verdict.{IsClean}
use robotics_io_t_smart_auto.Alerts.Views.{is_inbox_of, unread_count, read_all}
use robotics_io_t_smart_auto.Core.Models.{new_base}
use robotics_io_t_smart_auto.Devices.Tasks.{is_stale, detect_offline_devices}
use robotics_io_t_smart_auto.Devices.Watchdog.{detect_offline_devices_lem}
use robotics_io_t_smart_auto.Examples.Plant.{engineer, press, thermometer, too_hot, plant}
use robotics_io_t_smart_auto.Telemetry.Models.{Sensor}
use robotics_io_t_smart_auto.World.{World}

abbrev hot : RaiseArgs
hot = breach_args too_hot press thermometer (whole 90)

-- the plant after the first alert
abbrev hot_alert : Alert
hot_alert = alert_row hot plant

abbrev hot_plant : World
hot_plant = record plant { alerts = hot_alert ∷ []; next_id = 101 }

hot_plant-OpenUnique : OpenUnique hot_plant.alerts
hot_plant-OpenUnique = record {
  at = λ rule device. count-le-length (is_open_for rule device) hot_plant.alerts;
}

hot_plant-IsClean : IsClean (some 5) (some 10) hot_plant.alerts
hot_plant-IsClean = record { unique = hot_plant-OpenUnique; no_ghost = refl }

raise_alert-OpenUnique_example : OpenUnique (raise_alert hot hot_plant).1.alerts
raise_alert-OpenUnique_example = raise_alert-OpenUnique hot hot_plant hot_plant-OpenUnique

-- a second sensor that is calm
abbrev cool : Sensor
cool = record thermometer { base = new_base 21 0; key = "temp2"; last_value = some (whole 20) }

check_sensors-last_example :
    ((check_sensors too_hot press (thermometer ∷ cool ∷ []) hot_plant).0 ≡ ok tt)
    × (count_where
          (rule_slot too_hot press)
          (check_sensors too_hot press (thermometer ∷ cool ∷ []) hot_plant).1.alerts
        ≡ 0)
    × IsClean
        (some 5)
        (some 10)
        (check_sensors too_hot press (thermometer ∷ cool ∷ []) hot_plant).1.alerts
unfolding matches
check_sensors-last_example =
    check_sensors-last too_hot press (thermometer ∷ cool ∷ []) hot_plant hot_plant-IsClean

raised_first : (raise_alert hot plant).0 ≡ ok (some (notified_at plant.now hot_alert))
unfolding raise_alert emit announce
raised_first = refl

raise_alert_twice_example :
    (b : Alert) × ((raise_alert hot (raise_alert hot plant).1).0 ≡ ok (some b))
    × (b.id ≡ 100)
    × (keys (raise_alert hot (raise_alert hot plant).1).1.alerts
        ≡ keys (raise_alert hot plant).1.alerts)
raise_alert_twice_example = raise_alert_twice hot hot plant refl refl raised_first

read_all_lem_example :
    (unread_count engineer (read_all engineer plant).1 ≡ 0)
    × ((read_all engineer plant).0 ≡ unread_count engineer plant)
    × (select (λ n. not (is_inbox_of engineer n)) (read_all engineer plant).1.notifications ≡ [])
read_all_lem_example = read_all_lem engineer plant

detect_offline_devices_lem_example :
    ((detect_offline_devices hot_plant).0 ≡ ok 1)
    × (count_where (is_stale hot_plant.now) (detect_offline_devices hot_plant).1.devices ≡ 0)
    × OpenUnique (detect_offline_devices hot_plant).1.alerts
unfolding is_stale
detect_offline_devices_lem_example = detect_offline_devices_lem hot_plant hot_plant-OpenUnique
