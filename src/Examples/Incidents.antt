-- ===== src/Examples/Incidents.antt =====
-- Applications of the theorems on the open incidents and on the fan-out, at the small plant.
use robotics_io_t_smart_auto.Base.{
  ℕ, ◌≡◌, refl, none, some, List, [], ◌∷◌, ◌++◌, map, arith, count_where, whole,
}
use robotics_io_t_smart_auto.Alerts.Incidents.Refines.{
  Event, perform_all, SlotRun, perform_all-SlotRun,
}
use robotics_io_t_smart_auto.Alerts.Incidents.Slots.{slots}
use robotics_io_t_smart_auto.Alerts.Incidents.Table.{IncidentTable}
use robotics_io_t_smart_auto.Alerts.Models.{Severity, Alert, Kind, NotificationChannel}
use robotics_io_t_smart_auto.Alerts.Services.Cooldown.{Silent, storm, storm-Silent}
use robotics_io_t_smart_auto.Alerts.Services.Evaluate.{breach_args}
use robotics_io_t_smart_auto.Alerts.Services.FanOut.{
  external, internal, addressed, members, copies, fan_out-exact,
}
use robotics_io_t_smart_auto.Alerts.Services.Notify.{
  create_notifications, broadcast_notifications, deliver_to, fan_out, notified_at,
}
use robotics_io_t_smart_auto.Alerts.Services.Raise.{RaiseArgs, alert_row}
use robotics_io_t_smart_auto.Core.Models.{new_base}
use robotics_io_t_smart_auto.Core.Realtime.{broadcast}
use robotics_io_t_smart_auto.Examples.Plant.{press, thermometer, too_hot, inbox, plant}
use robotics_io_t_smart_auto.World.{World}

abbrev breach : RaiseArgs
breach = breach_args too_hot press thermometer (whole 90)

abbrev story : List Event
story =
    Event.raised breach
    ∷ Event.elapsed 5
    ∷ Event.raised breach
    ∷ Event.calmed too_hot press
    ∷ Event.raised breach
    ∷ []

plant-IncidentTable : IncidentTable plant
plant-IncidentTable = record {
  unique = record { at = λ rule device. omega arith };
  alive = tt;
  below = tt;
}

perform_all-SlotRun_example :
    SlotRun story (slots plant) (slots (perform_all story plant))
    × IncidentTable (perform_all story plant)
perform_all-SlotRun_example = perform_all-SlotRun story plant plant-IncidentTable

-- the plant just after the first notification of the alert
abbrev told_alert : Alert
told_alert = notified_at plant.now (alert_row breach plant)

abbrev told_plant : World
told_plant = record plant { alerts = told_alert ∷ []; next_id = 101 }

abbrev calls : List (ℕ × RaiseArgs)
calls = (1000000, breach) ∷ (2000000, breach_args too_hot press thermometer (whole 95)) ∷ []

storm-Silent_example : Silent told_plant (storm calls told_plant)
storm-Silent_example =
    storm-Silent calls told_plant too_hot (some press.id) told_alert
      ((refl, refl), ((refl, refl), tt)) refl refl (omega arith)

-- a mail channel for critical alerts, beside the inbox
abbrev mail : NotificationChannel
mail = record inbox { base = new_base 61 0; kind = Kind.email; min_severity = Severity.warning }

fan_out-exact_example :
    ((fan_out told_alert (inbox ∷ mail ∷ []) plant).deliveries
      ≡ plant.deliveries
        ++ map (λ c. (told_alert.id, c.id)) (external told_alert (inbox ∷ mail ∷ [])))
    × (addressed (fan_out told_alert (inbox ∷ mail ∷ []) plant).notifications
        ≡ addressed plant.notifications
          ++ copies
              (count_where (internal told_alert) (inbox ∷ mail ∷ []))
              (members told_alert plant))
fan_out-exact_example = fan_out-exact told_alert (inbox ∷ mail ∷ []) plant

-- both channels are used
both_channels :
    ((fan_out told_alert (inbox ∷ mail ∷ []) plant).deliveries ≡ (100, 61) ∷ [])
    × (addressed (fan_out told_alert (inbox ∷ mail ∷ []) plant).notifications
        ≡ (2, none) ∷ (2, some 100) ∷ (3, some 100) ∷ [])
unfolding fan_out deliver_to create_notifications broadcast_notifications broadcast
both_channels = (refl, refl)
