-- ===== src/Examples/Charts.antt =====
-- Applications of the theorems on the series of a sensor, at the small plant.
use robotics_io_t_smart_auto.Base.{◌≡◌, refl, Option, none, some, List, [], ◌∷◌, Float, ok}
use robotics_io_t_smart_auto.Core.Scope.{scope}
use robotics_io_t_smart_auto.Examples.Plant.{engineer, thermometer, plant}
use robotics_io_t_smart_auto.Telemetry.Aggregate.{bucket_rows, aggregate}
use robotics_io_t_smart_auto.Telemetry.Aggregate.Series.{Answered, aggregate-Answered}
use robotics_io_t_smart_auto.Telemetry.Views.{visible_sensors}

-- an average of no values is NULL; of some, the first stands for it
abbrev first_value : List Float → Option Float
first_value [] = none
first_value (x ∷ xs) = some x

hourly :
    aggregate first_value (some engineer) thermometer.id (some "hour") none plant
    ≡ ok (bucket_rows first_value 3600000000 plant.readings)
unfolding aggregate visible_sensors scope bucket_rows
hourly = refl

aggregate-Answered_example :
    Answered
      (some engineer)
      thermometer.id
      none
      plant
      (bucket_rows first_value 3600000000 plant.readings)
aggregate-Answered_example =
    aggregate-Answered first_value (some engineer) thermometer.id (some "hour") none plant hourly
