-- ===== src/Mqtt/Runs.antt =====
-- The life of the command table: orders, answers from devices and expiry in any order.
use robotics_io_t_smart_auto.Base.{ℕ, String, Option}
use robotics_io_t_smart_auto.Accounts.Models.{User}
use robotics_io_t_smart_auto.Core.Codec.{Codec}
use robotics_io_t_smart_auto.Core.Json.{Json, Fields}
use robotics_io_t_smart_auto.Devices.Tasks.{expire_stale_commands}
use robotics_io_t_smart_auto.Devices.Views.{command_view}
use robotics_io_t_smart_auto.Mqtt.Handlers.{handle_result}
use robotics_io_t_smart_auto.World.{World}

-- One event that touches commands, with the clock and the broker of its own moment.
pub data Step (codec : Codec) : World → World → Type 0 where
  ordered :
      (w : World) (user : Option User) (pk : ℕ) (data_fields : Fields)
      → Step codec w (command_view user pk data_fields w).1
  answered :
      (w : World) (topic : String) (message : Option Json)
      → Step codec w (handle_result codec topic message w).1
  expired : (w : World) → Step codec w (expire_stale_commands w).1
  passed :
      (w : World) (now : ℕ) (broker_error : Option String)
      → Step codec w (record w { now = now; broker_error = broker_error })

pub data Run (codec : Codec) : World → World → Type 0 where
  stay : (w : World) → Run codec w w
  go : (u v w : World) → Step codec u v → Run codec v w → Run codec u w
