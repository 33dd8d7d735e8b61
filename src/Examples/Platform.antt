-- ===== src/Examples/Platform.antt =====
-- Applications of the theorems on access, tenants, soft deletion and live connections.
use robotics_io_t_smart_auto.Base.{
  ◌≡◌, refl, ◌≢◌, ◌↔◌, inl, true, false, none, some, List, [], ◌∷◌, arith, length, All, not_found,
  ok, fail,
}
use robotics_io_t_smart_auto.Accounts.Access.{MayControl, MayView, can_access_device_lem}
use robotics_io_t_smart_auto.Accounts.Models.{DevicePermission, can_access_device}
use robotics_io_t_smart_auto.Core.Json.{Json, Fields}
use robotics_io_t_smart_auto.Core.Permissions.{has_device_access}
use robotics_io_t_smart_auto.Core.Realtime.{broadcast}
use robotics_io_t_smart_auto.Core.Retention.{delete_lem}
use robotics_io_t_smart_auto.Core.Scope.{scope}
use robotics_io_t_smart_auto.Core.SoftDelete.{
  IsModel, alive, delete_rows, hard_delete_rows, delete, restore,
}
use robotics_io_t_smart_auto.Devices.Control.{
  Authorized, command_view-Authorized, command_view-refused,
}
use robotics_io_t_smart_auto.Devices.Models.{Device, DeviceCommand}
use robotics_io_t_smart_auto.Devices.Services.{default_command_ttl, dispatch_command}
use robotics_io_t_smart_auto.Devices.Signals.{push_state}
use robotics_io_t_smart_auto.Devices.Views.{visible_devices, Order, command_view}
use robotics_io_t_smart_auto.Examples.Plant.{engineer, viewer, grant, press, plant}
use robotics_io_t_smart_auto.Isolation.{Isolated, lists-Isolated}
use robotics_io_t_smart_auto.Realtime.Consumers.{
  dashboard, can_view, device_stream, alert_feed, relayed,
}
use robotics_io_t_smart_auto.Realtime.Privacy.{
  MayHear, connections-MayHear, Audience, device_stream-private,
}
use robotics_io_t_smart_auto.World.{Group, Envelope, World}

abbrev grants : List DevicePermission
grants = grant ∷ []

can_access_device_lem_example :
    ((can_access_device grants viewer 10 1 true ≡ true) ↔ MayControl grants viewer 10 1)
    × ((can_access_device grants viewer 10 1 false ≡ true) ↔ MayView grants viewer 10 1)
can_access_device_lem_example = can_access_device_lem grants viewer 10 1

viewer_controls : can_access_device grants viewer 10 1 true ≡ true
unfolding can_access_device
viewer_controls = refl

-- the request for a stop of the press
abbrev stop_request : Fields
stop_request = Fields.field "command" (Json.str "stop") Fields.end

abbrev stopped : DeviceCommand × World
stopped = dispatch_command press "stop" (Json.obj Fields.end) (some 2) default_command_ttl plant

engineer_stops : (command_view (some engineer) 10 stop_request plant).0 ≡ ok stopped.0
unfolding command_view visible_devices scope has_device_access can_access_device
engineer_stops = refl

command_view-Authorized_example :
    (o : Order) × Authorized (some engineer) 10 plant o
    × (command_view (some engineer) 10 stop_request plant ≡ (
      ok
          (dispatch_command o.device o.command
            (Json.obj Fields.end)
            (some 2)
            default_command_ttl
            plant).0,
      (dispatch_command o.device o.command
          (Json.obj Fields.end)
          (some 2)
          default_command_ttl
          plant).1,
    ))
command_view-Authorized_example =
    command_view-Authorized (some engineer) 10 stop_request plant stopped.0 engineer_stops

nobody_stops : (command_view none 10 stop_request plant).0 ≡ fail not_found
unfolding command_view visible_devices scope
nobody_stops = refl

command_view-refused_example : (command_view none 10 stop_request plant).1 ≡ plant
command_view-refused_example =
    command_view-refused none 10 stop_request plant not_found nobody_stops

lists-Isolated_example : Isolated engineer [] plant
lists-Isolated_example = lists-Isolated engineer [] plant refl

abbrev devices_model : IsModel Device
devices_model = record {
  base_of = λ d. d.base;
  set_base = λ b d. record d { base = b };
  cascades_from = λ _. none;
  base-set = λ b d. refl;
  set-base = λ d. refl;
  set-set = λ b c d. refl;
}

delete_lem_example :
    (alive devices_model (delete_rows devices_model 9 (λ _. true) (press ∷ []))
      ≡ alive devices_model (hard_delete_rows devices_model (λ _. true) (press ∷ [])))
    × (alive devices_model (delete devices_model false 9 10 (press ∷ []))
        ≡ alive devices_model (delete devices_model true 9 10 (press ∷ [])))
    × (length (delete devices_model false 9 10 (press ∷ [])) ≡ 1)
    × (restore devices_model 10 (delete devices_model false 9 10 (press ∷ [])) ≡ press ∷ [])
delete_lem_example =
    delete_lem devices_model 9 10 (λ _. true) (press ∷ []) (inl refl, tt) (inl refl, tt)
      ((λ _. refl), tt)

abbrev pushed : List Envelope
pushed = (push_state press plant).broadcasts

connections-MayHear_example :
    All (λ e. MayHear engineer e.group) (relayed (dashboard (some engineer)) pushed)
    × All (λ e. MayHear engineer e.group) (relayed (alert_feed (some engineer)) pushed)
    × (relayed (dashboard none) pushed ≡ [])
    × (relayed (alert_feed none) pushed ≡ [])
connections-MayHear_example = connections-MayHear engineer pushed

is_heard : relayed (device_stream 10 plant (some engineer)) pushed ≢ []
unfolding device_stream relayed push_state broadcast can_access_device can_view
is_heard e = ground (arith, e)

device_stream-private_example :
    Audience (some engineer) 10 plant
    × All
        (λ e. e.group ≡ Group.device_group 10)
        (relayed (device_stream 10 plant (some engineer)) pushed)
device_stream-private_example = device_stream-private (some engineer) 10 plant pushed is_heard
