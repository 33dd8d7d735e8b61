-- ===== src/Devices/Views.antt =====
-- apps/devices/views.py: the fleet summary, the map, and remote control. The query parameters that
-- search and order a list are not modelled.
use robotics_io_t_smart_auto.Base.{
  ℕ, String, Bool, true, false, ◌&&◌, ◌||◌, Option, none, some, List, str_eq, ltb, ◌==◌,
  if◌then◌else◌, is_some, get_or, codes, has_infix, length, take, select, first?, count_where,
  sort_by, whole, flt_eq, Error, validation_error, permission_denied, type_error, not_found,
  Outcome, ok, fail, ◌>>=◌,
}
use robotics_io_t_smart_auto.Accounts.Models.{User, DevicePermission, can_access_device}
use robotics_io_t_smart_auto.Alerts.Services.Notify.{is_alive}
use robotics_io_t_smart_auto.Core.Json.{Json, Items, Fields, get, holds_text}
use robotics_io_t_smart_auto.Core.Permissions.{has_device_access}
use robotics_io_t_smart_auto.Core.Scope.{scope}
use robotics_io_t_smart_auto.Devices.Models.{
  DeviceStatus, same_status, Device, DeviceCommand, DeviceHealthSnapshot,
}
use robotics_io_t_smart_auto.Devices.Services.{default_command_ttl, dispatch_command}
use robotics_io_t_smart_auto.World.{World}

abbrev pub org_column : Device → Option ℕ
org_column d = some d.organization_id

-- DeviceViewSet.get_queryset
unfoldable pub visible_devices : Option User → World → List Device
visible_devices user w = scope org_column user (select (λ d. is_alive d.base) w.devices)

-- DeviceViewSet.stats: the counts of the four statuses that it names, and the total
pub record Stats : Type 0 where
  pub total : ℕ
  pub online : ℕ
  pub offline : ℕ
  pub degraded : ℕ
  pub error : ℕ

abbrev pub count_status : DeviceStatus → List Device → ℕ
count_status s ds = count_where (λ d. same_status d.status s) ds

unfoldable pub stats : Option User → World → Stats
stats user w =
    let qs = visible_devices user w in
    record {
      total = length qs;
      online = count_status DeviceStatus.online qs;
      offline = count_status DeviceStatus.offline qs;
      degraded = count_status DeviceStatus.degraded qs;
      error = count_status DeviceStatus.error qs;
    }

-- DeviceViewSet.map: the devices that have a position
unfoldable pub markers : Option User → World → List Device
markers user w = select (λ d. is_some d.latitude && is_some d.longitude) (visible_devices user w)

-- the object check of HasDeviceAccess on what the lookup found, for a request that writes
unfoldable pub admit : List DevicePermission → Option User → Option Device → Outcome Device
admit permissions user none = fail not_found
admit permissions user (some d) =
    if has_device_access permissions (record { user = user; is_safe = false }) d.id
      d.organization_id
    then ok d
    else fail permission_denied

-- self.get_object(): the device must be in the queryset
unfoldable pub get_device : Option User → ℕ → World → Outcome Device
unfolding admit
get_device user pk w = admit w.permissions user (first? (λ d. d.id == pk) (visible_devices user w))

-- the second check, which `command` makes itself
abbrev pub may_control : List DevicePermission → Option User → Device → Bool
may_control permissions none d = false
may_control permissions (some user) d =
    can_access_device permissions user d.id d.organization_id true

-- request.data.get("command"), which must not be empty; a command that is no text is not modelled
-- and refused
abbrev pub command_of : Fields → Outcome String
command_of data_fields = elim (get "command" data_fields) [
  | some (Json.str s) ↦ if str_eq s "" then fail validation_error else ok s
  | _ ↦ fail validation_error
]

-- `declared and command not in declared`, for the value of capabilities["commands"]
abbrev pub declared_has : String → Option Json → Outcome Bool
declared_has s none = ok true
declared_has s (some Json.null) = ok true
declared_has s (some (Json.bool b)) = if b then fail type_error else ok true
declared_has s (some (Json.num x)) = if flt_eq x (whole 0) then ok true else fail type_error
declared_has s (some (Json.str t)) = ok (str_eq t "" || has_infix (codes s) (codes t))
declared_has s (some (Json.arr Items.nil)) = ok true
declared_has s (some (Json.arr items)) = ok (holds_text s items)
declared_has s (some (Json.obj Fields.end)) = ok true
declared_has s (some (Json.obj fs)) = ok (is_some (get s fs))

-- What the request asks for, once every check has passed.
pub record Order : Type 0 where
  pub device : Device
  pub command : String

abbrev pub supported : Device → String → Outcome Bool
supported d s = declared_has s (get "commands" d.capabilities)

abbrev pub require : Bool → Error → Outcome (Unit {0})
require b e = if b then ok tt else fail e

unfoldable pub check_order : Option User → ℕ → Fields → World → Outcome Order
unfolding get_device
check_order user pk data_fields w = do
  device ← get_device user pk w
  allowed ← require (may_control w.permissions user device) permission_denied
  command ← command_of data_fields
  fits ← supported device command
  declared ← require fits validation_error
  ok (record { device = device; command = command })

abbrev pub actor_of : Option User → Option ℕ
actor_of none = none
actor_of (some user) = some user.id

-- request.data.get("payload", {})
abbrev pub payload_of : Fields → Json
payload_of data_fields = get_or (get "payload" data_fields) (Json.obj Fields.end)

unfoldable pub issue : Outcome Order → Option ℕ → Json → World → Outcome DeviceCommand × World
issue (fail e) actor payload w = (fail e, w)
issue (ok o) actor payload w =
    let (cmd, w') = dispatch_command o.device o.command payload actor default_command_ttl w in
    (ok cmd, w')

-- DeviceViewSet.command
unfoldable pub command_view : Option User → ℕ → Fields → World → Outcome DeviceCommand × World
unfolding check_order issue
command_view user pk data_fields w =
    issue (check_order user pk data_fields w) (actor_of user) (payload_of data_fields) w

-- DeviceViewSet.commands and health: the rows of one device, the newest first, at most so many
unfoldable pub recent_commands : ℕ → World → List DeviceCommand
recent_commands device_id w = take 100 (
    sort_by (λ c d. ltb d.created_at c.created_at)
      (select (λ c. is_alive c.base && c.device_id == device_id) w.commands))

unfoldable pub recent_health : ℕ → World → List DeviceHealthSnapshot
recent_health device_id w = take 200 (
    sort_by (λ s t. ltb t.created_at s.created_at)
      (select (λ s. is_alive s.base && s.device_id == device_id) w.snapshots))
