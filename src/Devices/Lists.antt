-- ===== src/Devices/Lists.antt =====
-- The remaining lists of apps/devices/views.py, and DeviceFilter of apps/devices/filters.py.
use robotics_io_t_smart_auto.Base.{
  ℕ, String, Bool, true, false, not, ◌&&◌, Option, none, some, List, str_eq, leb, ◌==◌, refers_to,
  select, first?, Float, flt_le,
}
use robotics_io_t_smart_auto.Accounts.Models.{User}
use robotics_io_t_smart_auto.Alerts.Services.Notify.{is_alive}
use robotics_io_t_smart_auto.Core.Scope.{scope}
use robotics_io_t_smart_auto.Devices.Models.{
  DeviceStatus, same_status, DeviceGroup, Device, DeviceCommand,
}
use robotics_io_t_smart_auto.Devices.Views.{visible_devices}
use robotics_io_t_smart_auto.World.{World}

-- DeviceGroupViewSet.get_queryset
unfoldable pub visible_groups : Option User → World → List DeviceGroup
visible_groups user w =
    scope (λ g. some g.organization_id) user (select (λ g. is_alive g.base) w.groups)

-- the organization of the device of a command
abbrev pub command_org : World → DeviceCommand → Option ℕ
command_org w c = elim (first? (λ d. d.id == c.device_id) w.devices) [
  | none ↦ none
  | some d ↦ some d.organization_id
]

-- DeviceCommandViewSet.get_queryset
unfoldable pub visible_commands : Option User → World → List DeviceCommand
visible_commands user w = scope (command_org w) user (select (λ c. is_alive c.base) w.commands)

-- The parameters of DeviceFilter, those that the request gives.
pub record DeviceFilter : Type 0 where
  pub online : Option Bool
  pub low_battery : Option Float
  pub seen_after : Option ℕ
  pub group : Option ℕ
  pub organization : Option ℕ
  pub status : Option DeviceStatus
  pub manufacturer : Option String

-- filter_online
abbrev pub filter_online : Bool → Device → Bool
filter_online true d = same_status d.status DeviceStatus.online
filter_online false d = not (same_status d.status DeviceStatus.online)

-- a parameter that is not given passes every row
abbrev pub if_given : {A : Type 0} → Option A → (A → Bool) → Bool
if_given none test = true
if_given (some x) test = test x

-- battery_level__lte and last_seen__gte: a NULL column passes neither
abbrev pub at_most : Option Float → Float → Bool
at_most none limit = false
at_most (some x) limit = flt_le x limit

abbrev pub at_least : Option ℕ → ℕ → Bool
at_least none limit = false
at_least (some t) limit = leb limit t

-- DeviceFilter on one row; device_type is left out
abbrev pub passes : DeviceFilter → Device → Bool
passes f d =
    if_given f.online (λ b. filter_online b d)
    && (if_given f.low_battery (at_most d.battery_level)
        && (if_given f.seen_after (at_least d.last_seen)
            && (if_given f.group (refers_to d.group)
                && (if_given f.organization (λ o. d.organization_id == o)
                    && (if_given f.status (same_status d.status)
                        && if_given f.manufacturer (str_eq d.manufacturer))))))

-- DeviceViewSet.list, without search, ordering and pages
unfoldable pub list_devices : Option User → DeviceFilter → World → List Device
list_devices user f w = select (passes f) (visible_devices user w)
