-- ===== src/Examples/Writing.antt =====
-- Editing a device and granting access to it, at the small plant.
use robotics_io_t_smart_auto.Base.{◌≡◌, refl, true, none, some, [], ok}
use robotics_io_t_smart_auto.Accounts.Granting.{Granted, create_grant-Granted}
use robotics_io_t_smart_auto.Accounts.Grants.{NewGrant, grant_row, create_grant}
use robotics_io_t_smart_auto.Accounts.Models.{Role, User, can_access_device}
use robotics_io_t_smart_auto.Core.Permissions.{is_admin, has_device_access}
use robotics_io_t_smart_auto.Core.Scope.{scope}
use robotics_io_t_smart_auto.Devices.Api.{DeviceData, edited, touched, update_view}
use robotics_io_t_smart_auto.Devices.Editing.{Edited, update_view-Edited}
use robotics_io_t_smart_auto.Devices.Models.{Device}
use robotics_io_t_smart_auto.Devices.Views.{visible_devices, get_device}
use robotics_io_t_smart_auto.Examples.Plant.{engineer, viewer, press, plant}
use robotics_io_t_smart_auto.World.{World}

abbrev chief : User
chief = record engineer { id = 5; role = Role.org_admin }

abbrev no_grants : World
no_grants = record plant { permissions = [] }

abbrev asked : NewGrant
asked = record { target = viewer; device = press; can_control = true; expires_at = none }

grant_accepted : (create_grant chief asked no_grants).0 ≡ ok (grant_row chief asked no_grants)
unfolding create_grant is_admin
grant_accepted = refl

create_grant-Granted_example :
    Granted chief asked no_grants
      (create_grant chief asked no_grants).1
      (grant_row chief asked no_grants)
create_grant-Granted_example = create_grant-Granted chief asked no_grants grant_accepted

abbrev renaming : DeviceData
renaming = record {
  organization = none;
  group = none;
  name = some "Press B";
  serial = none;
  device_type = none;
  ip_address = none;
  firmware_version = none;
  model_number = none;
  manufacturer = none;
  latitude = none;
  longitude = none;
  altitude = none;
  capabilities = none;
  metadata = none;
}

abbrev renamed : Device
renamed = touched plant.now (edited renaming press)

renaming_accepted : (update_view (some engineer) 10 renaming plant).0 ≡ ok renamed
unfolding update_view get_device visible_devices scope has_device_access can_access_device
renaming_accepted = refl

update_view-Edited_example :
    Edited (some engineer) 10 plant (update_view (some engineer) 10 renaming plant).1 renamed
update_view-Edited_example = update_view-Edited (some engineer) 10 renaming plant renaming_accepted
