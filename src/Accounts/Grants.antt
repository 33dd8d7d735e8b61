-- ===== src/Accounts/Grants.antt =====
-- DevicePermissionViewSet.create of apps/accounts/views.py, behind IsAdmin, and UserViewSet.me.
use robotics_io_t_smart_auto.Base.{
  ℕ, ◌+◌, String, Bool, true, false, Option, none, some, [], ◌∷◌, ◌++◌, if◌then◌else◌, concat,
  exists_where, validation_error, permission_denied, not_authenticated, Outcome, ok, fail,
}
use robotics_io_t_smart_auto.Accounts.Models.{User, DevicePermission, is_grant}
use robotics_io_t_smart_auto.Core.Models.{Action}
use robotics_io_t_smart_auto.Core.Permissions.{is_admin}
use robotics_io_t_smart_auto.Core.Services.{Entry, entry, record_audit}
use robotics_io_t_smart_auto.Devices.Models.{Device}
use robotics_io_t_smart_auto.World.{World}

-- The validated fields of a new grant, with the rows that they name.
pub record NewGrant : Type 0 where
  pub target : User
  pub device : Device
  pub can_control : Bool
  pub expires_at : Option ℕ

-- serializer.save(granted_by=self.request.user)
abbrev pub grant_row : User → NewGrant → World → DevicePermission
grant_row granter x w = record {
  id = w.next_id;
  created_at = w.now;
  updated_at = w.now;
  user_id = x.target.id;
  device_id = x.device.id;
  can_control = x.can_control;
  granted_by = some granter.id;
  expires_at = x.expires_at;
}

abbrev pub scope_word : Bool → String
scope_word true = "control"
scope_word false = "view"

-- f"Granted ... on {grant.device} to {grant.user}", with `__str__` of both
abbrev pub grant_summary : NewGrant → String
grant_summary x = concat (
    "Granted "
    ∷ scope_word x.can_control
    ∷ " on "
    ∷ x.device.name
    ∷ " ("
    ∷ x.device.serial
    ∷ ") to "
    ∷ x.target.email
    ∷ [])

abbrev pub grant_entry : NewGrant → ℕ → Entry
grant_entry x id = entry Action.update "device_permission" (some id) (grant_summary x)

-- perform_create
unfoldable pub perform_create_grant : User → NewGrant → World → DevicePermission × World
perform_create_grant granter x w =
    let made = grant_row granter x w in
    let stored = record w { permissions = w.permissions ++ made ∷ []; next_id = w.next_id + 1 } in
    (made, record_audit (grant_entry x made.id) stored)

-- create: IsAdmin, then the validator of uq_user_device_permission
unfoldable pub create_grant : User → NewGrant → World → Outcome DevicePermission × World
unfolding perform_create_grant
create_grant granter x w =
    if is_admin (record { user = some granter; is_safe = false })
    then (if exists_where (is_grant x.target.id x.device.id) w.permissions
        then (fail validation_error, w)
        else (let (made, w') = perform_create_grant granter x w in (ok made, w')))
    else (fail permission_denied, w)

-- UserViewSet.me: the caller's own row
unfoldable pub me : Option User → Outcome User
me none = fail not_authenticated
me (some user) = ok user
