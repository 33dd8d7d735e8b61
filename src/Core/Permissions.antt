-- ===== src/Core/Permissions.antt =====
-- apps/core/permissions.py. An anonymous caller is an absent user; a request is its user and
-- whether its method is one of SAFE_METHODS.
use robotics_io_t_smart_auto.Base.{
  ℕ, Bool, true, false, not, Option, none, some, List, if◌then◌else◌,
}
use robotics_io_t_smart_auto.Accounts.Models.{
  User, DevicePermission, is_platform_admin, can_access_device,
}

pub record Request : Type 0 where
  pub user : Option User
  pub is_safe : Bool

-- IsAdmin
unfoldable pub is_admin : Request → Bool
is_admin request = elim request.user [ none ↦ false | some user ↦ is_platform_admin user ]

-- IsAdminOrReadOnly
unfoldable pub is_admin_or_read_only : Request → Bool
is_admin_or_read_only request = elim request.user [
  | none ↦ false
  | some user ↦ if request.is_safe then true else is_platform_admin user
]

-- HasDeviceAccess.has_object_permission, for the device that the object belongs to
unfoldable pub has_device_access :
    List DevicePermission → Request → (device_id organization_id : ℕ) → Bool
has_device_access permissions request device_id organization_id = elim request.user [
  | none ↦ false
  | some user ↦
      if is_platform_admin user
      then true
      else can_access_device permissions user device_id organization_id (not request.is_safe)
]
