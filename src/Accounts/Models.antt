-- ===== src/Accounts/Models.antt =====
-- apps/accounts/models.py: Organization, Role, User and DevicePermission, with the role helpers
-- and the access check of `User`.
use robotics_io_t_smart_auto.Base.{
  ℕ, String, Bool, true, false, not, ◌&&◌, ◌||◌, Option, none, some, List, ltb, ◌==◌, if◌then◌else◌,
  refers_to, first?, exists_where,
}
use robotics_io_t_smart_auto.Core.Json.{Json}
use robotics_io_t_smart_auto.Core.Models.{BaseModel}

-- class Organization
pub record Organization : Type 0 where
  pub base : BaseModel
  pub open base use *
  pub name : String
  pub slug : String
  pub contact_email : String
  pub is_active : Bool
  pub settings : Json

-- class Role
pub data Role : Type 0 where
  super_admin org_admin engineer operator viewer device : Role

-- class User. The columns of AbstractUser that the program never reads are left out.
pub record User : Type 0 where
  pub id : ℕ
  pub email : String
  pub first_name : String
  pub last_name : String
  pub organization_id : Option ℕ
  pub role : Role
  pub phone : String
  pub avatar : Option String
  pub is_service_account : Bool
  pub is_active : Bool
  pub is_staff : Bool
  pub is_superuser : Bool

-- class DevicePermission
pub record DevicePermission : Type 0 where
  pub id : ℕ
  pub created_at : ℕ
  pub updated_at : ℕ
  pub user_id : ℕ
  pub device_id : ℕ
  pub can_control : Bool
  pub granted_by : Option ℕ
  pub expires_at : Option ℕ

-- role in {Role.SUPER_ADMIN, Role.ORG_ADMIN}
abbrev pub is_admin_role : Role → Bool
is_admin_role Role.super_admin = true
is_admin_role Role.org_admin = true
is_admin_role _ = false

abbrev pub is_super_admin_role : Role → Bool
is_super_admin_role Role.super_admin = true
is_super_admin_role _ = false

abbrev pub is_org_admin_role : Role → Bool
is_org_admin_role Role.org_admin = true
is_org_admin_role _ = false

abbrev pub is_engineer_role : Role → Bool
is_engineer_role Role.engineer = true
is_engineer_role _ = false

abbrev pub is_operator_role : Role → Bool
is_operator_role Role.operator = true
is_operator_role _ = false

-- User.is_platform_admin
abbrev pub is_platform_admin : User → Bool
is_platform_admin user = user.is_superuser || is_admin_role user.role

-- User.can_configure
unfoldable pub can_configure : User → Bool
can_configure user = is_platform_admin user || is_engineer_role user.role

-- User.can_control
unfoldable pub can_control : User → Bool
unfolding can_configure
can_control user = can_configure user || is_operator_role user.role

-- self.device_permissions.filter(device=device): the rows of this user for this device
abbrev pub is_grant : ℕ → ℕ → DevicePermission → Bool
is_grant user_id device_id p = p.user_id == user_id && p.device_id == device_id

-- bool(grant and grant.can_control)
abbrev pub grants_control : Option DevicePermission → Bool
grants_control none = false
grants_control (some p) = p.can_control

-- User.can_access_device, for the device with this key and this organization
unfoldable pub can_access_device :
    List DevicePermission → User → (device_id organization_id : ℕ) → (control : Bool) → Bool
can_access_device permissions user device_id organization_id control =
    if is_platform_admin user
    then true
    else if not (refers_to user.organization_id organization_id)
    then false
    else if control
    then (if is_engineer_role user.role
        then true
        else grants_control (first? (is_grant user.id device_id) permissions))
    else if is_engineer_role user.role || is_operator_role user.role
    then true
    else exists_where (is_grant user.id device_id) permissions

-- DevicePermission.is_expired
unfoldable pub is_expired : ℕ → DevicePermission → Bool
is_expired now p = elim p.expires_at [ none ↦ false | some t ↦ ltb t now ]
