-- ===== src/Accounts/Views.antt =====
-- apps/accounts/views.py: the query sets of the administration, the audit of a login and of a
-- grant. All three viewsets ask for IsAdmin.
use robotics_io_t_smart_auto.Base.{
  ℕ, String, Bool, true, false, ◌&&◌, ◌||◌, Option, none, some, List, str_eq, ◌==◌, if◌then◌else◌,
  refers_to, same_ref, select, first?,
}
use robotics_io_t_smart_auto.Accounts.Models.{
  Organization, User, DevicePermission, is_super_admin_role, is_org_admin_role,
}
use robotics_io_t_smart_auto.Alerts.Services.Notify.{is_alive}
use robotics_io_t_smart_auto.Core.Models.{Action}
use robotics_io_t_smart_auto.Core.Services.{entry, record_audit}
use robotics_io_t_smart_auto.World.{World}

abbrev pub is_named : Option ℕ → Bool
is_named none = false
is_named (some _) = true

-- UserViewSet.get_queryset
unfoldable pub visible_users : User → World → List User
visible_users user w =
    if is_org_admin_role user.role && is_named user.organization_id
    then select (λ u. same_ref u.organization_id user.organization_id) w.users
    else w.users

-- OrganizationViewSet.get_queryset
unfoldable pub visible_organizations : User → World → List Organization
visible_organizations user w =
    let live = select (λ o. is_alive o.base) w.organizations in
    if is_super_admin_role user.role || user.is_superuser
    then live
    else select (λ o. refers_to user.organization_id o.id) live

-- the organization of the device of a grant
abbrev pub grant_org : World → DevicePermission → Option ℕ
grant_org w p = elim (first? (λ d. d.id == p.device_id) w.devices) [
  | none ↦ none
  | some d ↦ some d.organization_id
]

-- DevicePermissionViewSet.get_queryset
unfoldable pub visible_grants : User → World → List DevicePermission
visible_grants user w =
    if is_org_admin_role user.role && is_named user.organization_id
    then select (λ p. same_ref (grant_org w p) user.organization_id) w.permissions
    else w.permissions

-- LoginView.post, behind a token that was given: the first user with the address of the request
unfoldable pub audit_login : String → World → World
audit_login email w =
    let key : Option ℕ = elim (first? (λ u. str_eq u.email email) w.users) [
      | none ↦ none
      | some u ↦ some u.id
    ] in
    record_audit (record (entry Action.login "user" key "User login") { actor = key }) w
