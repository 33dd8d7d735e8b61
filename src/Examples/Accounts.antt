-- ===== src/Examples/Accounts.antt =====
-- Applications of the theorems on registration, administration, groups and transports.
use robotics_io_t_smart_auto.Base.{
  ℕ, ◌≡◌, refl, ◌≢◌, Bool, true, false, none, some, List, [], ◌∷◌, arith, refers_to, All, Outcome,
  ok,
}
use robotics_io_t_smart_auto.Accounts.Managers.{NewUser, user_row, register}
use robotics_io_t_smart_auto.Accounts.Models.{Role, User, DevicePermission, can_access_device}
use robotics_io_t_smart_auto.Accounts.Registration.{register-role}
use robotics_io_t_smart_auto.Accounts.Tenants.{org_admin_views}
use robotics_io_t_smart_auto.Accounts.Views.{
  visible_users, visible_organizations, grant_org, visible_grants,
}
use robotics_io_t_smart_auto.Core.Middleware.{audit_context}
use robotics_io_t_smart_auto.Core.Models.{new_base, AuditLog}
use robotics_io_t_smart_auto.Devices.Attribution.{audit_context-save_device}
use robotics_io_t_smart_auto.Devices.Groups.{full_path, Chain, full_path-Chain}
use robotics_io_t_smart_auto.Devices.Models.{DeviceStatus, DeviceGroup, Device}
use robotics_io_t_smart_auto.Devices.Signals.{DeviceField, previous_status, save_device}
use robotics_io_t_smart_auto.Examples.Plant.{engineer, press, plant}
use robotics_io_t_smart_auto.World.{World}

abbrev newcomer : NewUser
newcomer = record {
  email = "new@plant.example";
  first_name = "N";
  last_name = "C";
  organization_id = none;
  role = some Role.super_admin;
  is_staff = none;
  is_superuser = none;
}

abbrev row : NewUser → User
row data_fields = user_row (λ s. s) 100 data_fields

registered : (register (λ s. s) newcomer plant).0 ≡ ok (row newcomer)
unfolding register
registered = refl

register-role_example :
    (newcomer.role ≡ some Role.super_admin
      → (permissions : List DevicePermission) (device_id org : ℕ) (control : Bool)
      → can_access_device permissions (row newcomer) device_id org control ≡ true)
    × (newcomer.role ≡ none
        → ((row newcomer).role ≡ Role.viewer)
          × ((row newcomer).is_superuser ≡ false)
          × ((row newcomer).is_staff ≡ false))
register-role_example = register-role (λ s. s) newcomer plant (row newcomer) registered

abbrev head : User
head = record engineer { id = 7; role = Role.org_admin }

org_admin_views_example :
    ((org : ℕ)
      → head.organization_id ≡ some org
      → All (λ u. u.organization_id ≡ some org) (visible_users head plant)
        × All (λ p. grant_org plant p ≡ some org) (visible_grants head plant)
        × (false ≡ false
            → All (λ o. refers_to (some org) o.id ≡ true) (visible_organizations head plant)))
    × (head.organization_id ≡ none → visible_users head plant ≡ plant.users)
org_admin_views_example = org_admin_views head plant refl

abbrev site : DeviceGroup
site = record {
  base = new_base 80 0;
  organization_id = 1;
  name = "Site";
  parent = none;
  description = "";
}

abbrev hall : DeviceGroup
hall = record site { base = new_base 81 0; name = "Hall"; parent = some 80 }

abbrev ring : DeviceGroup
ring = record site { base = new_base 82 0; name = "Ring"; parent = some 82 }

abbrev groups : List DeviceGroup
groups = site ∷ hall ∷ ring ∷ []

full_path-Chain_example : full_path 2 groups hall ≡ some "Site / Hall"
full_path-Chain_example =
    full_path-Chain groups 2 hall 1 ("Site" ∷ "Hall" ∷ [])
      (Chain.child hall site 0 ("Site" ∷ []) refl (Chain.root site refl)) (omega arith)

abbrev silent_press : Device
silent_press = record press { status = DeviceStatus.offline }

abbrev request_save : World → Outcome (Unit {0}) × World
request_save v = (ok tt, save_device silent_press (DeviceField.status ∷ []) v)

press_was_online : previous_status silent_press plant ≡ some DeviceStatus.online
unfolding previous_status
press_was_online = refl

audit_context-save_device_example :
    (DeviceStatus.online ≡ DeviceStatus.offline
      → (audit_context (some 2) none request_save plant).1.audit_logs ≡ [])
    × (DeviceStatus.online ≢ DeviceStatus.offline
        → (row : AuditLog) × ((audit_context (some 2) none request_save plant).1.audit_logs
            ≡ row ∷ [])
          × (row.actor ≡ some 2)
          × (row.ip_address ≡ none)
          × (row.target_id ≡ some 10))
    × ((audit_context (some 2) none request_save plant).1.actor ≡ none)
    × ((audit_context (some 2) none request_save plant).1.ip ≡ none)
audit_context-save_device_example =
    audit_context-save_device (some 2) none silent_press (DeviceField.status ∷ []) plant
      DeviceStatus.online press_was_online
