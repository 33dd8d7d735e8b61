-- ===== src/Isolation.antt =====
-- The tenants of the API: what the lists of apps/devices/views.py, apps/telemetry/views.py and
-- apps/alerts/views.py show to whom.
use robotics_io_t_smart_auto.Base.{
  ℕ, ◌≡◌, inl, inr, Bool, true, false, Option, none, some, List, [], ◌∷◌, Bool-cases, same_ref,
  select, All, select-All,
}
use robotics_io_t_smart_auto.Accounts.Models.{User}
use robotics_io_t_smart_auto.Alerts.Rules.{visible_rules, visible_channels}
use robotics_io_t_smart_auto.Alerts.Services.Notify.{is_alive}
use robotics_io_t_smart_auto.Alerts.Views.{visible_alerts}
use robotics_io_t_smart_auto.Core.Scope.{sees_all, scope, scope_isolates}
use robotics_io_t_smart_auto.Devices.Lists.{visible_groups, command_org, visible_commands}
use robotics_io_t_smart_auto.Devices.Views.{visible_devices}
use robotics_io_t_smart_auto.Telemetry.Models.{CameraFeed}
use robotics_io_t_smart_auto.Telemetry.Views.{
  org_of_device, visible_sensors, visible_readings, visible_cameras,
}
use robotics_io_t_smart_auto.World.{World}

All-both {ℓ} :
    {A : Type ℓ} (P Q : A → Type 0) (xs : List A) → All P xs → All Q xs → All (λ x. P x × Q x) xs
All-both P Q [] h k = tt
All-both P Q (x ∷ xs) h k = ((h.0, k.0), All-both P Q xs h.1 k.1)

All-kept {ℓ} :
    {A : Type ℓ} (P : A → Type 0) (p : A → Bool) (xs : List A) → All P xs → All P (select p xs)
All-kept P p [] h = tt
All-kept P p (x ∷ xs) h = elim (Bool-cases (p x)) [
  | inl yes' ↦ rw yes' (h.0, All-kept P p xs h.1)
  | inr no' ↦ rw no' (All-kept P p xs h.1)
]

-- a list that shows nothing to an anonymous caller, and to this one only live rows of its own
-- organization
abbrev pub Shown {ℓ} :
    {A : Type ℓ} → (A → Option ℕ) → (A → Bool) → User → (Option User → List A) → Type ℓ
Shown org live user list =
    (list none ≡ [])
    × All (λ x. (org x ≡ user.organization_id) × (live x ≡ true)) (list (some user))

scope-Shown {ℓ} :
    {A : Type ℓ} (org : A → Option ℕ) (live : A → Bool) (user : User) (rows : List A)
    → sees_all user ≡ false
    → Shown org live user (λ u. scope org u (select live rows))
unfolding scope
scope-Shown org live user rows h =
    let (nobody, own) = scope_isolates org user (select live rows) h in
    let live_rows =
      All-kept (λ x. live x ≡ true) (λ x. same_ref (org x) user.organization_id) (select live rows)
        (select-All live rows) in
    (nobody, All-both _ _ _ own (rw h live_rows))

-- What every list of the API shows.
pub record Isolated (user : User) (feeds : List CameraFeed) (w : World) : Type 0 where
  pub devices :
      Shown (λ d. some d.organization_id) (λ d. is_alive d.base) user (λ u. visible_devices u w)
  pub groups :
      Shown (λ g. some g.organization_id) (λ g. is_alive g.base) user (λ u. visible_groups u w)
  pub commands : Shown (command_org w) (λ c. is_alive c.base) user (λ u. visible_commands u w)
  pub sensors :
      Shown
        (λ s. org_of_device s.device_id w)
        (λ s. is_alive s.base)
        user
        (λ u. visible_sensors u w)
  pub readings :
      (visible_readings none w ≡ [])
      × All
          (λ r. org_of_device r.device_id w ≡ user.organization_id)
          (visible_readings (some user) w)
  pub cameras :
      Shown
        (λ c. org_of_device c.device_id w)
        (λ c. is_alive c.base)
        user
        (λ u. visible_cameras feeds u w)
  pub rules :
      Shown (λ r. some r.organization_id) (λ r. is_alive r.base) user (λ u. visible_rules u w)
  pub channels :
      Shown (λ c. some c.organization_id) (λ c. is_alive c.base) user (λ u. visible_channels u w)
  pub alerts : Shown (λ a. a.organization_id) (λ a. is_alive a.base) user (λ u. visible_alerts u w)

-- Tenants are isolated in every list of devices, groups, commands, sensors, readings, camera feeds,
-- rules, channels and alerts: an anonymous caller is shown nothing, and whoever is neither a
-- superuser nor a super admin is shown only rows of the organization that the caller belongs to
-- (for a command, a sensor, a reading and a feed that of its device), and no deleted one.
pub lists-Isolated :
    (user : User) (feeds : List CameraFeed) (w : World)
    → sees_all user ≡ false
    → Isolated user feeds w
unfolding visible_devices visible_groups visible_commands visible_sensors visible_readings
    visible_cameras visible_rules visible_channels visible_alerts
lists-Isolated user feeds w h = record {
  devices = scope-Shown _ _ user w.devices h;
  groups = scope-Shown _ _ user w.groups h;
  commands = scope-Shown _ _ user w.commands h;
  sensors = scope-Shown _ _ user w.sensors h;
  readings = scope_isolates _ user w.readings h;
  cameras = scope-Shown _ _ user feeds h;
  rules = scope-Shown _ _ user w.rules h;
  channels = scope-Shown _ _ user w.channels h;
  alerts = scope-Shown _ _ user w.alerts h;
}
