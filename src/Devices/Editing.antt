-- ===== src/Devices/Editing.antt =====
-- What editing and deleting a device through the API of apps/devices/views.py does.
use robotics_io_t_smart_auto.Base.{
  ℕ, String, ◌≡◌, refl, sym, ap, ◌∙◌, subst, inl, inr, true, false, not, ◌&&◌, Option, none, some,
  List, arith, str_eq, ◌==◌, Bool-cases, first?, exists_where, update_where, Error, Outcome, ok,
  fail, and_then-ok, ok_eq,
}
use robotics_io_t_smart_auto.Accounts.Access.{MayControl, can_access_device-control_iff}
use robotics_io_t_smart_auto.Accounts.Models.{
  User, DevicePermission, is_platform_admin, can_access_device,
}
use robotics_io_t_smart_auto.Core.Permissions.{has_device_access}
use robotics_io_t_smart_auto.Devices.Api.{
  DeviceData, edited, other_serial, live_serial, check_serial, save_all, touched, update_view,
}
use robotics_io_t_smart_auto.Devices.Models.{Device}
use robotics_io_t_smart_auto.Devices.Saves.{on_device_saved-Quiet}
use robotics_io_t_smart_auto.Devices.Signals.{previous_status}
use robotics_io_t_smart_auto.Devices.Views.{visible_devices, admit, get_device}
use robotics_io_t_smart_auto.World.{World}

-- The columns that DeviceSerializer marks as read-only, and the key and the instant of creation.
pub record ReadOnlyKept (old new : Device) : Type 0 where
  pub id : new.id ≡ old.id
  pub created_at : new.created_at ≡ old.created_at
  pub deleted_at : new.deleted_at ≡ old.deleted_at
  pub status : new.status ≡ old.status
  pub last_seen : new.last_seen ≡ old.last_seen
  pub health_score : new.health_score ≡ old.health_score
  pub battery_level : new.battery_level ≡ old.battery_level
  pub signal_strength : new.signal_strength ≡ old.signal_strength
  pub auth_token_hash : new.auth_token_hash ≡ old.auth_token_hash

-- What an accepted edit is.
pub record Edited (user : Option User) (pk : ℕ) (w w' : World) (new : Device) : Type 0 where
  pub old : Device
  pub caller : User
  pub known : user ≡ some caller
  pub found : first? (λ d. d.id == pk) (visible_devices user w) ≡ some old
  pub control : MayControl w.permissions caller old.id old.organization_id
  pub read_only : ReadOnlyKept old new
  pub serial_free :
      exists_where (λ d. not (d.id == old.id) && str_eq d.serial new.serial) w.devices ≡ false
  pub written : w'.devices ≡ update_where (λ d. d.id == old.id) (λ _. new) w.devices
  pub alerts : w'.alerts ≡ w.alerts

admin_access :
    (permissions : List DevicePermission) (user : User) (d : Device)
    → is_platform_admin user ≡ true
    → can_access_device permissions user d.id d.organization_id true ≡ true
unfolding can_access_device
admin_access permissions user d h = rw h refl

-- the object check that passed
access-MayControl :
    (permissions : List DevicePermission) (user : Option User) (d : Device)
    → has_device_access permissions (record { user = user; is_safe = false }) d.id d.organization_id
      ≡ true
    → (caller : User) × (user ≡ some caller) × MayControl permissions caller d.id d.organization_id
unfolding has_device_access
access-MayControl permissions none d h = absurd (ground (arith, h))
access-MayControl permissions (some user) d h = elim (Bool-cases (is_platform_admin user)) [
  | inl admin ↦ (
    user,
    refl,
    (can_access_device-control_iff permissions user d.id d.organization_id).0
        (admin_access permissions user d admin),
  )
  | inr other ↦ (
    user,
    refl,
    (can_access_device-control_iff permissions user d.id d.organization_id).0 (rw other at h),
  )
]

fail_ok : {A : Type 0} {e : Error} {a : A} → Path (Outcome A) (fail e) (ok a) → ⊥
fail_ok h = ground arith

admit-control :
    (permissions : List DevicePermission) (user : Option User) (found : Option Device) (d : Device)
    → admit permissions user found ≡ ok d
    → (found ≡ some d)
      × (caller : User) × (user ≡ some caller)
      × MayControl permissions caller d.id d.organization_id
unfolding admit
admit-control permissions user none d h = absurd (fail_ok h)
admit-control permissions user (some x) d h =
    elim (Bool-cases (
      has_device_access permissions (record { user = user; is_safe = false }) x.id
        x.organization_id)) [
          | inl yes' ↦
              let same : x ≡ d = ok_eq (rw yes' at h) in
              subst
                (λ y.
                  (some x ≡ some y)
                  × (caller : User) × (user ≡ some caller)
                  × MayControl permissions caller y.id y.organization_id)
                same
                (let (caller, known, control) = access-MayControl permissions user x yes' in
                  (refl, caller, known, control))
          | inr no' ↦ absurd (fail_ok (rw no' at h))
        ]

check_serial-ok :
    (id : ℕ) (serial : String) (rows : List Device) (u : Unit {0})
    → check_serial id serial rows ≡ ok u
    → exists_where (other_serial id serial) rows ≡ false
unfolding check_serial
check_serial-ok id serial rows u h = elim (Bool-cases (exists_where (live_serial id serial) rows)) [
  | inl live ↦ absurd (fail_ok (rw live at h))
  | inr free ↦ elim (Bool-cases (exists_where (other_serial id serial) rows)) [
    | inl dead' ↦ absurd (fail_ok (rw (free, dead') at h))
    | inr none' ↦ none'
  ]
]

saved_edit :
    (user : Option User) (pk : ℕ) (x : DeviceData) (w : World) (d : Device) (u : Unit {0})
    → get_device user pk w ≡ ok d
    → check_serial d.id (edited x d).serial w.devices ≡ ok u
    → Edited user pk w (save_all (touched w.now (edited x d)) w) (touched w.now (edited x d))
unfolding get_device save_all
saved_edit user pk x w d u got fits =
    let saved = touched w.now (edited x d) in
    let (found, caller, known, control) =
      admit-control w.permissions user (first? (λ r. r.id == pk) (visible_devices user w)) d got in
    let quiet =
      on_device_saved-Quiet saved (previous_status saved w)
        (record w { devices = update_where (λ r. r.id == d.id) (λ _. saved) w.devices }) in
    record {
      old = d;
      caller = caller;
      known = known;
      found = found;
      control = control;
      read_only = record {
        id = refl;
        created_at = refl;
        deleted_at = refl;
        status = refl;
        last_seen = refl;
        health_score = refl;
        battery_level = refl;
        signal_strength = refl;
        auth_token_hash = refl;
      };
      serial_free = check_serial-ok d.id saved.serial w.devices u fits;
      written = quiet.tables.devices;
      alerts = quiet.alerts;
    }

-- An accepted edit is by a known user who sees the device and may control it by the access matrix;
-- its serial is nobody else's; it writes the row of the device and no other, and leaves every
-- read-only column (status, last_seen, health and levels), the key and the token as they were; and
-- no alert changes.
pub update_view-Edited :
    (user : Option User) (pk : ℕ) (x : DeviceData) (w : World) {new : Device}
    → (update_view user pk x w).0 ≡ ok new
    → Edited user pk w (update_view user pk x w).1 new
unfolding update_view get_device
update_view-Edited user pk x w {new} h =
    let (d, got, first) = and_then-ok (get_device user pk w, w) _ new h in
    let (u, fits, second) =
      and_then-ok (check_serial d.id (edited x d).serial w.devices, w) _ new
        (ap (λ r. r.0) (sym first) ∙ h) in
    let saved = touched w.now (edited x d) in
    let all : update_view user pk x w ≡ (ok saved, save_all saved w) = first ∙ second in
    let same : saved ≡ new = ok_eq (sym (ap (λ r. r.0) all) ∙ h) in
    subst (λ v. Edited user pk w v new) (sym (ap (λ r. r.1) all))
      (subst (λ n. Edited user pk w (save_all saved w) n) same
        (saved_edit user pk x w d u got fits))
