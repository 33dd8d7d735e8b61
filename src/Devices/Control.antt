-- ===== src/Devices/Control.antt =====
-- Remote control through the API: who gets a command issued, and what a refusal leaves.
use robotics_io_t_smart_auto.Base.{
  ℕ, ◌≡◌, refl, ap, ◌∙◌, subst, ◌⊎◌, inl, inr, Bool, true, false, Option, none, some, List, arith,
  ◌==◌, Bool-cases, first?, Error, validation_error, permission_denied, Outcome, ok, fail, bind-ok,
}
use robotics_io_t_smart_auto.Accounts.Access.{MayControl, can_access_device-control_iff}
use robotics_io_t_smart_auto.Accounts.Models.{User, DevicePermission}
use robotics_io_t_smart_auto.Core.Json.{Json, Fields}
use robotics_io_t_smart_auto.Core.Permissions.{has_device_access}
use robotics_io_t_smart_auto.Devices.Models.{Device, DeviceCommand}
use robotics_io_t_smart_auto.Devices.Services.{default_command_ttl, dispatch_command}
use robotics_io_t_smart_auto.Devices.Views.{
  visible_devices, admit, get_device, may_control, command_of, Order, supported, require,
  check_order, actor_of, payload_of, issue, command_view,
}
use robotics_io_t_smart_auto.World.{World}

-- Everything that the checks of an order establish.
pub record Authorized (user : Option User) (pk : ℕ) (w : World) (o : Order) : Type 0 where
  pub caller : User
  pub known : user ≡ some caller
  pub found : first? (λ d. d.id == pk) (visible_devices user w) ≡ some o.device
  pub control : MayControl w.permissions caller o.device.id o.device.organization_id
  pub fits : supported o.device o.command ≡ ok true

admit-ok :
    (permissions : List DevicePermission) (user : Option User) (found : Option Device) (d : Device)
    → admit permissions user found ≡ ok d
    → found ≡ some d
unfolding admit
admit-ok permissions user none d h = ground arith
admit-ok permissions user (some x) d h =
    elim (Bool-cases (
      has_device_access permissions (record { user = user; is_safe = false }) x.id
        x.organization_id)) [
          | inl yes' ↦ ap some (ok_inj (rw yes' at h))
          | inr no' ↦ ok_fail (rw no' at h)
        ]
  where
    ok_inj : {a b : Device} → ok a ≡ ok b → a ≡ b
    ok_inj e = ground arith

    ok_fail : {e : Error} → fail e ≡ ok d → some x ≡ some d
    ok_fail e = ground arith

require-ok : (b : Bool) (e : Error) (u : Unit {0}) → require b e ≡ ok u → b ≡ true
require-ok true e u h = refl
require-ok false e u h = ground arith

may_control-MayControl :
    (permissions : List DevicePermission) (user : Option User) (d : Device)
    → may_control permissions user d ≡ true
    → (caller : User) × (user ≡ some caller) × MayControl permissions caller d.id d.organization_id
may_control-MayControl permissions none d h = ground arith
may_control-MayControl permissions (some user) d h =
    (user, refl, (can_access_device-control_iff permissions user d.id d.organization_id).0 h)

check_order-ok :
    (user : Option User) (pk : ℕ) (data_fields : Fields) (w : World) (o : Order)
    → check_order user pk data_fields w ≡ ok o
    → Authorized user pk w o
unfolding check_order get_device
check_order-ok user pk data_fields w o h =
    let (d, found, h1) = bind-ok (get_device user pk w) _ o h in
    let (a, allowed, h2) =
      bind-ok (require (may_control w.permissions user d) permission_denied) _ o h1 in
    let (c, named, h3) = bind-ok (command_of data_fields) _ o h2 in
    let (fits, declared, h4) = bind-ok (supported d c) _ o h3 in
    let (b, accepted, h5) = bind-ok (require fits validation_error) _ o h4 in
    let (caller, known, control) =
      may_control-MayControl w.permissions user d (require-ok _ _ a allowed) in
    let good : supported d c ≡ ok true = declared ∙ ap ok (require-ok _ _ b accepted) in
    let e : record { device = d; command = c } ≡ o = ground (arith, h5) in
    subst (Authorized user pk w) e (record {
      caller = caller;
      known = known;
      found = admit-ok _ _ _ _ found;
      control = control;
      fits = good;
    })

pub issue-cases :
    (r : Outcome Order) (actor : Option ℕ) (payload : Json) (w : World)
    → ((e : Error) × (r ≡ fail e) × (issue r actor payload w ≡ (fail e, w)))
      ⊎ ((o : Order) × (r ≡ ok o)
          × (issue r actor payload w ≡ (
            ok (dispatch_command o.device o.command payload actor default_command_ttl w).0,
            (dispatch_command o.device o.command payload actor default_command_ttl w).1,
          )))
unfolding issue
issue-cases (ok o) actor payload w = inr (o, refl, refl)
issue-cases (fail e) actor payload w = inl (e, refl, refl)

module _ (user : Option User) (pk : ℕ) (data_fields : Fields) (w : World) where
  abbrev response : Outcome DeviceCommand × World
  response = command_view user pk data_fields w

  -- Where the endpoint answers with a command, the caller is known, the device with this key is
  -- visible to the caller, the access matrix lets the caller control it, the device supports the
  -- command, and the call did what `dispatch_command` does for this device and caller.
  pub command_view-Authorized :
      (cmd : DeviceCommand)
      → response.0 ≡ ok cmd
      → (o : Order) × Authorized user pk w o
        × (response ≡ (
          ok
              (dispatch_command o.device o.command
                (payload_of data_fields)
                (actor_of user)
                default_command_ttl
                w).0,
          (dispatch_command o.device o.command
              (payload_of data_fields)
              (actor_of user)
              default_command_ttl
              w).1,
        ))
  unfolding command_view
  command_view-Authorized cmd h =
      elim (issue-cases (check_order user pk data_fields w) (actor_of user) (payload_of data_fields)
        w) [
          | inl (e, bad, same) ↦ absurd (ground (arith, h, ap (λ r. r.0) same))
          | inr (o, good, same) ↦ (o, check_order-ok user pk data_fields w o good, same)
        ]

  -- A refused request changes nothing: no command is stored, sent, pushed or audited.
  pub command_view-refused : (e : Error) → response.0 ≡ fail e → response.1 ≡ w
  unfolding command_view
  command_view-refused e h =
      elim (issue-cases (check_order user pk data_fields w) (actor_of user) (payload_of data_fields)
        w) [
          | inl (e', bad, same) ↦ ap (λ r. r.1) same
          | inr (o, good, same) ↦ absurd (ground (arith, h, ap (λ r. r.0) same))
        ]
