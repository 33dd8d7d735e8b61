-- ===== src/Accounts/Granting.antt =====
-- What a new grant of apps/accounts/views.py allows, and what it leaves.
use robotics_io_t_smart_auto.Base.{
  ℕ, ◌≡◌, refl, sym, ap, ◌∙◌, subst, inl, inr, Bool, true, false, ◌&&◌, ◌||◌, none, some, List, [],
  ◌∷◌, ◌++◌, arith, ◌==◌, ==_refl, Bool-cases, first?, exists_where, Outcome, ok,
}
use robotics_io_t_smart_auto.Accounts.Grants.{
  NewGrant, grant_row, perform_create_grant, create_grant,
}
use robotics_io_t_smart_auto.Accounts.Models.{
  User, DevicePermission, is_platform_admin, is_grant, can_access_device,
}
use robotics_io_t_smart_auto.Core.Models.{AuditLog}
use robotics_io_t_smart_auto.Core.Permissions.{is_admin}
use robotics_io_t_smart_auto.Core.Services.{record_audit}
use robotics_io_t_smart_auto.World.{World}

first-apart :
    (user_id device_id : ℕ) (ps : List DevicePermission) (g : DevicePermission)
    → is_grant user_id device_id g ≡ false
    → first? (is_grant user_id device_id) (ps ++ g ∷ []) ≡ first? (is_grant user_id device_id) ps
first-apart user_id device_id [] g h = rw h refl
first-apart user_id device_id (p ∷ ps) g h = ground (arith, first-apart user_id device_id ps g h)

exists-apart :
    (user_id device_id : ℕ) (ps : List DevicePermission) (g : DevicePermission)
    → is_grant user_id device_id g ≡ false
    → exists_where (is_grant user_id device_id) (ps ++ g ∷ [])
      ≡ exists_where (is_grant user_id device_id) ps
exists-apart user_id device_id [] g h = rw h refl
exists-apart user_id device_id (p ∷ ps) g h = ground (arith, exists-apart user_id device_id ps g h)

-- a grant decides nothing about another user or another device
access-apart :
    (ps : List DevicePermission) (g : DevicePermission) (u : User) (d org : ℕ) (control : Bool)
    → is_grant u.id d g ≡ false
    → can_access_device (ps ++ g ∷ []) u d org control ≡ can_access_device ps u d org control
unfolding can_access_device
access-apart ps g u d org control h =
    rw (first-apart u.id d ps g h, exists-apart u.id d ps g h) refl

first-fresh :
    (user_id device_id : ℕ) (ps : List DevicePermission) (g : DevicePermission)
    → exists_where (is_grant user_id device_id) ps ≡ false
    → is_grant user_id device_id g ≡ true
    → (first? (is_grant user_id device_id) (ps ++ g ∷ []) ≡ some g)
      × (exists_where (is_grant user_id device_id) (ps ++ g ∷ []) ≡ true)
      × (first? (is_grant user_id device_id) ps ≡ none)
first-fresh user_id device_id [] g h k = rw k (refl, refl, refl)
first-fresh user_id device_id (p ∷ ps) g h k = ground (arith, first-fresh user_id device_id ps g)

-- What an accepted grant comes to.
pub record Granted (granter : User) (x : NewGrant) (w w' : World) (g : DevicePermission)
    : Type 0 where
  pub by_admin : is_platform_admin granter ≡ true
  pub stored : w'.permissions ≡ w.permissions ++ g ∷ []
  pub granted_by : g.granted_by ≡ some granter.id
  pub may_view :
      x.target.organization_id ≡ some x.device.organization_id
      → can_access_device w'.permissions x.target x.device.id x.device.organization_id false ≡ true
  pub may_control :
      x.target.organization_id ≡ some x.device.organization_id
      → can_access_device w'.permissions x.target x.device.id x.device.organization_id true
        ≡ can_access_device w.permissions x.target x.device.id x.device.organization_id true
          || x.can_control
  pub others :
      (u : User) (d org : ℕ) (control : Bool)
      → (x.target.id == u.id && x.device.id == d) ≡ false
      → can_access_device w'.permissions u d org control
        ≡ can_access_device w.permissions u d org control
  pub audited :
      (row : AuditLog) × (w'.audit_logs ≡ w.audit_logs ++ row ∷ [])
      × (row.target_id ≡ some g.id)
      × (row.actor ≡ w.actor)

module _ (granter : User) (x : NewGrant) (w : World) where
  abbrev row : DevicePermission
  row = grant_row granter x w

  abbrev granted : World
  granted = (perform_create_grant granter x w).1

  permissions-granted : granted.permissions ≡ w.permissions ++ row ∷ []
  unfolding perform_create_grant record_audit
  permissions-granted = refl

  view_lem :
      exists_where (is_grant x.target.id x.device.id) w.permissions ≡ false
      → x.target.organization_id ≡ some x.device.organization_id
      → can_access_device
          (w.permissions ++ row ∷ [])
          x.target
          x.device.id
          x.device.organization_id
          false
        ≡ true
  unfolding can_access_device
  view_lem new own =
      let (one, there, before) =
        first-fresh x.target.id x.device.id w.permissions row new
          (ground (arith, ==_refl x.target.id, ==_refl x.device.id)) in
      rw (there, own) (ground (arith, ==_refl x.device.organization_id))

  control_lem :
      exists_where (is_grant x.target.id x.device.id) w.permissions ≡ false
      → x.target.organization_id ≡ some x.device.organization_id
      → can_access_device
          (w.permissions ++ row ∷ [])
          x.target
          x.device.id
          x.device.organization_id
          true
        ≡ can_access_device w.permissions x.target x.device.id x.device.organization_id true
          || x.can_control
  unfolding can_access_device
  control_lem new own =
      let (one, there, before) =
        first-fresh x.target.id x.device.id w.permissions row new
          (ground (arith, ==_refl x.target.id, ==_refl x.device.id)) in
      rw (one, before, own) (ground (arith, ==_refl x.device.organization_id))

  granted-Granted :
      is_platform_admin granter ≡ true
      → exists_where (is_grant x.target.id x.device.id) w.permissions ≡ false
      → Granted granter x w granted row
  unfolding perform_create_grant record_audit
  granted-Granted admin new = record {
    by_admin = admin;
    stored = refl;
    granted_by = refl;
    may_view = view_lem new;
    may_control = control_lem new;
    others = λ u d org control apart. access-apart w.permissions row u d org control apart;
    audited = (_, refl, refl, refl);
  }

  create_grant_lem :
      is_platform_admin granter ≡ true
      → exists_where (is_grant x.target.id x.device.id) w.permissions ≡ false
      → create_grant granter x w ≡ (ok row, granted)
  unfolding create_grant is_admin
  create_grant_lem admin new = rw (admin, new) refl

ok_same : {A : Type 0} {a b : A} → Path (Outcome A) (ok a) (ok b) → a ≡ b
ok_same h = ground arith

-- An accepted grant is by a platform admin, who is named in it. It lets a member of the device's
-- organization view the device, and control it if it says so or if that was allowed before; it
-- changes no decision about any other user or any other device; and one audit entry on the grant,
-- by the actor of the request, is written.
pub create_grant-Granted :
    (granter : User) (x : NewGrant) (w : World) {g : DevicePermission}
    → (create_grant granter x w).0 ≡ ok g
    → Granted granter x w (create_grant granter x w).1 g
unfolding create_grant is_admin
create_grant-Granted granter x w {g} h = elim (Bool-cases (is_platform_admin granter)) [
  | inr other ↦ absurd (ground (arith, rw (create_grant, other) at h))
  | inl admin ↦ elim (Bool-cases (exists_where (is_grant x.target.id x.device.id) w.permissions)) [
    | inl twice ↦ absurd (ground (arith, rw (create_grant, admin, twice) at h))
    | inr new ↦
        let all = create_grant_lem granter x w admin new in
        let same : row granter x w ≡ g = ok_same (sym (ap (λ r. r.0) all) ∙ h) in
        subst (λ v. Granted granter x w v g) (sym (ap (λ r. r.1) all))
          (subst (λ n. Granted granter x w (granted granter x w) n) same
            (granted-Granted granter x w admin new))
  ]
]
