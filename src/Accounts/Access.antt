-- ===== src/Accounts/Access.antt =====
-- Who may view and who may control a device: the decision of `User.can_access_device` against an
-- access matrix stated on its own.
use robotics_io_t_smart_auto.Base.{
  ℕ, ◌≡◌, refl, ◌↔◌, ◌⊎◌, inl, inr, Bool, true, false, ◌||◌, Option, none, some, List, [], ◌∷◌, map,
  arith, Bool-cases, refers_to, first?, exists_where,
}
use robotics_io_t_smart_auto.Accounts.Models.{
  Role, User, DevicePermission, is_admin_role, is_engineer_role, is_operator_role, is_grant,
  grants_control, can_access_device,
}

-- A grant of this user for this device, with a property.
abbrev pub HasGrant : (DevicePermission → Type 0) → List DevicePermission → ℕ → ℕ → Type 0
HasGrant P permissions user_id device_id =
    (p : DevicePermission) × (first? (is_grant user_id device_id) permissions ≡ some p) × P p

-- The access matrix. Platform admins (by role or by flag) may do everything, in every
-- organization; all others act only within their own one.
pub data MayControl (permissions : List DevicePermission) (user : User) (device_id org : ℕ)
    : Type 0 where
  as_superuser : user.is_superuser ≡ true → MayControl permissions user device_id org
  as_admin : is_admin_role user.role ≡ true → MayControl permissions user device_id org
  as_engineer :
      user.organization_id ≡ some org
      → user.role ≡ Role.engineer
      → MayControl permissions user device_id org
  by_grant :
      user.organization_id ≡ some org
      → HasGrant (λ p. p.can_control ≡ true) permissions user.id device_id
      → MayControl permissions user device_id org

pub data MayView (permissions : List DevicePermission) (user : User) (device_id org : ℕ)
    : Type 0 where
  as_superuser : user.is_superuser ≡ true → MayView permissions user device_id org
  as_admin : is_admin_role user.role ≡ true → MayView permissions user device_id org
  as_staff :
      user.organization_id ≡ some org
      → (user.role ≡ Role.engineer) ⊎ (user.role ≡ Role.operator)
      → MayView permissions user device_id org
  by_grant :
      user.organization_id ≡ some org
      → HasGrant (λ p. Unit {0}) permissions user.id device_id
      → MayView permissions user device_id org

exists-first :
    (p : DevicePermission → Bool) (xs : List DevicePermission)
    → exists_where p xs ≡ true
    → (x : DevicePermission) × (first? p xs ≡ some x)
exists-first p [] h = ground arith
exists-first p (x ∷ xs) h = elim (Bool-cases (p x)) [
  | inl here ↦ (x, rw here)
  | inr there ↦ let (y, found) = exists-first p xs (ground arith) in (y, rw there found)
]

first-exists :
    (p : DevicePermission → Bool) (xs : List DevicePermission) (x : DevicePermission)
    → first? p xs ≡ some x
    → exists_where p xs ≡ true
first-exists p [] x h = ground arith
first-exists p (y ∷ xs) x h = ground (arith, first-exists p xs x)

own_org : (o : Option ℕ) (org : ℕ) → refers_to o org ≡ true → o ≡ some org
own_org o org h = ground arith

engineer_role : (r : Role) → is_engineer_role r ≡ true → r ≡ Role.engineer
engineer_role r h = ground arith

module _ (permissions : List DevicePermission) (user : User) (device_id org : ℕ) where
  abbrev access : Bool → Bool
  access control = can_access_device permissions user device_id org control

  granted_control :
      (o : Option DevicePermission)
      → first? (is_grant user.id device_id) permissions ≡ o
      → grants_control o ≡ true
      → HasGrant (λ p. p.can_control ≡ true) permissions user.id device_id
  granted_control none e h = ground arith
  granted_control (some p) e h = (p, e, h)

  control_sound : access true ≡ true → MayControl permissions user device_id org
  unfolding can_access_device
  control_sound h = elim (Bool-cases user.is_superuser) [
    | inl s ↦ MayControl.as_superuser s
    | inr s ↦ elim (Bool-cases (is_admin_role user.role)) [
      | inl a ↦ MayControl.as_admin a
      | inr a ↦ elim (Bool-cases (refers_to user.organization_id org)) [
        | inr other ↦ ground arith
        | inl own ↦ elim (Bool-cases (is_engineer_role user.role)) [
          | inl e ↦
              MayControl.as_engineer (own_org user.organization_id org own)
                (engineer_role user.role e)
          | inr e ↦ MayControl.by_grant (own_org user.organization_id org own) (
              granted_control (first? (is_grant user.id device_id) permissions) refl (ground arith))
        ]
      ]
    ]
  ]

  control_complete : MayControl permissions user device_id org → access true ≡ true
  unfolding can_access_device
  control_complete (MayControl.as_superuser s) = ground arith
  control_complete (MayControl.as_admin a) = ground arith
  control_complete (MayControl.as_engineer o r) = ground arith
  control_complete (MayControl.by_grant o (p, found, c)) = ground arith

  view_sound : access false ≡ true → MayView permissions user device_id org
  unfolding can_access_device
  view_sound h = elim (Bool-cases user.is_superuser) [
    | inl s ↦ MayView.as_superuser s
    | inr s ↦ elim (Bool-cases (is_admin_role user.role)) [
      | inl a ↦ MayView.as_admin a
      | inr a ↦ elim (Bool-cases (refers_to user.organization_id org)) [
        | inr other ↦ ground arith
        | inl own ↦ elim (Bool-cases (is_engineer_role user.role || is_operator_role user.role)) [
          | inl staff ↦ MayView.as_staff (own_org user.organization_id org own) (ground arith)
          | inr rest ↦
              let (p, found) =
                exists-first (is_grant user.id device_id) permissions (ground arith) in
              MayView.by_grant (own_org user.organization_id org own) (p, found, tt)
        ]
      ]
    ]
  ]

  view_complete : MayView permissions user device_id org → access false ≡ true
  unfolding can_access_device
  view_complete (MayView.as_superuser s) = ground arith
  view_complete (MayView.as_admin a) = ground arith
  view_complete (MayView.as_staff o r) = ground arith
  view_complete (MayView.by_grant o (p, found, _)) =
      ground (arith, first-exists (is_grant user.id device_id) permissions p found)

-- who may control
pub can_access_device-control_iff :
    (permissions : List DevicePermission) (user : User) (device_id org : ℕ)
    → (can_access_device permissions user device_id org true ≡ true)
      ↔ MayControl permissions user device_id org
can_access_device-control_iff permissions user device_id org =
    (control_sound permissions user device_id org, control_complete permissions user device_id org)

-- who may view
pub can_access_device-view_iff :
    (permissions : List DevicePermission) (user : User) (device_id org : ℕ)
    → (can_access_device permissions user device_id org false ≡ true)
      ↔ MayView permissions user device_id org
can_access_device-view_iff permissions user device_id org =
    (view_sound permissions user device_id org, view_complete permissions user device_id org)

-- The check agrees with this access matrix. A user may control a device exactly if a superuser, a super
-- admin, an org admin of whatever organization, an engineer of the device's organization, or a
-- member of it whose grant for the device has control; and may view it exactly if one of those
-- admins, an engineer or operator of the device's organization, or a member of it with a grant.
pub can_access_device_lem :
    (permissions : List DevicePermission) (user : User) (device_id org : ℕ)
    → ((can_access_device permissions user device_id org true ≡ true)
        ↔ MayControl permissions user device_id org)
      × ((can_access_device permissions user device_id org false ≡ true)
          ↔ MayView permissions user device_id org)
can_access_device_lem permissions user device_id org = (
  can_access_device-control_iff permissions user device_id org,
  can_access_device-view_iff permissions user device_id org,
)

-- Who may control a device may view it.
can_access_device-view_of_control :
    (permissions : List DevicePermission) (user : User) (device_id org : ℕ)
    → can_access_device permissions user device_id org true ≡ true
    → can_access_device permissions user device_id org false ≡ true
can_access_device-view_of_control permissions user device_id org h =
    view_complete permissions user device_id org
      (weaken (control_sound permissions user device_id org h))
  where
    weaken : MayControl permissions user device_id org → MayView permissions user device_id org
    weaken (MayControl.as_superuser s) = MayView.as_superuser s
    weaken (MayControl.as_admin a) = MayView.as_admin a
    weaken (MayControl.as_engineer o r) = MayView.as_staff o (inl r)
    weaken (MayControl.by_grant o (p, found, _)) = MayView.by_grant o (p, found, tt)

-- The same grants with other expiry instants.
abbrev pub with_expiry : (DevicePermission → Option ℕ) → DevicePermission → DevicePermission
with_expiry f p = record p { expires_at = f p }

first-with_expiry :
    (f : DevicePermission → Option ℕ) (user_id device_id : ℕ) (permissions : List DevicePermission)
    → grants_control (first? (is_grant user_id device_id) (map (with_expiry f) permissions))
      ≡ grants_control (first? (is_grant user_id device_id) permissions)
first-with_expiry f user_id device_id [] = refl
first-with_expiry f user_id device_id (p ∷ ps) =
    ground (arith, first-with_expiry f user_id device_id ps)

exists-with_expiry :
    (f : DevicePermission → Option ℕ) (user_id device_id : ℕ) (permissions : List DevicePermission)
    → exists_where (is_grant user_id device_id) (map (with_expiry f) permissions)
      ≡ exists_where (is_grant user_id device_id) permissions
exists-with_expiry f user_id device_id [] = refl
exists-with_expiry f user_id device_id (p ∷ ps) =
    ground (arith, exists-with_expiry f user_id device_id ps)

-- The expiry instants of the grants play no part: whatever they are, expired ones included, every
-- decision to view or to control is the same.
can_access_device-ignores_expiry :
    (f : DevicePermission → Option ℕ) (permissions : List DevicePermission) (user : User)
    (device_id org : ℕ) (control : Bool)
    → can_access_device (map (with_expiry f) permissions) user device_id org control
      ≡ can_access_device permissions user device_id org control
unfolding can_access_device
can_access_device-ignores_expiry f permissions user device_id org control =
    simp (first-with_expiry, exists-with_expiry)
