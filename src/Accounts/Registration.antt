-- ===== src/Accounts/Registration.antt =====
-- What an open registration gives.
use robotics_io_t_smart_auto.Base.{
  ℕ, String, ◌≡◌, inl, inr, Bool, true, false, none, some, List, arith, str_eq, Bool-cases,
  exists_where, ok,
}
use robotics_io_t_smart_auto.Accounts.Managers.{
  NewUser, user_row, takes_email, store_user, create_user, register,
}
use robotics_io_t_smart_auto.Accounts.Models.{Role, User, DevicePermission, can_access_device}
use robotics_io_t_smart_auto.World.{World}

stored-user :
    (normalize : String → String) (data_fields : NewUser) (w : World) (u : User)
    → (store_user normalize data_fields w).0 ≡ ok u
    → u ≡ user_row normalize w.next_id data_fields
unfolding store_user
stored-user normalize data_fields w u h = elim (Bool-cases (str_eq data_fields.email "")) [
  | inl empty ↦ absurd (ground (arith, rw (empty, store_user) at h))
  | inr given ↦
      elim (Bool-cases (exists_where (takes_email (normalize data_fields.email)) w.users)) [
        | inl taken ↦ absurd (ground (arith, rw taken at (rw (given, store_user) at h)))
        | inr free ↦ ground (arith, rw free at (rw (given, store_user) at h))
      ]
]

registered-user :
    (normalize : String → String) (data_fields : NewUser) (w : World) (u : User)
    → (register normalize data_fields w).0 ≡ ok u
    → u ≡ user_row normalize w.next_id (record data_fields { is_staff = none; is_superuser = none })
unfolding register create_user
registered-user normalize data_fields w u h =
    elim (Bool-cases (exists_where (takes_email data_fields.email) w.users)) [
      | inl taken ↦ absurd (ground (arith, rw (taken, register) at h))
      | inr free ↦
          stored-user normalize (record data_fields { is_staff = none; is_superuser = none }) w u
            (rw (free, register) at h)
    ]

-- Registration is open, and whoever registers with the role super_admin passes every check for
-- every device of every organization; whoever names no role is a viewer without any flag.
pub register-role :
    (normalize : String → String) (data_fields : NewUser) (w : World) (u : User)
    → (register normalize data_fields w).0 ≡ ok u
    → (data_fields.role ≡ some Role.super_admin
        → (permissions : List DevicePermission) (device_id org : ℕ) (control : Bool)
        → can_access_device permissions u device_id org control ≡ true)
      × (data_fields.role ≡ none
          → (u.role ≡ Role.viewer) × (u.is_superuser ≡ false) × (u.is_staff ≡ false))
unfolding can_access_device
register-role normalize data_fields w u h =
    let row = registered-user normalize data_fields w u h in
    (
      (λ named permissions device_id org control. ground (arith, row, named)),
      λ absent. ground (arith, row, absent),
    )
