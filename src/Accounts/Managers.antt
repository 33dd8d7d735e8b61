-- ===== src/Accounts/Managers.antt =====
-- UserManager of apps/accounts/models.py and RegisterSerializer.create of
-- apps/accounts/serializers.py. Passwords are not modelled; `normalize` is what Django makes of an
-- address.
use robotics_io_t_smart_auto.Base.{
  ℕ, ◌+◌, String, Bool, true, false, Option, none, some, [], ◌∷◌, ◌++◌, str_eq, if◌then◌else◌,
  get_or, exists_where, integrity_error, validation_error, value_error, Outcome, ok, fail,
}
use robotics_io_t_smart_auto.Accounts.Models.{Role, User}
use robotics_io_t_smart_auto.World.{World}

-- The named arguments, an absent one being left to the defaults.
pub record NewUser : Type 0 where
  pub email : String
  pub first_name : String
  pub last_name : String
  pub organization_id : Option ℕ
  pub role : Option Role
  pub is_staff : Option Bool
  pub is_superuser : Option Bool

abbrev pub user_row : (String → String) → ℕ → NewUser → User
user_row normalize id data_fields = record {
  id = id;
  email = normalize data_fields.email;
  first_name = data_fields.first_name;
  last_name = data_fields.last_name;
  organization_id = data_fields.organization_id;
  role = get_or data_fields.role Role.viewer;
  phone = "";
  avatar = none;
  is_service_account = false;
  is_active = true;
  is_staff = get_or data_fields.is_staff false;
  is_superuser = get_or data_fields.is_superuser false;
}

-- the constraint on `email`
abbrev pub takes_email : String → User → Bool
takes_email email u = str_eq u.email email

-- UserManager._create_user
unfoldable pub store_user : (String → String) → NewUser → World → Outcome User × World
store_user normalize data_fields w =
    if str_eq data_fields.email ""
    then (fail value_error, w)
    else if exists_where (takes_email (normalize data_fields.email)) w.users
    then (fail integrity_error, w)
    else (
      ok (user_row normalize w.next_id data_fields),
      record w {
        users = w.users ++ user_row normalize w.next_id data_fields ∷ [];
        next_id = w.next_id + 1;
      },
    )

-- UserManager.create_user: the defaults are those of `user_row`
unfoldable pub create_user : (String → String) → NewUser → World → Outcome User × World
unfolding store_user
create_user normalize data_fields w = store_user normalize data_fields w

-- UserManager.create_superuser
unfoldable pub create_superuser : (String → String) → NewUser → World → Outcome User × World
unfolding store_user
create_superuser normalize data_fields w =
    store_user normalize
      (record data_fields {
        role = some Role.super_admin;
        is_staff = some true;
        is_superuser = some true;
      })
      w

-- RegisterView with RegisterSerializer.create: open to every caller; the validator of the
-- serializer refuses an address in use before anything is written
unfoldable pub register : (String → String) → NewUser → World → Outcome User × World
unfolding create_user
register normalize validated w =
    if exists_where (takes_email validated.email) w.users
    then (fail validation_error, w)
    else create_user normalize (record validated { is_staff = none; is_superuser = none }) w
