-- ===== src/Devices/Seed/Rows.antt =====
-- The rows of apps/devices/management/commands/seed_demo.py: what each call of `get_or_create` looks
-- for and what it inserts. The columns that a call does not name have the defaults of the models.
-- Passwords are not modelled.
use robotics_io_t_smart_auto.Base.{
  ℕ, ◌+◌, String, Bool, true, false, ◌&&◌, Option, none, some, List, [], ◌∷◌, ◌++◌, str_eq, ◌==◌,
  same_ref, Float, whole,
}
use robotics_io_t_smart_auto.Accounts.Managers.{takes_email}
use robotics_io_t_smart_auto.Accounts.Models.{Organization, Role, User}
use robotics_io_t_smart_auto.Alerts.Models.{
  Severity, Source, Operator, AlertRule, Kind, NotificationChannel,
}
use robotics_io_t_smart_auto.Alerts.Services.Notify.{is_alive}
use robotics_io_t_smart_auto.Core.Json.{Json, Fields}
use robotics_io_t_smart_auto.Core.Models.{new_base}
use robotics_io_t_smart_auto.Devices.Models.{DeviceGroup}
use robotics_io_t_smart_auto.Devices.Seed.GetOrCreate.{Lookup}

-- the tests of the lookups
abbrev pub has_slug : String → Organization → Bool
has_slug slug o = is_alive o.base && str_eq o.slug slug

abbrev pub is_group : ℕ → String → Option ℕ → DeviceGroup → Bool
is_group org name parent g =
    is_alive g.base && g.organization_id == org && str_eq g.name name && same_ref g.parent parent

abbrev pub is_channel : ℕ → String → NotificationChannel → Bool
is_channel org name c = is_alive c.base && c.organization_id == org && str_eq c.name name

abbrev pub is_rule : ℕ → String → AlertRule → Bool
is_rule org name r = is_alive r.base && r.organization_id == org && str_eq r.name name

-- no unique constraint but the key
abbrev pub never {ℓ} : {A : Type ℓ} → A → Bool
never x = false

-- Organization.objects.get_or_create(slug="demo", ...)
abbrev pub org_lookup : Lookup Organization
org_lookup = record {
  rows = λ w. w.organizations;
  is_found = has_slug "demo";
  clashes = λ o. str_eq o.slug "demo";
  new_row = λ w. record {
    base = new_base w.next_id w.now;
    name = "Demo Robotics Lab";
    slug = "demo";
    contact_email = "ops@demo.robogrid.ai";
    is_active = true;
    settings = Json.obj Fields.end;
  };
  insert = λ o w. record w { organizations = w.organizations ++ o ∷ []; next_id = w.next_id + 1 };
}

-- The arguments of one user.
pub record DemoUser : Type 0 where
  pub email : String
  pub first_name : String
  pub last_name : String
  pub role : Role
  pub is_staff : Bool

abbrev pub demo_admin : DemoUser
demo_admin = record {
  email = "admin@robogrid.ai";
  first_name = "Ada";
  last_name = "Admin";
  role = Role.org_admin;
  is_staff = true;
}

abbrev pub demo_operator : DemoUser
demo_operator = record {
  email = "operator@robogrid.ai";
  first_name = "Otto";
  last_name = "Operator";
  role = Role.operator;
  is_staff = false;
}

-- User.objects.get_or_create(email=..., ...): a user is never soft-deleted
abbrev pub user_lookup : DemoUser → ℕ → Lookup User
user_lookup u org = record {
  rows = λ w. w.users;
  is_found = takes_email u.email;
  clashes = takes_email u.email;
  new_row = λ w. record {
    id = w.next_id;
    email = u.email;
    first_name = u.first_name;
    last_name = u.last_name;
    organization_id = some org;
    role = u.role;
    phone = "";
    avatar = none;
    is_service_account = false;
    is_active = true;
    is_staff = u.is_staff;
    is_superuser = false;
  };
  insert = λ x w. record w { users = w.users ++ x ∷ []; next_id = w.next_id + 1 };
}

-- DeviceGroup.objects.get_or_create(organization=org, name=..., parent=...)
abbrev pub group_lookup : ℕ → String → Option ℕ → Lookup DeviceGroup
group_lookup org name parent = record {
  rows = λ w. w.groups;
  is_found = is_group org name parent;
  clashes = never;
  new_row = λ w. record {
    base = new_base w.next_id w.now;
    organization_id = org;
    name = name;
    parent = parent;
    description = "";
  };
  insert = λ g w. record w { groups = w.groups ++ g ∷ []; next_id = w.next_id + 1 };
}

-- NotificationChannel.objects.get_or_create(organization=org, name="In-app default", ...)
abbrev pub channel_lookup : ℕ → Lookup NotificationChannel
channel_lookup org = record {
  rows = λ w. w.channels;
  is_found = is_channel org "In-app default";
  clashes = never;
  new_row = λ w. record {
    base = new_base w.next_id w.now;
    organization_id = org;
    name = "In-app default";
    kind = Kind.in_app;
    is_active = true;
    config = Fields.end;
    min_severity = Severity.warning;
  };
  insert = λ c w. record w { channels = w.channels ++ c ∷ []; next_id = w.next_id + 1 };
}

-- One entry of `rules`.
pub record DemoRule : Type 0 where
  pub name : String
  pub source : Source
  pub sensor_type : String
  pub operator : Operator
  pub threshold : Option Float
  pub severity : Severity

abbrev pub demo_rules : List DemoRule
demo_rules =
    record {
      name = "High temperature";
      source = Source.sensor;
      sensor_type = "temperature";
      operator = Operator.gt;
      threshold = some (whole 45);
      severity = Severity.critical;
    }
    ∷ record {
      name = "High vibration";
      source = Source.sensor;
      sensor_type = "vibration";
      operator = Operator.gt;
      threshold = some (whole 7);
      severity = Severity.warning;
    }
    ∷ record {
      name = "Low battery";
      source = Source.battery;
      sensor_type = "";
      operator = Operator.lt;
      threshold = some (whole 20);
      severity = Severity.warning;
    }
    ∷ record {
      name = "Device offline";
      source = Source.offline;
      sensor_type = "";
      operator = Operator.eq;
      threshold = none;
      severity = Severity.critical;
    }
    ∷ []

-- AlertRule.objects.get_or_create(organization=org, name=name, ...)
abbrev pub rule_lookup : DemoRule → ℕ → Lookup AlertRule
rule_lookup x org = record {
  rows = λ w. w.rules;
  is_found = is_rule org x.name;
  clashes = never;
  new_row = λ w. record {
    base = new_base w.next_id w.now;
    organization_id = org;
    name = x.name;
    is_active = true;
    severity = x.severity;
    source = x.source;
    device_id = none;
    sensor_id = none;
    sensor_type = x.sensor_type;
    operator = x.operator;
    threshold = x.threshold;
    for_seconds = 0;
    cooldown_seconds = 300;
    notify_channels = [];
  };
  insert = λ r w. record w { rules = w.rules ++ r ∷ []; next_id = w.next_id + 1 };
}
