-- ===== src/Devices/Seed/Inserts.antt =====
-- The inserts of apps/devices/management/commands/seed_demo.py, one lookup at a time.
use robotics_io_t_smart_auto.Base.{
  ℕ, ◌+◌, String, refl, sym, ap, ◌∙◌, Option, [], ◌∷◌, ◌++◌, arith, eq_iff, eq_refl, same_ref_refl,
  same_ref_iff, select,
}
use robotics_io_t_smart_auto.Accounts.Managers.{takes_email}
use robotics_io_t_smart_auto.Devices.Models.{Device}
use robotics_io_t_smart_auto.Devices.Saves.{create_device-Quiet}
use robotics_io_t_smart_auto.Devices.Seed.Fleet.{
  has_serial, DemoDevice, device_lookup, SensorSpec, sensor_lookup,
}
use robotics_io_t_smart_auto.Devices.Seed.Later.{
  Later-trans, Kept-append, RulesKept-append, Inserts, select-new, Later-tables,
}
use robotics_io_t_smart_auto.Devices.Seed.Rows.{
  has_slug, is_group, is_channel, org_lookup, DemoUser, user_lookup, group_lookup, channel_lookup,
  DemoRule, rule_lookup,
}
use robotics_io_t_smart_auto.Telemetry.Services.Ingest.{has_key}
use robotics_io_t_smart_auto.World.{World}

pub org_lookup-Inserts : Inserts org_lookup
org_lookup-Inserts = record {
  later = λ w free. record {
    organizations =
        Kept-append has_slug "demo" (org_lookup.rows w) (org_lookup.new_row w) free
          (λ slug mine. sym ((eq_iff "demo" slug).0 mine));
    users = λ k a h. h;
    groups = λ k a h. h;
    devices = λ k a h. h;
    sensors = λ k a h. h;
    channels = λ k a h. h;
    rules = λ org name a h. (a, h, λ c k. k);
  };
  found = λ w free.
      select-new (org_lookup.is_found) (org_lookup.rows w) (org_lookup.new_row w) free refl;
}

pub user_lookup-Inserts : (u : DemoUser) (org : ℕ) → Inserts (user_lookup u org)
user_lookup-Inserts u org = record {
  later = λ w free. record {
    organizations = λ k a h. h;
    users =
        Kept-append takes_email u.email ((user_lookup u org).rows w) ((user_lookup u org).new_row w)
          free (λ email mine. sym ((eq_iff u.email email).0 mine));
    groups = λ k a h. h;
    devices = λ k a h. h;
    sensors = λ k a h. h;
    channels = λ k a h. h;
    rules = λ org name a h. (a, h, λ c k. k);
  };
  found = λ w free.
      select-new ((user_lookup u org).is_found) ((user_lookup u org).rows w)
        ((user_lookup u org).new_row w) free (eq_refl u.email);
}

pub group_lookup-Inserts :
    (org : ℕ) (name : String) (parent : Option ℕ) → Inserts (group_lookup org name parent)
group_lookup-Inserts org name parent = record {
  later = λ w free. record {
    organizations = λ k a h. h;
    users = λ k a h. h;
    groups =
        Kept-append (λ (k : ℕ × String × Option ℕ). is_group k.0 k.1 k.2) (org, name, parent)
          ((group_lookup org name parent).rows w) ((group_lookup org name parent).new_row w) free
          (λ k mine. ground (arith, mine, eq_iff name k.1, same_ref_iff parent k.2));
    devices = λ k a h. h;
    sensors = λ k a h. h;
    channels = λ k a h. h;
    rules = λ org name a h. (a, h, λ c k. k);
  };
  found = λ w free.
      select-new ((group_lookup org name parent).is_found) ((group_lookup org name parent).rows w)
        ((group_lookup org name parent).new_row w) free
        (ground (arith, eq_refl name, same_ref_refl parent));
}

abbrev with_device : Device → World → World
with_device d w = record w { devices = w.devices ++ d ∷ []; next_id = w.next_id + 1 }

pub device_lookup-Inserts : (x : DemoDevice) (org floor : ℕ) → Inserts (device_lookup x org floor)
device_lookup-Inserts x org floor = record {
  later = λ w free.
      let d = (device_lookup x org floor).new_row w in
      Later-trans {v = with_device d w}
        (record {
          organizations = λ k a h. h;
          users = λ k a h. h;
          groups = λ k a h. h;
          devices =
              Kept-append has_serial x.serial w.devices d free
                (λ serial mine. sym ((eq_iff x.serial serial).0 mine));
          sensors = λ k a h. h;
          channels = λ k a h. h;
          rules = λ o n a h. (a, h, λ c k. k);
        })
        (Later-tables (create_device-Quiet d (record w { next_id = w.next_id + 1 })).tables);
  found = λ w free.
      let d = (device_lookup x org floor).new_row w in
      ap (select (has_serial x.serial))
        (create_device-Quiet d (record w { next_id = w.next_id + 1 })).tables.devices
      ∙ select-new (has_serial x.serial) w.devices d free (eq_refl x.serial);
}

pub sensor_lookup-Inserts : (x : SensorSpec) (d : ℕ) → Inserts (sensor_lookup x d)
sensor_lookup-Inserts x d = record {
  later = λ w free. record {
    organizations = λ k a h. h;
    users = λ k a h. h;
    groups = λ k a h. h;
    devices = λ k a h. h;
    sensors =
        Kept-append (λ (k : ℕ × String). has_key k.0 k.1) (d, x.key) ((sensor_lookup x d).rows w)
          ((sensor_lookup x d).new_row w) free (λ k mine. ground (arith, mine, eq_iff x.key k.1));
    channels = λ k a h. h;
    rules = λ org name a h. (a, h, λ c k. k);
  };
  found = λ w free.
      select-new ((sensor_lookup x d).is_found) ((sensor_lookup x d).rows w)
        ((sensor_lookup x d).new_row w) free (ground (arith, eq_refl x.key));
}

pub channel_lookup-Inserts : (org : ℕ) → Inserts (channel_lookup org)
channel_lookup-Inserts org = record {
  later = λ w free. record {
    organizations = λ k a h. h;
    users = λ k a h. h;
    groups = λ k a h. h;
    devices = λ k a h. h;
    sensors = λ k a h. h;
    channels =
        Kept-append (λ (k : ℕ × String). is_channel k.0 k.1) (org, "In-app default")
          ((channel_lookup org).rows w) ((channel_lookup org).new_row w) free
          (λ k mine. ground (arith, mine, eq_iff "In-app default" k.1));
    rules = λ org name a h. (a, h, λ c k. k);
  };
  found = λ w free.
      select-new ((channel_lookup org).is_found) ((channel_lookup org).rows w)
        ((channel_lookup org).new_row w) free (ground arith);
}

pub rule_lookup-Inserts : (x : DemoRule) (org : ℕ) → Inserts (rule_lookup x org)
rule_lookup-Inserts x org = record {
  later = λ w free. record {
    organizations = λ k a h. h;
    users = λ k a h. h;
    groups = λ k a h. h;
    devices = λ k a h. h;
    sensors = λ k a h. h;
    channels = λ k a h. h;
    rules =
        RulesKept-append org x.name w.rules ((rule_lookup x org).new_row w) free
          (λ o n mine. ground (arith, mine, eq_iff x.name n));
  };
  found = λ w free.
      select-new ((rule_lookup x org).is_found) ((rule_lookup x org).rows w)
        ((rule_lookup x org).new_row w) free (ground (arith, eq_refl x.name));
}
