-- ===== src/Devices/Seed/Command.antt =====
-- `Command.handle` of apps/devices/management/commands/seed_demo.py. What it prints is not modelled.
use robotics_io_t_smart_auto.Base.{
  ℕ, none, some, [], ◌∷◌, ◌++◌, ◌==◌, if◌then◌else◌, update_where, ok,
}
use robotics_io_t_smart_auto.Accounts.Models.{User}
use robotics_io_t_smart_auto.Alerts.Models.{AlertRule}
use robotics_io_t_smart_auto.Alerts.Services.Notify.{is_listed}
use robotics_io_t_smart_auto.Devices.Seed.Fleet.{
  DemoDevice, fleet, device_lookup, sensor_specs, sensor_lookup,
}
use robotics_io_t_smart_auto.Devices.Seed.GetOrCreate.{Call, chain, for_each, fetch}
use robotics_io_t_smart_auto.Devices.Seed.Rows.{
  org_lookup, DemoUser, demo_admin, demo_operator, user_lookup, group_lookup, channel_lookup,
  DemoRule, demo_rules, rule_lookup,
}

-- A new user gets a password, which is not modelled; the save behind it writes the other columns
-- back as they were inserted.
unfoldable pub seed_user : DemoUser → ℕ → Call User
unfolding fetch
seed_user u org = fetch (user_lookup u org)

-- one round of the loop over the fleet
unfoldable pub seed_device : ℕ → ℕ → DemoDevice → Call (Unit {0})
unfolding fetch
seed_device org floor x = chain (fetch (device_lookup x org floor)) λ device.
    for_each sensor_specs (λ spec. chain (fetch (sensor_lookup spec device.id)) (λ s w. (ok tt, w)))

-- rule.notify_channels.add(channel): a channel that is there already is not added again
unfoldable pub add_channel : ℕ → AlertRule → Call (Unit {0})
add_channel channel rule w = if is_listed rule.notify_channels channel then (ok tt, w) else (
  ok tt,
  record w {
    rules =
        update_where (λ r. r.id == rule.id)
          (λ r. record r { notify_channels = r.notify_channels ++ channel ∷ [] }) w.rules;
  },
)

-- one round of the loop over the rules
unfoldable pub seed_rule : ℕ → ℕ → DemoRule → Call (Unit {0})
unfolding add_channel fetch
seed_rule org channel x = chain (fetch (rule_lookup x org)) (add_channel channel)

-- handle
unfoldable pub seed_demo : Call (Unit {0})
unfolding seed_user seed_device seed_rule fetch
seed_demo = chain (fetch org_lookup) λ org. chain (seed_user demo_admin org.id) λ admin.
    chain (seed_user demo_operator org.id) λ operator.
      chain (fetch (group_lookup org.id "HQ Campus" none)) λ site.
        chain (fetch (group_lookup org.id "Production Floor" (some site.id))) λ floor.
          chain (for_each fleet (seed_device org.id floor.id)) λ devices.
            chain (fetch (channel_lookup org.id))
              λ channel. for_each demo_rules (seed_rule org.id channel.id)
