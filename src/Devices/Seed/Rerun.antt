-- ===== src/Devices/Seed/Rerun.antt =====
-- The whole command of apps/devices/management/commands/seed_demo.py, run again.
use robotics_io_t_smart_auto.Base.{ℕ, String, ◌≡◌, Option, none, some, ok}
use robotics_io_t_smart_auto.Devices.Seed.Again.{
  Idem, Idem-chain, Idem-return, Idem-for_each, Idem-fetch,
}
use robotics_io_t_smart_auto.Devices.Seed.Command.{seed_user, seed_device, seed_rule, seed_demo}
use robotics_io_t_smart_auto.Devices.Seed.Fleet.{
  DemoDevice, fleet, device_lookup, sensor_specs, sensor_lookup,
}
use robotics_io_t_smart_auto.Devices.Seed.GetOrCreate.{fetch}
use robotics_io_t_smart_auto.Devices.Seed.Inserts.{
  org_lookup-Inserts, user_lookup-Inserts, group_lookup-Inserts, device_lookup-Inserts,
  sensor_lookup-Inserts, channel_lookup-Inserts,
}
use robotics_io_t_smart_auto.Devices.Seed.Later.{Later, Later-refl}
use robotics_io_t_smart_auto.Devices.Seed.Rows.{
  org_lookup, DemoUser, demo_admin, demo_operator, user_lookup, group_lookup, channel_lookup,
  demo_rules,
}
use robotics_io_t_smart_auto.Devices.Seed.Rules.{Idem-seed_rule}
use robotics_io_t_smart_auto.World.{World}

module _ (org floor : ℕ) (x : DemoDevice) where
  Idem-seed_device : Idem (seed_device org floor x)
  unfolding seed_device
  Idem-seed_device =
      Idem-chain (fetch (device_lookup x org floor)) _
        (Idem-fetch (device_lookup x org floor) (device_lookup-Inserts x org floor)
          (λ w w' a l e. l.devices x.serial a e))
        (λ device. Idem-for_each sensor_specs _ (λ spec.
          Idem-chain (fetch (sensor_lookup spec device.id)) _
            (Idem-fetch (sensor_lookup spec device.id) (sensor_lookup-Inserts spec device.id)
              (λ w w' a l e. l.sensors (device.id, spec.key) a e))
            (λ s. Idem-return tt)))

Idem-seed_user : (u : DemoUser) (org : ℕ) → Idem (seed_user u org)
unfolding seed_user
Idem-seed_user u org =
    Idem-fetch (user_lookup u org) (user_lookup-Inserts u org) (λ w w' a l e. l.users u.email a e)

Idem-group :
    (org : ℕ) (name : String) (parent : Option ℕ) → Idem (fetch (group_lookup org name parent))
Idem-group org name parent =
    Idem-fetch (group_lookup org name parent) (group_lookup-Inserts org name parent)
      (λ w w' a l e. l.groups (org, name, parent) a e)

Idem-seed_demo : Idem seed_demo
unfolding seed_demo
Idem-seed_demo =
    Idem-chain _ _
      (Idem-fetch org_lookup org_lookup-Inserts (λ w w' a l e. l.organizations "demo" a e))
      λ org. Idem-chain _ _ (Idem-seed_user demo_admin org.id) λ admin.
        Idem-chain _ _ (Idem-seed_user demo_operator org.id) λ operator.
          Idem-chain _ _ (Idem-group org.id "HQ Campus" none) λ site.
            Idem-chain _ _ (Idem-group org.id "Production Floor" (some site.id)) λ floor.
              Idem-chain _ _
                (Idem-for_each fleet (seed_device org.id floor.id)
                  (Idem-seed_device org.id floor.id))
                λ devices.
                  Idem-chain _ _
                    (Idem-fetch (channel_lookup org.id) (channel_lookup-Inserts org.id)
                      (λ w w' a l e. l.channels (org.id, "In-app default") a e))
                    λ channel.
                      Idem-for_each demo_rules (seed_rule org.id channel.id)
                        (Idem-seed_rule org.id channel.id)

-- The seed command is idempotent: once it has run to its end, a further run in any state in which
-- its rows are still found returns as well and changes nothing at all, neither a table nor what was
-- sent; the state that the first run left is one.
pub seed_demo-again :
    (w w' w'' : World)
    → seed_demo w ≡ (ok tt, w')
    → Later w' w''
    → (seed_demo w'' ≡ (ok tt, w'')) × (seed_demo w' ≡ (ok tt, w'))
seed_demo-again w w' w'' h l =
    (Idem-seed_demo.again w'' h l, Idem-seed_demo.again w' h (Later-refl w'))
