-- ===== src/Frame.antt =====
-- What sending, notifying and auditing leave alone: the tables that the services read.
use robotics_io_t_smart_auto.Base.{String, ◌≡◌, arith}
use robotics_io_t_smart_auto.Core.Realtime.{broadcast}
use robotics_io_t_smart_auto.Core.Services.{Entry, record_audit}
use robotics_io_t_smart_auto.World.{Group, Payload, World}

-- The same organizations, users, grants, groups, devices, commands, sensors, readings, rules and
-- channels, at the same instant.
pub record SameTables (w w' : World) : Type 0 where
  pub organizations : w'.organizations ≡ w.organizations
  pub users : w'.users ≡ w.users
  pub permissions : w'.permissions ≡ w.permissions
  pub groups : w'.groups ≡ w.groups
  pub devices : w'.devices ≡ w.devices
  pub commands : w'.commands ≡ w.commands
  pub sensors : w'.sensors ≡ w.sensors
  pub readings : w'.readings ≡ w.readings
  pub rules : w'.rules ≡ w.rules
  pub channels : w'.channels ≡ w.channels
  pub now : w'.now ≡ w.now

-- The same alerts as well.
pub record Quiet (w w' : World) : Type 0 where
  pub tables : SameTables w w'
  pub alerts : w'.alerts ≡ w.alerts

pub SameTables-refl : (w : World) → SameTables w w
SameTables-refl w = ground arith

pub SameTables-trans : {u v w : World} → SameTables u v → SameTables v w → SameTables u w
SameTables-trans h k = ground arith

pub Quiet-refl : (w : World) → Quiet w w
Quiet-refl w = ground arith

pub Quiet-trans : {u v w : World} → Quiet u v → Quiet v w → Quiet u w
Quiet-trans h k = ground arith

pub broadcast-Quiet :
    (g : Group) (e : String) (p : Payload) (w : World) → Quiet w (broadcast g e p w)
unfolding broadcast
broadcast-Quiet g e p w = ground arith

pub record_audit-Quiet : (e : Entry) (w : World) → Quiet w (record_audit e w)
unfolding record_audit
record_audit-Quiet e w = ground arith
