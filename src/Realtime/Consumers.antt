-- ===== src/Realtime/Consumers.antt =====
-- apps/realtime/consumers.py: what a connection joins, and what it is sent. A connection without a
-- user is closed; the close codes are those of the source.
use robotics_io_t_smart_auto.Base.{
  ℕ, Bool, true, false, ◌&&◌, Option, none, some, List, [], ◌∷◌, ◌++◌, ◌==◌, if◌then◌else◌, select,
  first?, exists_where,
}
use robotics_io_t_smart_auto.Accounts.Models.{User, can_access_device}
use robotics_io_t_smart_auto.Alerts.Services.Notify.{is_alive}
use robotics_io_t_smart_auto.World.{Group, same_group, Envelope, World}

-- One connection: the groups that it joined, in order, the code it was closed with, and the
-- greeting's scope.
pub record Socket : Type 0 where
  pub groups_joined : List Group
  pub close_code : Option ℕ
  pub greeted : Bool

abbrev pub closed_with : ℕ → Socket
closed_with code = record { groups_joined = []; close_code = some code; greeted = false }

abbrev pub accepted : Socket
accepted = record { groups_joined = []; close_code = none; greeted = false }

-- BaseConsumer.join
abbrev pub join : Group → Socket → Socket
join group s = record s { groups_joined = s.groups_joined ++ group ∷ [] }

abbrev pub greet : Socket → Socket
greet s = record s { greeted = true }

-- BaseConsumer.connect, for what a subclass does in on_authenticated
unfoldable pub connect : (User → Socket → Socket) → Option User → Socket
connect on_authenticated none = closed_with 4401
connect on_authenticated (some user) = on_authenticated user accepted

-- if self.user.organization_id: join(group_for_org(...))
abbrev pub join_org : Option ℕ → Socket → Socket
join_org none s = s
join_org (some org) s = join (Group.org_group org) s

-- DashboardConsumer
unfoldable pub dashboard : Option User → Socket
unfolding connect
dashboard = connect λ user s. greet (join Group.alerts_group (join_org user.organization_id s))

-- DeviceConsumer._can_view
unfoldable pub can_view : User → ℕ → World → Bool
can_view user device_id w = elim (first? (λ d. is_alive d.base && d.id == device_id) w.devices) [
  | none ↦ false
  | some d ↦ can_access_device w.permissions user d.id d.organization_id false
]

-- DeviceConsumer
unfoldable pub device_stream : ℕ → World → Option User → Socket
unfolding connect can_view
device_stream device_id w = connect λ user s.
    if can_view user device_id w
    then greet (join (Group.device_group device_id) s)
    else record s { close_code = some 4403 }

-- AlertConsumer
unfoldable pub alert_feed : Option User → Socket
unfolding connect
alert_feed = connect λ user s.
    greet
      (join (Group.user_group user.id) (join_org user.organization_id (join Group.alerts_group s)))

-- BaseConsumer.disconnect
abbrev pub disconnect : Socket → Socket
disconnect s = record s { groups_joined = [] }

abbrev pub is_member : List Group → Group → Bool
is_member groups g = exists_where (λ h. same_group h g) groups

-- BaseConsumer.broadcast: what the channel layer hands to this connection, in order
unfoldable pub relayed : Socket → List Envelope → List Envelope
relayed s sent = select (λ e. is_member s.groups_joined e.group) sent
