-- ===== src/Realtime/Privacy.antt =====
-- What a WebSocket connection can hear.
use robotics_io_t_smart_auto.Base.{
  ℕ, ◌≡◌, refl, subst, ◌≢◌, inl, inr, true, false, ◌&&◌, Option, none, some, List, [], ◌∷◌, ◌++◌,
  arith, ◌==◌, Bool-cases, Option-cases, first?, All, All-append,
}
use robotics_io_t_smart_auto.Accounts.Access.{MayView, can_access_device-view_iff}
use robotics_io_t_smart_auto.Accounts.Models.{User}
use robotics_io_t_smart_auto.Alerts.Services.Notify.{is_alive}
use robotics_io_t_smart_auto.Devices.Models.{Device}
use robotics_io_t_smart_auto.Realtime.Consumers.{
  Socket, accepted, join, greet, join_org, dashboard, can_view, device_stream, alert_feed,
  is_member, relayed,
}
use robotics_io_t_smart_auto.World.{Group, same_group, Envelope, World}

same_group_sound : (g h : Group) → same_group g h ≡ true → g ≡ h
same_group_sound (Group.device_group i) (Group.device_group j) e = ground arith
same_group_sound (Group.org_group i) (Group.org_group j) e = ground arith
same_group_sound (Group.user_group i) (Group.user_group j) e = ground arith
same_group_sound Group.alerts_group Group.alerts_group e = refl
same_group_sound (Group.device_group i) (Group.org_group j) e = ground arith
same_group_sound (Group.device_group i) (Group.user_group j) e = ground arith
same_group_sound (Group.device_group i) Group.alerts_group e = ground arith
same_group_sound (Group.org_group i) (Group.device_group j) e = ground arith
same_group_sound (Group.org_group i) (Group.user_group j) e = ground arith
same_group_sound (Group.org_group i) Group.alerts_group e = ground arith
same_group_sound (Group.user_group i) (Group.device_group j) e = ground arith
same_group_sound (Group.user_group i) (Group.org_group j) e = ground arith
same_group_sound (Group.user_group i) Group.alerts_group e = ground arith
same_group_sound Group.alerts_group (Group.device_group j) e = ground arith
same_group_sound Group.alerts_group (Group.org_group j) e = ground arith
same_group_sound Group.alerts_group (Group.user_group j) e = ground arith

-- The groups that a user may hear on the dashboard and on the alert feed.
pub data MayHear (user : User) : Group → Type 0 where
  own_org : (org : ℕ) → user.organization_id ≡ some org → MayHear user (Group.org_group org)
  own_inbox : MayHear user (Group.user_group user.id)
  shared : MayHear user Group.alerts_group

hears_org :
    (user : User) (o : Option ℕ)
    → user.organization_id ≡ o
    → All (MayHear user) (join_org o accepted).groups_joined
hears_org user none e = tt
hears_org user (some org) e = (MayHear.own_org org e, tt)

relayed-All :
    (P : Group → Type 0) (s : Socket) (sent : List Envelope)
    → All P s.groups_joined
    → All (λ e. P e.group) (relayed s sent)
unfolding relayed
relayed-All P s [] h = tt
relayed-All P s (e ∷ es) h = elim (Bool-cases (is_member s.groups_joined e.group)) [
  | inl member ↦ rw member (listed s.groups_joined h member, relayed-All P s es h)
  | inr other ↦ rw other (relayed-All P s es h)
]
  where
    listed : (groups : List Group) → All P groups → is_member groups e.group ≡ true → P e.group
    listed [] k m = absurd (ground arith)
    listed (g ∷ gs) k m = elim (Bool-cases (same_group g e.group)) [
      | inl same ↦ subst P (same_group_sound g e.group same) k.0
      | inr different ↦ listed gs k.1 (rw different at m)
    ]

-- who has joined nothing hears nothing
silent :
    (code : Option ℕ) (es : List Envelope)
    → relayed (record { groups_joined = []; close_code = code; greeted = false }) es ≡ []
unfolding relayed
silent code [] = refl
silent code (e ∷ es) = silent code es

dashboard_groups : (user : User) → All (MayHear user) (dashboard (some user)).groups_joined
unfolding dashboard
dashboard_groups user =
    All-append (MayHear user) (join_org user.organization_id accepted).groups_joined
      (Group.alerts_group ∷ []) (hears_org user user.organization_id refl) (MayHear.shared, tt)

alert_feed_groups : (user : User) → All (MayHear user) (alert_feed (some user)).groups_joined
unfolding alert_feed
alert_feed_groups user = feed user.organization_id refl
  where
    feed :
        (o : Option ℕ)
        → user.organization_id ≡ o
        → All (MayHear user) (
            (join_org o (join Group.alerts_group accepted)).groups_joined
            ++ Group.user_group user.id ∷ [])
    feed none e = (MayHear.shared, (MayHear.own_inbox, tt))
    feed (some org) e = (MayHear.shared, (MayHear.own_org org e, (MayHear.own_inbox, tt)))

-- Whatever is sent, a dashboard connection and an alert feed relay only messages to the caller's
-- own organization, to the caller's own inbox, or to the group that all share; without a user
-- nothing is relayed.
pub connections-MayHear :
    (user : User) (sent : List Envelope)
    → All (λ e. MayHear user e.group) (relayed (dashboard (some user)) sent)
      × All (λ e. MayHear user e.group) (relayed (alert_feed (some user)) sent)
      × (relayed (dashboard none) sent ≡ [])
      × (relayed (alert_feed none) sent ≡ [])
unfolding dashboard alert_feed
connections-MayHear user sent = (
  relayed-All (MayHear user) (dashboard (some user)) sent (dashboard_groups user),
  relayed-All (MayHear user) (alert_feed (some user)) sent (alert_feed_groups user),
  silent (some 4401) sent,
  silent (some 4401) sent,
)

-- Who may hear the stream of a device.
pub record Audience (user : Option User) (device_id : ℕ) (w : World) : Type 0 where
  pub caller : User
  pub known : user ≡ some caller
  pub device : Device
  pub live : first? (λ d. is_alive d.base && d.id == device_id) w.devices ≡ some device
  pub view : MayView w.permissions caller device.id device.organization_id

can_view-MayView :
    (user : User) (device_id : ℕ) (w : World)
    → can_view user device_id w ≡ true
    → Audience (some user) device_id w
unfolding can_view
can_view-MayView user device_id w h =
    elim (Option-cases (first? (λ d. is_alive d.base && d.id == device_id) w.devices)) [
      | inl e ↦ absurd (ground (arith, rw (e, can_view) at h))
      | inr (d, e) ↦ record {
        caller = user;
        known = refl;
        device = d;
        live = e;
        view =
            (can_access_device-view_iff w.permissions user d.id d.organization_id).0
              (rw (e, can_view) at h);
      }
    ]

-- A connection to the stream of a device that relays any message is one of a user whom the access
-- matrix lets view this live device; and it relays messages of this device's group alone.
pub device_stream-private :
    (user : Option User) (device_id : ℕ) (w : World) (sent : List Envelope)
    → relayed (device_stream device_id w user) sent ≢ []
    → Audience user device_id w
      × All
          (λ e. e.group ≡ Group.device_group device_id)
          (relayed (device_stream device_id w user) sent)
unfolding device_stream
device_stream-private none device_id w sent h = absurd (h (silent (some 4401) sent))
device_stream-private (some user) device_id w sent h =
    elim (Bool-cases (can_view user device_id w)) [
      | inl allowed ↦ (
        can_view-MayView user device_id w allowed,
        rw allowed (
            relayed-All (λ g. g ≡ Group.device_group device_id)
              (greet (join (Group.device_group device_id) accepted)) sent (refl, tt)),
      )
      | inr refused ↦ absurd (h (rw refused (silent (some 4403) sent)))
    ]
