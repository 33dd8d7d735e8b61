-- ===== src/Devices/Seed/Later.antt =====
-- What the inserts of apps/devices/management/commands/seed_demo.py do to the rows that are there.
use robotics_io_t_smart_auto.Base.{
  ℕ, String, ◌≡◌, refl, ◌∙◌, inl, inr, Bool, true, Option, List, [], ◌∷◌, ◌++◌, arith, Bool-cases,
  select, select-append,
}
use robotics_io_t_smart_auto.Accounts.Managers.{takes_email}
use robotics_io_t_smart_auto.Alerts.Models.{AlertRule}
use robotics_io_t_smart_auto.Alerts.Services.Notify.{is_listed}
use robotics_io_t_smart_auto.Devices.Seed.Fleet.{has_serial}
use robotics_io_t_smart_auto.Devices.Seed.GetOrCreate.{Lookup}
use robotics_io_t_smart_auto.Devices.Seed.Rows.{has_slug, is_group, is_channel, is_rule}
use robotics_io_t_smart_auto.Frame.{SameTables}
use robotics_io_t_smart_auto.Telemetry.Services.Ingest.{has_key}
use robotics_io_t_smart_auto.World.{World}

-- a lookup that finds one row still finds it
abbrev pub Kept : {A K : Type 0} → (K → A → Bool) → List A → List A → Type 0
Kept {A} {K} found xs ys =
    (k : K) (a : A) → select (found k) xs ≡ a ∷ [] → select (found k) ys ≡ a ∷ []

-- the same for rules, whose channels may grow
abbrev pub RulesKept : List AlertRule → List AlertRule → Type 0
RulesKept xs ys =
    (org : ℕ) (name : String) (a : AlertRule)
    → select (is_rule org name) xs ≡ a ∷ []
    → (b : AlertRule) × (select (is_rule org name) ys ≡ b ∷ [])
      × ((c : ℕ) → is_listed a.notify_channels c ≡ true → is_listed b.notify_channels c ≡ true)

-- A state in which every lookup of the command still finds what it found before.
pub record Later (w w' : World) : Type 0 where
  pub organizations : Kept has_slug w.organizations w'.organizations
  pub users : Kept takes_email w.users w'.users
  pub groups : Kept (λ (k : ℕ × String × Option ℕ). is_group k.0 k.1 k.2) w.groups w'.groups
  pub devices : Kept has_serial w.devices w'.devices
  pub sensors : Kept (λ (k : ℕ × String). has_key k.0 k.1) w.sensors w'.sensors
  pub channels : Kept (λ (k : ℕ × String). is_channel k.0 k.1) w.channels w'.channels
  pub rules : RulesKept w.rules w'.rules

pub Kept-same : {A K : Type 0} (found : K → A → Bool) (xs ys : List A) → ys ≡ xs → Kept found xs ys
Kept-same found xs ys e = λ k a h. rw e h

pub Later-refl : (w : World) → Later w w
Later-refl w = record {
  organizations = λ k a h. h;
  users = λ k a h. h;
  groups = λ k a h. h;
  devices = λ k a h. h;
  sensors = λ k a h. h;
  channels = λ k a h. h;
  rules = λ org name a h. (a, h, λ c k. k);
}

pub Later-trans : {u v w : World} → Later u v → Later v w → Later u w
Later-trans f g = record {
  organizations = λ k a h. g.organizations k a (f.organizations k a h);
  users = λ k a h. g.users k a (f.users k a h);
  groups = λ k a h. g.groups k a (f.groups k a h);
  devices = λ k a h. g.devices k a (f.devices k a h);
  sensors = λ k a h. g.sensors k a (f.sensors k a h);
  channels = λ k a h. g.channels k a (f.channels k a h);
  rules = λ org name a h.
      let (b, e, more) = f.rules org name a h in
      let (c, e', more') = g.rules org name b e in (c, e', λ ch k. more' ch (more ch k));
}

-- An insert behind a lookup that found nothing keeps what the other lookups found.
pub Kept-append :
    {A K : Type 0} (found : K → A → Bool) (k : K) (xs : List A) (row : A)
    → select (found k) xs ≡ []
    → ((l : K) → found l row ≡ true → l ≡ k)
    → Kept found xs (xs ++ row ∷ [])
Kept-append found k xs row free only l a h = elim (Bool-cases (found l row)) [
  | inl mine ↦ absurd (ground (arith, rw (only l mine) at h, free))
  | inr other ↦ select-append (found l) xs (row ∷ []) ∙ rw (h, other) refl
]

-- the same for an inserted rule
pub RulesKept-append :
    (org : ℕ) (name : String) (xs : List AlertRule) (row : AlertRule)
    → select (is_rule org name) xs ≡ []
    → ((o : ℕ) (n : String) → is_rule o n row ≡ true → (o ≡ org) × (n ≡ name))
    → RulesKept xs (xs ++ row ∷ [])
RulesKept-append org name xs row free only o n a h = (
  a,
  Kept-append (λ (k : ℕ × String). is_rule k.0 k.1) (org, name) xs row free
      (λ k mine. λ i. ((only k.0 k.1 mine).0 i, (only k.0 k.1 mine).1 i)) (o, n) a h,
  λ c k. k,
)

-- what a lookup asks of its insert
pub record Inserts {A : Type 0} (q : Lookup A) : Type 0 where
  pub later : (w : World) → select q.is_found (q.rows w) ≡ [] → Later w (q.insert (q.new_row w) w)
  pub found :
      (w : World)
      → select q.is_found (q.rows w) ≡ []
      → select q.is_found (q.rows (q.insert (q.new_row w) w)) ≡ q.new_row w ∷ []

pub select-new :
    {A : Type 0} (p : A → Bool) (xs : List A) (row : A)
    → select p xs ≡ []
    → p row ≡ true
    → select p (xs ++ row ∷ []) ≡ row ∷ []
select-new p xs row free mine = select-append p xs (row ∷ []) ∙ rw (free, mine) refl

-- where the tables are the same
pub Later-tables : {w w' : World} → SameTables w w' → Later w w'
Later-tables {w} {w'} t = record {
  organizations = Kept-same has_slug w.organizations w'.organizations t.organizations;
  users = Kept-same takes_email w.users w'.users t.users;
  groups =
      Kept-same (λ (k : ℕ × String × Option ℕ). is_group k.0 k.1 k.2) w.groups w'.groups t.groups;
  devices = Kept-same has_serial w.devices w'.devices t.devices;
  sensors = Kept-same (λ (k : ℕ × String). has_key k.0 k.1) w.sensors w'.sensors t.sensors;
  channels = Kept-same (λ (k : ℕ × String). is_channel k.0 k.1) w.channels w'.channels t.channels;
  rules = λ org name a h. (a, rw (t.rules) h, λ c k. k);
}
