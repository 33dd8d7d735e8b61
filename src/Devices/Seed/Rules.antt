-- ===== src/Devices/Seed/Rules.antt =====
-- The rules of apps/devices/management/commands/seed_demo.py and their channel.
use robotics_io_t_smart_auto.Base.{
  ℕ, String, ◌≡◌, refl, sym, ap, ◌∙◌, subst, inl, inr, true, false, List, [], ◌∷◌, ◌++◌, arith,
  ◌==◌, ==_refl, Bool-cases, select, update_where, select-update, ok,
}
use robotics_io_t_smart_auto.Alerts.Models.{AlertRule}
use robotics_io_t_smart_auto.Alerts.Services.Notify.{is_listed}
use robotics_io_t_smart_auto.Devices.Seed.Again.{Idem, chain-ok, Fetched, fetch_there, fetch_cases}
use robotics_io_t_smart_auto.Devices.Seed.Command.{add_channel, seed_rule}
use robotics_io_t_smart_auto.Devices.Seed.GetOrCreate.{fetch}
use robotics_io_t_smart_auto.Devices.Seed.Inserts.{rule_lookup-Inserts}
use robotics_io_t_smart_auto.Devices.Seed.Later.{RulesKept, Later, Later-refl, Later-trans}
use robotics_io_t_smart_auto.Devices.Seed.Rows.{is_rule, DemoRule, rule_lookup}
use robotics_io_t_smart_auto.World.{World}

abbrev with_channel : ℕ → AlertRule → AlertRule
with_channel channel r = record r { notify_channels = r.notify_channels ++ channel ∷ [] }

listed-last : (ids : List ℕ) (i : ℕ) → is_listed (ids ++ i ∷ []) i ≡ true
listed-last [] i = ground (arith, ==_refl i)
listed-last (j ∷ js) i = ground (arith, listed-last js i)

listed-append :
    (ids : List ℕ) (i c : ℕ) → is_listed ids c ≡ true → is_listed (ids ++ i ∷ []) c ≡ true
listed-append [] i c h = absurd (ground arith)
listed-append (j ∷ js) i c h = ground (arith, h, listed-append js i c)

module _ (channel : ℕ) (rule : AlertRule) (w : World) where
  abbrev extended : World
  extended = record w { rules = update_where (λ r. r.id == rule.id) (with_channel channel) w.rules }

  add_channel_there :
      is_listed rule.notify_channels channel ≡ true → add_channel channel rule w ≡ (ok tt, w)
  unfolding add_channel
  add_channel_there h = rw h refl

  add_channel_new :
      is_listed rule.notify_channels channel ≡ false
      → add_channel channel rule w ≡ (ok tt, extended)
  unfolding add_channel
  add_channel_new h = rw h refl

  select-extended :
      (org : ℕ) (name : String) (a : AlertRule)
      → select (is_rule org name) w.rules ≡ a ∷ []
      → select (is_rule org name) extended.rules
        ≡ update_where (λ r. r.id == rule.id) (with_channel channel) (a ∷ [])
  select-extended org name a h =
      select-update (is_rule org name) (λ r. r.id == rule.id) (with_channel channel) w.rules
        (λ r. refl)
      ∙ ap (update_where (λ r. r.id == rule.id) (with_channel channel)) h

  RulesKept-extended : RulesKept w.rules extended.rules
  RulesKept-extended org name a h = elim (Bool-cases (a.id == rule.id)) [
    | inl hit ↦ (
      with_channel channel a,
      select-extended org name a h ∙ rw hit refl,
      listed-append a.notify_channels channel,
    )
    | inr miss ↦ (a, select-extended org name a h ∙ rw miss refl, λ c k. k)
  ]

  extended-Later : Later w extended
  extended-Later = record {
    organizations = λ k a h. h;
    users = λ k a h. h;
    groups = λ k a h. h;
    devices = λ k a h. h;
    sensors = λ k a h. h;
    channels = λ k a h. h;
    rules = RulesKept-extended;
  }

-- the rule is there, with the channel among its channels
abbrev Linked : ℕ → ℕ → String → World → Type 0
Linked org channel name w =
    (a : AlertRule) × (select (is_rule org name) w.rules ≡ a ∷ [])
    × (is_listed a.notify_channels channel ≡ true)

Linked-Later :
    {w w' : World} (org channel : ℕ) (name : String)
    → Later w w'
    → Linked org channel name w
    → Linked org channel name w'
Linked-Later org channel name l (a, e, listed) =
    let (b, e', more) = l.rules org name a e in (b, e', more channel listed)

-- Adding the channel to a rule that was just fetched.
add_channel-Linked :
    (org channel : ℕ) (name : String) (rule : AlertRule) (w w' : World)
    → select (is_rule org name) w.rules ≡ rule ∷ []
    → add_channel channel rule w ≡ (ok tt, w')
    → Later w w' × Linked org channel name w'
add_channel-Linked org channel name rule w w' e h =
    elim (Bool-cases (is_listed rule.notify_channels channel)) [
      | inl known ↦
          let same : w ≡ w' = ap (λ r. r.1) (sym (add_channel_there channel rule w known) ∙ h) in
          (
            subst (Later w) same (Later-refl w),
            subst (Linked org channel name) same (rule, e, known),
          )
      | inr new ↦
          let same : extended channel rule w ≡ w' =
            ap (λ r. r.1) (sym (add_channel_new channel rule w new) ∙ h) in
          let made = select-extended channel rule w org name rule e ∙ rw (==_refl rule.id) refl in
          (
            subst (Later w) same (extended-Later channel rule w),
            subst (Linked org channel name) same
                (with_channel channel rule, made, listed-last rule.notify_channels channel),
          )
    ]

module _ (org channel : ℕ) (x : DemoRule) where
  -- what a round that returned leaves
  seed_rule-Linked :
      (w w' : World)
      → seed_rule org channel x w ≡ (ok tt, w')
      → Later w w' × Linked org channel x.name w'
  unfolding seed_rule
  seed_rule-Linked w w' h =
      let (a, v, first, second) =
        chain-ok (fetch (rule_lookup x org)) (add_channel channel) w w' tt h in
      let inserts = rule_lookup-Inserts x org in
      elim (fetch_cases (rule_lookup x org) w v a _ refl first) [
        | Fetched.there e same ↦
            let e' : select (is_rule org x.name) v.rules ≡ a ∷ [] =
              ap (λ u. select (is_rule org x.name) u.rules) same ∙ e in
            let (l, linked) = add_channel-Linked org channel x.name a v w' e' second in
            (subst (λ u. Later u w') same l, linked)
        | Fetched.inserted e row made ↦
            let e' : select (is_rule org x.name) v.rules ≡ a ∷ [] =
              ap (λ u. select (is_rule org x.name) u.rules) made
              ∙ inserts.found w e
              ∙ ap (λ r. r ∷ []) (sym row) in
            let (l, linked) = add_channel-Linked org channel x.name a v w' e' second in
            (Later-trans (rw made (inserts.later w e)) l, linked)
      ]

  -- a round for a rule that is linked changes nothing
  seed_rule-again :
      (w : World) → Linked org channel x.name w → seed_rule org channel x w ≡ (ok tt, w)
  unfolding seed_rule
  seed_rule-again w (a, e, listed) =
      rw (fetch_there (rule_lookup x org) w a e) (add_channel_there channel a w listed)

  pub Idem-seed_rule : Idem (seed_rule org channel x)
  Idem-seed_rule = record {
    later = λ {w} {w'} h. (seed_rule-Linked w w' h).0;
    again = λ {w} {w'} w'' h l.
        seed_rule-again w'' (Linked-Later org channel x.name l (seed_rule-Linked w w' h).1);
  }
