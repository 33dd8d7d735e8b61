-- ===== src/Alerts/Rules.antt =====
-- AlertRuleViewSet and NotificationChannelViewSet of apps/alerts/views.py.
use robotics_io_t_smart_auto.Base.{
  ℕ, ◌+◌, Option, none, some, List, [], ◌∷◌, ◌++◌, or_else, select, integrity_error, Outcome, ok,
  fail,
}
use robotics_io_t_smart_auto.Accounts.Models.{User}
use robotics_io_t_smart_auto.Alerts.Models.{AlertRule, NotificationChannel}
use robotics_io_t_smart_auto.Alerts.Services.Notify.{is_alive}
use robotics_io_t_smart_auto.Core.Models.{new_base}
use robotics_io_t_smart_auto.Core.Scope.{scope}
use robotics_io_t_smart_auto.World.{World}

-- AlertRuleViewSet.get_queryset
unfoldable pub visible_rules : Option User → World → List AlertRule
visible_rules user w =
    scope (λ r. some r.organization_id) user (select (λ r. is_alive r.base) w.rules)

-- NotificationChannelViewSet.get_queryset
unfoldable pub visible_channels : Option User → World → List NotificationChannel
visible_channels user w =
    scope (λ c. some c.organization_id) user (select (λ c. is_alive c.base) w.channels)

-- perform_create: the organization of the request, or else that of the caller, which a rule must
-- have
unfoldable pub perform_create_rule : User → Option ℕ → AlertRule → World → Outcome AlertRule × World
perform_create_rule user organization validated w =
    elim (or_else organization user.organization_id) [
      | none ↦ (fail integrity_error, w)
      | some org ↦
          let rule = record validated { base = new_base w.next_id w.now; organization_id = org } in
          (ok rule, record w { rules = w.rules ++ rule ∷ []; next_id = w.next_id + 1 })
    ]
