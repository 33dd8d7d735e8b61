-- ===== src/Accounts/Tenants.antt =====
-- What an administrator of an organization is shown.
use robotics_io_t_smart_auto.Base.{
  ℕ, ◌≡◌, refl, ◌∙◌, subst, true, false, ◌||◌, none, some, arith, refers_to, same_ref, same_ref_iff,
  select, All, select-All, All-imp,
}
use robotics_io_t_smart_auto.Accounts.Models.{User, is_super_admin_role, is_org_admin_role}
use robotics_io_t_smart_auto.Accounts.Views.{
  is_named, visible_users, visible_organizations, grant_org, visible_grants,
}
use robotics_io_t_smart_auto.Alerts.Services.Notify.{is_alive}
use robotics_io_t_smart_auto.World.{World}

-- An org admin who belongs to an organization is shown only its users, only grants on its devices
-- and only that organization itself, unless the account is also a superuser; but one who belongs to
-- none is shown the users of all organizations.
pub org_admin_views :
    (user : User) (w : World)
    → is_org_admin_role user.role ≡ true
    → ((org : ℕ)
        → user.organization_id ≡ some org
        → All (λ u. u.organization_id ≡ some org) (visible_users user w)
          × All (λ p. grant_org w p ≡ some org) (visible_grants user w)
          × (user.is_superuser ≡ false
              → All (λ o. refers_to (some org) o.id ≡ true) (visible_organizations user w)))
      × (user.organization_id ≡ none → visible_users user w ≡ w.users)
unfolding visible_users visible_grants visible_organizations
org_admin_views user w admin = (
  (λ org own.
      let named : is_named user.organization_id ≡ true = rw own refl in
      (
        rw (admin, named)
            (All-imp _ _ (λ u e. (same_ref_iff u.organization_id user.organization_id).0 e ∙ own) _
              (select-All (λ u. same_ref u.organization_id user.organization_id) w.users)),
        rw (admin, named)
            (All-imp _ _ (λ p e. (same_ref_iff (grant_org w p) user.organization_id).0 e ∙ own) _
              (select-All (λ p. same_ref (grant_org w p) user.organization_id) w.permissions)),
        λ plain.
            let e : (is_super_admin_role user.role || user.is_superuser) ≡ false =
              ground (arith, admin, plain) in
            rw e (
              All-imp _ _ (λ o h. subst (λ k. refers_to k o.id ≡ true) own h) _
                (select-All (λ o. refers_to user.organization_id o.id)
                  (select (λ o. is_alive o.base) w.organizations))),
      )),
  λ absent. rw (admin, absent) refl,
)
