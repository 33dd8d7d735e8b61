-- ===== src/Core/Scope.antt =====
-- The tenant scope of the viewsets: `OrgScopedMixin.scope`, which apps/devices/views.py,
-- apps/telemetry/views.py and apps/alerts/views.py each declare with their own `org_field`.
use robotics_io_t_smart_auto.Base.{
  ℕ, ◌≡◌, refl, Bool, false, ◌||◌, Option, none, some, List, [], if◌then◌else◌, same_ref,
  same_ref_iff, select, All, select-All, All-imp,
}
use robotics_io_t_smart_auto.Accounts.Models.{User, is_super_admin_role}

abbrev pub sees_all : User → Bool
sees_all user = user.is_superuser || is_super_admin_role user.role

-- scope(qs), where `org` reads the column that `org_field` names; an absent organization is
-- compared with IS NULL
unfoldable pub scope {ℓ} : {A : Type ℓ} → (A → Option ℕ) → Option User → List A → List A
scope org none rows = []
scope org (some user) rows =
    if sees_all user then rows else select (λ x. same_ref (org x) user.organization_id) rows

-- Tenants are isolated: an anonymous caller is shown nothing, and whoever is neither a superuser
-- nor a super admin is shown only rows of the organization that the caller belongs to.
pub scope_isolates {ℓ} :
    {A : Type ℓ} (org : A → Option ℕ) (user : User) (rows : List A)
    → sees_all user ≡ false
    → (scope org none rows ≡ [])
      × All (λ x. org x ≡ user.organization_id) (scope org (some user) rows)
unfolding scope
scope_isolates org user rows h = (
  refl,
  rw h (
      All-imp _ _ (λ x e. (same_ref_iff (org x) user.organization_id).0 e) _
        (select-All (λ x. same_ref (org x) user.organization_id) rows)),
)
