-- ===== src/Core/SoftDelete.antt =====
-- Soft deletion in apps/core/models.py: SoftDeleteQuerySet, its two managers, and
-- SoftDeleteModel.delete and restore, for any model that extends BaseModel, in the table of the model:
-- what a hard deletion cascades to in other tables is not modelled.
use robotics_io_t_smart_auto.Base.{
  ℕ, zero, suc, ◌≡◌, Bool, true, false, not, ◌&&◌, ◌||◌, Option, none, some, List, ◌==◌, length,
  select, exists_where, update_where,
}
use robotics_io_t_smart_auto.Alerts.Services.Notify.{is_alive}
use robotics_io_t_smart_auto.Core.Models.{BaseModel}

-- A model that extends BaseModel: its row holds the base columns, and writing them changes nothing
-- else. `cascades_from` is the row of the same table whose deletion cascades to this one, which only
-- DeviceGroup has.
pub record IsModel {ℓ} (A : Type ℓ) : Type ℓ where
  pub base_of : A → BaseModel
  pub set_base : BaseModel → A → A
  pub cascades_from : A → Option ℕ
  pub base-set : (b : BaseModel) (x : A) → base_of (set_base b x) ≡ b
  pub set-base : (x : A) → set_base (base_of x) x ≡ x
  pub set-set : (b c : BaseModel) (x : A) → set_base b (set_base c x) ≡ set_base b x

module _ {ℓ} {A : Type ℓ} (model : IsModel A) where
  -- SoftDeleteQuerySet.alive, and what SoftDeleteManager.get_queryset returns
  abbrev pub alive : List A → List A
  alive rows = select (λ x. is_alive (model.base_of x)) rows

  -- SoftDeleteQuerySet.dead
  abbrev pub dead : List A → List A
  dead rows = select (λ x. not (is_alive (model.base_of x))) rows

  -- writes the column deleted_at alone
  abbrev pub stamp_deleted : Option ℕ → A → A
  stamp_deleted t x = model.set_base (record (model.base_of x) { deleted_at = t }) x

  -- SoftDeleteQuerySet.delete, for the rows that pass a filter
  unfoldable pub delete_rows : ℕ → (A → Bool) → List A → List A
  delete_rows now p rows = update_where p (stamp_deleted (some now)) rows

  abbrev pub has_id : ℕ → A → Bool
  has_id id x = (model.base_of x).id == id

  -- whether the parent of a row is one of the rows that pass a test
  abbrev pub hangs_on : (A → Bool) → List A → A → Bool
  hangs_on p rows x = elim (model.cascades_from x) [
    | none ↦ false
    | some q ↦ exists_where (λ y. has_id q y && p y) rows
  ]

  -- the rows that a deletion collects, with so many generations below those of the filter
  unfoldable pub is_collected : ℕ → (A → Bool) → List A → A → Bool
  is_collected zero p rows x = p x
  is_collected (suc n) p rows x = p x || hangs_on (is_collected n p rows) rows x

  -- SoftDeleteQuerySet.hard_delete, which cascades to the children in the table; a table has fewer
  -- generations than rows
  unfoldable pub hard_delete_rows : (A → Bool) → List A → List A
  unfolding is_collected
  hard_delete_rows p rows = select (λ x. not (is_collected (length rows) p rows x)) rows

  -- SoftDeleteModel.delete
  unfoldable pub delete : (hard : Bool) → ℕ → ℕ → List A → List A
  unfolding delete_rows hard_delete_rows
  delete true now id rows = hard_delete_rows (has_id id) rows
  delete false now id rows = delete_rows now (has_id id) rows

  -- SoftDeleteModel.restore
  unfoldable pub restore : ℕ → List A → List A
  restore id rows = update_where (has_id id) (stamp_deleted none) rows
