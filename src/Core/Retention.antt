-- ===== src/Core/Retention.antt =====
-- Soft deletion of apps/core/models.py against hard deletion, and restore.
use robotics_io_t_smart_auto.Base.{
  ℕ, zero, suc, ◌≡◌, refl, sym, ap, ◌∙◌, ◌⊎◌, inl, inr, Bool, true, false, not, ◌&&◌, ◌||◌, Option,
  none, some, List, [], ◌∷◌, arith, ◌==◌, if◌then◌else◌, Bool-cases, length, select, exists_where,
  All, length-update, All-imp,
}
use robotics_io_t_smart_auto.Alerts.Services.Notify.{is_alive}
use robotics_io_t_smart_auto.Core.Models.{BaseModel}
use robotics_io_t_smart_auto.Core.SoftDelete.{
  IsModel, alive, stamp_deleted, delete_rows, has_id, hangs_on, is_collected, hard_delete_rows,
  delete, restore,
}

module _ {ℓ} {A : Type ℓ} (model : IsModel A) where
  alive-delete_rows :
      (now : ℕ) (p : A → Bool) (rows : List A)
      → alive model (delete_rows model now p rows) ≡ alive model (select (λ x. not (p x)) rows)
  unfolding delete_rows
  alive-delete_rows now p [] = refl
  alive-delete_rows now p (x ∷ xs) = elim (Bool-cases (p x)) [
    | inl hit ↦ rw hit (
        rw (model.base-set (record (model.base_of x) { deleted_at = some now }) x)
          (alive-delete_rows now p xs))
    | inr miss ↦ rw miss (elim (Bool-cases (is_alive (model.base_of x))) [
      | inl live ↦ rw live (ap (λ l. x ∷ l) (alive-delete_rows now p xs))
      | inr gone ↦ rw gone (alive-delete_rows now p xs)
    ])
  ]

  -- no row that stays has a parent that goes
  abbrev pub Childless : (A → Bool) → List A → Type 0
  Childless p rows = All (λ x. (p x ≡ true) ⊎ (hangs_on model p rows x ≡ false)) rows

  exists-same :
      (h p q : A → Bool) (rows : List A)
      → All (λ y. q y ≡ p y) rows
      → exists_where (λ y. h y && q y) rows ≡ exists_where (λ y. h y && p y) rows
  exists-same h p q [] e = refl
  exists-same h p q (y ∷ ys) e = rw (e.0) (ap (λ b. h y && p y || b) (exists-same h p q ys e.1))

  hung-same :
      (p q : A → Bool) (rows : List A) (parent : Option ℕ)
      → All (λ y. q y ≡ p y) rows
      → (elim parent as (λ _. Bool) [
        | none ↦ false
        | some i ↦ exists_where (λ y. has_id model i y && q y) rows
      ])
        ≡ (elim parent as (λ _. Bool) [
          | none ↦ false
          | some i ↦ exists_where (λ y. has_id model i y && p y) rows
        ])
  hung-same p q rows none e = refl
  hung-same p q rows (some i) e = exists-same (has_id model i) p q rows e

  collected_one :
      (n : ℕ) (p : A → Bool) (rows : List A) (x : A)
      → All (λ y. is_collected model n p rows y ≡ p y) rows
      → (p x ≡ true) ⊎ (hangs_on model p rows x ≡ false)
      → is_collected model (suc n) p rows x ≡ p x
  unfolding is_collected
  collected_one n p rows x e (inl hit) = rw hit refl
  collected_one n p rows x e (inr free) =
      ap (λ b. p x || b)
        (hung-same p (is_collected model n p rows) rows (model.cascades_from x) e ∙ free)
      ∙ or_false (p x)
    where
      or_false : (b : Bool) → (b || false) ≡ b
      or_false true = refl
      or_false false = refl

  is_collected-Childless :
      (n : ℕ) (p : A → Bool) (rows : List A)
      → Childless p rows
      → All (λ x. is_collected model n p rows x ≡ p x) rows
  unfolding is_collected
  is_collected-Childless zero p rows h = All-imp _ _ (λ x _. refl) rows h
  is_collected-Childless (suc n) p rows h =
      All-imp _ _ (λ x e. collected_one n p rows x (is_collected-Childless n p rows h) e) rows h

  select-same :
      (p q : A → Bool) (rows : List A)
      → All (λ x. q x ≡ p x) rows
      → select (λ x. not (q x)) rows ≡ select (λ x. not (p x)) rows
  select-same p q [] e = refl
  select-same p q (x ∷ xs) e = ground (arith, e.0, select-same p q xs e.1)

  soft-hard :
      (now : ℕ) (p : A → Bool) (rows : List A)
      → Childless p rows
      → alive model (delete_rows model now p rows) ≡ alive model (hard_delete_rows model p rows)
  unfolding hard_delete_rows
  soft-hard now p rows h =
      alive-delete_rows now p rows
      ∙ ap (alive model) (
          sym (
            select-same p (is_collected model (length rows) p rows) rows
              (is_collected-Childless (length rows) p rows h)))

  stamp_back :
      (now : ℕ) (x : A)
      → is_alive (model.base_of x) ≡ true
      → stamp_deleted model none (stamp_deleted model (some now) x) ≡ x
  stamp_back now x live =
      let b = record (model.base_of x) { deleted_at = some now } in
      ap (λ c. model.set_base (record c { deleted_at = none }) (model.set_base b x))
        (model.base-set b x)
      ∙ model.set-set (record b { deleted_at = none }) b x
      ∙ ap (λ c. model.set_base c x) (was_alive (model.base_of x) live)
      ∙ model.set-base x
    where
      was_alive : (b : BaseModel) → is_alive b ≡ true → record b { deleted_at = none } ≡ b
      was_alive b live = ground arith

  abbrev put_back : ℕ → A → A
  put_back id y = if has_id model id y then stamp_deleted model none y else y

  put_back_hit :
      (id : ℕ) (y : A) → has_id model id y ≡ true → put_back id y ≡ stamp_deleted model none y
  put_back_hit id y e = rw e refl

  put_back_miss : (id : ℕ) (y : A) → has_id model id y ≡ false → put_back id y ≡ y
  put_back_miss id y e = rw e refl

  back :
      (now id : ℕ) (x : A)
      → (has_id model id x ≡ true → is_alive (model.base_of x) ≡ true)
      → put_back id (if has_id model id x then stamp_deleted model (some now) x else x) ≡ x
  back now id x h = elim (Bool-cases (has_id model id x)) [
    | inl hit ↦
        let b = record (model.base_of x) { deleted_at = some now } in
        let e : has_id model id (stamp_deleted model (some now) x) ≡ true =
          ap (λ c. c.id == id) (model.base-set b x) ∙ hit in
        rw hit (put_back_hit id (stamp_deleted model (some now) x) e ∙ stamp_back now x (h hit))
    | inr miss ↦ rw miss (put_back_miss id x miss)
  ]

  restore-delete :
      (now id : ℕ) (rows : List A)
      → All (λ x. has_id model id x ≡ true → is_alive (model.base_of x) ≡ true) rows
      → restore model id (delete model false now id rows) ≡ rows
  unfolding delete restore delete_rows
  restore-delete now id [] h = refl
  restore-delete now id (x ∷ xs) h =
      ap (λ y. y ∷ restore model id (delete_rows model now (has_id model id) xs))
        (back now id x h.0)
      ∙ ap (λ l. x ∷ l) (restore-delete now id xs h.1)

-- For any model, where no row that stays has a parent in the table that goes (only device groups
-- have parents), soft deletion looks to every query of the table's live rows like a hard deletion, of
-- the rows of a filter and of one row; the table keeps all its rows; and restoring a deleted row
-- gives back the table from before, where the rows with its key were live.
pub delete_lem {ℓ} :
    {A : Type ℓ} (model : IsModel A) (now id : ℕ) (p : A → Bool) (rows : List A)
    → Childless model p rows
    → Childless model (has_id model id) rows
    → All (λ x. has_id model id x ≡ true → is_alive (model.base_of x) ≡ true) rows
    → (alive model (delete_rows model now p rows) ≡ alive model (hard_delete_rows model p rows))
      × (alive model (delete model false now id rows) ≡ alive model (delete model true now id rows))
      × (length (delete model false now id rows) ≡ length rows)
      × (restore model id (delete model false now id rows) ≡ rows)
unfolding delete delete_rows
delete_lem model now id p rows free single h = (
  soft-hard model now p rows free,
  soft-hard model now (has_id model id) rows single,
  length-update (has_id model id) (stamp_deleted model (some now)) rows,
  restore-delete model now id rows h,
)
