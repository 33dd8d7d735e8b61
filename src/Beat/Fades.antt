-- ===== src/Beat/Fades.antt =====
-- What the periodic jobs of config/celery.py do to a device: its score may change, and it may go
-- offline.
use robotics_io_t_smart_auto.Base.{
  ℕ, ◌≡◌, refl, ◌∙◌, ◌⊎◌, inl, inr, Bool, List, [], ◌∷◌, Bool-cases, update_where,
}
use robotics_io_t_smart_auto.Devices.Models.{DeviceStatus, Device}
use robotics_io_t_smart_auto.Devices.Signals.{DeviceField, saved_row}

-- the same device, later
pub record RowFades (x y : Device) : Type 0 where
  pub id : y.id ≡ x.id
  pub deleted_at : y.deleted_at ≡ x.deleted_at
  pub last_seen : y.last_seen ≡ x.last_seen
  pub status : (y.status ≡ x.status) ⊎ (y.status ≡ DeviceStatus.offline)

-- row by row
abbrev pub Pairwise : (Device → Device → Type 0) → List Device → List Device → Type 0
Pairwise R [] [] = Unit
Pairwise R [] (y ∷ ys) = ⊥
Pairwise R (x ∷ xs) [] = ⊥
Pairwise R (x ∷ xs) (y ∷ ys) = R x y × Pairwise R xs ys

abbrev pub Fades : List Device → List Device → Type 0
Fades = Pairwise RowFades

RowFades-refl : (x : Device) → RowFades x x
RowFades-refl x = record { id = refl; deleted_at = refl; last_seen = refl; status = inl refl }

RowFades-trans : (x y z : Device) → RowFades x y → RowFades y z → RowFades x z
RowFades-trans x y z f g = record {
  id = g.id ∙ f.id;
  deleted_at = g.deleted_at ∙ f.deleted_at;
  last_seen = g.last_seen ∙ f.last_seen;
  status = elim g.status [
    | inl same ↦ elim f.status [ inl e ↦ inl (same ∙ e) | inr off ↦ inr (same ∙ off) ]
    | inr off ↦ inr off
  ];
}

pub Fades-refl : (xs : List Device) → Fades xs xs
Fades-refl [] = tt
Fades-refl (x ∷ xs) = (RowFades-refl x, Fades-refl xs)

pub Fades-trans : (xs ys zs : List Device) → Fades xs ys → Fades ys zs → Fades xs zs
Fades-trans [] [] [] f g = tt
Fades-trans (x ∷ xs) (y ∷ ys) (z ∷ zs) f g =
    (RowFades-trans x y z f.0 g.0, Fades-trans xs ys zs f.1 g.1)
Fades-trans [] (y ∷ ys) zs f g = absurd f
Fades-trans [] [] (z ∷ zs) f g = absurd g
Fades-trans (x ∷ xs) [] zs f g = absurd f
Fades-trans (x ∷ xs) (y ∷ ys) [] f g = absurd g

-- a write to the rows of one key
pub Fades-update :
    (p : Device → Bool) (f : Device → Device) (xs : List Device)
    → ((x : Device) → RowFades x (f x))
    → Fades xs (update_where p f xs)
Fades-update p f [] h = tt
Fades-update p f (x ∷ xs) h = elim (Bool-cases (p x)) [
  | inl hit ↦ rw hit (h x, Fades-update p f xs h)
  | inr miss ↦ rw miss (RowFades-refl x, Fades-update p f xs h)
]

-- the writes of the jobs
pub offline-RowFades :
    (d : Device) (now : ℕ) (x : Device)
    → d.status ≡ DeviceStatus.offline
    → RowFades x (saved_row d (DeviceField.status ∷ []) now x)
offline-RowFades d now x h = record {
  id = refl;
  deleted_at = refl;
  last_seen = refl;
  status = inr h;
}

pub score-RowFades :
    (d : Device) (now : ℕ) (x : Device)
    → RowFades x (saved_row d (DeviceField.health_score ∷ []) now x)
score-RowFades d now x = record {
  id = refl;
  deleted_at = refl;
  last_seen = refl;
  status = inl refl;
}
