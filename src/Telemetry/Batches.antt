-- ===== src/Telemetry/Batches.antt =====
-- The batches of the retention job: which readings they name.
use robotics_io_t_smart_auto.Base.{
  ℕ, zero, suc, ◌≡◌, refl, sym, ap, subst, inl, inr, Bool, true, false, not, List, [], ◌∷◌, map,
  arith, ltb, Bool-cases, take, select, insert_by, sort_by, All, All-imp,
}
use robotics_io_t_smart_auto.Alerts.Services.Notify.{is_listed}
use robotics_io_t_smart_auto.Telemetry.Models.{Reading}
use robotics_io_t_smart_auto.Telemetry.Tasks.{is_old, batch_of, in_ids}

abbrev pub ids_of : List Reading → List ℕ
ids_of rs = map (λ r. r.id) rs

-- the key of `Reading` is unique
abbrev pub Distinct : List Reading → Type 0
Distinct [] = Unit
Distinct (r ∷ rs) = (is_listed (ids_of rs) r.id ≡ false) × Distinct rs

-- the keys of the old readings
abbrev pub old_ids : ℕ → List Reading → List ℕ
old_ids now rs = ids_of (select (is_old now) rs)

listed-insert :
    (before : Reading → Reading → Bool) (i : ℕ) (x : Reading) (xs : List Reading)
    → is_listed (ids_of (insert_by before x xs)) i ≡ true
    → is_listed (ids_of (x ∷ xs)) i ≡ true
listed-insert before i x [] h = h
listed-insert before i x (y ∷ ys) h = elim (Bool-cases (before y x)) [
  | inl first ↦ ground (arith, rw first at h, listed-insert before i x ys)
  | inr last ↦ rw last at h
]

listed-sort :
    (before : Reading → Reading → Bool) (i : ℕ) (xs : List Reading)
    → is_listed (ids_of (sort_by before xs)) i ≡ true
    → is_listed (ids_of xs) i ≡ true
listed-sort before i [] h = h
listed-sort before i (x ∷ xs) h =
    ground (arith, listed-insert before i x (sort_by before xs) h, listed-sort before i xs)

listed-take :
    (limit i : ℕ) (xs : List Reading)
    → is_listed (ids_of (take limit xs)) i ≡ true
    → is_listed (ids_of xs) i ≡ true
listed-take zero i xs h = absurd (ground (arith, h))
listed-take (suc l) i [] h = h
listed-take (suc l) i (x ∷ xs) h = ground (arith, h, listed-take l i xs)

pub old-listed :
    (now i : ℕ) (rs : List Reading)
    → is_listed (old_ids now rs) i ≡ true
    → is_listed (ids_of rs) i ≡ true
old-listed now i [] h = h
old-listed now i (r ∷ rs) h = elim (Bool-cases (is_old now r)) [
  | inl old ↦ ground (arith, rw old at h, old-listed now i rs)
  | inr new ↦ ground (arith, old-listed now i rs (rw new at h))
]

-- a batch names only old readings
pub batch-listed :
    (limit now i : ℕ) (rs : List Reading)
    → is_listed (batch_of limit now rs) i ≡ true
    → is_listed (old_ids now rs) i ≡ true
batch-listed limit now i rs h =
    let olds = select (is_old now) rs in
    listed-sort (λ r t. ltb t.time r.time) i olds
      (listed-take limit i (sort_by (λ r t. ltb t.time r.time) olds) h)

-- the rows that a list of keys names are old
abbrev pub OldOnly : ℕ → List ℕ → List Reading → Type 0
OldOnly now ids rs = All (λ r. in_ids ids r ≡ true → is_old now r ≡ true) rs

OldOnly-none : (now : ℕ) (rs : List Reading) → OldOnly now [] rs
OldOnly-none now [] = tt
OldOnly-none now (r ∷ rs) = ((λ h. absurd (ground (arith, h))), OldOnly-none now rs)

OldOnly-cons :
    (now i : ℕ) (ids : List ℕ) (rs : List Reading)
    → is_listed (ids_of rs) i ≡ false
    → OldOnly now ids rs
    → OldOnly now (i ∷ ids) rs
OldOnly-cons now i ids [] apart h = tt
OldOnly-cons now i ids (r ∷ rs) apart h = (
  (λ named. h.0 (ground (arith, named, apart))),
  OldOnly-cons now i ids rs (ground (arith, apart)) h.1,
)

not_named :
    (now i : ℕ) (rs : List Reading)
    → is_listed (ids_of rs) i ≡ false
    → is_listed (old_ids now rs) i ≡ false
not_named now i rs apart = elim (Bool-cases (is_listed (old_ids now rs) i)) [
  | inl named ↦ absurd (ground (arith, apart, old-listed now i rs named))
  | inr absent ↦ absent
]

old-keep :
    (now : ℕ) (r : Reading) (rs : List Reading)
    → is_old now r ≡ true
    → old_ids now (r ∷ rs) ≡ r.id ∷ old_ids now rs
old-keep now r rs old = rw old refl

old-drop :
    (now : ℕ) (r : Reading) (rs : List Reading)
    → is_old now r ≡ false
    → old_ids now (r ∷ rs) ≡ old_ids now rs
old-drop now r rs new = rw new refl

old-OldOnly : (now : ℕ) (rs : List Reading) → Distinct rs → OldOnly now (old_ids now rs) rs
old-OldOnly now [] d = tt
old-OldOnly now (r ∷ rs) d = elim (Bool-cases (is_old now r)) [
  | inl old ↦
      subst (λ ids. OldOnly now ids (r ∷ rs)) (sym (old-keep now r rs old))
        ((λ _. old), OldOnly-cons now r.id (old_ids now rs) rs d.0 (old-OldOnly now rs d.1))
  | inr new ↦
      subst (λ ids. OldOnly now ids (r ∷ rs)) (sym (old-drop now r rs new))
        (
          (λ named. absurd (ground (arith, named, not_named now r.id rs d.0))),
          old-OldOnly now rs d.1,
        )
]

pub batch-OldOnly :
    (limit now : ℕ) (rs : List Reading) → Distinct rs → OldOnly now (batch_of limit now rs) rs
batch-OldOnly limit now rs d =
    All-imp _ _ (λ r h named. h (batch-listed limit now r.id rs named)) rs (old-OldOnly now rs d)

abbrev pub recent : ℕ → List Reading → List Reading
recent now rs = select (λ r. not (is_old now r)) rs

insert-some :
    (before : Reading → Reading → Bool) (x : Reading) (xs : List Reading)
    → (y : Reading) × (ys : List Reading) × (insert_by before x xs ≡ y ∷ ys)
insert-some before x [] = (x, [], refl)
insert-some before x (y ∷ ys) = elim (Bool-cases (before y x)) [
  | inl first ↦ (y, insert_by before x ys, rw first refl)
  | inr last ↦ (x, y ∷ ys, rw last refl)
]

-- an empty batch means that nothing is old
take-none :
    (l : ℕ) (before : Reading → Reading → Bool) (xs : List Reading)
    → ids_of (take (suc l) (sort_by before xs)) ≡ []
    → xs ≡ []
take-none l before [] h = refl
take-none l before (x ∷ xs) h =
    let (y, ys, e) = insert-some before x (sort_by before xs) in absurd (ground (arith, rw e at h))

none_old : (now : ℕ) (rs : List Reading) → select (is_old now) rs ≡ [] → recent now rs ≡ rs
none_old now [] h = refl
none_old now (r ∷ rs) h = elim (Bool-cases (is_old now r)) [
  | inl old ↦ absurd (ground (arith, rw old at h))
  | inr new ↦ rw new (ap (λ k. r ∷ k) (none_old now rs (rw new at h)))
]

pub batch-none : (l now : ℕ) (rs : List Reading) → batch_of (suc l) now rs ≡ [] → recent now rs ≡ rs
batch-none l now rs h =
    none_old now rs (take-none l (λ r t. ltb t.time r.time) (select (is_old now) rs) h)
