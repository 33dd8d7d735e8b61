-- ===== src/Devices/Seed/GetOrCreate.antt =====
-- Django's `Model.objects.get_or_create(...)` as apps/devices/management/commands/seed_demo.py calls
-- it: what the manager finds is returned; otherwise the row is inserted, unless a unique constraint,
-- which looks at every row, refuses it.
use robotics_io_t_smart_auto.Base.{
  Bool, true, false, List, [], ◌∷◌, if◌then◌else◌, select, exists_where, multiple_objects,
  integrity_error, Outcome, ok, fail, and_then,
}
use robotics_io_t_smart_auto.World.{World}

-- a call on the database: it returns or raises, and changes the state
abbrev pub Call {ℓ} : Type ℓ → Type ℓ
Call A = World → Outcome A × World

abbrev pub chain : {A B : Type 0} → Call A → (A → Call B) → Call B
chain p f w = and_then (p w) f

-- for x in xs
abbrev pub for_each : {A : Type 0} → List A → (A → Call (Unit {0})) → Call (Unit {0})
for_each [] f = λ w. (ok tt, w)
for_each (x ∷ xs) f = chain (f x) (λ done. for_each xs f)

-- What one call of `get_or_create` names.
pub record Lookup (A : Type 0) : Type 0 where
  pub rows : World → List A
  pub is_found : A → Bool
  pub clashes : A → Bool
  pub new_row : World → A
  pub insert : A → World → World

module _ {A : Type 0} where
  abbrev pub insert_new : Lookup A → World → Outcome (A × Bool) × World
  insert_new q w =
      if exists_where q.clashes (q.rows w)
      then (fail integrity_error, w)
      else (ok (q.new_row w, true), q.insert (q.new_row w) w)

  abbrev pub take_found : Lookup A → List A → World → Outcome (A × Bool) × World
  take_found q [] w = insert_new q w
  take_found q (a ∷ []) w = (ok (a, false), w)
  take_found q (a ∷ b ∷ rest) w = (fail multiple_objects, w)

  unfoldable pub get_or_create_row : Lookup A → Call (A × Bool)
  get_or_create_row q w = take_found q (select q.is_found (q.rows w)) w

  -- the same where the flag is not used
  unfoldable pub fetch : Lookup A → Call A
  unfolding get_or_create_row
  fetch q = chain (get_or_create_row q) (λ r w. (ok r.0, w))
