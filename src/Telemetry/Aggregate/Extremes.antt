-- ===== src/Telemetry/Aggregate/Extremes.antt =====
-- The least and the greatest value of a bucket of apps/telemetry/views.py.
use robotics_io_t_smart_auto.Base.{
  ◌≡◌, subst, inl, inr, true, false, none, some, List, [], ◌∷◌, arith, if◌then◌else◌, Bool-cases,
  Option-cases, All, All-imp, Float,
}
use robotics_io_t_smart_auto.Telemetry.Aggregate.{column_lt, least, greatest}

column_lt_asymm : (x y : Float) → column_lt x y ≡ true → column_lt y x ≡ false
column_lt_asymm x y h = ground arith

column_lt_trans :
    (x y z : Float) → column_lt x y ≡ false → column_lt y z ≡ false → column_lt x z ≡ false
column_lt_trans x y z h k = ground arith

column_lt_irrefl : (x : Float) → column_lt x x ≡ false
column_lt_irrefl x = ground arith

least-cons :
    (x : Float) (xs : List Float) (m n : Float)
    → (if column_lt m x then m else x) ≡ n
    → All (λ z. column_lt z m ≡ false) xs
    → All (λ z. column_lt z n ≡ false) (x ∷ xs)
least-cons x xs m n e h = elim (Bool-cases (column_lt m x)) [
  | inl less ↦
      subst (λ k. All (λ z. column_lt z k ≡ false) (x ∷ xs)) (ground (arith, e, less))
        (column_lt_asymm m x less, h)
  | inr more ↦
      subst (λ k. All (λ z. column_lt z k ≡ false) (x ∷ xs)) (ground (arith, e, more))
        (
          column_lt_irrefl x,
          All-imp (λ z. column_lt z m ≡ false) (λ z. column_lt z x ≡ false)
              (λ z k. column_lt_trans z m x k more) xs h,
        )
]

least-empty : (m : Float) (xs : List Float) → least xs ≡ none → All (λ z. column_lt z m ≡ false) xs
least-empty m [] h = tt
least-empty m (x ∷ xs) h = elim (Option-cases (least xs)) [
  | inl empty ↦ absurd (ground (arith, h, empty))
  | inr (n, e) ↦ absurd (ground (arith, h, e))
]

-- No value of a column is below its least one.
pub least-All :
    (xs : List Float) (m : Float) → least xs ≡ some m → All (λ z. column_lt z m ≡ false) xs
least-All [] m h = tt
least-All (x ∷ xs) m h = elim (Option-cases (least xs)) [
  | inl empty ↦
      let e : x ≡ m = ground (arith, h, empty) in
      subst (λ n. All (λ z. column_lt z n ≡ false) (x ∷ xs)) e
        (column_lt_irrefl x, least-empty x xs empty)
  | inr (n, e) ↦ least-cons x xs n m (ground (arith, h, e)) (least-All xs n e)
]

greatest-cons :
    (x : Float) (xs : List Float) (m n : Float)
    → (if column_lt x m then m else x) ≡ n
    → All (λ z. column_lt m z ≡ false) xs
    → All (λ z. column_lt n z ≡ false) (x ∷ xs)
greatest-cons x xs m n e h = elim (Bool-cases (column_lt x m)) [
  | inl less ↦
      subst (λ k. All (λ z. column_lt k z ≡ false) (x ∷ xs)) (ground (arith, e, less))
        (column_lt_asymm x m less, h)
  | inr more ↦
      subst (λ k. All (λ z. column_lt k z ≡ false) (x ∷ xs)) (ground (arith, e, more))
        (
          column_lt_irrefl x,
          All-imp (λ z. column_lt m z ≡ false) (λ z. column_lt x z ≡ false)
              (λ z k. column_lt_trans x m z more k) xs h,
        )
]

greatest-empty :
    (m : Float) (xs : List Float) → greatest xs ≡ none → All (λ z. column_lt m z ≡ false) xs
greatest-empty m [] h = tt
greatest-empty m (x ∷ xs) h = elim (Option-cases (greatest xs)) [
  | inl empty ↦ absurd (ground (arith, h, empty))
  | inr (n, e) ↦ absurd (ground (arith, h, e))
]

-- No value of a column is above its greatest one.
pub greatest-All :
    (xs : List Float) (m : Float) → greatest xs ≡ some m → All (λ z. column_lt m z ≡ false) xs
greatest-All [] m h = tt
greatest-All (x ∷ xs) m h = elim (Option-cases (greatest xs)) [
  | inl empty ↦
      let e : x ≡ m = ground (arith, h, empty) in
      subst (λ n. All (λ z. column_lt n z ≡ false) (x ∷ xs)) e
        (column_lt_irrefl x, greatest-empty x xs empty)
  | inr (n, e) ↦ greatest-cons x xs n m (ground (arith, h, e)) (greatest-All xs n e)
]
