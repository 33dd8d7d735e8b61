-- ===== src/Base/Tables.antt =====
-- A table of the database is the list of its rows, in the order of its queries; where the program
-- itself adds rows and a query orders them, the query sorts.
use Prim.Native.Nat.{ℕ, zero, suc, ◌+◌, ◌≤◌}
use mathlib.Core.Path.{◌≡◌, refl, ap, subst}
use mathlib.Core.Logic.{inl, inr}
use mathlib.Core.Bool.{Bool, true, false, ◌||◌}
use mathlib.Core.Option.{Option, none, some}
use mathlib.Core.List.{List, [], ◌∷◌, ◌++◌}
use native.Mathlib.Omega.{arith}
use robotics_io_t_smart_auto.Base.Tests.{if◌then◌else◌, Bool-cases}

module _ {ℓ} {A : Type ℓ} where
  abbrev pub length : List A → ℕ
  length [] = 0
  length (x ∷ xs) = suc (length xs)

  abbrev pub take : ℕ → List A → List A
  take zero xs = []
  take (suc n) [] = []
  take (suc n) (x ∷ xs) = x ∷ take n xs

  -- filter(...)
  abbrev pub select : (A → Bool) → List A → List A
  select p [] = []
  select p (x ∷ xs) = let rest = select p xs in if p x then x ∷ rest else rest

  -- filter(...).first()
  abbrev pub first? : (A → Bool) → List A → Option A
  first? p [] = none
  first? p (x ∷ xs) = if p x then some x else first? p xs

  -- filter(...).exists()
  abbrev pub exists_where : (A → Bool) → List A → Bool
  exists_where p [] = false
  exists_where p (x ∷ xs) = p x || exists_where p xs

  -- filter(...).count()
  abbrev pub count_where : (A → Bool) → List A → ℕ
  count_where p [] = 0
  count_where p (x ∷ xs) = let n = count_where p xs in if p x then suc n else n

  -- filter(...).update(...)
  abbrev pub update_where : (A → Bool) → (A → A) → List A → List A
  update_where p f [] = []
  update_where p f (x ∷ xs) = (if p x then f x else x) ∷ update_where p f xs

  -- order_by(...), stable: `before y x` says that `y` stands before `x`
  abbrev pub insert_by : (A → A → Bool) → A → List A → List A
  insert_by before x [] = x ∷ []
  insert_by before x (y ∷ ys) =
      let later = insert_by before x ys in if before y x then y ∷ later else x ∷ y ∷ ys

  abbrev pub sort_by : (A → A → Bool) → List A → List A
  sort_by before [] = []
  sort_by before (x ∷ xs) = insert_by before x (sort_by before xs)

  -- every row satisfies the predicate
  abbrev pub All {κ} : (A → Type κ) → List A → Type κ
  All P [] = Unit
  All P (x ∷ xs) = P x × All P xs

module _ {ℓ} {A : Type ℓ} where
  pub length-append : (xs ys : List A) → length (xs ++ ys) ≡ length xs + length ys
  length-append [] ys = omega arith
  length-append (x ∷ xs) ys = omega (arith, length-append xs ys)

  pub count-append :
      (p : A → Bool) (xs ys : List A)
      → count_where p (xs ++ ys) ≡ count_where p xs + count_where p ys
  count-append p [] ys = omega arith
  count-append p (x ∷ xs) ys = ground (arith, count-append p xs ys)

  pub length-select : (p : A → Bool) (xs : List A) → length (select p xs) ≡ count_where p xs
  length-select p [] = refl
  length-select p (x ∷ xs) = ground (arith, length-select p xs)

  pub count-le-length : (p : A → Bool) (xs : List A) → count_where p xs ≤ length xs
  count-le-length p [] = omega arith
  count-le-length p (x ∷ xs) = ground (arith, count-le-length p xs)

  pub length-update :
      (p : A → Bool) (f : A → A) (xs : List A) → length (update_where p f xs) ≡ length xs
  length-update p f [] = refl
  length-update p f (x ∷ xs) = ap suc (length-update p f xs)

  pub exists-count : (p : A → Bool) (xs : List A) → exists_where p xs ≡ false → count_where p xs ≡ 0
  exists-count p [] h = refl
  exists-count p (x ∷ xs) h = ground (arith, exists-count p xs)

  pub first-append :
      (p : A → Bool) (xs ys : List A)
      → first? p (xs ++ ys) ≡ (elim (first? p xs) [ none ↦ first? p ys | some a ↦ some a ])
  first-append p [] ys = refl
  first-append p (x ∷ xs) ys = ground (arith, first-append p xs ys)

  pub first-holds : (p : A → Bool) (xs : List A) (a : A) → first? p xs ≡ some a → p a ≡ true
  first-holds p [] a h = ground arith
  first-holds p (x ∷ xs) a h = ground (arith, first-holds p xs a)

  -- What a filter returns satisfies its condition.
  pub select-All : (p : A → Bool) (xs : List A) → All (λ x. p x ≡ true) (select p xs)
  select-All p [] = tt
  select-All p (x ∷ xs) = ground (arith, select-All p xs)

  pub All-append {κ} : (P : A → Type κ) (xs ys : List A) → All P xs → All P ys → All P (xs ++ ys)
  All-append P [] ys h k = k
  All-append P (x ∷ xs) ys h k = (h.0, All-append P xs ys h.1 k)

  pub All-imp {κ μ} :
      (P : A → Type κ) (Q : A → Type μ) (f : (x : A) → P x → Q x) (xs : List A)
      → All P xs
      → All Q xs
  All-imp P Q f [] h = tt
  All-imp P Q f (x ∷ xs) h = (f x h.0, All-imp P Q f xs h.1)

  -- Where a filter returns nothing, `first()` is None and no row passes.
  pub first-of-none : (p : A → Bool) (xs : List A) → select p xs ≡ [] → first? p xs ≡ none
  first-of-none p [] h = refl
  first-of-none p (x ∷ xs) h = ground (arith, first-of-none p xs)

  pub first-of-one :
      (p : A → Bool) (xs : List A) (a : A) → select p xs ≡ a ∷ [] → first? p xs ≡ some a
  first-of-one p [] a h = ground arith
  first-of-one p (x ∷ xs) a h = ground (arith, first-of-one p xs a)

  pub first-count-zero : (p : A → Bool) (xs : List A) → count_where p xs ≡ 0 → first? p xs ≡ none
  first-count-zero p [] h = refl
  first-count-zero p (x ∷ xs) h = ground (arith, first-count-zero p xs)

  -- An update that keeps a test keeps the count of the rows that pass it.
  pub count-update :
      (p q : A → Bool) (f : A → A) (xs : List A)
      → ((x : A) → p x ≡ true → q (f x) ≡ q x)
      → count_where q (update_where p f xs) ≡ count_where q xs
  count-update p q f [] h = refl
  count-update p q f (x ∷ xs) h = ground (arith, h x, count-update p q f xs h)

  -- An update after which fewer rows pass a test does not raise their count.
  pub count-update-le :
      (p q : A → Bool) (f : A → A) (xs : List A)
      → ((x : A) → q (f x) ≡ true → q x ≡ true)
      → count_where q (update_where p f xs) ≤ count_where q xs
  count-update-le p q f [] h = omega arith
  count-update-le p q f (x ∷ xs) h = ground (arith, h x, count-update-le p q f xs h)

  -- Where every row that passes is updated to one that does not, none passes afterwards.
  pub count-update-zero :
      (p : A → Bool) (f : A → A) (xs : List A)
      → ((x : A) → p (f x) ≡ false)
      → count_where p (update_where p f xs) ≡ 0
  count-update-zero p f [] h = refl
  count-update-zero p f (x ∷ xs) h = ground (arith, h x, count-update-zero p f xs h)

  pub count-exists : (p : A → Bool) (xs : List A) → count_where p xs ≡ 0 → exists_where p xs ≡ false
  count-exists p [] h = refl
  count-exists p (x ∷ xs) h = ground (arith, count-exists p xs)

  pub select-append :
      (p : A → Bool) (xs ys : List A) → select p (xs ++ ys) ≡ select p xs ++ select p ys
  select-append p [] ys = refl
  select-append p (x ∷ xs) ys = ground (arith, select-append p xs ys)

  pub select-one : (p : A → Bool) (x : A) → p x ≡ true → select p (x ∷ []) ≡ x ∷ []
  select-one p x h = rw h

  -- An update that keeps a test commutes with the filter.
  pub select-update :
      (p q : A → Bool) (f : A → A) (xs : List A)
      → ((x : A) → p (f x) ≡ p x)
      → select p (update_where q f xs) ≡ update_where q f (select p xs)
  select-update p q f [] h = refl
  select-update p q f (x ∷ xs) h = ground (arith, h x, select-update p q f xs h)

  -- An update that keeps a property of each row keeps it of the table.
  pub All-update {κ} :
      (P : A → Type κ) (p : A → Bool) (f : A → A) (xs : List A)
      → ((x : A) → p x ≡ true → P x → P (f x))
      → All P xs
      → All P (update_where p f xs)
  All-update P p f [] h k = tt
  All-update P p f (x ∷ xs) h k = elim (Bool-cases (p x)) [
    | inl hit ↦ rw hit (h x hit k.0, All-update P p f xs h k.1)
    | inr miss ↦ rw miss (k.0, All-update P p f xs h k.1)
  ]

  pub All-first {κ} :
      (P : A → Type κ) (p : A → Bool) (xs : List A) (a : A) → All P xs → first? p xs ≡ some a → P a
  All-first P p [] a h e = absurd (ground arith)
  All-first P p (x ∷ xs) a h e = elim (Bool-cases (p x)) [
    | inl here ↦ subst P (cc (rw here at e)) h.0
    | inr there ↦ All-first P p xs a h.1 (rw there at e)
  ]
