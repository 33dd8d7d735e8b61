-- ===== src/Base/Tests.antt =====
-- Boolean tests on the native numbers, the conditional, and tests on optional references.
use Prim.Native.Nat.{ℕ, ◌*◌, compare, Ordering}
use mathlib.Core.Path.{◌≡◌, refl}
use mathlib.Core.Logic.{◌↔◌, ◌⊎◌, inl, inr}
use mathlib.Core.Bool.{Bool, true, false}
use mathlib.Core.Option.{Option, none, some}
use native.Mathlib.Omega.{arith}

abbrev pub ltb : ℕ → ℕ → Bool
ltb a b = elim (compare a b) [ Ordering.lt ↦ true | _ ↦ false ]

abbrev pub leb : ℕ → ℕ → Bool
leb a b = elim (compare a b) [ Ordering.gt ↦ false | _ ↦ true ]

infix 50 ◌==◌
abbrev pub ◌==◌ : ℕ → ℕ → Bool
a == b = elim (compare a b) [ Ordering.eq ↦ true | _ ↦ false ]

infix 1 if◌then◌else◌
abbrev pub if◌then◌else◌ {ℓ} : {A : Type ℓ} → Bool → A → A → A
if true then x else y = x
if false then x else y = y

pub ==_iff : (a b : ℕ) → ((a == b) ≡ true) ↔ (a ≡ b)
==_iff a b = ground arith

pub ==_refl : (a : ℕ) → (a == a) ≡ true
==_refl a = ground arith

pub Bool-cases : (b : Bool) → (b ≡ true) ⊎ (b ≡ false)
Bool-cases true = inl refl
Bool-cases false = inr refl

pub Option-cases {ℓ} : {A : Type ℓ} (o : Option A) → (o ≡ none) ⊎ ((a : A) × (o ≡ some a))
Option-cases none = inl refl
Option-cases (some a) = inr (a, refl)

-- A nullable foreign key compared with a value or with another one (NULL equals NULL here, as
-- in a filter on `None`).
abbrev pub refers_to : Option ℕ → ℕ → Bool
refers_to none i = false
refers_to (some j) i = j == i

abbrev pub same_ref : Option ℕ → Option ℕ → Bool
same_ref none none = true
same_ref none (some j) = false
same_ref (some i) none = false
same_ref (some i) (some j) = i == j

pub same_ref_refl : (o : Option ℕ) → same_ref o o ≡ true
same_ref_refl none = refl
same_ref_refl (some i) = ==_refl i

pub same_ref_iff : (a b : Option ℕ) → (same_ref a b ≡ true) ↔ (a ≡ b)
same_ref_iff a b = ground arith

module _ {ℓ} {A : Type ℓ} where
  abbrev pub is_some : Option A → Bool
  is_some none = false
  is_some (some _) = true

  abbrev pub is_none : Option A → Bool
  is_none none = true
  is_none (some _) = false

  -- `a or b`, where `a` is absent or a value that counts as true
  abbrev pub or_else : Option A → Option A → Option A
  or_else none b = b
  or_else (some a) _ = some a

  abbrev pub get_or : Option A → A → A
  get_or none d = d
  get_or (some a) d = a

-- Instants are counted in microseconds.
abbrev pub seconds : ℕ → ℕ
seconds n = n * 1000000
