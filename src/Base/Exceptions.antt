-- ===== src/Base/Exceptions.antt =====
-- What a Python call ends in: a value, or one of the exceptions that the program meets.
use mathlib.Core.Path.{◌≡◌, refl, ap}
use native.Mathlib.Omega.{arith}

pub data Error : Type 0 where
  does_not_exist multiple_objects integrity_error validation_error permission_denied : Error
  value_error type_error key_error attribute_error not_authenticated not_found : Error
  data_error overflow_error : Error

pub data Outcome {ℓ} (A : Type ℓ) : Type ℓ where
  ok : A → Outcome A
  fail : Error → Outcome A

infixl 5 ◌>>=◌
abbrev pub ◌>>=◌ {ℓ κ} : {A : Type ℓ} {B : Type κ} → Outcome A → (A → Outcome B) → Outcome B
ok a >>= f = f a
fail e >>= f = fail e

-- A call that may raise and that changes a state: the rest runs on the state that it left.
abbrev pub and_then {ℓ κ μ} :
    {S : Type ℓ} {A : Type κ} {B : Type μ} → Outcome A × S → (A → S → Outcome B × S) → Outcome B × S
and_then (ok a, s) f = f a s
and_then (fail e, s) f = (fail e, s)

-- try: ... except Exception: pass
abbrev pub swallow {ℓ κ} : {S : Type ℓ} {A : Type κ} → Outcome A × S → S
swallow (_, s) = s

-- A chain that returns passed its first step.
pub bind-ok {ℓ κ} :
    {A : Type ℓ} {B : Type κ} (o : Outcome A) (f : A → Outcome B) (b : B)
    → o >>= f ≡ ok b
    → (a : A) × (o ≡ ok a) × (f a ≡ ok b)
bind-ok (ok a) f b h = (a, refl, h)
bind-ok (fail e) f b h = ground arith

pub and_then-ok {ℓ κ μ} :
    {S : Type ℓ} {A : Type κ} {B : Type μ} (p : Outcome A × S) (f : A → S → Outcome B × S) (b : B)
    → (and_then p f).0 ≡ ok b
    → (a : A) × (p.0 ≡ ok a) × (and_then p f ≡ f a p.1)
and_then-ok (ok a, s) f b h = (a, refl, refl)
and_then-ok (fail e, s) f b h = ground arith

pub ok_eq {ℓ} : {A : Type ℓ} {a b : A} → Path (Outcome A) (ok a) (ok b) → a ≡ b
ok_eq h = ground arith

-- What follows a step that returned.
pub bind-at {ℓ κ} :
    {A : Type ℓ} {B : Type κ} (o : Outcome A) (f : A → Outcome B) (a : A) → o ≡ ok a → o >>= f ≡ f a
bind-at (ok b) f a h = ap f (ok_eq h)
bind-at (fail e) f a h = absurd (ground (arith, h))

pub and_then-at {ℓ κ μ} :
    {S : Type ℓ} {A : Type κ} {B : Type μ} (p : Outcome A × S) (f : A → S → Outcome B × S) (a : A)
    → p.0 ≡ ok a
    → and_then p f ≡ f a p.1
and_then-at (ok b, s) f a h = ap (λ x. f x s) (ok_eq h)
and_then-at (fail e, s) f a h = absurd (ground (arith, h))
