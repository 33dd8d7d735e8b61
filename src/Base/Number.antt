-- ===== src/Base/Number.antt =====
-- Python floats, as far as the program uses them: order, equality and subtraction. A finite float
-- is a whole number of thousandths; infinities and NaN are kept, since `float("inf")`,
-- `float("nan")` and the JSON reader produce them.
use Prim.Native.Nat.{ℕ, ◌*◌}
use mathlib.Core.Path.{◌≡◌, refl}
use mathlib.Core.Bool.{Bool, true, false, ◌||◌}
use native.Mathlib.Omega.{arith}
use robotics_io_t_smart_auto.Base.Tests.{if◌then◌else◌}
use robotics_io_t_smart_auto.Base.Int.{ℤ, pos, ◌-ℤ◌, ltb_ℤ, eqb_ℤ}

pub data Float : Type 0 where
  finite : ℤ → Float
  pos_inf neg_inf nan : Float

-- A whole number as a float.
abbrev pub whole : ℕ → Float
whole n = finite (pos (n * 1000))

-- a < b: false as soon as a side is NaN
abbrev pub flt_lt : Float → Float → Bool
flt_lt (finite a) (finite b) = ltb_ℤ a b
flt_lt (finite a) pos_inf = true
flt_lt neg_inf (finite b) = true
flt_lt neg_inf pos_inf = true
flt_lt _ _ = false

-- a == b: NaN differs from itself
abbrev pub flt_eq : Float → Float → Bool
flt_eq (finite a) (finite b) = eqb_ℤ a b
flt_eq pos_inf pos_inf = true
flt_eq neg_inf neg_inf = true
flt_eq _ _ = false

abbrev pub flt_le : Float → Float → Bool
flt_le a b = flt_lt a b || flt_eq a b

unfoldable pub flt_sub : Float → Float → Float
unfolding ◌-ℤ◌
flt_sub (finite a) (finite b) = finite (a -ℤ b)
flt_sub (finite a) pos_inf = neg_inf
flt_sub (finite a) neg_inf = pos_inf
flt_sub pos_inf (finite b) = pos_inf
flt_sub pos_inf neg_inf = pos_inf
flt_sub neg_inf (finite b) = neg_inf
flt_sub neg_inf pos_inf = neg_inf
flt_sub _ _ = nan

-- Python's `min(a, b)` keeps `a` unless `b < a`, and `max(a, b)` keeps `a` unless `a < b`.
abbrev pub flt_min : Float → Float → Float
flt_min a b = if flt_lt b a then b else a

abbrev pub flt_max : Float → Float → Float
flt_max a b = if flt_lt a b then b else a

pub flt_lt_asymm : (a b : Float) → flt_lt a b ≡ true → flt_lt b a ≡ false
flt_lt_asymm (finite a) (finite b) h = ground arith
flt_lt_asymm (finite a) pos_inf h = refl
flt_lt_asymm neg_inf (finite b) h = refl
flt_lt_asymm neg_inf pos_inf h = refl
flt_lt_asymm _ _ h = ground arith
