-- ===== src/Base/Text.antt =====
-- Texts: decimal print of floats, cutting, lower case, search and splitting.
use Prim.Native.Nat.{ℕ, zero, suc, ◌+◌, ◌/◌, ◌%◌}
use Prim.Native.Char.{code}
use Prim.Native.String.{String, ◌++◌}
use mathlib.Core.Bool.{Bool, true, false, ◌&&◌, ◌||◌}
use mathlib.Core.List.{List, [], ◌∷◌}
use robotics_io_t_smart_auto.Base.Tests.{ltb, leb, ◌==◌, if◌then◌else◌}
use robotics_io_t_smart_auto.Base.Int.{pos, negsuc}
use robotics_io_t_smart_auto.Base.Number.{Float, finite, pos_inf, neg_inf, nan}

abbrev digit : ℕ → String
digit zero = "0"
digit (suc zero) = "1"
digit (suc (suc zero)) = "2"
digit (suc (suc (suc zero))) = "3"
digit (suc (suc (suc (suc zero)))) = "4"
digit (suc (suc (suc (suc (suc zero))))) = "5"
digit (suc (suc (suc (suc (suc (suc zero)))))) = "6"
digit (suc (suc (suc (suc (suc (suc (suc zero))))))) = "7"
digit (suc (suc (suc (suc (suc (suc (suc (suc zero)))))))) = "8"
digit _ = "9"

-- Decimal digits of `n`; the fuel `suc n` exceeds their number.
digits_of : ℕ → ℕ → String
digits_of zero n = ""
digits_of (suc f) n =
    let front = digits_of f (n / 10) in if ltb n 10 then digit n else front ++ digit (n % 10)

unfoldable pub show_nat : ℕ → String
unfolding digits_of
show_nat n = digits_of (suc n) n

-- The fraction of a number of thousandths, without trailing zeros: "5", "25", "125", or "0".
fraction : ℕ → String
fraction m =
    let tenths = m / 100 in
    let hundredths = m / 10 % 10 in
    let thousandths = m % 10 in
    if thousandths == 0
    then if hundredths == 0 then digit tenths else digit tenths ++ digit hundredths
    else digit tenths ++ digit hundredths ++ digit thousandths

unsigned : ℕ → String
unfolding show_nat fraction
unsigned n = show_nat (n / 1000) ++ "." ++ fraction (n % 1000)

-- f"{x}" of a float
unfoldable pub show_float : Float → String
unfolding unsigned
show_float (finite (pos n)) = unsigned n
show_float (finite (negsuc n)) = "-" ++ unsigned (suc n)
show_float pos_inf = "inf"
show_float neg_inf = "-inf"
show_float nan = "nan"

-- s[:n]
abbrev pub cut : ℕ → String → String
cut zero s = ""
cut (suc n) String.[] = ""
cut (suc n) (String.◌∷◌ c s) = String.◌∷◌ c (cut n s)

-- The characters of a text as numbers, and of its lower-case form (ASCII letters).
abbrev pub codes : String → List ℕ
codes String.[] = []
codes (String.◌∷◌ c s) = code c ∷ codes s

abbrev pub lower_code : ℕ → ℕ
lower_code c = if leb b'A' c && leb c b'Z' then c + 32 else c

abbrev pub lower : String → List ℕ
lower String.[] = []
lower (String.◌∷◌ c s) = lower_code (code c) ∷ lower s

abbrev pub same_codes : List ℕ → List ℕ → Bool
same_codes [] [] = true
same_codes [] (y ∷ ys) = false
same_codes (x ∷ xs) [] = false
same_codes (x ∷ xs) (y ∷ ys) = x == y && same_codes xs ys

abbrev pub begins_with : List ℕ → List ℕ → Bool
begins_with [] ys = true
begins_with (x ∷ xs) [] = false
begins_with (x ∷ xs) (y ∷ ys) = x == y && begins_with xs ys

-- needle in s
abbrev pub has_infix : List ℕ → List ℕ → Bool
has_infix needle [] = begins_with needle []
has_infix needle (c ∷ s) = begins_with needle (c ∷ s) || has_infix needle s

-- s.lower() == t
abbrev pub lowers_to : String → String → Bool
lowers_to s t = same_codes (lower s) (codes t)

-- t in s.lower()
abbrev pub lower_has : String → String → Bool
lower_has t s = has_infix (codes t) (lower s)

-- An f-string: its pieces joined.
abbrev pub concat : List String → String
concat [] = ""
concat (s ∷ rest) = s ++ concat rest

-- s < t, character by character
abbrev pub codes_before : List ℕ → List ℕ → Bool
codes_before xs [] = false
codes_before [] (y ∷ ys) = true
codes_before (x ∷ xs) (y ∷ ys) = let rest = codes_before xs ys in if x == y then rest else ltb x y
