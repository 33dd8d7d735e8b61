-- ===== src/Telemetry/Services/Coerce.antt =====
-- `_coerce` and `_guess_type` of apps/telemetry/services.py.
use Prim.Native.Nat.{◌^◌}
use robotics_io_t_smart_auto.Base.{
  ℕ, suc, ◌-◌, ◌*◌, String, Bool, false, Option, none, some, List, [], ◌∷◌, leb, if◌then◌else◌,
  lower_has, pos, negsuc, Float, whole, overflow_error, Outcome, ok, fail,
}
use robotics_io_t_smart_auto.Core.Codec.{Codec}
use robotics_io_t_smart_auto.Core.Json.{Json}
use robotics_io_t_smart_auto.Telemetry.Models.{SensorType}

-- The buckets (numeric, text, json) of one raw value; exactly the triples that `_coerce` returns.
pub record Sample : Type 0 where
  pub numeric : Option Float
  pub text : Option String
  pub json : Option Json

abbrev pub numeric_sample : Float → Sample
numeric_sample x = record { numeric = some x; text = none; json = none }

abbrev pub text_sample : String → Sample
text_sample s = record { numeric = none; text = some s; json = none }

abbrev pub json_sample : Json → Sample
json_sample j = record { numeric = none; text = none; json = some j }

-- float(n) raises OverflowError for integers from here on, in thousandths: what rounds to 2 ^ 1024
unfoldable pub float_limit : ℕ
float_limit = 2 ^ 970 * (2 ^ 54 - 1) * 1000

unfoldable pub is_huge : Float → Bool
unfolding float_limit
is_huge (Float.finite (pos n)) = leb float_limit n
is_huge (Float.finite (negsuc n)) = leb float_limit (suc n)
is_huge _ = false

abbrev pub overflows : Json → Bool
overflows (Json.num x) = is_huge x
overflows _ = false

-- the triple of a value: `float(None)` raises TypeError, so a null becomes the text of `None`
unfoldable pub buckets : Codec → Json → Sample
buckets codec (Json.bool b) = numeric_sample (if b then whole 1 else whole 0)
buckets codec (Json.num x) = numeric_sample x
buckets codec (Json.arr xs) = json_sample (Json.arr xs)
buckets codec (Json.obj fs) = json_sample (Json.obj fs)
buckets codec (Json.str s) = elim (codec.parse_float s) [
  | some x ↦ numeric_sample x
  | none ↦ text_sample s
]
buckets codec Json.null = text_sample "None"

-- _coerce; the OverflowError of a huge integer leaves it
unfoldable pub coerce : Codec → Json → Outcome Sample
unfolding buckets is_huge
coerce codec raw = if overflows raw then fail overflow_error else ok (buckets codec raw)

-- the dictionary `mapping` of _guess_type, in its order
abbrev pub needles : List (String × SensorType)
needles =
    ("temp", SensorType.temperature)
    ∷ ("humid", SensorType.humidity)
    ∷ ("motion", SensorType.motion)
    ∷ ("gps", SensorType.gps)
    ∷ ("batt", SensorType.battery)
    ∷ ("press", SensorType.pressure)
    ∷ ("light", SensorType.light)
    ∷ ("lux", SensorType.light)
    ∷ ("gas", SensorType.gas)
    ∷ ("co2", SensorType.gas)
    ∷ ("heart", SensorType.heart_rate)
    ∷ ("hr", SensorType.heart_rate)
    ∷ ("vib", SensorType.vibration)
    ∷ []

unfoldable pub find_needle : String → List (String × SensorType) → SensorType
find_needle key [] = SensorType.custom
find_needle key ((needle, stype) ∷ rest) =
    if lower_has needle key then stype else find_needle key rest

-- _guess_type
unfoldable pub guess_type : String → SensorType
unfolding find_needle
guess_type key = find_needle key needles
