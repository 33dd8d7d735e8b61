-- ===== src/Core/Columns.antt =====
-- What PostgreSQL takes into a column: a text no longer than the column and without a NUL character,
-- and a JSON value without NaN, infinities and NUL characters. Else the statement raises DataError.
use Prim.Native.Char.{code}
use robotics_io_t_smart_auto.Base.{
  ℕ, suc, String, Bool, true, false, not, ◌&&◌, Option, none, some, leb, ◌==◌, Float,
}
use robotics_io_t_smart_auto.Core.Json.{Json, Items, Fields}

abbrev pub char_count : String → ℕ
char_count String.[] = 0
char_count (String.◌∷◌ c s) = suc (char_count s)

abbrev pub without_nul : String → Bool
without_nul String.[] = true
without_nul (String.◌∷◌ c s) = not (code c == 0) && without_nul s

-- a CharField with this max_length
unfoldable pub fits_column : ℕ → String → Bool
fits_column width s = leb (char_count s) width && without_nul s

-- a number that JSON has a notation for
abbrev pub is_finite : Float → Bool
is_finite (Float.finite z) = true
is_finite _ = false

mutual
  -- a JSONField
  pub storable : Json → Bool
  storable Json.null = true
  storable (Json.bool b) = true
  storable (Json.num x) = is_finite x
  storable (Json.str s) = without_nul s
  storable (Json.arr xs) = storable_items xs
  storable (Json.obj fs) = storable_fields fs

  pub storable_items : Items → Bool
  storable_items Items.nil = true
  storable_items (Items.cons j js) = storable j && storable_items js

  pub storable_fields : Fields → Bool
  storable_fields Fields.end = true
  storable_fields (Fields.field k j fs) = without_nul k && (storable j && storable_fields fs)

-- a JSONField that may be NULL
abbrev pub storable_column : Option Json → Bool
storable_column none = true
storable_column (some j) = storable j
