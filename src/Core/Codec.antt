-- ===== src/Core/Codec.antt =====
-- The conversions that Python and Django make and that this repository only calls: `float(text)`,
-- `datetime.fromisoformat`, `str(value)`, and what a model field makes of a JSON value when the row
-- is written. The model takes them as an argument and asks nothing of them.
use robotics_io_t_smart_auto.Base.{ℕ, String, Option, ℤ, Float, Outcome}
use robotics_io_t_smart_auto.Core.Json.{Json}

pub record Codec : Type 0 where
  -- float(text); None where it raises ValueError
  pub parse_float : String → Option Float
  -- datetime.fromisoformat(text); None where it raises ValueError
  pub parse_time : String → Option ℕ
  -- str(value)
  pub str_of : Json → String
  -- what FloatField, IntegerField, CharField and GenericIPAddressField store
  pub float_column : Json → Outcome (Option Float)
  pub int_column : Json → Outcome (Option ℤ)
  pub text_column : Json → Outcome String
  pub ip_column : Json → Outcome (Option String)
  -- UUIDField.to_python; None where it raises ValidationError
  pub uuid_column : Json → Option ℕ
