-- ===== src/Core/Models.antt =====
-- apps/core/models.py: the base classes of every model, soft deletion, and the audit log.
-- An abstract base class is a record that each model nests; a UUID key is a number.
use robotics_io_t_smart_auto.Base.{ℕ, String, Option, none}
use robotics_io_t_smart_auto.Core.Json.{Json}

-- class BaseModel, with the columns of its bases UUIDModel, TimeStampedModel and SoftDeleteModel
pub record BaseModel : Type 0 where
  pub id : ℕ
  pub created_at : ℕ
  pub updated_at : ℕ
  pub deleted_at : Option ℕ

-- The columns of a row that is created at `now`.
abbrev pub new_base : ℕ → ℕ → BaseModel
new_base id now = record { id = id; created_at = now; updated_at = now; deleted_at = none }

-- `auto_now`: a save that writes `updated_at` writes the instant of the save.
abbrev pub touch : ℕ → BaseModel → BaseModel
touch now b = record b { updated_at = now }

-- class AuditLog.Action
pub data Action : Type 0 where
  create update delete login logout command alert : Action

-- class AuditLog
pub record AuditLog : Type 0 where
  pub id : ℕ
  pub actor : Option ℕ
  pub action : Action
  pub target_type : String
  pub target_id : Option ℕ
  pub summary : String
  pub metadata : Json
  pub ip_address : Option String
  pub created_at : ℕ
