-- ===== src/Core/Services.antt =====
-- apps/core/services.py: the audit trail.
use robotics_io_t_smart_auto.Base.{ℕ, ◌+◌, String, Option, none, [], ◌∷◌, ◌++◌, or_else, cut}
use robotics_io_t_smart_auto.Core.Json.{Json, Fields}
use robotics_io_t_smart_auto.Core.Models.{Action, AuditLog}
use robotics_io_t_smart_auto.World.{World}

-- The named arguments of `record_audit`.
pub record Entry : Type 0 where
  pub action : Action
  pub target_type : String
  pub target_id : Option ℕ
  pub summary : String
  pub metadata : Json
  pub actor : Option ℕ
  pub ip : Option String

-- An entry with the default arguments.
abbrev pub entry : Action → String → Option ℕ → String → Entry
entry action target_type target_id summary = record {
  action = action;
  target_type = target_type;
  target_id = target_id;
  summary = summary;
  metadata = Json.obj Fields.end;
  actor = none;
  ip = none;
}

-- the row that `record_audit` writes: actor and address default to those of the request
abbrev pub audit_row : Entry → World → AuditLog
audit_row e w = record {
  id = w.next_id;
  actor = or_else e.actor w.actor;
  action = e.action;
  target_type = e.target_type;
  target_id = e.target_id;
  summary = cut 255 e.summary;
  metadata = e.metadata;
  ip_address = or_else e.ip w.ip;
  created_at = w.now;
}

unfoldable pub record_audit : Entry → World → World
record_audit e w = record w {
  audit_logs = w.audit_logs ++ audit_row e w ∷ [];
  next_id = w.next_id + 1;
}
