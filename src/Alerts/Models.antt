-- ===== src/Alerts/Models.antt =====
-- apps/alerts/models.py: severities, alert rules and their test, alerts, channels, notifications.
use robotics_io_t_smart_auto.Base.{
  ℕ, String, Bool, true, false, not, Option, none, some, List, Float, flt_lt, flt_eq, flt_le,
}
use robotics_io_t_smart_auto.Core.Json.{Json, Fields}
use robotics_io_t_smart_auto.Core.Models.{BaseModel}

-- class Severity
pub data Severity : Type 0 where
  info warning critical emergency : Severity

-- the stored text of a severity
abbrev pub severity_value : Severity → String
severity_value Severity.info = "info"
severity_value Severity.warning = "warning"
severity_value Severity.critical = "critical"
severity_value Severity.emergency = "emergency"

-- class AlertRule.Source
pub data Source : Type 0 where
  sensor battery offline health : Source

-- class AlertRule.Operator
pub data Operator : Type 0 where
  gt gte lt lte eq neq : Operator

-- get_operator_display()
abbrev pub operator_label : Operator → String
operator_label Operator.gt = ">"
operator_label Operator.gte = "≥"
operator_label Operator.lt = "<"
operator_label Operator.lte = "≤"
operator_label Operator.eq = "="
operator_label Operator.neq = "≠"

-- class AlertRule. An empty `sensor_type` is the empty text.
pub record AlertRule : Type 0 where
  pub base : BaseModel
  pub open base use *
  pub organization_id : ℕ
  pub name : String
  pub is_active : Bool
  pub severity : Severity
  pub source : Source
  pub device_id : Option ℕ
  pub sensor_id : Option ℕ
  pub sensor_type : String
  pub operator : Operator
  pub threshold : Option Float
  pub for_seconds : ℕ
  pub cooldown_seconds : ℕ
  pub notify_channels : List ℕ

-- the table `ops` of AlertRule.matches
abbrev pub compare_by : Operator → Float → Float → Bool
compare_by Operator.gt v t = flt_lt t v
compare_by Operator.gte v t = flt_le t v
compare_by Operator.lt v t = flt_lt v t
compare_by Operator.lte v t = flt_le v t
compare_by Operator.eq v t = flt_eq v t
compare_by Operator.neq v t = not (flt_eq v t)

-- AlertRule.matches
unfoldable pub matches : AlertRule → Option Float → Bool
matches rule none = false
matches rule (some value) = elim rule.threshold [
  | none ↦ false
  | some t ↦ compare_by rule.operator value t
]

-- class Alert.Status
pub data AlertStatus : Type 0 where
  opened acknowledged resolved : AlertStatus

abbrev pub is_opened : AlertStatus → Bool
is_opened AlertStatus.opened = true
is_opened _ = false

abbrev pub is_resolved : AlertStatus → Bool
is_resolved AlertStatus.resolved = true
is_resolved _ = false

-- class Alert
pub record Alert : Type 0 where
  pub base : BaseModel
  pub open base use *
  pub organization_id : Option ℕ
  pub rule_id : Option ℕ
  pub device_id : Option ℕ
  pub sensor_id : Option ℕ
  pub severity : Severity
  pub status : AlertStatus
  pub title : String
  pub message : String
  pub value : Option Float
  pub context : Json
  pub acknowledged_by : Option ℕ
  pub acknowledged_at : Option ℕ
  pub resolved_at : Option ℕ
  pub last_notified_at : Option ℕ

-- class NotificationChannel.Kind
pub data Kind : Type 0 where
  in_app email webhook sms : Kind

abbrev pub is_in_app : Kind → Bool
is_in_app Kind.in_app = true
is_in_app _ = false

-- class NotificationChannel
pub record NotificationChannel : Type 0 where
  pub base : BaseModel
  pub open base use *
  pub organization_id : ℕ
  pub name : String
  pub kind : Kind
  pub is_active : Bool
  pub config : Fields
  pub min_severity : Severity

-- class Notification
pub record Notification : Type 0 where
  pub base : BaseModel
  pub open base use *
  pub recipient_id : ℕ
  pub alert_id : Option ℕ
  pub severity : Severity
  pub title : String
  pub body : String
  pub is_read : Bool
  pub read_at : Option ℕ
