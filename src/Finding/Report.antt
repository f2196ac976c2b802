-- ===== src/Finding/Report.antt =====
-- internal/finding/finding.go: what a report emits.
use scheck.Prelude.{String, ℕ, Bool, List, Option, ◌==◌, ◌&&◌, string_eq, nat_eq, true}
use scheck.Finding.Severity.{Severity, critical, high, medium, low, info}
use scheck.Finding.Catalog.{Remediation}

-- `Evidence`.
pub record Evidence : Type 0 where
  pub observation : String
  pub check : String
  pub excerpt : String

-- Go's `==` on `Evidence`.
unfoldable pub evidence_beq : Evidence → Evidence → Bool
evidence_beq a b = a.observation == b.observation && a.check == b.check && a.excerpt == b.excerpt

-- `Adjustment`.
pub record Adjustment : Type 0 where
  pub rule : String
  pub source : String
  pub delta : String

-- `ServiceRef`: a listener. A port is not negative.
pub record ServiceRef : Type 0 where
  pub port : ℕ
  pub proto : String

-- The confidence levels, the statuses and the sources of a finding.
pub data Confidence : Type 0 where
  confidence_high confidence_medium confidence_low : Confidence

pub data FindingStatus : Type 0 where
  open_status accepted_status : FindingStatus

pub data Origin : Type 0 where
  from_rule from_model : Origin

-- `Finding`.
pub record Finding : Type 0 where
  pub id : String
  pub title : String
  pub category : String
  pub severity_base : Severity
  pub severity : Severity
  pub adjustments : List Adjustment
  pub status : FindingStatus
  pub accepted_reason : String
  pub source : Origin
  pub confidence : Confidence
  pub platform : String
  pub evidence : List Evidence
  pub impact : String
  pub remediation : Remediation
  pub context_note : String
  pub service : Option ServiceRef
  pub custom : Bool
  pub capped_by : String

-- `Finding.Open`.
pub is_open : FindingStatus → Bool
is_open open_status = true
is_open accepted_status = Bool.false

-- `string(severity)`.
pub severity_text : Severity → String
severity_text critical = "critical"
severity_text high = "high"
severity_text medium = "medium"
severity_text low = "low"
severity_text info = "info"
