-- ===== src/Finding/Adjustments.antt =====
-- internal/finding/grade.go: what changes the severity of a host's finding, and internal/operator/operator.go: the
-- operator's context that it reads. The time package is a parameter: `day_end zone date` is the instant at which the
-- day ends in the zone, if the date parses.
pub mod Named
pub mod Read
use scheck.Prelude.{
  String, ℕ, zero, suc, ◌-◌, Bool, true, false, not, ◌&&◌, ◌||◌, Option, none, some, List, [], ◌∷◌,
  ◌++◌, find_first, map_get, ltb, leb, ◌==◌, string_eq, nat_eq, if◌then◌else◌,
}
use scheck.Prelude.Int.{ℤ, pos, negsuc, sub_ℕ}
use scheck.Prelude.Strings.{◌+◌, to_lower, equal_fold, has_prefix, has_suffix, decimal}
use scheck.Finding.Severity.{Severity, high, medium, info, rank, shift, severity_eq}
use scheck.Finding.Report.{
  Finding, Adjustment, ServiceRef, FindingStatus, open_status, accepted_status, Origin, from_rule,
  from_model, Confidence, confidence_high, confidence_medium, confidence_low, severity_text,
}

-- `operator.Service`.
pub record Service : Type 0 where
  pub port : ℕ
  pub proto : String
  pub purpose : String
  pub source : String

-- `operator.Risk`.
pub record Risk : Type 0 where
  pub id : String
  pub reason : String
  pub expires : String
  pub source : String
  pub zone : String

-- `operator.Structured`, what grading reads of it.
pub record Structured : Type 0 where
  pub exposure : String
  pub environment : String
  pub expected_services : List Service
  pub accepted_risks : List Risk

-- `Grader`.
pub record Grader : Type 0 where
  pub context : Option Structured
  pub origins : List (String × String)
  pub emulated_tool_calling : Bool
  pub now : ℕ
  pub day_end : String → String → Option ℕ

-- `Step`.
pub record Step : Type 0 where
  pub stage : String
  pub from : String
  pub to : String
  pub reason : String

-- `adjustment`.
pub record Pending : Type 0 where
  pub rule : String
  pub source : String
  pub delta : ℤ

is_after : ℕ → Option ℕ → Bool
is_after now none = false
is_after now (some t) = ltb t now

-- `Risk.Expired`.
pub expired : Grader → Risk → Bool
expired g r = if r.expires == "" then false else is_after g.now (g.day_end r.zone r.expires)

or_else : Option String → String
or_else none = ""
or_else (some s) = s

source_of : String → String → String
source_of src key =
    if has_prefix src "flag "
    then src
    else if has_suffix src "#context"
    then src + "." + key
    else src + "#context." + key

-- `Grader.source`.
pub source : Grader → String → String → String
source g key entry_source =
    let src = if entry_source == "" then or_else (map_get g.origins key) else entry_source in
    source_of (if src == "" then "context" else src) key

-- `Service.Key` and `ServiceRef.Key`.
pub service_key : Service → String
service_key s = decimal s.port + "/" + s.proto

ref_key : ServiceRef → String
ref_key s = decimal s.port + "/" + to_lower s.proto

-- `Grader.expected`.
pub expected : List Service → ServiceRef → Option Service
expected services s =
    find_first (λ svc. svc.port == s.port && equal_fold svc.proto s.proto) services

service_adjustment : Grader → Finding → ServiceRef → Option Service → List Pending
service_adjustment g f s (some svc) =
    record {
      rule = "expected_service:" + service_key svc;
      source = source g "expected_services" svc.source;
      delta = sub_ℕ (rank info) (rank f.severity_base);
    }
    ∷ []
service_adjustment g f s none =
    if f.category == "network"
    then record {
      rule = "unexpected_service:" + ref_key s;
      source = source g "expected_services" "";
      delta = pos 1;
    }
      ∷ []
    else []

service_adjustments : Grader → Finding → List Service → Option ServiceRef → List Pending
service_adjustments g f [] s = []
service_adjustments g f (svc ∷ services) none = []
service_adjustments g f (svc ∷ services) (some s) =
    service_adjustment g f s (expected (svc ∷ services) s)

exposure_adjustments : Grader → Finding → String → List Pending
exposure_adjustments g f exposure =
    if exposure == "internet" && (f.category == "remote-access" || f.category == "network")
    then record { rule = "exposure:internet"; source = source g "exposure" ""; delta = pos 1 } ∷ []
    else if exposure == "airgapped" && f.category == "remote-access"
    then record { rule = "exposure:airgapped"; source = source g "exposure" ""; delta = negsuc 1 }
      ∷ []
    else []

environment_adjustments : Grader → String → List Pending
environment_adjustments g environment =
    if environment == "dev"
    then record { rule = "environment:dev"; source = source g "environment" ""; delta = negsuc 0 }
      ∷ []
    else []

-- `Grader.adjustments`, under a context.
pub adjustments : Grader → Structured → Finding → List Pending
adjustments g c f =
    service_adjustments g f c.expected_services f.service
    ++ exposure_adjustments g f c.exposure
    ++ environment_adjustments g c.environment

-- `Grader.acceptance`.
pub acceptance : Structured → String → Option Risk
acceptance c id = find_first (λ r. r.id == id) c.accepted_risks

-- `deltaString`.
pub delta_string : ℤ → String
delta_string (pos zero) = "0"
delta_string (pos (suc n)) = "+" + decimal (suc n)
delta_string (negsuc n) = "-" + decimal (suc n)

-- `WhyPastHigh`.
pub why_past_high : String → String
why_past_high rule =
    "capped at high by " + rule
    + ": critical means that anyone, or someone with no right to it, can use this now, "
    + "or that you believe it is handled; " + rule + " says neither."
