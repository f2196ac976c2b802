-- ===== src/Finding/Candidate.antt =====
-- internal/finding/store.go: what the model reports, and its validation.
pub mod Accepted
pub mod Supported
use Prim.Native.Char.{Char, code}
use Prim.Native.String
use scheck.Finding.Spelled.{
  parse_confidence, parse_severity, slug_char, slug_tail, slug_head, custom_slug, or_tcp,
}
use scheck.Prelude.{
  String, ℕ, suc, Bool, true, false, not, ◌&&◌, ◌||◌, Option, none, some, List, [], ◌∷◌, any,
  is_some, find_first, leb, ltb, Eq, ◌==◌, string_eq, nat_eq, if◌then◌else◌,
}
use scheck.Prelude.Strings.{has_prefix, trim_prefix, has_infix, to_lower, trim_space, join, fields}
use scheck.Check.Catalog.{Platform, any_platform, platform_eq}
use scheck.Finding.Severity.{Severity, critical, high, medium, low, info, rank}
use scheck.Finding.Catalog.{Catalog, Def, Area, hosts, lookup, Remediation}
use scheck.Finding.Report.{
  Finding, Evidence, ServiceRef, Confidence, confidence_high, confidence_medium, confidence_low,
  from_model, open_status,
}
use scheck.Finding.Predicate.{Status, not_matched}
use scheck.Finding.Cited.{
  Invalid, bad_confidence, no_evidence, bad_port, bad_proto, bad_slug, no_severity,
  incomplete_custom, unknown_id, other_platform, is_disproved, premise_disproved, Checked, accepted,
  refused, ◌>>=◌, Output, evidence,
}
use scheck.Finding.Posture.{Rule, RunStatus, ok, unavailable, denied}
use scheck.Finding.Evaluate.{Assessment, append_evidence, platform_text}

-- `Candidate`. The texts are the model's; `remediation` is `none` where Go has nil.
pub record Candidate : Type 0 where
  pub id : String
  pub note : String
  pub title : String
  pub confidence : String
  pub evidence : List Evidence
  pub impact : String
  pub remediation : Option Remediation
  pub context_note : String
  pub proposed_severity : String
  pub service : Option ServiceRef

-- What validation reads of the store: the catalog, the rule table, the outputs, the platform of the sheet if
-- there is one, the assessments, and which ids are findings of the run.
pub record Session : Type 0 where
  pub defs : Catalog
  pub rules : List Rule
  pub output : Option (String → Option Output)
  pub platform : Option Platform
  pub assessments : List Assessment
  pub seeded : String → Bool

is_hosts : Area → Bool
is_hosts hosts = true
is_hosts _ = false

-- The definition that the model may report under an id.
pub host_def : Option Def → Option Def
host_def none = none
host_def (some def) = if is_hosts def.area && not def.multi_fact then some def else none

-- `Store.disproved`.
pub disproved : List Assessment → String → Bool
disproved assessments id = any (λ a. a.finding == id && is_not_matched a.status) assessments
  where
    is_not_matched : Status → Bool
    is_not_matched not_matched = true
    is_not_matched _ = false

-- `rulesFor`, where it holds a rule and none is of the platform.
other_platform_only : List Rule → String → Platform → Bool
other_platform_only rules id p =
    any (λ r. r.finding == id) rules
    && not (any (λ r. r.finding == id && (r.platform == any_platform || r.platform == p)) rules)

on_other : List Rule → String → Option Platform → Bool
on_other rules id none = false
on_other rules id (some p) = other_platform_only rules id p

-- `Store.ruleAllows`.
pub rule_allows : Session → Def → Option Invalid
rule_allows s def =
    if on_other s.rules def.id s.platform
    then some other_platform
    else if not (s.seeded def.id) && disproved s.assessments def.id
    then some is_disproved
    else if any (λ id. not (s.seeded id) && disproved s.assessments id) def.premise
    then some premise_disproved
    else none

-- The check of the service that a candidate names.
pub check_service : Option ServiceRef → Checked (Option ServiceRef)
check_service none = accepted none
check_service (some svc) =
    let p = or_tcp (to_lower svc.proto) in
    if ltb svc.port 1 || ltb 65535 svc.port
    then refused bad_port
    else if not (p == "tcp") && not (p == "udp")
    then refused bad_proto
    else accepted (some (record { port = svc.port; proto = p }))

pub text_of : Option Platform → String
text_of none = ""
text_of (some p) = platform_text p

-- The finding that a candidate becomes, from what was checked.
pub model_finding :
    Session
    → Candidate
    → Confidence
    → List Evidence
    → Option ServiceRef
    → Bool
    → String
    → String
    → Severity
    → String
    → Remediation
    → Finding
model_finding s c conf evs svc custom title category sev impact fix = record {
  id = c.id;
  title = title;
  category = category;
  severity_base = sev;
  severity = sev;
  adjustments = [];
  status = open_status;
  accepted_reason = "";
  source = from_model;
  confidence = conf;
  platform = text_of s.platform;
  evidence = evs;
  impact = impact;
  remediation = fix;
  context_note = c.context_note;
  service = svc;
  custom = custom;
  capped_by = "";
}

-- A custom severity is capped at medium.
pub cap_medium : Severity → Severity
cap_medium sev = if ltb (rank medium) (rank sev) then medium else sev

has_summary : Option Remediation → Bool
has_summary none = false
has_summary (some r) = not (r.summary == "")

remediation_or : Remediation → Option Remediation → Remediation
remediation_or d none = d
remediation_or d (some r) = if r.summary == "" then d else r

empty_remediation : Remediation
empty_remediation = record { summary = ""; commands = []; caveat = "" }

with_severity :
    Session
    → Candidate
    → Confidence
    → List Evidence
    → Option ServiceRef
    → Option Severity
    → Checked Finding
with_severity s c conf evs svc none = refused no_severity
with_severity s c conf evs svc (some sev) =
    if c.title == "" || c.impact == "" || not (has_summary c.remediation)
    then refused incomplete_custom
    else accepted (
        model_finding s c conf evs svc true c.title "custom" (cap_medium sev) c.impact
          (remediation_or empty_remediation c.remediation))

with_allowed :
    Session
    → Candidate
    → Confidence
    → List Evidence
    → Option ServiceRef
    → Def
    → Option Invalid
    → Checked Finding
with_allowed s c conf evs svc def (some why) = refused why
with_allowed s c conf evs svc def none = accepted (
    model_finding s c conf evs svc false def.title def.category def.base_severity
      (if c.impact == "" then def.impact else c.impact)
      (remediation_or def.remediation c.remediation))

with_def :
    Session
    → Candidate
    → Confidence
    → List Evidence
    → Option ServiceRef
    → Option Def
    → Checked Finding
with_def s c conf evs svc none = refused unknown_id
with_def s c conf evs svc (some def) = with_allowed s c conf evs svc def (rule_allows s def)

-- The part of `Store.validate` that depends on the id.
pub identify :
    Session → Candidate → Confidence → List Evidence → Option ServiceRef → Checked Finding
identify s c conf evs svc =
    if has_prefix c.id "custom:"
    then (if custom_slug c.id
        then with_severity s c conf evs svc (parse_severity c.proposed_severity)
        else refused bad_slug)
    else with_def s c conf evs svc (host_def (lookup s.defs c.id))

check_confidence : Option Confidence → Checked Confidence
check_confidence none = refused bad_confidence
check_confidence (some conf) = accepted conf

some_evidence : List Evidence → Checked (List Evidence)
some_evidence [] = refused no_evidence
some_evidence (e ∷ es) = accepted (e ∷ es)

-- `Store.validate`.
pub validate : Session → Candidate → Checked Finding
validate s c = do
  conf ← check_confidence (parse_confidence c.confidence)
  cited ← some_evidence c.evidence
  evs ← evidence s.output [] cited
  svc ← check_service c.service
  identify s c conf evs svc
