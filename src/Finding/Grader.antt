-- ===== src/Finding/Grader.antt =====
-- internal/finding/grade.go: the severity chain of a host's finding.
pub mod Capped
pub mod Again
use scheck.Prelude.{
  String, ℕ, zero, suc, ◌-◌, Bool, true, false, not, ◌&&◌, ◌||◌, Option, none, some, List, [], ◌∷◌,
  ◌++◌, find_first, map_get, ltb, leb, ◌==◌, string_eq, nat_eq, if◌then◌else◌,
}
use scheck.Prelude.Int.{ℤ, pos, negsuc, sub_ℕ}
use scheck.Prelude.Strings.{◌+◌, to_lower, equal_fold, has_prefix, has_suffix, decimal}
use scheck.Finding.Severity.{Severity, high, medium, info, rank, shift, severity_eq}
use scheck.Finding.Report.{
  Finding, Adjustment, ServiceRef, FindingStatus, open_status, accepted_status, Origin, from_rule,
  from_model, Confidence, confidence_high, confidence_medium, confidence_low, severity_text,
}
use scheck.Finding.Adjustments.{
  Risk, Structured, Grader, Step, Pending, expired, source, adjustments, acceptance, delta_string,
  why_past_high,
}

-- The variables of `Grader.Grade` that the table of adjustments changes.
pub record Progress : Type 0 where
  pub severity : Severity
  pub made : List Adjustment
  pub steps : List Step
  pub raised_by : String

adjustment_step : Severity → Severity → String → Step
adjustment_step s t why = record {
  stage = "adjustment";
  from = severity_text s;
  to = severity_text t;
  reason = why;
}

stay : Progress → String → Progress
stay x why = record {
  severity = x.severity;
  made = x.made;
  steps = x.steps ++ adjustment_step x.severity x.severity why ∷ [];
  raised_by = x.raised_by;
}

move : Progress → Pending → Severity → Progress
move x adj next = record {
  severity = next;
  made =
      x.made
      ++ record { rule = adj.rule; source = adj.source; delta = delta_string adj.delta } ∷ [];
  steps = x.steps ++ adjustment_step x.severity next (adj.rule + " from " + adj.source) ∷ [];
  raised_by =
      if ltb (rank high) (rank next) && leb (rank x.severity) (rank high)
      then adj.rule
      else x.raised_by;
}

-- One turn of the loop over the adjustments.
pub adjust : Bool → Progress → Pending → Progress
adjust custom x adj =
    let next = shift x.severity adj.delta in
    if custom && ltb (rank x.severity) (rank next)
    then stay x (adj.rule + " ignored: custom findings are never escalated")
    else if next == x.severity
    then stay x (adj.rule + " (already at the scale's end)")
    else move x adj next

pub adjust_all : Bool → Progress → List Pending → Progress
adjust_all custom x [] = x
adjust_all custom x (adj ∷ adjs) = adjust_all custom (adjust custom x adj) adjs

base_reason : Finding → String
base_reason f =
    if f.custom
    then "proposed by the model for a custom finding, capped at medium"
    else "catalog base severity for " + f.id

pub started : Finding → Progress
started f = record {
  severity = f.severity_base;
  made = [];
  raised_by = "";
  steps =
      record {
        stage = "base";
        from = "";
        to = severity_text f.severity_base;
        reason = base_reason f;
      }
      ∷ [];
}

pub adjusted : Grader → Option Structured → Finding → Progress
adjusted g none f = started f
adjusted g (some c) f = adjust_all f.custom (started f) (adjustments g c f)

cap_step : String → String → String → Step
cap_step s t why = record { stage = "cap"; from = s; to = t; reason = why }

-- The cap at high, after the whole table. After it, `raised_by` is Go's `CappedBy`.
past_high : Progress → Bool
past_high x = not (x.raised_by == "") && ltb (rank high) (rank x.severity)

pub cap_high : Progress → Progress
cap_high x =
    if past_high x
    then record {
      severity = high;
      made = x.made;
      raised_by = x.raised_by;
      steps =
          x.steps ++ cap_step (severity_text x.severity) "high" (why_past_high x.raised_by) ∷ [];
    }
    else record { severity = x.severity; made = x.made; raised_by = ""; steps = x.steps }

-- The cap of a custom finding at medium.
pub cap_custom : Bool → Progress → Progress
cap_custom custom x =
    if custom && ltb (rank medium) (rank x.severity)
    then record {
      severity = medium;
      made = x.made;
      raised_by = x.raised_by;
      steps =
          x.steps
          ++ cap_step (severity_text x.severity) "medium" "custom findings are capped at medium"
            ∷ [];
    }
    else x

lowered : Origin → Confidence → Bool
lowered from_model confidence_high = true
lowered _ _ = false

pub cap_confidence : Bool → Origin → Confidence → Confidence
cap_confidence emulated origin confidence =
    if emulated && lowered origin confidence then confidence_medium else confidence

confidence_steps : Bool → Origin → Confidence → List Step
confidence_steps emulated origin confidence =
    if emulated && lowered origin confidence
    then cap_step "confidence high" "confidence medium"
        "tool calling was emulated (parsed from text)"
      ∷ []
    else []

-- The finding's status, the reason of its acceptance, and the steps that say so.
with_risk : Grader → Option Risk → FindingStatus × String × List Step
with_risk g none = (open_status, "", [])
with_risk g (some r) =
    if expired g r
    then (
      open_status,
      "",
      record {
        stage = "status";
        from = "open";
        to = "open";
        reason =
            "acceptance in " + r.source + " expired on " + r.expires
            + "; it no longer suppresses this finding";
      }
          ∷ [],
    )
    else (
      accepted_status,
      r.reason,
      record {
        stage = "status";
        from = "open";
        to = "accepted";
        reason = "accepted in " + r.source + ": " + r.reason;
      }
          ∷ [],
    )

pub status_of : Grader → Option Structured → String → FindingStatus × String × List Step
status_of g none id = (open_status, "", [])
status_of g (some c) id = with_risk g (acceptance c id)

status_text : FindingStatus → String
status_text open_status = "open"
status_text accepted_status = "accepted"

-- `Grader.Grade`: the graded finding, and the steps that produced it.
pub grade : Grader → Finding → Finding × List Step
grade g f =
    let x = cap_custom f.custom (cap_high (adjusted g g.context f)) in
    let (st, accepted, told) = status_of g g.context f.id in
    (
      record {
        id = f.id;
        title = f.title;
        category = f.category;
        severity_base = f.severity_base;
        severity = x.severity;
        adjustments = x.made;
        status = st;
        accepted_reason = accepted;
        source = f.source;
        confidence = cap_confidence g.emulated_tool_calling f.source f.confidence;
        platform = f.platform;
        evidence = f.evidence;
        impact = f.impact;
        remediation = f.remediation;
        context_note = f.context_note;
        service = f.service;
        custom = f.custom;
        capped_by = x.raised_by;
      },
      x.steps
          ++ confidence_steps g.emulated_tool_calling f.source f.confidence
          ++ told
          ++ record {
            stage = "final";
            from = "";
            to = severity_text x.severity;
            reason = status_text st;
          }
            ∷ [],
    )
