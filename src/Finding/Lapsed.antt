-- ===== src/Finding/Lapsed.antt =====
-- internal/finding/grade.go: the findings that stand for acceptances that have expired.
use scheck.Prelude.{Option, none, some, List, [], ◌∷◌, string_eq, nat_eq, if◌then◌else◌}
use scheck.Prelude.Strings.{◌+◌}
use scheck.Check.Catalog.{Platform, any_platform}
use scheck.Finding.Severity.{severity_eq}
use scheck.Finding.Catalog.{Catalog, Def, lookup}
use scheck.Finding.Report.{Finding, Evidence}
use scheck.Finding.Evaluate.{finding_of}
use scheck.Finding.Candidate.{text_of}
use scheck.Finding.Adjustments.{Grader, Structured, Risk, expired}

pub risk_evidence : Risk → Evidence
risk_evidence r = record {
  observation = "";
  check = "context";
  excerpt = r.source + ": accepted_risks " + r.id + " expired " + r.expires + " (" + r.reason + ")";
}

pub expired_finding : Def → Option Platform → Risk → Finding
expired_finding def p r = record (finding_of def any_platform (risk_evidence r ∷ [])) {
  platform = text_of p;
  context_note = "acceptance of " + r.id + " expired on " + r.expires;
}

pub expired_findings : Grader → Def → Option Platform → List Risk → List Finding
expired_findings g def p [] = []
expired_findings g def p (r ∷ rs) =
    let rest = expired_findings g def p rs in
    if expired g r then expired_finding def p r ∷ rest else rest

pub of_def : Grader → Option Platform → List Risk → Option Def → List Finding
of_def g p risks none = []
of_def g p risks (some def) = expired_findings g def p risks

-- `Grader.ExpiredAcceptances`.
pub expired_acceptances : Catalog → Grader → Option Platform → Option Structured → List Finding
expired_acceptances defs g p none = []
expired_acceptances defs g p (some c) =
    of_def g p c.accepted_risks (lookup defs "risk.acceptance_expired")
