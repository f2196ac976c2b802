-- ===== src/Finding/Missing.antt =====
-- internal/finding/store.go and grade.go: the findings that come from the operator's context, a declared
-- service that is not listening and an acceptance that has expired.
pub mod Listed
use scheck.Prelude.{
  String, Bool, true, false, not, ◌&&◌, ◌||◌, Option, none, some, List, [], ◌∷◌, ◌++◌, any, keep,
  map, map_get, ◌==◌, string_eq, if◌then◌else◌,
}
use scheck.Prelude.Strings.{◌+◌, to_lower, decimal}
use scheck.Check.Record.{Record, Records, Parsed, records, field}
use scheck.Check.Catalog.{Platform}
use scheck.Finding.Catalog.{Catalog, Def, lookup}
use scheck.Finding.Report.{Finding, Evidence}
use scheck.Finding.Predicate.{Status, matched, not_matched, not_assessed}
use scheck.Finding.Posture.{FactSheet, Reading, RunStatus, ok, unavailable, denied, reason_code}
use scheck.Finding.Evaluate.{Assessment, append_evidence, finding_of}
use scheck.Finding.Adjustments.{Grader, Structured, Service, Risk, service_key, expired}

-- The findings, and the assessment if there is one.
pub record Missing : Type 0 where
  pub findings : List Finding
  pub assessment : Option Assessment

-- The assessment of `svc.expected_missing`, from the observation of the listeners.
pub assessed : String → Status → String → Assessment
assessed obs st why = record {
  observation = obs;
  finding = "svc.expected_missing";
  check = "net.listeners";
  second = "";
  second_observation = "";
  status = st;
  reason = why;
}

unread : String → String → Missing
unread obs why = record { findings = []; assessment = some (assessed obs not_assessed why) }

-- The map `listening`: a port and a protocol that a listener has.
pub listening : List Record → String → Bool
listening recs key =
    any (λ rec. to_lower (field rec "port" + "/" + field rec "protocol") == key) recs

missing_evidence : String → Service → Evidence
missing_evidence obs svc = record {
  observation = obs;
  check = "net.listeners";
  excerpt =
      "no listener on "
      + service_key svc
      + "; "
      + svc.source
      + " declares "
      + service_key svc
      + " ("
      + svc.purpose
      + ")";
}

-- The evidence of the declared services that are not listening.
missing_from : String → List Evidence → List Service → List Evidence
missing_from obs out [] = out
missing_from obs out (svc ∷ rest) =
    missing_from obs (append_evidence out (missing_evidence obs svc)) rest

pub absent_services : List Record → List Service → List Service
absent_services recs services = keep (λ svc. not (listening recs (service_key svc))) services

-- The compiled catalog holds the definition; without it, which no build has, nothing is reported.
one_finding : Platform → Option Def → List Evidence → List Finding
one_finding p none evs = []
one_finding p (some def) evs = finding_of def p evs ∷ []

-- The loop over the declared services.
pub from_absent : Catalog → Platform → String → List Service → Missing
from_absent defs p obs [] = record {
  findings = [];
  assessment = some (assessed obs not_matched "every-declared-service-is-listening");
}
from_absent defs p obs (svc ∷ rest) = record {
  findings = one_finding p (lookup defs "svc.expected_missing") (missing_from obs [] (svc ∷ rest));
  assessment = some (assessed obs matched "declared-service-not-listening");
}

pub from_records : Catalog → Platform → String → List Service → Parsed → Missing
from_records defs p obs services (records r) =
    if r.is_partial
    then unread obs "partial-output"
    else from_absent defs p obs (absent_services r.items services)
from_records defs p obs services _ = unread obs "unexpected-parsed-shape"

pub from_reading : Catalog → Platform → List Service → RunStatus → Reading → Missing
from_reading defs p services ok r = from_records defs p r.observation services r.parsed
from_reading defs p services denied r = unread r.observation ("check-denied:" + reason_code r)
from_reading defs p services unavailable r =
    unread r.observation ("check-unavailable:" + reason_code r)

pub from_result : Catalog → Platform → List Service → Option Reading → Missing
from_result defs p services none = unread "" "check-not-run"
from_result defs p services (some r) = from_reading defs p services r.status r

pub from_sheet : Catalog → List Service → Option FactSheet → Missing
from_sheet defs services none = unread "" "check-not-run"
from_sheet defs services (some sheet) =
    from_result defs sheet.platform services (map_get sheet.results "net.listeners")

no_missing : Missing
no_missing = record { findings = []; assessment = none }

from_services : Catalog → Option FactSheet → List Service → Missing
from_services defs sheet [] = no_missing
from_services defs sheet (svc ∷ rest) = from_sheet defs (svc ∷ rest) sheet

-- `Store.expectedMissing`.
pub expected_missing : Catalog → Option FactSheet → Option Structured → Missing
expected_missing defs sheet none = no_missing
expected_missing defs sheet (some c) = from_services defs sheet c.expected_services
