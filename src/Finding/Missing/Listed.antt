-- ===== src/Finding/Missing/Listed.antt =====
-- When a declared service is reported as not listening.
use scheck.Prelude.{
  String, Bool, true, false, not, ◌≡◌, ◌≢◌, refl, Option, none, some, List, [], ◌∷◌, any, map_get,
  Bool-cases, inl, inr, if◌then◌else◌,
}
use scheck.Check.Catalog.{Platform}
use scheck.Check.Record.{Record, Parsed, records, kv, raw, lines, absent}
use scheck.Finding.Catalog.{Catalog}
use scheck.Finding.Posture.{FactSheet, Reading, RunStatus, ok, unavailable, denied}
use scheck.Finding.Predicate.{Status, matched, not_matched, not_assessed}
use scheck.Finding.Evaluate.{Assessment}
use scheck.Finding.Adjustments.{Structured, Service, service_key}
use scheck.Finding.Missing.{
  Missing, listening, absent_services, from_absent, from_records, from_reading, from_result,
  from_sheet, from_services, expected_missing, unread, assessed,
}

-- The records of a reading, if they are complete.
complete : Parsed → Option (List Record)
complete (records r) = if r.is_partial then none else some r.items
complete _ = none

complete_reading : RunStatus → Parsed → Option (List Record)
complete_reading ok parsed = complete parsed
complete_reading _ parsed = none

of_reading : Option Reading → Option (List Record)
of_reading none = none
of_reading (some r) = complete_reading r.status r.parsed

-- The listeners of the host, if a check that succeeded listed them all.
pub complete_listing : Option FactSheet → Option (List Record)
complete_listing none = none
complete_listing (some sheet) = of_reading (map_get sheet.results "net.listeners")

-- Some declared service has no listener.
some_absent : List Record → List Service → Bool
some_absent recs services = any (λ svc. not (listening recs (service_key svc))) services

-- What the listing says of the declared services.
pub judged : Option (List Record) → List Service → Status
judged none services = not_assessed
judged (some recs) services = if some_absent recs services then matched else not_matched

status_of : Option Assessment → Option Status
status_of none = none
status_of (some a) = some a.status

-- The status of the assessment, if there is one.
pub verdict : Missing → Option Status
verdict m = status_of m.assessment

-- The status is as given, and without a match there is no finding.
pub record Says (st : Status) (m : Missing) : Type 0 where
  pub verdict : verdict m ≡ some st
  silent : st ≢ matched → m.findings ≡ []

is_cons : List Service → Bool
is_cons [] = false
is_cons (svc ∷ rest) = true

some_absent-eq-is_cons :
    (recs : List Record) (services : List Service)
    → some_absent recs services ≡ is_cons (absent_services recs services)
unfolding absent_services some_absent is_cons
some_absent-eq-is_cons recs [] = refl
some_absent-eq-is_cons recs (svc ∷ rest) = elim (Bool-cases (listening recs (service_key svc))) [
  | inl u ↦ rw u (some_absent-eq-is_cons recs rest)
  | inr u ↦ rw u refl
]

module _ (defs : Catalog) (p : Platform) (services : List Service) where
  unread-Says : (obs why : String) → Says not_assessed (unread obs why)
  unfolding unread assessed verdict status_of
  unread-Says obs why = record { verdict = refl; silent = λ n. refl }

  from_absent-Says :
      (obs : String) (recs : List Record) (gone : List Service)
      → absent_services recs services ≡ gone
      → Says (judged (some recs) services) (from_absent defs p obs gone)
  unfolding from_absent assessed verdict status_of judged is_cons
  from_absent-Says obs recs [] e =
      rw (some_absent-eq-is_cons recs services, e) (record { verdict = refl; silent = λ n. refl })
  from_absent-Says obs recs (a ∷ as') e =
      rw (some_absent-eq-is_cons recs services, e)
        (record { verdict = refl; silent = λ n. absurd (n refl) })

  from_records-Says :
      (obs : String) (parsed : Parsed)
      → Says (judged (complete parsed) services) (from_records defs p obs services parsed)
  unfolding from_records complete judged
  from_records-Says obs (records r) = elim (Bool-cases r.is_partial) [
    | inl e ↦ rw e (unread-Says obs "partial-output")
    | inr e ↦ rw e (from_absent-Says obs r.items (absent_services r.items services) refl)
  ]
  from_records-Says obs (kv m) = unread-Says obs "unexpected-parsed-shape"
  from_records-Says obs (raw s) = unread-Says obs "unexpected-parsed-shape"
  from_records-Says obs (lines ls) = unread-Says obs "unexpected-parsed-shape"
  from_records-Says obs absent = unread-Says obs "unexpected-parsed-shape"

  from_reading-Says :
      (st : RunStatus) (r : Reading)
      → Says (judged (complete_reading st r.parsed) services) (from_reading defs p services st r)
  unfolding from_reading complete_reading judged
  from_reading-Says ok r = from_records-Says r.observation r.parsed
  from_reading-Says denied r = unread-Says r.observation _
  from_reading-Says unavailable r = unread-Says r.observation _

  from_result-Says :
      (o : Option Reading) → Says (judged (of_reading o) services) (from_result defs p services o)
  unfolding from_result of_reading judged
  from_result-Says none = unread-Says "" "check-not-run"
  from_result-Says (some r) = from_reading-Says r.status r

from_sheet-Says :
    (defs : Catalog) (services : List Service) (sheet : Option FactSheet)
    → Says (judged (complete_listing sheet) services) (from_sheet defs services sheet)
unfolding from_sheet complete_listing judged unread assessed verdict status_of
from_sheet-Says defs services none = record { verdict = refl; silent = λ n. refl }
from_sheet-Says defs services (some sheet) =
    from_result-Says defs sheet.platform services (map_get sheet.results "net.listeners")

-- Where services are declared, the assessment is `matched` exactly if a complete listing of the listeners lacks
-- one of them, `not_matched` exactly if it lacks none, and `not_assessed` without such a listing; a finding is
-- reported only under `matched`.
pub expected_missing-Says :
    (defs : Catalog) (sheet : Option FactSheet) (c : Structured) (svc : Service)
    (rest : List Service)
    → c.expected_services ≡ svc ∷ rest
    → Says
        (judged (complete_listing sheet) c.expected_services)
        (expected_missing defs sheet (some c))
unfolding expected_missing from_services
expected_missing-Says defs sheet c svc rest e = rw e (from_sheet-Says defs (svc ∷ rest) sheet)
