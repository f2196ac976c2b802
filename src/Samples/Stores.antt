-- ===== src/Samples/Stores.antt =====
-- A store after evaluation, and what a model may report and rule out.
use scheck.Prelude.{
  String, refl, Option, none, some, List, [], ◌∷◌, ◌==◌, string_eq, if◌then◌else◌, All,
}
use scheck.Finding.Report.{Evidence}
use scheck.Finding.Posture.{ok}
use scheck.Finding.Cited.{Output, Ensures}
use scheck.Finding.Cited.Supported.{IsSupported}
use scheck.Finding.Candidate.{Candidate, validate}
use scheck.Finding.Candidate.Supported.{validate-IsSupported}
use scheck.Finding.Missing.{expected_missing}
use scheck.Finding.Missing.Listed.{Says, judged, complete_listing, expected_missing-Says}
use scheck.Finding.Store.{Store, new_store, session, result}
use scheck.Finding.Store.Run.{Op, reports, rules_out, run}
use scheck.Finding.Store.Sound.{IsSound, new_store-IsSound, run-IsSound}
use scheck.Finding.Store.Refined.{Steps, view, run-Steps}
use scheck.Finding.Store.Curated.{AllKept, run-AllKept}
use scheck.Finding.Store.Sorted.{IsOrdered, result-IsOrdered}
use scheck.Samples.Hosts.{checks, rule, exposed_host, password_def}
use scheck.Samples.Grades.{grader, context}

abbrev pub read : String → Option Output
read obs =
    if obs == "o1"
    then some (record { status = ok; check_id = "accounts.passwd_status"; raw = "ada NP 2026" })
    else none

abbrev pub store : Store
store = new_store checks (password_def ∷ []) (rule ∷ []) [] (some exposed_host) grader (some read)

abbrev cited : Evidence
cited = record { observation = "o1"; check = ""; excerpt = "ada  NP" }

abbrev seeded : Candidate
seeded = record {
  id = "accounts.empty_password";
  note = "";
  title = "";
  confidence = "high";
  evidence = cited ∷ [];
  impact = "";
  remediation = none;
  context_note = "seen";
  proposed_severity = "";
  service = none;
}

abbrev backups : Candidate
backups = record {
  id = "custom:no_backups";
  note = "a timer runs";
  title = "";
  confidence = "";
  evidence = cited ∷ [];
  impact = "";
  remediation = none;
  context_note = "";
  proposed_severity = "";
  service = none;
}

abbrev ops : List Op
ops = rules_out backups ∷ reports seeded ∷ reports backups ∷ []

run-Steps_example : Steps (view store) ops (view (run store ops))
run-Steps_example = run-Steps store ops

run-IsSound_example : IsSound (run store ops)
run-IsSound_example = run-IsSound store ops (
    new_store-IsSound checks (password_def ∷ []) (rule ∷ []) [] (some exposed_host) grader
      (some read))

run-AllKept_example : AllKept store.findings (run store ops).findings
run-AllKept_example = run-AllKept store ops

result-IsOrdered_example : IsOrdered (result (run store ops)).0
result-IsOrdered_example = result-IsOrdered (run store ops)

validate-IsSupported_example :
    Ensures
      (λ f. All (IsSupported (session store).output) f.evidence)
      (validate (session store) seeded)
validate-IsSupported_example = validate-IsSupported (session store) seeded

-- The context declares a service, and the listeners were not read.
expected_missing-Says_example :
    Says
      (judged (complete_listing (some exposed_host)) context.expected_services)
      (expected_missing (password_def ∷ []) (some exposed_host) (some context))
expected_missing-Says_example =
    expected_missing-Says (password_def ∷ []) (some exposed_host) context
      (record { port = 22; proto = "tcp"; purpose = ""; source = "" }) [] refl
