-- ===== src/Agent/Tools.antt =====
-- internal/agent/tools.go and agent.go: a session, and one tool call of it. What the model sent is decoded by Go's
-- encoding/json, and an answer encoded by it; both are parameters. The line that sums a capture up for the model
-- (internal/check/summary.go), the diagnostics and the texts of the errors are left out.
pub mod Keeps
use scheck.Prelude.{
  String, ℕ, suc, ◌+◌, Bool, true, false, not, Option, none, some, List, [], ◌∷◌, length, map_get,
  is_some, ◌==◌, string_eq, if◌then◌else◌, find_first,
}
use scheck.Prelude.Int.{ℤ, pos, ltb_ℤ, ◌+ℤ◌}
use scheck.Prelude.Strings.{codes}
use scheck.Policy.Budgets.{Budgets}
use scheck.Check.Catalog.{Check}
use scheck.Finding.Severity.{Profile}
use scheck.Finding.Posture.{RunStatus, ok, unavailable, denied}
use scheck.Finding.Cited.{Checked, accepted, refused, Output}
use scheck.Finding.Candidate.{Candidate}
use scheck.Finding.Report.{Finding}
use scheck.Finding.Store.{Store, report, rule_out}
use scheck.Runner.Model.{
  Runner, World, Result, Origin, ReasonCode, unknown_check, requires_elevation, sudo_refused,
}
use scheck.Runner.Run.{run_as}
use scheck.Agent.Fit.{ToolCall, ToolResult}

-- `checkResult`, less its summary; an empty `error` is none.
pub record CheckAnswer : Type 0 where
  pub observation : String
  pub check_id : String
  pub status : RunStatus
  pub is_wrong : Bool
  pub menu : Bool
  pub output : String
  pub truncated : Bool
  pub redactions : ℕ

-- What is encoded for the model.
pub data Answer : Type 0 where
  checked : CheckAnswer → Answer
  ruled : String → Answer
  recorded : Finding → Answer
  bad_input no_id no_path unknown_tool bad_verdict refused_report checks_spent time_spent
        not_executed :
      Answer

-- `runCheckInput`.
pub record RunInput : Type 0 where
  pub id : String
  pub params : List (String × String)
  pub rationale : String

-- `readFileInput`.
pub record ReadInput : Type 0 where
  pub path : String
  pub rationale : String

-- What a report says of its id: the empty text and `open` file it, `ruled_out` does not, and no other text is one.
pub data Verdict : Type 0 where
  opened ruled_out other_verdict : Verdict

-- What the session is set up with, and the two directions of Go's JSON.
pub record Agent : Type 0 where
  pub runner : Runner
  pub budgets : Budgets
  pub profile : Profile
  pub run_input : String → Option RunInput
  pub read_input : String → Option ReadInput
  pub report_input : String → Option (Verdict × Candidate)
  pub encode : Answer → String

-- The budget that ended a run.
pub data Budget : Type 0 where
  of_checks of_wall_clock of_model_input : Budget

-- `Session`, with the store and the world that its runner has left. Counts do not fall below zero, and a duration
-- is a Go integer.
pub record Session : Type 0 where
  pub store : Store
  pub world : World
  pub checks : ℕ
  pub reported : ℕ
  pub wall : ℤ
  pub input : ℕ
  pub stop : Option Budget

or_stop : Budget → Option Budget → Option Budget
or_stop b none = some b
or_stop b (some first) = some first

-- `Session.exhaust`: the first budget to run out is kept.
exhaust : Session → Budget → Session
exhaust s b = record s { stop = or_stop b s.stop }

-- Whether the budget is passed, and so spent.
accounted : Bool → Session → Session × Bool
accounted true s = (exhaust s of_model_input, false)
accounted false s = (s, true)

-- `Session.account`.
pub account : Agent → Session → ℕ → Session × Bool
account a s n =
    accounted (ltb_ℤ a.budgets.model_input_total (pos (s.input + n)))
      (record s { input = s.input + n })

-- `jsonResult`.
answer : Agent → String → Answer → Bool → ToolResult
answer a call_id what is_error = record {
  call_id = call_id;
  content = a.encode what;
  is_error = is_error;
}

-- The answer of a check before its output is handed over.
plain_answer : Result → CheckAnswer
plain_answer res = record {
  observation = res.observation;
  check_id = res.check_id;
  status = res.status;
  is_wrong = false;
  menu = false;
  output = "";
  truncated = false;
  redactions = 0;
}

is_unknown : ReasonCode → Bool
is_unknown unknown_check = true
is_unknown _ = false

needs_privilege : ReasonCode → Bool
needs_privilege requires_elevation = true
needs_privilege sudo_refused = true
needs_privilege _ = false

-- What the model gets of an output, once it is accounted for.
handed : Result → Session × Bool → Session × CheckAnswer
handed res (s, true) = (
  s,
  record (plain_answer res) {
    output = res.raw;
    truncated = res.truncated;
    redactions = res.redactions;
  },
)
handed res (s, false) = (s, record (plain_answer res) { is_wrong = true })

by_status : RunStatus → Agent → Session → Result → Session × CheckAnswer
by_status denied a s res =
    (s, record (plain_answer res) { is_wrong = true; menu = is_unknown res.reason_code })
by_status unavailable a s res =
    (s, record (plain_answer res) { is_wrong = needs_privilege res.reason_code })
by_status ok a s res = handed res (account a s (length (codes res.raw)))

-- What follows a check that ran.
after_check : Agent → Session → String → World × Result → Session × ToolResult
after_check a s call_id (w, res) =
    let s' = record s { world = w; checks = suc s.checks; wall = s.wall +ℤ res.duration } in
    let (s'', out) = by_status res.status a s' res in
    (s'', answer a call_id (checked out) out.is_wrong)

-- `Session.execute`.
execute : Agent → Session → String → String → List (String × String) → Origin → Session × ToolResult
execute a s call_id id params o =
    if not (ltb_ℤ (pos s.checks) a.budgets.agent_checks)
    then (exhaust s of_checks, answer a call_id checks_spent true)
    else if not (ltb_ℤ s.wall a.budgets.agent_wall_clock)
    then (exhaust s of_wall_clock, answer a call_id time_spent true)
    else after_check a s call_id (run_as a.runner s.world id params o)

-- What validation reads of an observation: `Observations.Get`.
output_of : Option Result → Option Output
output_of none = none
output_of (some res) = some (record { status = res.status; check_id = res.check_id; raw = res.raw })

pub get : World → String → Option Output
get w ref = output_of (find_first (λ res. res.observation == ref) w.results)

-- The store as a report reads it: its outputs are the run's observations.
pub reading : Session → Store
reading s = record s.store { output = some (get s.world) }

after_ruling : Agent → Session → String → String → Checked Store → Session × ToolResult
after_ruling a s call_id id (refused why) = (s, answer a call_id refused_report true)
after_ruling a s call_id id (accepted t) =
    (record s { store = t }, answer a call_id (ruled id) false)

after_report : Agent → Session → String → Checked (Store × Finding) → Session × ToolResult
after_report a s call_id (refused why) = (s, answer a call_id refused_report true)
after_report a s call_id (accepted (t, f)) =
    (record s { store = t; reported = suc s.reported }, answer a call_id (recorded f) false)

report_as : Verdict → Agent → Session → String → Candidate → Session × ToolResult
report_as opened a s call_id c = after_report a s call_id (report (reading s) c)
report_as ruled_out a s call_id c = after_ruling a s call_id c.id (rule_out (reading s) c)
report_as other_verdict a s call_id c = (s, answer a call_id bad_verdict true)

report_decoded : Agent → Session → String → Option (Verdict × Candidate) → Session × ToolResult
report_decoded a s call_id none = (s, answer a call_id bad_input true)
report_decoded a s call_id (some (v, c)) = report_as v a s call_id c

run_decoded : Agent → Session → String → Option RunInput → Session × ToolResult
run_decoded a s call_id none = (s, answer a call_id bad_input true)
run_decoded a s call_id (some i) =
    let o : Origin = record {
      tool = some "run_check";
      rationale = i.rationale;
      profile = a.profile;
    } in
    if i.id == "" then (s, answer a call_id no_id true) else execute a s call_id i.id i.params o

read_decoded : Agent → Session → String → Option ReadInput → Session × ToolResult
read_decoded a s call_id none = (s, answer a call_id bad_input true)
read_decoded a s call_id (some i) =
    let o : Origin = record {
      tool = some "read_file";
      rationale = i.rationale;
      profile = a.profile;
    } in
    if i.path == ""
    then (s, answer a call_id no_path true)
    else execute a s call_id "text.cat" (("path", i.path) ∷ []) o

-- `Session.call`.
pub call : Agent → Session → ToolCall → Session × ToolResult
call a s c =
    if c.name == "run_check"
    then run_decoded a s c.id (a.run_input c.input)
    else if c.name == "read_file"
    then read_decoded a s c.id (a.read_input c.input)
    else if c.name == "report_finding"
    then report_decoded a s c.id (a.report_input c.input)
    else (s, answer a c.id unknown_tool true)
