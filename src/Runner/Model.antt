-- ===== src/Runner/Model.antt =====
-- internal/runner/runner.go and observations.go: what a runner is built from, what it records of a check, and how
-- an outcome is kept and audited. The texts that word a reason are left out: the reason's code stands for them, and
-- a decision of the audit log is a constructor. Durations are nanoseconds.
use Prim.Native.Nat.{suc}
use scheck.Prelude.{
  String, ℕ, Bool, false, Option, none, some, List, [], ◌∷◌, ◌++◌, map, length, map_get, is_some,
  ◌==◌, string_eq, if◌then◌else◌,
}
use scheck.Prelude.Int.{ℤ, pos}
use scheck.Prelude.Strings.{◌+◌, trim_prefix, decimal, codes}
use scheck.Policy.Redact.{Bytes, RedactRule, redact}
use scheck.Policy.Path.{PathPolicy}
use scheck.Policy.Budgets.{Budgets}
use scheck.Check.Catalog.{Check, Platform, lookup}
use scheck.Check.Record.{Parsed}
use scheck.Check.Typed.{Patterns}
use scheck.Check.Parse.{KvPatterns}
use scheck.Finding.Severity.{Profile}
use scheck.Finding.Posture.{RunStatus, ok}

-- `Elevation`.
pub data Elevation : Type 0 where
  elevate_none elevate_sudo elevate_root : Elevation

-- How the context of the run stands when a command times out.
pub data Ending : Type 0 where
  live past_deadline canceled : Ending

-- What `Target.Exec` returns beside its result: no error, one of its sentinels, or any other error.
pub data ExecError : Type 0 where
  ran not_found transport other_error : ExecError
  timed_out : Ending → ExecError

-- `target.Result`, with the error that comes with it.
pub record Exec : Type 0 where
  pub stdout : Bytes
  pub stderr : Bytes
  pub code : ℤ
  pub duration : ℤ
  pub stdout_truncated : Bool
  pub stderr_truncated : Bool
  pub error : ExecError

-- `ReasonCode`; `no_reason` is the empty text.
pub data ReasonCode : Type 0 where
  no_reason unknown_check invalid_params path_denied metadata_unavailable command_missing
        exec_failed :
      ReasonCode
  requires_elevation sudo_refused check_timeout run_timeout run_canceled exit_error extract_error :
      ReasonCode
  parse_error : ReasonCode

-- `Origin`; a tool that is not set is `none`, and then the profile is not read.
pub record Origin : Type 0 where
  pub tool : Option String
  pub rationale : String
  pub profile : Profile

-- `Result`.
pub record Result : Type 0 where
  pub observation : String
  pub occurrence : ℕ
  pub check_id : String
  pub ran_as : String
  pub params : List (String × String)
  pub argv : List String
  pub status : RunStatus
  pub reason_code : ReasonCode
  pub attempted : Bool
  pub raw : String
  pub stderr : String
  pub parsed : Option Parsed
  pub truncated : Bool
  pub redactions : ℕ
  pub exit_code : ℤ
  pub duration : ℤ
  pub elevated : Bool
  pub path_rule : String
  pub transport_lost : Bool
  pub origin : Origin

-- The `Result` of a check that has not been looked at.
unfoldable pub blank : String → List (String × String) → Origin → Result
blank id params o = record {
  observation = "";
  occurrence = 0;
  check_id = id;
  ran_as = "";
  params = params;
  argv = [];
  status = ok;
  reason_code = no_reason;
  attempted = false;
  raw = "";
  stderr = "";
  parsed = none;
  truncated = false;
  redactions = 0;
  exit_code = pos 0;
  duration = pos 0;
  elevated = false;
  path_rule = "";
  transport_lost = false;
  origin = o;
}

-- `AuditEntry`: the exit code is there once a command was sent.
pub record AuditEntry : Type 0 where
  pub observation : String
  pub check_id : String
  pub params : List (String × String)
  pub argv : List String
  pub decision : RunStatus
  pub reason : ReasonCode
  pub exit_code : Option ℤ
  pub elevated : Bool
  pub tool : Option String
  pub rationale : String

-- `Runner`, with the catalog and what Go's libraries do: `text` is the conversion of bytes, `submatch` the first
-- group of a regular expression, and the fields behind it are what `Parse` reads.
pub record Runner : Type 0 where
  pub entries : List Check
  pub platform : Platform
  pub paths : PathPolicy
  pub rules : List RedactRule
  pub budgets : Budgets
  pub elevate : Elevation
  -- `Audit`: `none` where it is nil, and else whether the write of the line of the n-th observation succeeds.
  pub audit : Option (ℕ → Bool)
  pub text : Bytes → String
  pub submatch : String → String → Option String
  pub patterns : Patterns
  pub kv_patterns : KvPatterns
  pub json : String → Option Parsed
  -- What the target answers to the command that is sent as its n-th, with the time that it may take.
  pub answer : ℕ → List String → ℤ → Exec

-- What a run leaves behind: the commands sent, the audit log and the observations, each in its order.
pub record World : Type 0 where
  pub sent : List (List String)
  pub audit : List AuditEntry
  pub results : List Result
  pub counts : List (String × ℕ)

-- `Target.Exec`.
unfoldable pub send : Runner → World → List String → ℤ → World × Exec
send r w argv limit = (record w { sent = w.sent ++ argv ∷ [] }, r.answer (length w.sent) argv limit)

-- `Redactor.RedactString`.
pub redact_string : Runner → String → String
redact_string r s = r.text (redact r.rules (codes s)).0

-- One parameter of `retain`: its name stands beside its value while that is redacted.
redact_param : Runner → String × String → String × String
redact_param r (k, v) =
    let key = redact_string r k in (key, trim_prefix (redact_string r (k + ("=" + v))) (key + "="))

pub or_zero : Option ℕ → ℕ
or_zero none = 0
or_zero (some n) = n

-- The prefix of a reference.
pub ref_prefix : Runner → String → String
ref_prefix r id = if is_some (lookup r.entries id r.platform) then id else "unknown"

-- The redaction of a result's metadata in `retain`.
pub redacted : Runner → Result → Result
redacted r res = record res {
  check_id = redact_string r res.check_id;
  ran_as = redact_string r res.ran_as;
  params = map (redact_param r) res.params;
  argv = map (redact_string r) res.argv;
  origin = record res.origin { rationale = redact_string r res.origin.rationale };
}

-- `retain`.
unfoldable pub retain : Runner → World → Result → World × Result
retain r w res =
    let red = redacted r res in
    let prefix = ref_prefix r red.check_id in
    let n = suc (or_zero (map_get w.counts prefix)) in
    let kept = record red {
      observation = prefix + ("#" + decimal n);
      occurrence = suc (length w.results);
    } in
    (record w { results = w.results ++ kept ∷ []; counts = (prefix, n) ∷ w.counts }, kept)

-- The line that `record` logs.
unfoldable pub audit_line : Result → Option ℤ → AuditEntry
audit_line res code = record {
  observation = res.observation;
  check_id = if res.ran_as == "" then res.check_id else res.ran_as;
  params = res.params;
  argv = res.argv;
  decision = res.status;
  reason = res.reason_code;
  exit_code = code;
  elevated = res.elevated;
  tool = res.origin.tool;
  rationale = res.origin.rationale;
}

-- `Audit.Log`, as far as the log holds the line behind it: a nil log discards it, and a write that fails leaves none.
unfoldable pub log_line : Option (ℕ → Bool) → ℕ → AuditEntry → List AuditEntry → List AuditEntry
log_line none n e lines = lines
log_line (some writes) n e lines = if writes n then lines ++ e ∷ [] else lines

-- `Runner.record`. That the write of a line failed is only said on the runner's own log, which is left out.
unfoldable pub record_result : Runner → World → Result → Option ℤ → World × Result
unfolding log_line
record_result r w res code =
    let (w', kept) = retain r w res in
    (record w' { audit = log_line r.audit kept.occurrence (audit_line kept code) w'.audit }, kept)
