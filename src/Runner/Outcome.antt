-- ===== src/Runner/Outcome.antt =====
-- internal/runner/runner.go: `runCheck` from the command on: its limits, the redaction of what it wrote, and what its
-- answer comes to.
pub mod Sent
use scheck.Prelude.{
  String, ℕ, Bool, true, false, not, ◌||◌, ◌&&◌, Option, none, some, List, [], ◌∷◌, ◌+◌, ◌==◌,
  string_eq, if◌then◌else◌,
}
use scheck.Prelude.Int.{ℤ, pos, ltb_ℤ}
use scheck.Prelude.Strings.{has_prefix, trim_space}
use scheck.Check.Catalog.{Check, exit_allowed, int_beq, any_exit_marker}
use scheck.Check.Record.{Parsed}
use scheck.Check.Parse.{parse}
use scheck.Finding.Posture.{RunStatus, ok, unavailable}
use scheck.Runner.Model.{
  Runner, World, Result, Exec, ExecError, ran, not_found, transport, other_error, timed_out, Ending,
  live, past_deadline, canceled, ReasonCode, no_reason, command_missing, exec_failed, check_timeout,
  run_timeout, run_canceled, sudo_refused, exit_error, extract_error, parse_error, Elevation,
  elevate_sudo, record_result, send,
}
use scheck.Runner.Probe.{filtered, has_error}
use scheck.Runner.Paths.{Stand, ended, going}

-- A limit of the budgets, unless the check has a tighter one.
tighter : ℤ → ℤ → ℤ
tighter limit own = if ltb_ℤ (pos 0) own && ltb_ℤ own limit then own else limit

-- What a command leaves in the result: its output redacted and then cut. Where only a part of it is to be kept, a
-- failure keeps none.
captured : Runner → Check → List String → Exec → Result → Result
captured r c argv e res =
    let (out, cut, hits) =
      filtered r e.stdout e.stdout_truncated (tighter r.budgets.per_check_output c.output) in
    let (err, cut', hits') = filtered r e.stderr e.stderr_truncated (pos 2048) in
    record res {
      argv = argv;
      attempted = true;
      duration = e.duration;
      exit_code = e.code;
      raw =
          if not (c.extract == "") && (has_error e.error || not (exit_allowed c.exit_ok e.code))
          then ""
          else out;
      truncated = cut;
      stderr = err;
      redactions = hits + hits';
    }

-- The reason of an error of the target.
reason_of : ExecError → ReasonCode
reason_of ran = no_reason
reason_of not_found = command_missing
reason_of transport = exec_failed
reason_of other_error = exec_failed
reason_of (timed_out live) = check_timeout
reason_of (timed_out past_deadline) = run_timeout
reason_of (timed_out canceled) = run_canceled

is_transport : ExecError → Bool
is_transport transport = true
is_transport _ = false

is_sudo : Elevation → Bool
is_sudo elevate_sudo = true
is_sudo _ = false

-- A check that accepts any exit code.
any_exit : Option (List ℤ) → Bool
any_exit (some (code ∷ codes)) = int_beq code any_exit_marker
any_exit _ = false

failed_with : Result → ReasonCode → Result
failed_with res why = record res { status = unavailable; reason_code = why }

by_parsed : Result → Option Parsed → Result
by_parsed res none = failed_with res parse_error
by_parsed res (some p) = record res { parsed = some p; status = ok }

parsed_result : Runner → Check → Result → Result
parsed_result r c res = by_parsed res (parse r.patterns r.kv_patterns r.json c res.raw)

by_extract : Runner → Check → Result → Option String → Result
by_extract r c res none = failed_with (record res { raw = "" }) extract_error
by_extract r c res (some m) = parsed_result r c (record res { raw = m })

-- The part of the output that is kept, then its parse.
read_result : Runner → Check → Result → Result
read_result r c res =
    if c.extract == ""
    then parsed_result r c res
    else by_extract r c res (r.submatch c.extract res.raw)

-- What an answer without an error comes to.
exited : Runner → Check → Result → Result
exited r c res =
    if res.elevated
      && is_sudo r.elevate
      && int_beq res.exit_code (pos 1)
      && has_prefix res.stderr "sudo:"
    then failed_with res sudo_refused
    else if not (exit_allowed c.exit_ok res.exit_code)
        || (any_exit c.exit_ok
            && not (int_beq res.exit_code (pos 0))
            && trim_space res.raw == ""
            && not (res.stderr == ""))
    then failed_with res (if int_beq res.exit_code (pos 127) then command_missing else exit_error)
    else read_result r c res

-- The result of the command, before it is recorded.
pub outcome : Runner → Check → List String → Exec → Result → Result
outcome r c argv e res =
    let res' = captured r c argv e res in
    if has_error e.error
    then record (failed_with res' (reason_of e.error)) { transport_lost = is_transport e.error }
    else exited r c res'

-- The command, sent and recorded.
pub execute : Runner → World → Check → List String → Result → World × Result
execute r w c argv res =
    let (w', e) = send r w argv (tighter r.budgets.per_check_hard c.hard) in
    let out = outcome r c argv e res in record_result r w' out (some out.exit_code)

-- The end of `runCheck`.
unfoldable pub finished : Runner → Stand → World × Result
finished r (ended w res) = (w, res)
finished r (going w c argv res) = execute r w c argv res
