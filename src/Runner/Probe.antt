-- ===== src/Runner/Probe.antt =====
-- internal/runner/runner.go: the filtering of a capture, and the two probes that the runner makes for itself, which
-- are audited like any check.
pub mod Moves
use scheck.Prelude.{
  String, ℕ, Bool, true, false, not, ◌||◌, ◌&&◌, Option, none, some, List, [], ◌∷◌, length,
  string_eq, if◌then◌else◌,
}
use scheck.Prelude.Int.{ℤ, pos, pos_part}
use scheck.Prelude.Strings.{has_prefix, trim_space}
use scheck.Policy.Redact.{Bytes}
use scheck.Policy.Cut.{finish}
use scheck.Check.Catalog.{Check, lookup, exit_allowed, int_beq}
use scheck.Check.Bind.{Bound, bound, failed, bind}
use scheck.Check.Parse.{parse}
use scheck.Finding.Posture.{unavailable, ok}
use scheck.Runner.Model.{
  Runner, World, Result, Exec, ExecError, ran, not_found, transport, Origin, blank, exec_failed,
  no_reason, record_result, send,
}
use scheck.Finding.Severity.{Profile}

-- `Runner.finish`, with how much it redacted. A cap is a budget that was validated, and so not negative.
pub filtered : Runner → Bytes → Bool → ℤ → String × Bool × ℕ
filtered r b source_truncated cap =
    let (red, cut, hits) = finish r.rules b source_truncated (pos_part cap) in
    (r.text red, cut, length hits)

-- The origin of phase 1.
no_origin : Origin
no_origin = record { tool = none; rationale = ""; profile = Profile.baseline }

-- What both probes keep of a command that was sent.
probe_result : Runner → Check → List (String × String) → List String → Exec → Result
probe_result r c params argv e =
    let (out, cut, hits) = filtered r e.stdout e.stdout_truncated (pos 4096) in
    record (blank c.id params no_origin) {
      ran_as = c.id;
      argv = argv;
      exit_code = e.code;
      duration = e.duration;
      attempted = true;
      raw = out;
      truncated = cut;
      redactions = hits;
      stderr = (filtered r e.stderr e.stderr_truncated (pos 2048)).0;
    }

-- The outcome of a probe, recorded as a failure or as a reading.
recorded : Runner → World → Check → Result → Bool → World × Result
recorded r w c sub fails =
    if fails
    then record_result r w (record sub { status = unavailable; reason_code = exec_failed })
        (some sub.exit_code)
    else record_result r w (record sub { parsed = parse r.patterns r.kv_patterns r.json c sub.raw })
        (some sub.exit_code)

pub has_error : ExecError → Bool
has_error ran = false
has_error _ = true

is_transport : ExecError → Bool
is_transport transport = true
is_transport _ = false

is_not_found : ExecError → Bool
is_not_found not_found = true
is_not_found _ = false

-- The path that `resolve` takes from a reading of the probe.
resolved_path : Bool → String → String → String
resolved_path true p raw = p
resolved_path false p raw = let q = trim_space raw in if has_prefix q "/" then q else p

-- `resolve` once its probe is bound.
pub resolve_sent : Runner → World → Check → String → List String → World × String
resolve_sent r w c p argv =
    let (w', e) = send r w argv r.budgets.per_check_hard in
    let fails = has_error e.error || not (int_beq e.code (pos 0)) in
    let sub = probe_result r c (("path", p) ∷ []) argv e in
    let (w'', kept) = recorded r w' c sub fails in (w'', resolved_path fails p kept.raw)

pub resolve_bound : Runner → World → Check → String → Bound (List String) → World × String
resolve_bound r w c p (failed e) = (w, p)
resolve_bound r w c p (bound argv) = resolve_sent r w c p argv

pub resolve_with : Runner → World → String → Option Check → World × String
resolve_with r w p none = (w, p)
resolve_with r w p (some c) = resolve_bound r w c p (bind c (("path", p) ∷ []))

-- `Runner.resolve`.
pub resolve : Runner → World → String → World × String
resolve r w p = resolve_with r w p (lookup r.entries "fs.realpath" r.platform)

-- What `installed` answers: whether the binary is there, and whether the session was lost.
pub data Presence : Type 0 where
  present missing lost : Presence

presence : Exec → Presence
presence e =
    if is_transport e.error
    then lost
    else if is_not_found e.error || int_beq e.code (pos 127)
    then present
    else if not (has_error e.error) && int_beq e.code (pos 0)
    then present
    else missing

pub installed_sent : Runner → World → Check → String → List String → World × Presence
installed_sent r w c bin argv =
    let (w', e) = send r w argv r.budgets.per_check_hard in
    let fails = has_error e.error || not (exit_allowed c.exit_ok e.code) in
    let sub = probe_result r c (("name", bin) ∷ []) argv e in
    ((recorded r w' c sub fails).0, presence e)

pub installed_bound : Runner → World → Check → String → Bound (List String) → World × Presence
installed_bound r w c bin (failed e) = (w, present)
installed_bound r w c bin (bound argv) = installed_sent r w c bin argv

pub installed_with : Runner → World → String → Option Check → World × Presence
installed_with r w bin none = (w, present)
installed_with r w bin (some c) = installed_bound r w c bin (bind c (("name", bin) ∷ []))

-- `Runner.installed`.
pub installed : Runner → World → String → World × Presence
installed r w bin =
    let probed = installed_with r w bin (lookup r.entries "sys.which" r.platform) in
    if has_prefix bin "/" then (w, present) else probed
