-- ===== src/Runner/Run/Audited.antt =====
-- The audit log of a run against the commands that were sent.
use scheck.Prelude.{
  ℕ, ◌+◌, String, Bool, true, Option, none, some, List, [], ◌∷◌, ◌++◌, ◌≡◌, ◌∙◌, ap, refl, arith,
  length, is_some, if◌then◌else◌, length-append,
}
use scheck.Prelude.Int.{ℤ}
use scheck.Runner.Model.{
  Runner, World, Result, AuditEntry, Origin, record_result, send, retain, audit_line, log_line,
}
use scheck.Runner.Steps.{Steps, here, line, command}
use scheck.Runner.Run.{run_as}
use scheck.Runner.Run.Permitted.{run_as-Offered}

-- How many lines say how a command ended.
abbrev pub exits : List AuditEntry → ℕ
exits [] = 0
exits (e ∷ es) = (if is_some e.exit_code then 1 else 0) + exits es

exits-append : (front back : List AuditEntry) → exits (front ++ back) ≡ exits front + exits back
exits-append [] back = omega arith
exits-append (e ∷ es) back = omega (arith, exits-append es back)

-- What came to the log, the commands and the observations since a world.
pub record Accounts (w v : World) : Type 0 where
  -- One line with an exit code for each command that was sent.
  pub commands : exits v.audit + length w.sent ≡ exits w.audit + length v.sent
  -- One observation for each line.
  pub observed : length v.audit + length w.results ≡ length w.audit + length v.results

-- A record adds one observation and sends nothing.
record_result-results :
    (r : Runner) (v : World) (res : Result) (code : Option ℤ)
    → length (record_result r v res code).0.results ≡ length v.results + 1
unfolding record_result retain
record_result-results r v res code = omega (arith, length-append {0} v.results (_ ∷ []))

record_result-sent :
    (r : Runner) (v : World) (res : Result) (code : Option ℤ)
    → (record_result r v res code).0.sent ≡ v.sent
unfolding record_result retain
record_result-sent r v res code = refl

-- The runner has an audit log, and no write to it fails.
module _ (r : Runner) (writes : ℕ → Bool) (kept : r.audit ≡ some writes)
    (all_written : (n : ℕ) → writes n ≡ true) where
  log_line-written :
      (n : ℕ) (e : AuditEntry) (entries : List AuditEntry)
      → log_line r.audit n e entries ≡ entries ++ e ∷ []
  unfolding log_line
  log_line-written n e entries = rw (kept, all_written n) refl

  record_result-audit :
      (v : World) (res : Result) (code : Option ℤ)
      → (record_result r v res code).0.audit ≡ v.audit ++ audit_line (retain r v res).1 code ∷ []
  unfolding record_result retain
  record_result-audit v res code = log_line-written _ _ v.audit

  record_result-exits :
      (v : World) (res : Result) (code : Option ℤ)
      → exits (record_result r v res code).0.audit ≡ exits v.audit + (if is_some code then 1 else 0)
  unfolding audit_line
  record_result-exits v res code =
      ap exits (record_result-audit v res code)
      ∙ exits-append v.audit (audit_line (retain r v res).1 code ∷ [])
      ∙ omega arith

  record_result-lines :
      (v : World) (res : Result) (code : Option ℤ)
      → length (record_result r v res code).0.audit ≡ length v.audit + 1
  record_result-lines v res code =
      ap length (record_result-audit v res code) ∙ length-append v.audit (_ ∷ [])

  record-Accounts :
      {w : World} (v : World) (res : Result) (code : Option ℤ)
      → exits v.audit + length w.sent + (if is_some code then 1 else 0)
        ≡ exits w.audit + length v.sent
      → length v.audit + length w.results ≡ length w.audit + length v.results
      → Accounts w (record_result r v res code).0
  record-Accounts v res code c o = record {
    commands =
        omega
          (arith, c, record_result-exits v res code, ap length (record_result-sent r v res code));
    observed = omega (arith, o, record_result-lines v res code, record_result-results r v res code);
  }

  Steps-Accounts : {P : List String → Type 0} {w v : World} → Steps r P w v → Accounts w v
  unfolding send
  Steps-Accounts here = record { commands = refl; observed = refl }
  Steps-Accounts (line {v = u} res s) =
      let h = Steps-Accounts s in record-Accounts u res none (omega (arith, h.commands)) h.observed
  Steps-Accounts (command {v = u} argv limit res code may s) =
      let h = Steps-Accounts s in
      record-Accounts (send r u argv limit).0 res (some code)
        (omega (arith, h.commands, length-append {0} u.sent (argv ∷ []))) h.observed

-- A call of `RunAs` by a runner that has an audit log, to which no write fails, leaves one line with an exit code
-- for each command that it sends, and one observation for each line.
pub run_as-Accounts :
    (r : Runner) (writes : ℕ → Bool)
    → r.audit ≡ some writes
    → ((n : ℕ) → writes n ≡ true)
    → (w : World) (id : String) (params : List (String × String)) (o : Origin)
    → Accounts w (run_as r w id params o).0
run_as-Accounts r writes kept all_written w id params o =
    Steps-Accounts r writes kept all_written (run_as-Offered r w id params o)
