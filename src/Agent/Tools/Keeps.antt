-- ===== src/Agent/Tools/Keeps.antt =====
-- What a tool call leaves of a session: the store stays sound, no more checks than the budget run, the commands are
-- those of the model's checks, and a run with no spent budget has handed over no more than its input budget.
use scheck.Prelude.{
  String, ℕ, suc, ◌+◌, ◌≤◌, max, Bool, true, false, Option, none, some, List, ◌≡◌, refl, arith,
  ◌==◌, string_eq, is_some, Bool-cases, inl, inr,
}
use scheck.Prelude.Int.{pos, ltb_ℤ, ◌+ℤ◌, pos_part}
use scheck.Finding.Posture.{RunStatus, ok, unavailable, denied}
use scheck.Finding.Cited.{Checked, accepted, refused, Ensures}
use scheck.Finding.Candidate.{Candidate}
use scheck.Finding.Report.{Finding}
use scheck.Finding.Store.{Store}
use scheck.Finding.Store.Sound.{IsSound, report-IsSound, rule_out-IsSound}
use scheck.Runner.Model.{World, Result, Origin}
use scheck.Runner.Steps.{Steps, here, Steps_mono, Steps_trans}
use scheck.Runner.Run.Permitted.{Offered, run_as-Offered}
use scheck.Agent.Fit.{ToolCall}
use scheck.Agent.Tools.{
  Agent, Session, RunInput, ReadInput, Verdict, opened, ruled_out, other_verdict, Budget, or_stop,
  exhaust, account, accounted, handed, by_status, after_check, execute, reading, after_ruling,
  after_report, report_as, report_decoded, run_decoded, read_decoded, call,
}

-- A command that some check asked for by a tool may send.
pub data Asked (a : Agent) (argv : List String) : Type 0 where
  asked :
      (id : String) (params : List (String × String)) (o : Origin)
      → is_some o.tool ≡ true
      → o.profile ≡ a.profile
      → Offered a.runner id params o argv
      → Asked a argv

-- While no budget is spent, the input budget is not passed.
abbrev pub IsSober : Agent → Session → Type 0
IsSober a s = s.stop ≡ none → ltb_ℤ a.budgets.model_input_total (pos s.input) ≡ false

pub record Keeps (a : Agent) (s t : Session) : Type 0 where
  pub moves : Steps a.runner (Asked a) s.world t.world
  pub sound : IsSound s.store → IsSound t.store
  pub bounded : t.checks ≤ max s.checks (pos_part a.budgets.agent_checks)
  pub sober : IsSober a s → IsSober a t

module _ (a : Agent) where
  pub Keeps_refl : (s : Session) → Keeps a s s
  Keeps_refl s = record { moves = here; sound = λ w. w; bounded = omega arith; sober = λ w. w }

  pub Keeps_trans : {s t u : Session} → Keeps a s t → Keeps a t u → Keeps a s u
  Keeps_trans h k = record {
    moves = Steps_trans h.moves k.moves;
    sound = λ w. k.sound (h.sound w);
    bounded = omega (arith, h.bounded, k.bounded);
    sober = λ w. k.sober (h.sober w);
  }

  or_stop-some : (b : Budget) (o : Option Budget) → ¬ (or_stop b o ≡ none)
  unfolding or_stop
  or_stop-some b none e = cc
  or_stop-some b (some c) e = cc

  exhaust-Keeps : (s : Session) (b : Budget) → Keeps a s (exhaust s b)
  unfolding exhaust
  exhaust-Keeps s b = record {
    moves = here;
    sound = λ w. w;
    bounded = omega arith;
    sober = λ w e. absurd (or_stop-some b s.stop e);
  }

  accounted-Keeps :
      (s : Session) (n : ℕ) (over : Bool)
      → ltb_ℤ a.budgets.model_input_total (pos (s.input + n)) ≡ over
      → Keeps a s (accounted over (record s { input = s.input + n })).0
  unfolding accounted exhaust
  accounted-Keeps s n true e = record {
    moves = here;
    sound = λ w. w;
    bounded = omega arith;
    sober = λ w k. absurd (or_stop-some _ s.stop k);
  }
  accounted-Keeps s n false e = record {
    moves = here;
    sound = λ w. w;
    bounded = omega arith;
    sober = λ w k. e;
  }

  pub account-Keeps : (s : Session) (n : ℕ) → Keeps a s (account a s n).0
  unfolding account
  account-Keeps s n = accounted-Keeps s n _ refl

  accounted-unspent :
      (b : Bool) (s : Session)
      → s.stop ≡ none
      → (accounted b s).1 ≡ true
      → (accounted b s).0.stop ≡ none
  unfolding accounted
  accounted-unspent true s h e = cc
  accounted-unspent false s h e = h

  pub account-unspent :
      (s : Session) (n : ℕ)
      → s.stop ≡ none
      → (account a s n).1 ≡ true
      → (account a s n).0.stop ≡ none
  unfolding account
  account-unspent s n h e =
      accounted-unspent (ltb_ℤ a.budgets.model_input_total (pos (s.input + n))) _ h e

  handed-Keeps :
      {s : Session} (res : Result) (r : Session × Bool) → Keeps a s r.0 → Keeps a s (handed res r).0
  unfolding handed
  handed-Keeps res (t, true) h = h
  handed-Keeps res (t, false) h = h

  by_status-Keeps :
      (st : RunStatus) (s : Session) (res : Result) → Keeps a s (by_status st a s res).0
  unfolding by_status
  by_status-Keeps denied s res = Keeps_refl s
  by_status-Keeps unavailable s res = Keeps_refl s
  by_status-Keeps ok s res = handed-Keeps res _ (account-Keeps s _)

  after_check-Keeps :
      (s : Session) (call_id : String) (r : World × Result)
      → ltb_ℤ (pos s.checks) a.budgets.agent_checks ≡ true
      → Steps a.runner (Asked a) s.world r.0
      → Keeps a s (after_check a s call_id r).0
  unfolding after_check
  after_check-Keeps s call_id (w, res) h m =
      Keeps_trans
        (let first : Keeps a s
              (record s { world = w; checks = suc s.checks; wall = s.wall +ℤ res.duration }) =
            record { moves = m; sound = λ i. i; bounded = ground arith; sober = λ i. i } in
          first)
        (by_status-Keeps res.status _ res)

  execute-Keeps :
      (s : Session) (call_id id : String) (params : List (String × String)) (o : Origin)
      → is_some o.tool ≡ true
      → o.profile ≡ a.profile
      → Keeps a s (execute a s call_id id params o).0
  unfolding execute
  execute-Keeps s call_id id params o tool profile =
      elim (Bool-cases (ltb_ℤ (pos s.checks) a.budgets.agent_checks)) [
        | inr e ↦ rw e (exhaust-Keeps s _)
        | inl e ↦ elim (Bool-cases (ltb_ℤ s.wall a.budgets.agent_wall_clock)) [
          | inr f ↦ rw (e, f) (exhaust-Keeps s _)
          | inl f ↦
              rw (e, f)
                (after_check-Keeps s call_id _ e (
                  Steps_mono (λ argv. asked id params o tool profile)
                    (run_as-Offered a.runner s.world id params o)))
        ]
      ]

  after_ruling-Keeps :
      (s : Session) (call_id id : String) (r : Checked Store)
      → (IsSound s.store → Ensures IsSound r)
      → Keeps a s (after_ruling a s call_id id r).0
  unfolding after_ruling
  after_ruling-Keeps s call_id id (accepted t) h = record {
    moves = here;
    sound = h;
    bounded = omega arith;
    sober = λ w. w;
  }
  after_ruling-Keeps s call_id id (refused why) h = Keeps_refl s

  after_report-Keeps :
      (s : Session) (call_id : String) (r : Checked (Store × Finding))
      → (IsSound s.store → Ensures (λ t. IsSound t.0) r)
      → Keeps a s (after_report a s call_id r).0
  unfolding after_report
  after_report-Keeps s call_id (accepted (t, f)) h = record {
    moves = here;
    sound = h;
    bounded = omega arith;
    sober = λ w. w;
  }
  after_report-Keeps s call_id (refused why) h = Keeps_refl s

  reading-IsSound : (s : Session) → IsSound s.store → IsSound (reading s)
  unfolding reading
  reading-IsSound s w = record { indexed = w.indexed; denied = w.denied }

  report_as-Keeps :
      (v : Verdict) (s : Session) (call_id : String) (c : Candidate)
      → Keeps a s (report_as v a s call_id c).0
  unfolding report_as
  report_as-Keeps opened s call_id c =
      after_report-Keeps s call_id _ (λ w. report-IsSound (reading s) c (reading-IsSound s w))
  report_as-Keeps ruled_out s call_id c =
      after_ruling-Keeps s call_id c.id _
        (λ w. rule_out-IsSound (reading s) c (reading-IsSound s w))
  report_as-Keeps other_verdict s call_id c = Keeps_refl s

  report_decoded-Keeps :
      (s : Session) (call_id : String) (i : Option (Verdict × Candidate))
      → Keeps a s (report_decoded a s call_id i).0
  unfolding report_decoded
  report_decoded-Keeps s call_id none = Keeps_refl s
  report_decoded-Keeps s call_id (some (v, c)) = report_as-Keeps v s call_id c

  run_decoded-Keeps :
      (s : Session) (call_id : String) (i : Option RunInput)
      → Keeps a s (run_decoded a s call_id i).0
  unfolding run_decoded
  run_decoded-Keeps s call_id none = Keeps_refl s
  run_decoded-Keeps s call_id (some i) = elim (Bool-cases (i.id == "")) [
    | inl e ↦ rw e (Keeps_refl s)
    | inr e ↦ rw e (execute-Keeps s call_id i.id i.params _ refl refl)
  ]

  read_decoded-Keeps :
      (s : Session) (call_id : String) (i : Option ReadInput)
      → Keeps a s (read_decoded a s call_id i).0
  unfolding read_decoded
  read_decoded-Keeps s call_id none = Keeps_refl s
  read_decoded-Keeps s call_id (some i) = elim (Bool-cases (i.path == "")) [
    | inl e ↦ rw e (Keeps_refl s)
    | inr e ↦ rw e (execute-Keeps s call_id "text.cat" _ _ refl refl)
  ]

  pub call-Keeps : (s : Session) (c : ToolCall) → Keeps a s (call a s c).0
  unfolding call
  call-Keeps s c = elim (Bool-cases (c.name == "run_check")) [
    | inl e ↦ rw e (run_decoded-Keeps s c.id _)
    | inr e ↦ elim (Bool-cases (c.name == "read_file")) [
      | inl f ↦ rw (e, f) (read_decoded-Keeps s c.id _)
      | inr f ↦ elim (Bool-cases (c.name == "report_finding")) [
        | inl g ↦ rw (e, f, g) (report_decoded-Keeps s c.id _)
        | inr g ↦ rw (e, f, g) (Keeps_refl s)
      ]
    ]
  ]
