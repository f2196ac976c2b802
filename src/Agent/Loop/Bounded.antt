-- ===== src/Agent/Loop/Bounded.antt =====
-- What a run of the loop, from its first turn to its end, keeps to.
use scheck.Prelude.{◌≤◌, max, false, none, ◌≡◌, ◌≢◌, ◌⊎◌, inl, inr, refl}
use scheck.Prelude.Int.{pos, pos_part, ltb_ℤ}
use scheck.Finding.Store.Sound.{IsSound}
use scheck.Runner.Steps.{Steps}
use scheck.Agent.Tools.{Agent, Session}
use scheck.Agent.Tools.Keeps.{Asked}
use scheck.Agent.Loop.{Model, Outcome, Status, complete, incomplete, run}
use scheck.Agent.Loop.Spends.{run-Ended}

-- What holds of the session and the outcome that a run ends with.
pub record IsBounded (a : Agent) (s : Session) (r : Session × Outcome) : Type 0 where
  -- The target was sent nothing but what the model's checks may send, each command with its line.
  pub commands : Steps a.runner (Asked a) s.world r.0.world
  pub sound : IsSound r.0.store
  pub checks : r.0.checks ≤ max s.checks (pos_part a.budgets.agent_checks)
  pub turns : r.1.iterations ≤ pos_part a.budgets.max_iterations
  -- A complete run has spent no budget, and handed over no more than its input budget.
  pub honest :
      (r.1.status ≢ complete)
      ⊎ ((r.0.stop ≡ none) × (ltb_ℤ a.budgets.model_input_total (pos r.0.input) ≡ false))

honest_by :
    (a : Agent) (t : Session) (status : Status)
    → (status ≡ complete → t.stop ≡ none)
    → (t.stop ≡ none → ltb_ℤ a.budgets.model_input_total (pos t.input) ≡ false)
    → (status ≢ complete)
      ⊎ ((t.stop ≡ none) × (ltb_ℤ a.budgets.model_input_total (pos t.input) ≡ false))
honest_by a t complete h k = inr (h refl, k (h refl))
honest_by a t (incomplete why) h k = inl (λ e. cc)

-- From a session with a sound store and no spent budget, whatever the model answers, the run takes no more turns than
-- it may, brings the checks to no more than their budget or what they were before, sends the target only commands of
-- checks that the model may have, leaves the store sound, and says that it is complete only if no budget is spent and
-- no more output was handed over than its budget.
pub run-IsBounded :
    (m : Model) (a : Agent) (s : Session)
    → s.stop ≡ none
    → ltb_ℤ a.budgets.model_input_total (pos s.input) ≡ false
    → IsSound s.store
    → IsBounded a s (run m a s)
run-IsBounded m a s h k w =
    let (keeps, told) = run-Ended a m s h in
    record {
      commands = keeps.moves;
      sound = keeps.sound w;
      checks = keeps.bounded;
      turns = told.counted;
      honest = honest_by a (run m a s).0 (run m a s).1.status told.unspent (keeps.sober (λ e. k));
    }
