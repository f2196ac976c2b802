-- ===== src/Runner/Run/Permitted.antt =====
-- What a run of a check may send to the target.
use scheck.Prelude.{
  String, Bool, true, false, Option, none, some, List, [], ◌≡◌, refl, if◌then◌else◌,
}
use scheck.Check.Catalog.{Check, lookup}
use scheck.Check.Bind.{Bound, bound, failed, bind}
use scheck.Runner.Model.{Runner, World, Result, Origin, blank}
use scheck.Runner.Steps.{Steps, here, line, Steps_mono}
use scheck.Runner.Paths.{Stand}
use scheck.Runner.Paths.Cleared.{Permitted, Moves, own, check_params-Standing}
use scheck.Runner.Paths.Raised.{Ready, over, ready, elevate-Ready}
use scheck.Runner.Outcome.{finished}
use scheck.Runner.Outcome.Sent.{execute-Steps}
use scheck.Runner.Run.{run_bound, run_check, run_found, run_as, offered, on_menu}

-- A command that `RunAs` may send for an id: one that is permitted for the check that the id names, where who asks
-- may have it.
pub data Offered (r : Runner) (id : String) (params : List (String × String)) (o : Origin)
    (argv : List String) : Type 0 where
  offer :
      (c : Check)
      → lookup r.entries id r.platform ≡ some c
      → on_menu o c ≡ true
      → Permitted r c params argv
      → Offered r id params o argv

finished-Moves :
    (r : Runner) (c : Check) (params : List (String × String)) (start : World) {st : Stand}
    → Ready r c params start st
    → Moves r c params start (finished r st).0
unfolding finished
finished-Moves r c params start (over s) = s
finished-Moves r c params start (ready {w = w} {e = e} {argv = argv} {res = res} may s) =
    execute-Steps r (Permitted r c params) w e argv res may s

run_bound-Moves :
    (r : Runner) (c : Check) (params : List (String × String)) (w : World) (res : Result)
    (b : Bound (List String))
    → res.params ≡ params
    → bind c params ≡ b
    → Moves r c params w (run_bound r w c res b).0
unfolding run_bound
run_bound-Moves r c params w res (failed e) same h = line _ here
run_bound-Moves r c params w res (bound argv) same h = finished-Moves r c params w (
    elevate-Ready r c params w
      (check_params-Standing r c params w [] c.params (own same h tt here)))

run_check-Moves :
    (r : Runner) (c : Check) (params : List (String × String)) (o : Origin) (w : World)
    → Moves r c params w (run_check r w c params o).0
unfolding run_check blank
run_check-Moves r c params o w =
    run_bound-Moves r c params w (record (blank c.id params o) { ran_as = c.id }) _ refl refl

module _ (r : Runner) (w : World) (id : String) (params : List (String × String)) (o : Origin) where
  run_chosen-Offered :
      (b : Bool) (c : Check)
      → on_menu o c ≡ b
      → lookup r.entries id r.platform ≡ some c
      → Steps r (Offered r id params o) w (run_found r w id params o (if b then some c else none)).0
  unfolding run_found
  run_chosen-Offered true c m l =
      Steps_mono (λ argv may. offer c l m may) (run_check-Moves r c params o w)
  run_chosen-Offered false c m l = line _ here

  run_found-Offered :
      (found : Option Check)
      → lookup r.entries id r.platform ≡ found
      → Steps r (Offered r id params o) w (run_found r w id params o (offered o found)).0
  unfolding run_found offered
  run_found-Offered none l = line _ here
  run_found-Offered (some c) l = run_chosen-Offered _ c refl l

  -- A call of `RunAs` does nothing but write lines and send commands, each with its line directly behind, and each
  -- command is one of: the probe for a resolved path, the probe for a program, the bound arguments of the check that
  -- the id names, if every path parameter resolved to a path that the policy lets the check have, or the bound
  -- arguments of the metadata check on a path whose metadata may be read. The last two stand behind the prefix of
  -- sudo exactly if the check sent is elevated and the mode is sudo, and are not sent elevated under no mode. A model
  -- gets only the checks of its profile, and never the canary.
  pub run_as-Offered : Steps r (Offered r id params o) w (run_as r w id params o).0
  unfolding run_as
  run_as-Offered = run_found-Offered _ refl
