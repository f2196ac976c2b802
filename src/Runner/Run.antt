-- ===== src/Runner/Run.antt =====
-- internal/runner/runner.go: `RunAs`.
pub mod Permitted
pub mod Audited
use scheck.Prelude.{
  String, Bool, true, false, not, ◌&&◌, ◌||◌, Option, none, some, List, [], ◌∷◌, is_some,
  if◌then◌else◌,
}
use scheck.Check.Catalog.{Check, lookup, visible}
use scheck.Check.Bind.{Bound, bound, failed, bind}
use scheck.Finding.Posture.{denied}
use scheck.Runner.Model.{
  Runner, World, Result, Origin, blank, unknown_check, invalid_params, record_result,
}
use scheck.Runner.Paths.{Stand, ended, going, check_params, elevate}
use scheck.Runner.Outcome.{finished}

-- The check bound, its paths decided, elevated, and sent.
pub run_bound : Runner → World → Check → Result → Bound (List String) → World × Result
run_bound r w c res (failed e) =
    record_result r w (record res { status = denied; reason_code = invalid_params }) none
run_bound r w c res (bound argv) =
    finished r (elevate r (check_params r c.params (going w c argv (record res { argv = argv }))))

-- `runCheck`.
pub run_check : Runner → World → Check → List (String × String) → Origin → World × Result
run_check r w c params o =
    run_bound r w c (record (blank c.id params o) { ran_as = c.id }) (bind c params)

-- Whether who asks may have the check: a model's call only within its profile, and never the canary.
pub on_menu : Origin → Check → Bool
on_menu o c = not (is_some o.tool && (c.canary || not (visible c.min_profile o.profile)))

pub run_found :
    Runner → World → String → List (String × String) → Origin → Option Check → World × Result
run_found r w id params o none =
    record_result r w (record (blank id params o) { status = denied; reason_code = unknown_check })
      none
run_found r w id params o (some c) = run_check r w c params o

-- The check that an origin gets for an id.
pub offered : Origin → Option Check → Option Check
offered o none = none
offered o (some c) = if on_menu o c then some c else none

-- `Runner.RunAs`.
pub run_as : Runner → World → String → List (String × String) → Origin → World × Result
run_as r w id params o = run_found r w id params o (offered o (lookup r.entries id r.platform))
