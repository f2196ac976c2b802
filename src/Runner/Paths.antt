-- ===== src/Runner/Paths.antt =====
-- internal/runner/runner.go: `runCheck` up to the command: the binding, the path policy on every path parameter as
-- the target resolves it, and the elevation.
pub mod Cleared
pub mod Raised
use scheck.Prelude.{
  String, Bool, true, false, Option, none, some, List, [], ◌∷◌, ◌++◌, map_get, ◌==◌, if◌then◌else◌,
}
use scheck.Policy.Path.{PathVerdict, PathDecision, deny, allow, metadata_only, decide, canonical}
use scheck.Check.Catalog.{
  Check, Param, Kind, kind_path, lookup, macos, platform_eq, PathUse, path_content,
}
use scheck.Check.Bind.{Bound, bound, failed, bind}
use scheck.Finding.Posture.{RunStatus, denied, unavailable}
use scheck.Runner.Model.{
  Runner, World, Result, ReasonCode, path_denied, invalid_params, metadata_unavailable,
  command_missing, exec_failed, requires_elevation, Elevation, elevate_none, elevate_sudo,
  elevate_root, record_result,
}
use scheck.Runner.Probe.{Presence, present, missing, lost, resolve, installed}

-- Where a check stands: ended with a result, or with the check and the arguments to go on with.
pub data Stand : Type 0 where
  ended : World → Result → Stand
  going : World → Check → List String → Result → Stand

-- A result that ends the check before its command is sent.
pub refuse : Runner → World → Result → RunStatus → ReasonCode → Stand
refuse r w res st why =
    let (w', kept) = record_result r w (record res { status = st; reason_code = why }) none in
    ended w' kept

-- The command of the check for metadata, which takes the place of a read of contents.
pub stat_bound : Runner → World → Check → Result → Bound (List String) → Stand
stat_bound r w stat res (failed e) =
    refuse r w (record res { ran_as = stat.id }) denied invalid_params
stat_bound r w stat res (bound argv) = going w stat argv (record res { ran_as = stat.id })

pub stat_instead : Runner → World → String → Result → Option Check → Stand
stat_instead r w path res none = refuse r w res unavailable metadata_unavailable
stat_instead r w path res (some stat) = stat_bound r w stat res (bind stat (("path", path) ∷ []))

pub reads_content : PathUse → Bool
reads_content path_content = true
reads_content _ = false

-- One path parameter, by what the policy decides on the path that it resolves to.
pub on_verdict : PathDecision → Runner → World → Check → List String → Result → String → Stand
on_verdict deny r w c argv res path = refuse r w res denied path_denied
on_verdict allow r w c argv res path = going w c argv res
on_verdict metadata_only r w c argv res path =
    if reads_content c.path_use
    then stat_instead r w path res (lookup r.entries "fs.stat" r.platform)
    else going w c argv res

-- What the policy says of a path.
pub verdict_on : Runner → String → PathVerdict
verdict_on r path = decide r.paths (canonical path (r.platform == macos))

pub or_empty : Option String → String
or_empty none = ""
or_empty (some v) = v

-- A path parameter, by its name.
pub check_path : Runner → World → Check → List String → Result → String → Stand
check_path r w c argv res name =
    let (w', path) = resolve r w (or_empty (map_get res.params name)) in
    let v = verdict_on r path in
    on_verdict v.decision r w' c argv (record res { path_rule = v.rule }) path

by_kind : Kind → Runner → World → Check → List String → Result → String → Stand
by_kind kind_path r w c argv res name = check_path r w c argv res name
by_kind _ r w c argv res name = going w c argv res

-- The body of the loop over the parameters.
pub check_param : Runner → World → Check → List String → Result → Param → Stand
check_param r w c argv res p = by_kind p.kind r w c argv res p.name

-- The loop over the parameters, those of the check that was asked for.
pub check_params : Runner → List Param → Stand → Stand
check_params r [] st = st
check_params r (p ∷ ps) (ended w res) = ended w res
check_params r (p ∷ ps) (going w c argv res) = check_params r ps (check_param r w c argv res p)

-- `SudoPrefix`.
pub sudo_prefix : List String
sudo_prefix = "sudo" ∷ "-n" ∷ "--" ∷ []

-- The binary of a command. The catalog's invariants (internal/check/invariants.go) allow no check without one.
first_token : List String → String
first_token [] = ""
first_token (bin ∷ rest) = bin

pub with_sudo : Presence → Runner → World → Check → List String → Result → Stand
with_sudo present r w c argv res = going w c (sudo_prefix ++ argv) (record res { elevated = true })
with_sudo missing r w c argv res =
    refuse r w (record res { argv = argv }) unavailable command_missing
with_sudo lost r w c argv res =
    refuse r w (record res { argv = argv; transport_lost = true }) unavailable exec_failed

pub by_elevation : Elevation → Runner → World → Check → List String → Result → Stand
by_elevation elevate_none r w c argv res =
    refuse r w (record res { argv = argv }) unavailable requires_elevation
by_elevation elevate_root r w c argv res = going w c argv (record res { elevated = true })
by_elevation elevate_sudo r w c argv res =
    let (w', there) = installed r w (first_token argv) in with_sudo there r w' c argv res

-- The elevation of a check that needs one.
pub elevate : Runner → Stand → Stand
elevate r (ended w res) = ended w res
elevate r (going w c argv res) =
    let raised = by_elevation r.elevate r w c argv res in
    if c.elevated then raised else going w c argv res
