-- ===== src/Runner/Outcome/Sent.antt =====
-- A command that is permitted is sent with its line directly behind.
use scheck.Prelude.{String, List}
use scheck.Check.Catalog.{Check}
use scheck.Runner.Model.{Runner, World, Result}
use scheck.Runner.Steps.{Steps, command}
use scheck.Runner.Outcome.{execute}

pub execute-Steps :
    (r : Runner) (Allowed : List String → Type 0) {start : World} (w : World) (c : Check)
    (argv : List String) (res : Result)
    → Allowed argv
    → Steps r Allowed start w
    → Steps r Allowed start (execute r w c argv res).0
unfolding execute
execute-Steps r Allowed w c argv res may s = command argv _ _ _ may s
