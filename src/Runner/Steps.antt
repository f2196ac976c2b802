-- ===== src/Runner/Steps.antt =====
-- What the runner does to the world, as a relation: a line without a command, or a command that meets a condition,
-- and its line directly behind.
use scheck.Prelude.{List, String, none, some}
use scheck.Prelude.Int.{ℤ}
use scheck.Runner.Model.{Runner, World, Result, record_result, send}

pub data Steps (r : Runner) (Allowed : List String → Type 0) (w : World) : World → Type 0 where
  here : Steps r Allowed w w
  line :
      {v : World} (res : Result)
      → Steps r Allowed w v
      → Steps r Allowed w (record_result r v res none).0
  command :
      {v : World} (argv : List String) (limit : ℤ) (res : Result) (code : ℤ)
      → Allowed argv
      → Steps r Allowed w v
      → Steps r Allowed w (record_result r (send r v argv limit).0 res (some code)).0

pub Steps_mono :
    {r : Runner} {P Q : List String → Type 0} {w v : World}
    → ((argv : List String) → P argv → Q argv)
    → Steps r P w v
    → Steps r Q w v
Steps_mono f here = here
Steps_mono f (line res s) = line res (Steps_mono f s)
Steps_mono f (command argv limit res code may s) =
    command argv limit res code (f argv may) (Steps_mono f s)

pub Steps_trans :
    {r : Runner} {P : List String → Type 0} {w v u : World}
    → Steps r P w v
    → Steps r P v u
    → Steps r P w u
Steps_trans s here = s
Steps_trans s (line res t) = line res (Steps_trans s t)
Steps_trans s (command argv limit res code may t) =
    command argv limit res code may (Steps_trans s t)
