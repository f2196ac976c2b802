-- ===== src/Engagement/Severity/Grading/Bounds.antt =====
-- How high `Grade` can end, over the catalogs that `Register` builds.
use scheck.Prelude.{some_inj, String, ◌≡◌, ◌≤◌, some, string_eq}
use scheck.Finding.Severity.{Severity, rank}
use scheck.Finding.Chain.{Chain}
use scheck.Finding.Chain.Linked.{Linked}
use scheck.Finding.Catalog.{Catalog, Def, lookup}
use scheck.Finding.Catalog.Registered.{IsRegistered, lookup-IsRegistered}
use scheck.Finding.Judgment.{Judgment}
use scheck.Engagement.Severity.Table.{Declarations}
use scheck.Engagement.Severity.Loop.{chain}
use scheck.Engagement.Severity.Loop.Linked.{chain-Linked}
use scheck.Engagement.Severity.Loop.Bounds.{chain-le-ceiling}
use scheck.Engagement.Severity.Rows.{rules}
use scheck.Engagement.Severity.Grading.{grade}

-- The chain that `Grade` returns is the one of the definition that is looked up.
grade_found :
    (defs : Catalog) (j : Judgment) (owner : String) (d : Declarations) (def : Def) (c : Chain)
    → lookup defs j.id ≡ some def
    → grade defs j owner d ≡ some c
    → chain rules d (record { def = def; j = j; owner = owner }) def.base_severity ≡ c
unfolding grade
grade_found defs j owner d def c e h = some_inj (rw (e, grade) at h)

-- A finding graded by a catalog that `Register` built never ends above the ceiling of its
-- definition, whatever its judgment carries and whatever is declared.
pub grade-le-ceiling :
    (defs : Catalog) (j : Judgment) (owner : String) (d : Declarations) (def : Def) (top : Severity)
    (c : Chain)
    → IsRegistered defs
    → lookup defs j.id ≡ some def
    → def.ceiling ≡ some top
    → grade defs j owner d ≡ some c
    → rank c.severity ≤ rank top
grade-le-ceiling defs j owner d def top c r e t h = rw (← grade_found defs j owner d def c e h) (
    chain-le-ceiling rules d (record { def = def; j = j; owner = owner }) def.base_severity top t
      ((lookup-IsRegistered defs j.id def r e).1 top t))

-- Every chain that `Grade` returns starts at the base severity of its definition, and its moves
-- join that severity to the one that it ends with.
pub grade-Linked :
    (defs : Catalog) (j : Judgment) (owner : String) (d : Declarations) (def : Def) (c : Chain)
    → lookup defs j.id ≡ some def
    → grade defs j owner d ≡ some c
    → (c.base ≡ def.base_severity) × Linked def.base_severity c.moves c.severity
grade-Linked defs j owner d def c e h =
    rw (← grade_found defs j owner d def c e h)
      (chain-Linked rules d (record { def = def; j = j; owner = owner }) def.base_severity)
