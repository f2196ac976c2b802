-- ===== src/Engagement/Severity/Grading.antt =====
-- severity.go: `Grade`, `GradeHost` and `GradeAll`, over the table of `Rows`.
pub mod Bounds
pub mod High
pub mod Batch
pub mod Exposed
use scheck.Prelude.{
  String, Bool, true, false, not, ◌||◌, Option, none, some, List, [], ◌∷◌, map, ◌==◌, string_eq,
  if◌then◌else◌,
}
use scheck.Finding.Severity.{Severity}
use scheck.Finding.Chain.{Chain}
use scheck.Finding.Catalog.{Catalog, Def, lookup}
use scheck.Finding.Judgment.{Judgment, Subject}
use scheck.Engagement.Severity.Table.{Declarations}
use scheck.Engagement.Severity.Loop.{chain}
use scheck.Engagement.Severity.Rows.{rules}

-- `Grade`: `none` for an id that has no definition.
unfoldable pub grade : Catalog → Judgment → String → Declarations → Option Chain
grade defs j owner d = elim (lookup defs j.id) [
  | none ↦ none
  | some def ↦ some (chain rules d (record { def = def; j = j; owner = owner }) def.base_severity)
]

-- The judgment `finding.Judgment{ID: id}`.
abbrev pub bare_judgment : String → Judgment
bare_judgment id = record {
  id = id;
  asset = "";
  subject = record { kind = ""; key = ""; label = ""; provider_id = ""; person = "" };
  verdict = "";
  reason = "";
  reads = [];
  excerpt = "";
  not_checked = [];
  attributes = [];
  listed = [];
  of_note = [];
  sources = [];
  superseded = false;
  why = "";
  chain = none;
  facts = [];
}

if_moved : Chain → Option Chain
if_moved c = elim c.moves [ [] ↦ none | _ ∷ _ ↦ some c ]

-- `GradeHost`: `none` where no row applies, too.
unfoldable grade_host : Catalog → String → Severity → String → Declarations → Option Chain
unfolding if_moved
grade_host defs id sev owner d = elim (lookup defs id) [
  | none ↦ none
  | some def ↦
      if_moved (chain rules d (record { def = def; j = bare_judgment id; owner = owner }) sev)
]

-- One round of `GradeAll`.
unfoldable pub grade_one : Catalog → String → Declarations → Judgment → Judgment
grade_one defs owner d j =
    if not (j.verdict == "fired") || j.superseded then record j { chain = none } else record j {
      chain = grade defs (record j { chain = none }) (if j.asset == "" then owner else j.asset) d;
    }

-- `GradeAll`.
unfoldable pub grade_all : Catalog → List Judgment → String → Declarations → List Judgment
unfolding grade_one
grade_all defs js owner d = map (grade_one defs owner d) js
