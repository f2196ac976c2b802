-- ===== src/Engagement/Severity/Grading/Batch.antt =====
-- `GradeAll`: a batch of judgments, whose chains are the table's own, whatever they held before.
use scheck.Prelude.{
  String, ◌≡◌, refl, ap₂, not, ◌||◌, Option, List, [], ◌∷◌, map, ◌==◌, string_eq, Bool-cases, inl,
  inr,
}
use scheck.Finding.Chain.{Chain}
use scheck.Finding.Catalog.{Catalog}
use scheck.Finding.Judgment.{Judgment}
use scheck.Engagement.Severity.Table.{Declarations}
use scheck.Engagement.Severity.Grading.{grade_one, grade_all}

grade_one-chain :
    (defs : Catalog) (owner : String) (d : Declarations) (j : Judgment) (c : Option Chain)
    → grade_one defs owner d (record j { chain = c }) ≡ grade_one defs owner d j
unfolding grade_one
grade_one-chain defs owner d j c = refl

-- Another chain in each judgment.
abbrev pub with_chains : (Judgment → Option Chain) → List Judgment → List Judgment
with_chains f js = map {A = Judgment} (λ j. record j { chain = f j }) js

-- The chains that the judgments held before make no difference to the result: a collector never
-- grades.
grade_all-with_chains :
    (defs : Catalog) (js : List Judgment) (owner : String) (d : Declarations)
    (f : Judgment → Option Chain)
    → grade_all defs (with_chains f js) owner d ≡ grade_all defs js owner d
unfolding grade_all
grade_all-with_chains defs [] owner d f = refl
grade_all-with_chains defs (j ∷ js) owner d f =
    ap₂ ◌∷◌ (grade_one-chain defs owner d j (f j)) (grade_all-with_chains defs js owner d f)

grade_one_idem :
    (defs : Catalog) (owner : String) (d : Declarations) (j : Judgment)
    → grade_one defs owner d (grade_one defs owner d j) ≡ grade_one defs owner d j
unfolding grade_one
grade_one_idem defs owner d j = elim (Bool-cases (not (j.verdict == "fired") || j.superseded)) [
  | inl e ↦ rw e (rw e)
  | inr e ↦ rw e (rw e)
]

-- Grading a batch again changes nothing.
grade_all_idem :
    (defs : Catalog) (js : List Judgment) (owner : String) (d : Declarations)
    → grade_all defs (grade_all defs js owner d) owner d ≡ grade_all defs js owner d
unfolding grade_all
grade_all_idem defs [] owner d = refl
grade_all_idem defs (j ∷ js) owner d =
    ap₂ ◌∷◌ (grade_one_idem defs owner d j) (grade_all_idem defs js owner d)
