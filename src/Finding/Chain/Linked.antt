-- ===== src/Finding/Chain/Linked.antt =====
-- A severity chain is a path: each move starts where the one before it ended, the first at the
-- base and the last at the severity.
use scheck.Prelude.{◌≡◌, ◌↔◌, ◌≢◌, refl, Bool, true, Option, List, [], ◌∷◌, ◌++◌, arith}
use scheck.Finding.Severity.{Severity, severity_beq_iff, severity_eq}
use scheck.Finding.Chain.{Move, Chain, target, step}

abbrev pub Linked : Severity → List Move → Severity → Type 0
Linked base [] sev = base ≡ sev
Linked base (m ∷ ms) sev = (m.from ≡ base) × Linked m.to ms sev

abbrev pub IsLinked : Chain → Type 0
IsLinked c = Linked c.base c.moves c.severity

-- One more move, from where a linked list of moves ends.
pub Linked-append :
    (base sev : Severity) (ms : List Move) (m : Move)
    → Linked base ms sev
    → m.from ≡ sev
    → Linked base (ms ++ m ∷ []) m.to
Linked-append base sev [] m h e = (cc, refl)
Linked-append base sev (x ∷ ms) m h e = (h.0, Linked-append x.to sev ms m h.1 e)

-- A step keeps a linked chain linked, and changes no base.
step-IsLinked :
    (c : Chain) (m : Move) (past : Bool) (ceil : Option Severity)
    → IsLinked c
    → IsLinked (step c m past ceil).0
unfolding step
step-IsLinked c m past ceil h = Linked-append c.base c.severity c.moves _ h refl

-- The flag that a step returns says whether the severity changed.
step-moved :
    (c : Chain) (m : Move) (past : Bool) (ceil : Option Severity)
    → ((step c m past ceil).1 ≡ true) ↔ ((step c m past ceil).0.severity ≢ c.severity)
unfolding step
step-moved c m past ceil =
    ground (arith, severity_beq_iff (target c.severity m past ceil).0 c.severity)
