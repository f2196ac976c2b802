-- ===== src/Engagement/Severity/Loop/Bounds.antt =====
-- How high a grading can end: never above a definition's ceiling, and not above high unless a step
-- that may pass it applies.
use scheck.Prelude.{ℕ, ◌≤◌, ◌≡◌, Bool, false, Option, none, some, List, All, arith}
use scheck.Prelude.Int.{ℤ, pos, negsuc, ltb_ℤ, ◌+ℤ◌}
use scheck.Finding.Severity.{Severity, rank, clamp}
use scheck.Finding.Chain
use scheck.Finding.Chain.{Move, Chain}
use scheck.Finding.Chain.Rank.{rank-step}
use scheck.Engagement.Severity.Table.{Declarations, Instance, Rule}
use scheck.Engagement.Severity.Loop.{step, say, chain}
use scheck.Engagement.Severity.Loop.Keeps.{chain-keeps, chain-keeps_all, RaiseHas, RowHas}

-- What does not raise ends no higher.
clamp-le : (n : ℕ) (d : ℤ) → ltb_ℤ (pos 0) d ≡ false → clamp (pos n +ℤ d) ≤ n
unfolding clamp
clamp-le n (pos k) h = ground arith
clamp-le n (negsuc k) h = ground arith

-- A step under a ceiling stays under it.
step-le-ceiling :
    (c : Chain) (m : Move) (past : Bool) (top : Severity)
    → rank c.severity ≤ rank top
    → rank (Chain.step c m past (some top)).0.severity ≤ rank top
step-le-ceiling c m past top h =
    ground (arith, rank-step c m past (some top), clamp-le (rank c.severity) m.delta)

-- A definition's ceiling holds of every grading that starts under it: no attribute, row or
-- declaration passes it.
pub chain-le-ceiling :
    (table : List Rule) (d : Declarations) (i : Instance) (start top : Severity)
    → i.def.ceiling ≡ some top
    → rank start ≤ rank top
    → rank (chain table d i start).severity ≤ rank top
chain-le-ceiling table d i start top e h =
    chain-keeps_all (λ c. rank c.severity ≤ rank top) i
      (λ c m past k. unfold step in rw e (step-le-ceiling c m past top k))
      (λ c m from to k. unfold say in k) table d start h

step-le-high :
    (c : Chain) (m : Move) (ceil : Option Severity)
    → rank c.severity ≤ 3
    → rank (Chain.step c m false ceil).0.severity ≤ 3
step-le-high c m none h =
    ground (arith, rank-step c m false none, clamp-le (rank c.severity) m.delta)
step-le-high c m (some top) h =
    ground (arith, rank-step c m false (some top), clamp-le (rank c.severity) m.delta)

-- A grading that starts at high or below ends there, if no step that may pass high applies.
pub chain-le-high :
    (table : List Rule) (d : Declarations) (i : Instance) (start : Severity)
    → All (RaiseHas (λ past. past ≡ false) i) i.def.attributes
    → All (RowHas (λ past. past ≡ false) d i) table
    → rank start ≤ 3
    → rank (chain table d i start).severity ≤ 3
chain-le-high table d i start q r h =
    chain-keeps (λ c. rank c.severity ≤ 3) (λ past. past ≡ false) i
      (λ c m past e k. unfold step in rw e (step-le-high c m i.def.ceiling k))
      (λ c m from to k. unfold say in k) table d start q r h
