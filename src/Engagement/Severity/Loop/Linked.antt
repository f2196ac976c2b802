-- ===== src/Engagement/Severity/Loop/Linked.antt =====
-- The chain of a grading is a path from its start to its severity, under any table.
use scheck.Prelude.{◌≡◌, refl, List, [], ◌∷◌, arith}
use scheck.Finding.Severity.{Severity}
use scheck.Finding.Chain
use scheck.Finding.Chain.{Move, Chain, Stopped}
use scheck.Finding.Chain.Linked.{Linked, Linked-append}
use scheck.Engagement.Severity.Table.{Declarations, Instance, Rule}
use scheck.Engagement.Severity.Loop.{reword, map_last, step, say, chain}
use scheck.Engagement.Severity.Loop.Keeps.{chain-keeps_all}

reword_ends : (m : Move) → ((reword m).from ≡ m.from) × ((reword m).to ≡ m.to)
unfolding reword
reword_ends m = ground arith

-- Another wording of the last move leaves the path as it was.
Linked-map_last :
    (base sev : Severity) (ms : List Move)
    → Linked base ms sev
    → Linked base (map_last reword ms) sev
unfolding map_last
Linked-map_last base sev [] h = h
Linked-map_last base sev (m ∷ []) h = ground (arith, reword_ends m)
Linked-map_last base sev (m ∷ n ∷ ms) h = (h.0, Linked-map_last m.to sev (n ∷ ms) h.1)

-- Whatever the table, the declarations and the judgment, a grading is a path: it is based on the
-- severity where it starts, and its moves join that base to the severity where it ends.
pub chain-Linked :
    (table : List Rule) (d : Declarations) (i : Instance) (start : Severity)
    → ((chain table d i start).base ≡ start)
      × Linked start (chain table d i start).moves (chain table d i start).severity
chain-Linked table d i start =
    chain-keeps_all (λ c. (c.base ≡ start) × Linked start c.moves c.severity) i
      (λ c m past h.
        unfold step Chain.step in
        (h.0, Linked-map_last _ _ _ (Linked-append start c.severity c.moves _ h.1 refl)))
      (λ c m from to h.
        unfold say in (h.0, rw (← to) (Linked-append start c.severity c.moves m h.1 from)))
      table d start (refl, refl)
