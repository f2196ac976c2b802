-- ===== src/Finding/Chain.antt =====
-- internal/finding/chain.go: what a severity step rests on, the record of a step, and the one
-- function that moves a chain.
pub mod Rank
pub mod Linked
use scheck.Prelude.{
  String, Bool, false, not, ◌&&◌, Option, none, some, List, [], ◌∷◌, ◌++◌, ltb, ◌==◌, if◌then◌else◌,
}
use scheck.Prelude.Int.{ℤ, pos, ltb_ℤ}
use scheck.Finding.Severity.{Severity, high, rank, shift, max_sev, severity_eq}

-- `Ref`: a declaration of the engagement file, or a fact that a collector read.
pub record Ref : Type 0 where
  pub key : String
  pub observation : String
  pub excerpt : String

abbrev pub no_ref : Ref
no_ref = record { key = ""; observation = ""; excerpt = "" }

-- `Attribute`.
pub record Attribute : Type 0 where
  pub name : String
  pub asset : String
  pub ref : Ref

-- `AttributeRaise`.
pub record AttributeRaise : Type 0 where
  pub name : String
  pub delta : ℤ
  pub past_high : Bool
  pub why : String

-- The values of `Move.Stopped`; `moved` is the empty one.
pub data Stopped : Type 0 where
  moved scale_end past_high ceiling exposed not_established : Stopped

-- The values of `Move.By`.
pub data By : Type 0 where
  by_collector by_engagement : By

-- `Move`.
pub record Move : Type 0 where
  pub rule : String
  pub by : By
  pub delta : ℤ
  pub from : Severity
  pub to : Severity
  pub ref : Ref
  pub stopped : Stopped
  pub why : String

-- `Chain`.
pub record Chain : Type 0 where
  pub base : Severity
  pub severity : Severity
  pub moves : List Move

abbrev is_raise : ℤ → Bool
is_raise delta = ltb_ℤ (pos 0) delta

-- `ceiling != "" && next.Rank() > ceiling.Rank()`.
abbrev above_ceiling : Option Severity → Severity → Bool
above_ceiling none next = false
above_ceiling (some c) next = ltb (rank c) (rank next)

abbrev capped_at : Option Severity → Severity → Severity
capped_at none sev = sev
capped_at (some c) sev = max_sev sev c

-- The `switch` of `Chain.Step`: where the move ends and what stopped it.
unfoldable pub target : Severity → Move → Bool → Option Severity → Severity × Stopped
target sev m past ceil =
    let next = shift sev m.delta in
    if next == sev
    then (next, scale_end)
    else if is_raise m.delta && above_ceiling ceil next
    then (capped_at ceil sev, ceiling)
    else if is_raise m.delta && not past && ltb (rank high) (rank next)
    then (max_sev sev high, past_high)
    else (next, m.stopped)

-- `Chain.Step`: the chain with the move recorded, and whether the severity moved.
unfoldable pub step : Chain → Move → Bool → Option Severity → Chain × Bool
unfolding target
step c m past ceil =
    let (next, why) = target c.severity m past ceil in
    let recorded = record m { from = c.severity; to = next; stopped = why } in
    (record c { severity = next; moves = c.moves ++ recorded ∷ [] }, not (next == c.severity))
