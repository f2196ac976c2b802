-- ===== src/Engagement/Severity/Loop.antt =====
-- severity.go: `step` and `chain`, the loop that grades a judgment through the collector's steps and
-- then the rows of a table.
pub mod Keeps
pub mod Linked
pub mod Bounds
pub mod Terminal
use Prim.Native.Nat.{◌-◌}
use scheck.Prelude.{
  String, Bool, true, false, not, ◌&&◌, ◌||◌, Option, none, some, List, [], ◌∷◌, ◌++◌, contains,
  ◌==◌, string_eq, if◌then◌else◌,
}
use scheck.Prelude.Int.{ℤ, pos, sub_ℕ}
use scheck.Prelude.Strings.{◌+◌}
use scheck.Finding.Severity.{Severity, info, rank}
use scheck.Finding.Chain.{
  Ref, AttributeRaise, Attribute, no_ref, Stopped, Move, Chain, by_collector, by_engagement,
}
use scheck.Finding.Chain
use scheck.Finding.Catalog.{Def}
use scheck.Finding.Judgment.{Judgment}
use scheck.Engagement.Severity.Table.{Declarations, Instance, Rule, Match, attribute, ref_of}

-- `whyCeiling`.
abbrev why_ceiling : String
why_ceiling =
    "capped at high: the cloud firewall and the service's own sign-in were not read, so scheck cannot say anyone can use this now."

-- `finding.WhyPastHigh`.
unfoldable pub why_past_high : String → String
why_past_high rule =
    "capped at high by " + rule
    + ": critical means that anyone, or someone with no right to it, can use this now, or that you believe it is handled; "
    + rule + " says neither."

-- The `switch` of `step`, on the move that `Chain.Step` recorded.
pub reword : Move → Move
unfolding why_past_high
reword m = elim m.stopped [
  | Stopped.ceiling ↦ record m { why = why_ceiling }
  | Stopped.past_high ↦ record m { why = why_past_high m.rule }
  | Stopped.scale_end ↦ record m { why = "" }
  | _ ↦ m
]

pub map_last : (Move → Move) → List Move → List Move
map_last f [] = []
map_last f (m ∷ []) = f m ∷ []
map_last f (m ∷ n ∷ ms) = m ∷ map_last f (n ∷ ms)

-- `step`: one move, with the wording of a cap.
unfoldable pub step : Chain → Def → Move → Bool → Chain
unfolding reword map_last
step c def m past =
    let c' = (Chain.step c m past def.ceiling).0 in record c' { moves = map_last reword c'.moves }

-- The move as the caller builds it: `From`, `To` and `Stopped` are set by the step.
unfoldable pub new_move : Chain → String → Chain.By → ℤ → Ref → String → Move
new_move c rule by delta ref why = record {
  rule = rule;
  by = by;
  delta = delta;
  from = c.severity;
  to = c.severity;
  ref = ref;
  stopped = Stopped.moved;
  why = why;
}

-- The step of a raise whose attribute the judgment carries, or does not.
unfoldable pub raise_with : Instance → Chain → AttributeRaise → Option Attribute → Chain
unfolding new_move
raise_with i c raise none = c
raise_with i c raise (some a) =
    step c i.def
      (new_move c ("attribute:" + raise.name) by_collector raise.delta (ref_of i.j a.ref) raise.why)
      raise.past_high

-- One round over `def.Attributes`.
unfoldable pub raise_step : Instance → Chain → AttributeRaise → Chain
unfolding attribute raise_with step
raise_step i c raise = raise_with i c raise (attribute i.j raise.name)

pub raise_steps : Instance → Chain → List AttributeRaise → Chain
raise_steps i c [] = c
raise_steps i c (r ∷ rs) = raise_steps i (raise_step i c r) rs

-- The variables of the loop over the table: `exposed` is the key of the declaration that lowered the
-- chain, or empty.
pub record State : Type 0 where
  pub chain : Chain
  pub exposed : String

-- A step that is said and not taken.
unfoldable pub say : Chain → Move → Chain
say c m = record c { moves = c.moves ++ m ∷ [] }

pub not_taken : State → String → Match → State
not_taken s name none = s
not_taken s name (some (ref, why)) =
    if s.exposed == ""
    then record s {
      chain = say s.chain (record (new_move s.chain name by_engagement (pos 1) ref why) {
        stopped = Stopped.not_established;
      });
    }
    else s

-- A row whose `match` answered.
pub taken : Declarations → Instance → State → Rule → Ref → String → State
taken d i s row ref why =
    let m = new_move s.chain row.name by_engagement (pos 1) ref why in
    if not (s.exposed == "")
    then record s {
      chain = say s.chain (record m {
        stopped = Stopped.exposed;
        why = "not applied: declared exposed on purpose (" + s.exposed + ").";
      });
    }
    else if row.lower
    then record {
      chain =
          step s.chain i.def (record m { delta = sub_ℕ (rank info) (rank s.chain.severity) })
            row.past_high;
      exposed = ref.key;
    }
    else record s { chain = step s.chain i.def m row.past_high }

unfoldable pub applies_to : Rule → String → Bool
applies_to row id = elim row.ids [ none ↦ true | some ids ↦ contains ids id ]

pub unmatched :
    Declarations → Instance → State → String → Option (Declarations → Instance → Match) → State
unmatched d i s name none = s
unmatched d i s name (some f) = not_taken s name (f d i)

pub matched : Declarations → Instance → State → Rule → Match → State
matched d i s row none = unmatched d i s row.name row.not_applied
matched d i s row (some (ref, why)) = taken d i s row ref why

-- One round of the loop over the table.
unfoldable pub row_step : Declarations → Instance → State → Rule → State
unfolding say new_move step not_taken taken unmatched matched applies_to
row_step d i s row = if applies_to row i.j.id then matched d i s row (row.match d i) else s

pub row_steps : Declarations → Instance → State → List Rule → State
row_steps d i s [] = s
row_steps d i s (r ∷ rs) = row_steps d i (row_step d i s r) rs

abbrev pub start_chain : Severity → Chain
start_chain start = record { base = start; severity = start; moves = [] }

-- `chain`: the collector's steps, then the table's rows in order.
unfoldable pub chain : List Rule → Declarations → Instance → Severity → Chain
unfolding raise_steps raise_step row_steps row_step
chain table d i start =
    (row_steps d i
      (record { chain = raise_steps i (start_chain start) i.def.attributes; exposed = "" })
      table).chain
