-- ===== src/Engagement/Severity/Loop/Keeps.antt =====
-- What every step of a grading keeps: one induction rule over the two loops of `chain`, and the
-- invariants that follow from it, for any table.
use scheck.Prelude.{
  ◌≡◌, refl, Bool, true, Option, none, some, List, [], ◌∷◌, String, Bool-cases, inl, inr, ◌==◌,
  string_eq, All,
}
use scheck.Finding.Severity.{Severity}
use scheck.Finding.Chain.{Move, Chain, Ref, Attribute, AttributeRaise}
use scheck.Engagement.Severity.Table.{Declarations, Instance, Rule, Match, attribute}
use scheck.Engagement.Severity.Loop.{
  step, say, raise_with, raise_step, raise_steps, State, not_taken, taken, unmatched, matched,
  applies_to, row_step, row_steps, chain, start_chain, new_move,
}

-- The flag of a collector's step that the judgment sets off has `Q`.
abbrev pub RaiseHas : (Bool → Type 0) → Instance → AttributeRaise → Type 0
RaiseHas Q i r = (a : Attribute) → attribute i.j r.name ≡ some a → Q r.past_high

-- The flag of a row that applies has `Q`.
abbrev pub RowHas : (Bool → Type 0) → Declarations → Instance → Rule → Type 0
RowHas Q d i row =
    applies_to row i.j.id ≡ true → (a : Ref × String) → row.match d i ≡ some a → Q row.past_high

-- `P` holds of the chain that is graded from `start`, if it is kept by every step whose flag has `Q`
-- and by every move that is said and not taken, and if the flags of the steps taken have `Q`.
module _ (P : Chain → Type 0) (Q : Bool → Type 0) (i : Instance)
    (on_step : (c : Chain) (m : Move) (past : Bool) → Q past → P c → P (step c i.def m past))
    (on_say : (c : Chain) (m : Move)
      → m.from ≡ c.severity
      → m.to ≡ c.severity
      → P c
      → P (say c m)) where
  raise_with-keeps :
      (c : Chain) (r : AttributeRaise) (a : Option Attribute)
      → ((x : Attribute) → a ≡ some x → Q r.past_high)
      → P c
      → P (raise_with i c r a)
  unfolding raise_with
  raise_with-keeps c r none q h = h
  raise_with-keeps c r (some a) q h = on_step c _ r.past_high (q a refl) h

  raise_step-keeps : (c : Chain) (r : AttributeRaise) → RaiseHas Q i r → P c → P (raise_step i c r)
  unfolding raise_step
  raise_step-keeps c r q h = raise_with-keeps c r _ q h

  raise_steps-keeps :
      (c : Chain) (rs : List AttributeRaise) → All (RaiseHas Q i) rs → P c → P (raise_steps i c rs)
  unfolding raise_steps
  raise_steps-keeps c [] q h = h
  raise_steps-keeps c (r ∷ rs) q h =
      raise_steps-keeps (raise_step i c r) rs q.1 (raise_step-keeps c r q.0 h)

  not_taken-keeps :
      (s : State) (name : String) (m : Match) → P s.chain → P (not_taken s name m).chain
  unfolding not_taken new_move
  not_taken-keeps s name none h = h
  not_taken-keeps s name (some (ref, why)) h = elim (Bool-cases (s.exposed == "")) [
    | inl e ↦ rw e (on_say s.chain _ refl refl h)
    | inr e ↦ rw e h
  ]

  taken-keeps :
      (d : Declarations) (s : State) (row : Rule) (ref : Ref) (why : String)
      → Q row.past_high
      → P s.chain
      → P (taken d i s row ref why).chain
  unfolding taken new_move
  taken-keeps d s row ref why q h = elim (Bool-cases (s.exposed == "")) [
    | inl e ↦ elim (Bool-cases row.lower) [
      | inl l ↦ rw (e, l) (on_step s.chain _ row.past_high q h)
      | inr l ↦ rw (e, l) (on_step s.chain _ row.past_high q h)
    ]
    | inr e ↦ rw e (on_say s.chain _ refl refl h)
  ]

  matched-keeps :
      (d : Declarations) (s : State) (row : Rule) (m : Match)
      (f : Option (Declarations → Instance → Match))
      → ((a : Ref × String) → m ≡ some a → Q row.past_high)
      → P s.chain
      → P (matched d i s (record row { not_applied = f }) m).chain
  unfolding matched unmatched
  matched-keeps d s row none none q h = h
  matched-keeps d s row none (some f) q h = not_taken-keeps s row.name (f d i) h
  matched-keeps d s row (some (ref, why)) f q h = taken-keeps d s _ ref why (q (ref, why) refl) h

  row_step-keeps :
      (d : Declarations) (s : State) (row : Rule)
      → RowHas Q d i row
      → P s.chain
      → P (row_step d i s row).chain
  unfolding row_step
  row_step-keeps d s row q h = elim (Bool-cases (applies_to row i.j.id)) [
    | inl e ↦ rw e (matched-keeps d s row (row.match d i) row.not_applied (q e) h)
    | inr e ↦ rw e h
  ]

  row_steps-keeps :
      (d : Declarations) (s : State) (rows : List Rule)
      → All (RowHas Q d i) rows
      → P s.chain
      → P (row_steps d i s rows).chain
  unfolding row_steps
  row_steps-keeps d s [] q h = h
  row_steps-keeps d s (row ∷ rows) q h =
      row_steps-keeps d (row_step d i s row) rows q.1 (row_step-keeps d s row q.0 h)

  pub chain-keeps :
      (table : List Rule) (d : Declarations) (start : Severity)
      → All (RaiseHas Q i) i.def.attributes
      → All (RowHas Q d i) table
      → P (start_chain start)
      → P (chain table d i start)
  unfolding chain
  chain-keeps table d start q r h =
      row_steps-keeps d _ table r (raise_steps-keeps (start_chain start) i.def.attributes q h)

All-any {ℓ κ} : {A : Type ℓ} (P : A → Type κ) → ((x : A) → P x) → (xs : List A) → All P xs
All-any P f [] = tt
All-any P f (x ∷ xs) = (f x, All-any P f xs)

-- The rule for an invariant that every step keeps.
pub chain-keeps_all :
    (P : Chain → Type 0) (i : Instance)
    → ((c : Chain) (m : Move) (past : Bool) → P c → P (step c i.def m past))
    → ((c : Chain) (m : Move) → m.from ≡ c.severity → m.to ≡ c.severity → P c → P (say c m))
    → (table : List Rule) (d : Declarations) (start : Severity) → P (start_chain start)
    → P (chain table d i start)
chain-keeps_all P i on_step on_say table d start =
    chain-keeps P (λ _. Unit) i (λ c m past _. on_step c m past) on_say table d start
      (All-any _ (λ _ _ _. tt) i.def.attributes) (All-any _ (λ _ _ _ _. tt) table)
