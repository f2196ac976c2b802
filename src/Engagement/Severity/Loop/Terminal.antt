-- ===== src/Engagement/Severity/Loop/Terminal.antt =====
-- A declared exposure is terminal: once a row has lowered a chain, no later row moves it.
use scheck.Prelude.{
  ◌≡◌, refl, ◌∙◌, false, Option, none, some, List, [], ◌∷◌, String, Bool-cases, inl, inr, ◌==◌,
  string_eq,
}
use scheck.Finding.Chain.{Ref}
use scheck.Engagement.Severity.Table.{Declarations, Instance, Rule, Match}
use scheck.Engagement.Severity.Loop.{
  say, State, not_taken, taken, unmatched, matched, applies_to, row_step, row_steps,
}

-- The severity and the key of the exposure are those of `s`.
record Same (s t : State) : Type 0 where
  severity : t.chain.severity ≡ s.chain.severity
  exposed : t.exposed ≡ s.exposed

module _ (d : Declarations) (i : Instance) where
  taken-Same :
      (s : State) (row : Rule) (ref : Ref) (why : String)
      → (s.exposed == "") ≡ false
      → Same s (taken d i s row ref why)
  unfolding taken say
  taken-Same s row ref why h = rw h (record { severity = refl; exposed = refl })

  not_taken-Same :
      (s : State) (name : String) (m : Match)
      → (s.exposed == "") ≡ false
      → Same s (not_taken s name m)
  unfolding not_taken
  not_taken-Same s name none h = record { severity = refl; exposed = refl }
  not_taken-Same s name (some (ref, why)) h = rw h (record { severity = refl; exposed = refl })

  unmatched-Same :
      (s : State) (name : String) (f : Option (Declarations → Instance → Match))
      → (s.exposed == "") ≡ false
      → Same s (unmatched d i s name f)
  unfolding unmatched
  unmatched-Same s name none h = record { severity = refl; exposed = refl }
  unmatched-Same s name (some f) h = not_taken-Same s name (f d i) h

  matched-Same :
      (s : State) (row : Rule) (m : Match)
      → (s.exposed == "") ≡ false
      → Same s (matched d i s row m)
  unfolding matched
  matched-Same s row none h = unmatched-Same s row.name row.not_applied h
  matched-Same s row (some (ref, why)) h = taken-Same s row ref why h

  row_step-Same : (s : State) (row : Rule) → (s.exposed == "") ≡ false → Same s (row_step d i s row)
  unfolding row_step
  row_step-Same s row h = elim (Bool-cases (applies_to row i.j.id)) [
    | inl e ↦ rw e (matched-Same s row (row.match d i) h)
    | inr e ↦ rw e (record { severity = refl; exposed = refl })
  ]

  -- After a row has lowered a chain, the remaining rows leave its severity.
  pub row_steps-terminal :
      (s : State) (rows : List Rule)
      → (s.exposed == "") ≡ false
      → (row_steps d i s rows).chain.severity ≡ s.chain.severity
  unfolding row_steps
  row_steps-terminal s [] h = refl
  row_steps-terminal s (row ∷ rows) h =
      let step = row_step-Same s row h in
      row_steps-terminal (row_step d i s row) rows (rw step.exposed h) ∙ step.severity
