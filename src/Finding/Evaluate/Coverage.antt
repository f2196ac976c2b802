-- ===== src/Finding/Evaluate/Coverage.antt =====
-- The coverage record: one assessment for each rule of the platform.
use scheck.Prelude.{
  String, ◌≡◌, refl, ◌∙◌, sym, ap, some, List, [], ◌∷◌, ◌++◌, map, keep, Bool-cases, inl, inr,
}
use mathlib.Core.List.{append_assoc}
use scheck.Check.Catalog.{Check}
use scheck.Finding.Catalog.{Catalog}
use scheck.Finding.Posture.{Rule, FactSheet}
use scheck.Finding.Evaluate.{
  Assessment, Found, assess, add_rule, evaluate_rules, on_platform, sorted_rules, evaluate,
}

append_nil {ℓ} : {A : Type ℓ} (xs : List A) → xs ++ [] ≡ xs
append_nil [] = refl
append_nil (x ∷ xs) = ap (λ ys. x ∷ ys) (append_nil xs)

module _ (checks : List Check) (defs : Catalog) (disabled : List String) (sheet : FactSheet) where
  evaluate_rules-assess :
      (s : Found) (done : List Assessment) (rules : List Rule)
      → (evaluate_rules checks defs disabled sheet s done rules).1
        ≡ done ++ map (assess checks defs disabled sheet) (keep (on_platform sheet.platform) rules)
  unfolding evaluate_rules
  evaluate_rules-assess s done [] = sym (append_nil done)
  evaluate_rules-assess s done (rule ∷ rules) =
      elim (Bool-cases (on_platform sheet.platform rule)) [
        | inl e ↦ rw e (
            evaluate_rules-assess (add_rule checks defs disabled sheet s rule)
              (done ++ assess checks defs disabled sheet rule ∷ []) rules
            ∙ append_assoc done (assess checks defs disabled sheet rule ∷ [])
                (map (assess checks defs disabled sheet) (keep (on_platform sheet.platform) rules)))
        | inr e ↦ rw e (evaluate_rules-assess s done rules)
      ]

  -- Every rule of the host's platform has exactly one assessment, in the order of the sorted table, and no
  -- other rule has any.
  pub evaluate-assessments :
      (rules : List Rule)
      → (evaluate checks defs rules disabled (some sheet)).assessments
        ≡ map
            (assess checks defs disabled sheet)
            (keep (on_platform sheet.platform) (sorted_rules rules))
  unfolding evaluate
  evaluate-assessments rules =
      evaluate_rules-assess (record { findings = []; by_id = [] }) [] (sorted_rules rules)
