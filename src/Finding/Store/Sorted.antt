-- ===== src/Finding/Store/Sorted.antt =====
-- internal/finding/store.go: the order in which `Store.Result` lists the findings.
use Prim.Native.Nat.{Ordering}
use Prim.Native.String.{compare}
use scheck.Prelude.{
  true, false, ◌≡◌, ◌≢◌, sym, ◌∙◌, ◌<◌, ◌⊎◌, inl, inr, List, [], ◌∷◌, string_eq, arith, Bool-cases,
  All,
}
use scheck.Prelude.Strings.Order.{compare_trans}
use scheck.Prelude.Sort.Sorted.{IsSorted, sort_stable-IsSorted}
use scheck.Finding.Severity.{rank, severity_eq}
use scheck.Finding.Report.{Finding, is_open}
use scheck.Finding.Evaluate.Order.{finding_less_asym, finding_less-false}
use scheck.Finding.Store.{Store, result, result_less}

-- The first finding may stand before the second: it is open and the second is not, or they are alike in this and
-- it is more serious, or they are of the same severity and its id is not the greater.
abbrev pub MayPrecede : Finding → Finding → Type 0
MayPrecede a b =
    ((is_open a.status ≡ true) × (is_open b.status ≡ false))
    ⊎ ((is_open a.status ≡ is_open b.status)
        × ((rank b.severity < rank a.severity)
            ⊎ ((a.severity ≡ b.severity) × (compare b.id a.id ≢ Ordering.lt))))

-- Every finding may precede each one behind it.
abbrev pub IsOrdered : List Finding → Type 0
IsOrdered [] = Unit {0}
IsOrdered (x ∷ xs) = All (MayPrecede x) xs × IsOrdered xs

result_less_asym : (a b : Finding) → result_less a b ≡ true → result_less b a ≡ false
unfolding result_less
result_less_asym a b h = ground (arith, h, finding_less_asym a b)

less-MayPrecede : (a b : Finding) → result_less b a ≡ false → MayPrecede a b
unfolding result_less
less-MayPrecede a b h = elim (Bool-cases (is_open a.status)) [
  | inl e ↦ elim (Bool-cases (is_open b.status)) [
    | inl f ↦ inr (e ∙ sym f, finding_less-false a b (rw (e, f) at h))
    | inr f ↦ inl (e, f)
  ]
  | inr e ↦ elim (Bool-cases (is_open b.status)) [
    | inl f ↦ absurd (true-ne-false (rw (e, f) at h))
    | inr f ↦ inr (e ∙ sym f, finding_less-false a b (rw (e, f) at h))
  ]
]
  where
    true-ne-false : true ≢ false
    true-ne-false e = cc

MayPrecede-trans : (a b c : Finding) → MayPrecede a b → MayPrecede b c → MayPrecede a c
MayPrecede-trans a b c h k = ground (arith, h, k, compare_trans a.id b.id c.id)

behind :
    (x y : Finding) (ys : List Finding)
    → MayPrecede x y
    → All (MayPrecede y) ys
    → All (MayPrecede x) ys
behind x y [] h k = tt
behind x y (z ∷ zs) h k = (MayPrecede-trans x y z h k.0, behind x y zs h k.1)

-- Where no two neighbours stand the wrong way round, no two findings do.
sorted-IsOrdered : (xs : List Finding) → IsSorted result_less xs → IsOrdered xs
sorted-IsOrdered [] h = tt
sorted-IsOrdered (x ∷ []) h = (tt, tt)
sorted-IsOrdered (x ∷ y ∷ ys) h =
    let rest = sorted-IsOrdered (y ∷ ys) h.1 in
    let first = less-MayPrecede x y h.0 in ((first, behind x y ys first rest.0), rest)

-- In the result's list each finding stands before all that it should precede: the open ones before those that
-- are not, among those alike in this the more serious before the less serious, and among those of one severity
-- none behind another whose id is greater.
pub result-IsOrdered : (s : Store) → IsOrdered (result s).0
unfolding result
result-IsOrdered s = sorted-IsOrdered _ (sort_stable-IsSorted result_less result_less_asym _)
