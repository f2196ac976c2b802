-- ===== src/Prelude/Sort.antt =====
-- `sort.SliceStable` and `slices.SortStableFunc`, as the stable insertion sort: Go documents the
-- result, a stable sort, and it is unique.
pub mod Sorted
pub mod Kept
use scheck.Prelude.Tests.{if◌then◌else◌}
use mathlib.Core.Bool.{Bool}
use mathlib.Core.List.{List, [], ◌∷◌}

module _ {ℓ} {A : Type ℓ} where
  -- `x` goes before the elements that are not less than it.
  unfoldable pub insert : (A → A → Bool) → A → List A → List A
  insert less x [] = x ∷ []
  insert less x (y ∷ ys) = if less y x then y ∷ insert less x ys else x ∷ y ∷ ys

  unfoldable pub sort_stable : (A → A → Bool) → List A → List A
  unfolding insert
  sort_stable less [] = []
  sort_stable less (x ∷ xs) = insert less x (sort_stable less xs)
