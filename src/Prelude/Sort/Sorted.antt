-- ===== src/Prelude/Sort/Sorted.antt =====
-- The stable sort orders its result, by any order of which not both `x < y` and `y < x` hold.
use scheck.Prelude.Tests.{Bool-cases}
use scheck.Prelude.Sort.{insert, sort_stable}
use mathlib.Core.Path.{◌≡◌}
use mathlib.Core.Logic.{inl, inr}
use mathlib.Core.Bool.{Bool, true, false}
use mathlib.Core.List.{List, [], ◌∷◌}

module _ {ℓ} {A : Type ℓ} (less : A → A → Bool) where
  -- The head of the list, if there is one, is not less than the element.
  abbrev pub Before : A → List A → Type 0
  Before x [] = Unit {0}
  Before x (y ∷ ys) = less y x ≡ false

  -- No element of the list is less than the one before it.
  abbrev pub IsSorted : List A → Type 0
  IsSorted [] = Unit {0}
  IsSorted (x ∷ xs) = Before x xs × IsSorted xs

  module _ (asym : (x y : A) → less x y ≡ true → less y x ≡ false) where
    insert-Before :
        (x y : A) (ys : List A) → less y x ≡ true → Before y ys → Before y (insert less x ys)
    unfolding insert
    insert-Before x y [] lt b = asym y x lt
    insert-Before x y (z ∷ zs) lt b = elim (Bool-cases (less z x)) [
      | inl e ↦ rw e b
      | inr e ↦ rw e (asym y x lt)
    ]

    insert-IsSorted : (x : A) (ys : List A) → IsSorted ys → IsSorted (insert less x ys)
    unfolding insert
    insert-IsSorted x [] h = (tt, tt)
    insert-IsSorted x (y ∷ ys) h = elim (Bool-cases (less y x)) [
      | inl e ↦ rw e (insert-Before x y ys e h.0, insert-IsSorted x ys h.1)
      | inr e ↦ rw e (e, h)
    ]

    pub sort_stable-IsSorted : (xs : List A) → IsSorted (sort_stable less xs)
    unfolding sort_stable
    sort_stable-IsSorted [] = tt
    sort_stable-IsSorted (x ∷ xs) =
        insert-IsSorted x (sort_stable less xs) (sort_stable-IsSorted xs)
