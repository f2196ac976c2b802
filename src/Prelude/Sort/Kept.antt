-- ===== src/Prelude/Sort/Kept.antt =====
-- Sorting keeps what is there.
use scheck.Prelude.Lists.{any}
use scheck.Prelude.Sort.{insert, sort_stable}
use mathlib.Core.Path.{◌≡◌, refl}
use mathlib.Core.Bool.{Bool, ◌||◌}
use mathlib.Core.List.{List, [], ◌∷◌}
use native.Mathlib.Omega.{arith}

any-insert {ℓ} :
    {A : Type ℓ} (less : A → A → Bool) (p : A → Bool) (x : A) (xs : List A)
    → any p (insert less x xs) ≡ (p x || any p xs)
unfolding insert
any-insert less p x [] = refl
any-insert less p x (y ∷ ys) = ground (arith, any-insert less p x ys)

pub any-sort_stable {ℓ} :
    {A : Type ℓ} (less : A → A → Bool) (p : A → Bool) (xs : List A)
    → any p (sort_stable less xs) ≡ any p xs
unfolding sort_stable
any-sort_stable less p [] = refl
any-sort_stable less p (x ∷ xs) =
    ground (arith, any-insert less p x (sort_stable less xs), any-sort_stable less p xs)
