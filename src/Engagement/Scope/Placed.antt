-- ===== src/Engagement/Scope/Placed.antt =====
-- Where a subject stands in the scope.
use scheck.Prelude.{
  ℕ, Bool, true, false, ◌&&◌, Option, none, some, List, [], ◌∷◌, any, find_first, is_some, ◌≡◌, ◌↔◌,
  refl, arith, is_some-find_first,
}
use scheck.Engagement.Gate.Answer.Permitted.{is_some-next_index}
use scheck.Engagement.Locator.{Ref, excludes}
use scheck.Engagement.Scope.{
  Scope, subject, stand, id_of, placed_under, exclude_of, place_subject, misplaced,
}

is_some-exclude_of :
    (xs : List Ref) (c : Ref) → is_some (exclude_of xs c) ≡ any (λ x. excludes x c) xs
unfolding exclude_of
is_some-exclude_of [] c = refl
is_some-exclude_of (x ∷ xs) c =
    ground (arith, is_some-exclude_of xs c, is_some-next_index (exclude_of xs c))

is_some-id_of : (o : Option Ref) → is_some (id_of o) ≡ is_some o
unfolding id_of
is_some-id_of none = refl
is_some-id_of (some r) = refl

misplaced-none :
    (b : Bool) (x : Option ℕ) → (misplaced b x ≡ none) ↔ ((b ≡ true) × (is_some x ≡ false))
unfolding misplaced
misplaced-none false x = ground arith
misplaced-none true none = ground arith
misplaced-none true (some i) = ground arith

-- What lets a subject pass: it stands under its asset and under a root, and no exclude covers it.
abbrev pub Passes : Scope → Ref → Ref → Type 0
Passes s a c =
    (placed_under c a ≡ true)
    × (any (placed_under c) s.roots ≡ true)
    × (any (λ x. excludes x c) s.exclude ≡ false)

-- A subject that parses is placed exactly if it stands under its asset and under a root, and no exclude covers it.
pub place_subject_iff :
    (s : Scope) (a c : Ref) → (place_subject s (some a) (some c) ≡ none) ↔ Passes s a c
unfolding place_subject subject stand
place_subject_iff s a c = ground (
  arith,
  misplaced-none (placed_under c a && is_some (id_of (find_first (placed_under c) s.roots)))
      (exclude_of s.exclude c),
  is_some-id_of (find_first (placed_under c) s.roots),
  is_some-find_first (placed_under c) s.roots,
  is_some-exclude_of s.exclude c,
)
