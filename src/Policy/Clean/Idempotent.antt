-- ===== src/Policy/Clean/Idempotent.antt =====
-- Cleaning an absolute path twice is cleaning it once.
use mathlib.Core.List.{reverse, reverse-reverse}
use scheck.Prelude.{
  String, ◌≡◌, refl, sym, ap, ap₂, ◌∙◌, true, List, [], ◌∷◌, All, string_eq, string_ne→beq,
}
use scheck.Prelude.Strings.{◌+◌, has_prefix, split, join, Free}
use scheck.Prelude.Split.{split-join, split-cons, has_prefix-cons}
use scheck.Policy.Clean.{push_all, push, elements, clean}
use scheck.Policy.Clean.Elements.{IsName, elements-IsName, push_all-names}

abbrev rooted : List String → String
rooted names = "/" + join names "/"

names-Free : (names : List String) → All IsName names → All (Free b'/') names
names-Free [] h = tt
names-Free (s ∷ names) h = (h.0.no_slash, names-Free names h.1)

-- The elements of a path that is built from names are those names.
elements-rooted : (names : List String) → All IsName names → elements (rooted names) ≡ names
unfolding elements push_all push split join has_prefix
elements-rooted [] h = refl
elements-rooted (s ∷ names) h =
    let parts : split (rooted (s ∷ names)) b'/' ≡ "" ∷ s ∷ names =
      split-cons "/" (join (s ∷ names) "/")
      ∙ ap (◌∷◌ "") (split-join "/" s names (names-Free (s ∷ names) h)) in
    ap₂ (λ r xs. reverse (push_all r [] xs)) (has_prefix-cons "/" (join (s ∷ names) "/")) parts
    ∙ ap reverse (push_all-names [] (s ∷ names) h)
    ∙ reverse-reverse (s ∷ names)

clean-absolute : (p : String) → has_prefix p "/" ≡ true → clean p ≡ rooted (elements p)
unfolding clean has_prefix
clean-absolute String.[] h = cc
clean-absolute (String.◌∷◌ c s) h = rw (string_ne→beq (String.◌∷◌ c s) "" (λ e. cc), h)

-- Cleaning an absolute path twice is cleaning it once.
clean_idem : (p : String) → has_prefix p "/" ≡ true → clean (clean p) ≡ clean p
clean_idem p h =
    ap clean (clean-absolute p h)
    ∙ clean-absolute _ (has_prefix-cons "/" (join (elements p) "/"))
    ∙ ap rooted (elements-rooted (elements p) (elements-IsName p h))
    ∙ sym (clean-absolute p h)
