-- ===== src/Policy/Clean/Elements.antt =====
-- The elements of a cleaned absolute path: none is empty, `.` or `..`, and none holds a slash.
use mathlib.Core.List.{reverse_aux}
use scheck.Prelude.{
  String, ◌≡◌, refl, true, false, List, [], ◌∷◌, All, arith, ◌==◌, string_eq, Bool-cases, inl, inr,
  ◌||◌,
}
use scheck.Prelude.Strings.{has_prefix, split, Free}
use scheck.Prelude.Split.{split-Free}
use scheck.Policy.Clean.{pop, push, push_all, elements}

-- An element that is a name, and no step in the tree.
pub record IsName (e : String) : Type 0 where
  nonempty : (e == "") ≡ false
  no_dot : (e == ".") ≡ false
  no_parent : (e == "..") ≡ false
  pub no_slash : Free b'/' e

All-reverse_aux {ℓ κ} :
    {A : Type ℓ} (P : A → Type κ) (xs ys : List A) → All P xs → All P ys → All P (reverse_aux xs ys)
All-reverse_aux P [] ys _ k = k
All-reverse_aux P (x ∷ xs) ys (p, h) k = All-reverse_aux P xs (x ∷ ys) h (p, k)

pop-IsName : (stack : List String) → All IsName stack → All IsName (pop true stack)
unfolding pop
pop-IsName [] h = tt
pop-IsName (t ∷ stack) h = rw h.0.no_parent h.1

push-IsName :
    (stack : List String) (seg : String)
    → Free b'/' seg
    → All IsName stack
    → All IsName (push true stack seg)
unfolding push
push-IsName stack seg f h = elim (Bool-cases (seg == "" || seg == ".")) [
  | inl e ↦ rw e h
  | inr e ↦ elim (Bool-cases (seg == "..")) [
    | inl u ↦ rw (e, u) (pop-IsName stack h)
    | inr u ↦
        rw (e, u)
          (
            record { nonempty = ground arith; no_dot = ground arith; no_parent = u; no_slash = f },
            h,
          )
  ]
]

push_all-IsName :
    (stack segs : List String)
    → All (Free b'/') segs
    → All IsName stack
    → All IsName (push_all true stack segs)
unfolding push_all
push_all-IsName stack [] f h = h
push_all-IsName stack (seg ∷ segs) f h =
    push_all-IsName (push true stack seg) segs f.1 (push-IsName stack seg f.0 h)

-- A cleaned absolute path has no empty element and steps nowhere: no `..` is left for the tables.
pub elements-IsName : (p : String) → has_prefix p "/" ≡ true → All IsName (elements p)
unfolding elements
elements-IsName p h =
    rw h (All-reverse_aux IsName _ [] (push_all-IsName [] (split p b'/') (split-Free p b'/') tt) tt)

-- Names are pushed as they are.
pub push_all-names :
    (stack names : List String)
    → All IsName names
    → push_all true stack names ≡ reverse_aux names stack
unfolding push_all push
push_all-names stack [] h = refl
push_all-names stack (s ∷ names) h =
    rw (h.0.nonempty, h.0.no_dot, h.0.no_parent) (push_all-names (s ∷ stack) names h.1)
