-- ===== src/Prelude/Split.antt =====
-- `split` and `join` at one separator undo one another.
use Prim.Native.Char.{Char, code}
use Prim.Native.String.append
use Prim.Native.Nat.{ℕ}
use Prim.Native.String.{String}
use mathlib.Core.Path.{◌≡◌, refl, ap, ◌∙◌}
use mathlib.Core.Logic.{◌≢◌, inl, inr}
use mathlib.Core.Bool.{true, false}
use mathlib.Core.List.{List, [], ◌∷◌}
use native.Mathlib.Omega.{arith}
use scheck.Prelude.Tests.{◌==◌, nat_eq, string_eq, string_ne→beq, Bool-cases}
use scheck.Prelude.Lists.{All}
use scheck.Prelude.Strings.{◌+◌, split, join, cons_head, Free, has_prefix}

-- Every part of a split text is free of the separator.
cons_head-Free :
    (sep : ℕ) (c : Char) (parts : List String)
    → code c ≢ sep
    → All (Free sep) parts
    → All (Free sep) (cons_head c parts)
unfolding cons_head
cons_head-Free sep c [] n h = ((n, tt), tt)
cons_head-Free sep c (s ∷ rest) n h = ((n, h.0), h.1)

pub split-Free : (s : String) (sep : ℕ) → All (Free sep) (split s sep)
unfolding split
split-Free String.[] sep = (tt, tt)
split-Free (String.◌∷◌ c s) sep = elim (Bool-cases (code c == sep)) [
  | inl e ↦ rw e (tt, split-Free s sep)
  | inr e ↦ rw e (cons_head-Free sep c (split s sep) (λ p. ground arith) (split-Free s sep))
]

-- A text that is free of the separator is one part.
split_one : (s : String) (sep : ℕ) → Free sep s → split s sep ≡ s ∷ []
unfolding split cons_head
split_one String.[] sep h = refl
split_one (String.◌∷◌ c s) sep h = ground (arith, split_one s sep)

-- The first part ends at the first separator.
split-append :
    (s : String) (c : Char) (t : String) (sep : ℕ)
    → Free sep s
    → code c ≡ sep
    → split (s + String.◌∷◌ c t) sep ≡ s ∷ split t sep
unfolding split cons_head
split-append String.[] c t sep h e =
    ap (λ x. split x sep) (append.nil (String.◌∷◌ c t)) ∙ ground arith
split-append (String.◌∷◌ d s) c t sep h e =
    ap (λ x. split x sep) (append.cons d s (String.◌∷◌ c t))
    ∙ ground (arith, split-append s c t sep)

pub one_char-append : (c : Char) (t : String) → String.◌∷◌ c String.[] + t ≡ String.◌∷◌ c t
one_char-append c t = append.cons c String.[] t ∙ ap (String.◌∷◌ c) (append.nil t)

-- A list of parts that are free of the separator comes back from its join.
pub split-join :
    (c : Char) (s : String) (rest : List String)
    → All (Free (code c)) (s ∷ rest)
    → split (join (s ∷ rest) (String.◌∷◌ c String.[])) (code c) ≡ s ∷ rest
unfolding join
split-join c s [] h = split_one s (code c) h.0
split-join c s (t ∷ rest) h =
    ap (λ x. split (s + x) (code c)) (one_char-append c (join (t ∷ rest) (String.◌∷◌ c String.[])))
    ∙ split-append s c _ (code c) h.0 refl
    ∙ ap (◌∷◌ s) (split-join c t rest h.1)

-- A separator in front is one more, empty part.
pub split-cons :
    (c : Char) (t : String) → split (String.◌∷◌ c String.[] + t) (code c) ≡ "" ∷ split t (code c)
unfolding split
split-cons c t = ap (λ x. split x (code c)) (one_char-append c t) ∙ ground arith

pub has_prefix-cons :
    (c : Char) (t : String)
    → has_prefix (String.◌∷◌ c String.[] + t) (String.◌∷◌ c String.[]) ≡ true
unfolding has_prefix
has_prefix-cons c t =
    ap (λ x. has_prefix x (String.◌∷◌ c String.[])) (one_char-append c t) ∙ ground arith

nonempty-cons : (c : Char) (t : String) → (String.◌∷◌ c String.[] + t == "") ≡ false
nonempty-cons c t =
    ap (λ x. x == "") (one_char-append c t) ∙ string_ne→beq (String.◌∷◌ c t) "" (λ e. cc)

pub nonempty-append : (c : Char) (s t : String) → (String.◌∷◌ c s + t == "") ≡ false
nonempty-append c s t =
    ap (λ x. x == "") (append.cons c s t) ∙ string_ne→beq (String.◌∷◌ c (s + t)) "" (λ e. cc)
