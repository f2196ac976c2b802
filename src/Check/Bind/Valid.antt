-- ===== src/Check/Bind/Valid.antt =====
-- What binding makes of an argument list.
use scheck.Prelude.{
  String, ◌≡◌, refl, subst, Bool, true, false, not, ◌||◌, Option, none, some, List, [], ◌∷◌, any,
  contains, map_get, ◌==◌, string_eq, Bool-cases, inl, inr, arith,
}
use scheck.Prelude.Int.{ℤ, ltb_ℤ}
use scheck.Prelude.Strings.{has_prefix, split}
use scheck.Check.Catalog.{
  Check, Param, Kind, kind_path, kind_enum, kind_int, kind_ident, other_kind,
}
use scheck.Check.Bind.{
  Bound, bound, failed, ◌>>=◌, placeholder, path_chars, ident_chars, validate_path, atoi, within,
  by_kind, validate_param, declared, is_declared, given_value, bind_token, bind_tokens, bind,
}

-- The value of a declared parameter is as its kind asks.
pub data IsValid (p : Param) (val : String) : Type 0 where
  a_path :
      p.kind ≡ kind_path
      → path_chars val ≡ true
      → has_prefix val "/" ≡ true
      → contains (split val b'/') ".." ≡ false
      → IsValid p val
  an_ident : p.kind ≡ kind_ident → ident_chars val ≡ true → IsValid p val
  an_int :
      (n : ℤ)
      → p.kind ≡ kind_int
      → atoi val ≡ some n
      → ltb_ℤ n p.lowest ≡ false
      → ltb_ℤ p.highest n ≡ false
      → IsValid p val
  a_choice : p.kind ≡ kind_enum → contains p.values val ≡ true → IsValid p val

-- The token is a literal and is kept, or it names a parameter, and the value given for that is valid and takes its
-- place.
pub data Fills (c : Check) (params : List (String × String)) (tok val : String) : Type 0 where
  literal : placeholder tok ≡ "" → val ≡ tok → Fills c params tok val
  value :
      map_get params (placeholder tok) ≡ some val
      → IsValid (declared c (placeholder tok)) val
      → Fills c params tok val

-- Token by token, and as many.
abbrev pub AllFill : Check → List (String × String) → List String → List String → Type 0
AllFill c params [] [] = Unit
AllFill c params (tok ∷ toks) (val ∷ vals) = Fills c params tok val × AllFill c params toks vals
AllFill c params _ _ = ⊥

abbrev pub Ensures {ℓ κ} : {A : Type ℓ} → (A → Type κ) → Bound A → Type κ
Ensures P (bound a) = P a
Ensures P (failed e) = Unit

Ensures-bind {ℓ κ μ} :
    {A : Type ℓ} {B : Type κ} (P : B → Type μ) (v : Bound A) (f : A → Bound B)
    → ((a : A) → v ≡ bound a → Ensures P (f a))
    → Ensures P (v >>= f)
Ensures-bind P (bound a) f h = h a refl
Ensures-bind P (failed e) f h = tt

validate_path-IsValid :
    (p : Param) (val : String)
    → p.kind ≡ kind_path
    → Ensures (λ ok. IsValid p val) (validate_path val)
unfolding validate_path
validate_path-IsValid p val k = elim (Bool-cases (path_chars val)) [
  | inl e ↦ elim (Bool-cases (has_prefix val "/")) [
    | inl u ↦ elim (Bool-cases (contains (split val b'/') "..")) [
      | inl v ↦ rw (e, u, v) tt
      | inr v ↦ rw (e, u, v) (IsValid.a_path k e u v)
    ]
    | inr u ↦ rw (e, u) tt
  ]
  | inr e ↦ rw e tt
]

within-IsValid :
    (p : Param) (val : String) (o : Option ℤ)
    → p.kind ≡ kind_int
    → atoi val ≡ o
    → Ensures (λ ok. IsValid p val) (within p o)
unfolding within
within-IsValid p val none k e = tt
within-IsValid p val (some n) k e = elim (Bool-cases (ltb_ℤ n p.lowest || ltb_ℤ p.highest n)) [
  | inl u ↦ rw u tt
  | inr u ↦ rw u (IsValid.an_int n k e (ground (arith, u)) (ground (arith, u)))
]

by_kind-IsValid :
    (kind : Kind) (p : Param) (val : String)
    → p.kind ≡ kind
    → Ensures (λ ok. IsValid p val) (by_kind kind p val)
unfolding by_kind
by_kind-IsValid kind_path p val k = validate_path-IsValid p val k
by_kind-IsValid kind_int p val k = within-IsValid p val (atoi val) k refl
by_kind-IsValid kind_ident p val k = elim (Bool-cases (ident_chars val)) [
  | inl e ↦ rw e (IsValid.an_ident k e)
  | inr e ↦ rw e tt
]
by_kind-IsValid kind_enum p val k = elim (Bool-cases (contains p.values val)) [
  | inl e ↦ rw e (IsValid.a_choice k e)
  | inr e ↦ rw e tt
]
by_kind-IsValid other_kind p val k = tt

validate_param-IsValid :
    (p : Param) (val : String) (ok : Bool) → validate_param p val ≡ bound ok → IsValid p val
unfolding validate_param
validate_param-IsValid p val ok e =
    subst (Ensures (λ x. IsValid p val)) e (by_kind-IsValid p.kind p val refl)

given_value-Fills :
    (c : Check) (params : List (String × String)) (tok : String) (o : Option String)
    → map_get params (placeholder tok) ≡ o
    → Ensures (Fills c params tok) (given_value (declared c (placeholder tok)) o)
unfolding given_value
given_value-Fills c params tok none e = tt
given_value-Fills c params tok (some val) e =
    Ensures-bind (Fills c params tok) (validate_param (declared c (placeholder tok)) val) _
      λ ok h. Fills.value e (validate_param-IsValid (declared c (placeholder tok)) val ok h)

bind_token-Fills :
    (c : Check) (params : List (String × String)) (tok : String)
    → Ensures (Fills c params tok) (bind_token c params tok)
unfolding bind_token
bind_token-Fills c params tok = elim (Bool-cases (placeholder tok == "")) [
  | inl e ↦ rw e (Fills.literal ((string_eq.beq_iff (placeholder tok) "").0 e) refl)
  | inr e ↦ rw e (given_value-Fills c params tok (map_get params (placeholder tok)) refl)
]

bind_tokens-AllFill :
    (c : Check) (params : List (String × String)) (toks : List String)
    → Ensures (AllFill c params toks) (bind_tokens c params toks)
unfolding bind_tokens
bind_tokens-AllFill c params [] = tt
bind_tokens-AllFill c params (tok ∷ toks) =
    Ensures-bind (AllFill c params (tok ∷ toks)) (bind_token c params tok) _ λ val e.
      Ensures-bind (AllFill c params (tok ∷ toks)) (bind_tokens c params toks) _ λ vals g. (
        subst (Ensures (Fills c params tok)) e (bind_token-Fills c params tok),
        subst (Ensures (AllFill c params toks)) g (bind_tokens-AllFill c params toks),
      )

-- An argument list that binding returns has the check's tokens, one for one: each literal as it is, and each
-- placeholder replaced by the value given for it, which is valid for the parameter that the check declares; a path
-- is absolute, without `..`, and of the permitted characters.
pub bind-AllFill :
    (c : Check) (params : List (String × String))
    → Ensures (AllFill c params c.argv) (bind c params)
unfolding bind
bind-AllFill c params = elim (Bool-cases (any (λ nv. not (is_declared c nv.0)) params)) [
  | inl e ↦ rw e tt
  | inr e ↦ rw e (bind_tokens-AllFill c params c.argv)
]
