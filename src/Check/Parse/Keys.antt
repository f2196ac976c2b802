-- ===== src/Check/Parse/Keys.antt =====
-- What a parsed output says of a key.
use scheck.Prelude.{
  String, ◌≡◌, refl, sym, ap, ◌∙◌, true, Option, none, some, List, [], ◌∷◌, ◌++◌, map_get, is_some,
  ◌==◌, string_eq, if◌then◌else◌, Bool-cases, inl, inr, arith,
}
use scheck.Check.Parse.{KvPatterns, lines_of, kv_line, add_pair, add_lines, pairs_of}

or_later : Option String → Option String → Option String
or_later none later = later
or_later (some v) later = some v

value_in : String → Option (String × String) → Option String
value_in key none = none
value_in key (some (k, v)) = if k == key then some v else none

-- The value of a key on the first line that has it.
first_value : KvPatterns → String → List String → Option String
first_value pats key [] = none
first_value pats key (l ∷ ls) = or_later (value_in key (kv_line pats l)) (first_value pats key ls)

map_get-append :
    (out : List (String × String)) (k v key : String)
    → map_get (out ++ (k, v) ∷ []) key ≡ or_later (map_get out key) (value_in key (some (k, v)))
unfolding or_later value_in
map_get-append [] k v key = refl
map_get-append ((j, w) ∷ out) k v key = elim (Bool-cases (j == key)) [
  | inl e ↦ rw e refl
  | inr e ↦ rw e (map_get-append out k v key)
]

kept_first :
    (o : Option String) (k v key : String)
    → ((k == key) ≡ true → is_some o ≡ true)
    → o ≡ or_later o (value_in key (some (k, v)))
unfolding or_later value_in
kept_first none k v key h = elim (Bool-cases (k == key)) [
  | inl e ↦ ground (arith, h e)
  | inr e ↦ rw e refl
]
kept_first (some w) k v key h = refl

or_later_empty : (o : Option String) → o ≡ or_later o none
unfolding or_later
or_later_empty none = refl
or_later_empty (some v) = refl

map_get-add_pair :
    (out : List (String × String)) (o : Option (String × String)) (key : String)
    → map_get (add_pair out o) key ≡ or_later (map_get out key) (value_in key o)
unfolding add_pair value_in
map_get-add_pair out none key = or_later_empty (map_get out key)
map_get-add_pair out (some (k, v)) key = elim (Bool-cases (is_some (map_get out k))) [
  | inl e ↦ rw e (
      kept_first (map_get out key) k v key
        (λ u. ap (λ x. is_some (map_get out x)) (sym ((string_eq.beq_iff k key).0 u)) ∙ e))
  | inr e ↦ rw e (map_get-append out k v key)
]

or_later_assoc : (a b c : Option String) → or_later (or_later a b) c ≡ or_later a (or_later b c)
unfolding or_later
or_later_assoc none b c = refl
or_later_assoc (some v) b c = refl

map_get-add_lines :
    (pats : KvPatterns) (out : List (String × String)) (ls : List String) (key : String)
    → map_get (add_lines pats out ls) key ≡ or_later (map_get out key) (first_value pats key ls)
unfolding add_lines first_value
map_get-add_lines pats out [] key = or_later_empty (map_get out key)
map_get-add_lines pats out (l ∷ ls) key =
    map_get-add_lines pats (add_pair out (kv_line pats l)) ls key
    ∙ ap (λ o. or_later o (first_value pats key ls)) (map_get-add_pair out (kv_line pats l) key)
    ∙ or_later_assoc (map_get out key) (value_in key (kv_line pats l)) (first_value pats key ls)

-- The value that a parsed output has for a key is that on the first of its lines that has the key, and a key that
-- no line has is missing.
map_get-pairs_of :
    (pats : KvPatterns) (text key : String)
    → map_get (pairs_of pats text) key ≡ first_value pats key (lines_of text)
unfolding pairs_of or_later
map_get-pairs_of pats text key = map_get-add_lines pats [] (lines_of text) key
