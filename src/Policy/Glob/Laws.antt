-- ===== src/Policy/Glob/Laws.antt =====
-- `glob` decides an inductive relation, in which no search order shows.
use Prim.Native.Char.{Char, code}
use scheck.Prelude.{
  String, ℕ, ◌≡◌, ◌≢◌, ◌↔◌, refl, sym, subst, Bool, true, false, ◌==◌, nat_eq, string_eq, arith,
  Bool-cases, inl, inr,
}
use scheck.Policy.Glob.{star, one, glob}

pub data Matches : String → String → Type 0 where
  empty : Matches String.[] String.[]
  same :
      {c d : Char} {p s : String}
      → code c ≢ b'*'
      → code c ≡ code d
      → Matches p s
      → Matches (String.◌∷◌ c p) (String.◌∷◌ d s)
  leave : {c : Char} {p s : String} → code c ≡ b'*' → Matches p s → Matches (String.◌∷◌ c p) s
  take :
      {c x : Char} {p s : String}
      → code c ≡ b'*'
      → code x ≢ b'/'
      → Matches (String.◌∷◌ c p) s
      → Matches (String.◌∷◌ c p) (String.◌∷◌ x s)

beq_nat : (a b : ℕ) → (a == b) ≡ true → a ≡ b
beq_nat a b = (nat_eq.beq_iff a b).0

ne_nat : (a b : ℕ) → (a == b) ≡ false → a ≢ b
ne_nat a b h e = ground arith

star-Matches :
    (c : Char) (p : String) (rest : String → Bool)
    → code c ≡ b'*'
    → ((s : String) → rest s ≡ true → Matches p s)
    → (s : String) → star rest s ≡ true
    → Matches (String.◌∷◌ c p) s
unfolding star
star-Matches c p rest e k String.[] h = leave e (k _ h)
star-Matches c p rest e k (String.◌∷◌ x s) h = elim (Bool-cases (rest (String.◌∷◌ x s))) [
  | inl r ↦ leave e (k _ r)
  | inr r ↦ take e (ground arith) (star-Matches c p rest e k s (ground arith))
]

one-Matches :
    (c : Char) (p : String) (rest : String → Bool)
    → code c ≢ b'*'
    → ((s : String) → rest s ≡ true → Matches p s)
    → (s : String) → one c rest s ≡ true
    → Matches (String.◌∷◌ c p) s
unfolding one
one-Matches c p rest n k String.[] h = cc
one-Matches c p rest n k (String.◌∷◌ d s) h = same n (ground arith) (k s (ground arith))

glob→Matches : (p s : String) → glob p s ≡ true → Matches p s
unfolding glob
glob→Matches String.[] s h = subst (Matches String.[]) (sym ((string_eq.beq_iff s "").0 h)) empty
glob→Matches (String.◌∷◌ c p) s h = elim (Bool-cases (code c == b'*')) [
  | inl e ↦ star-Matches c p (glob p) (beq_nat _ _ e) (glob→Matches p) s (rw e at h)
  | inr e ↦ one-Matches c p (glob p) (ne_nat _ _ e) (glob→Matches p) s (rw e at h)
]

star_leave : (rest : String → Bool) (s : String) → rest s ≡ true → star rest s ≡ true
unfolding star
star_leave rest String.[] h = h
star_leave rest (String.◌∷◌ c s) h = ground arith

star_take :
    (rest : String → Bool) (c : Char) (s : String)
    → code c ≢ b'/'
    → star rest s ≡ true
    → star rest (String.◌∷◌ c s) ≡ true
unfolding star
star_take rest c s n h = ground arith

Matches→glob : {p s : String} → Matches p s → glob p s ≡ true
unfolding glob one
Matches→glob empty = refl
Matches→glob (same {c} {d} {p} {s} n e m) = ground (arith, Matches→glob m)
Matches→glob (leave {c} {p} {s} e m) = ground (arith, star_leave (glob p) s, Matches→glob m)
Matches→glob (take {c} {x} {p} {s} e n m) = ground (arith, star_take (glob p) x s, Matches→glob m)

-- `glob` answers true exactly on the texts that the pattern matches.
pub glob_iff : (p s : String) → (glob p s ≡ true) ↔ Matches p s
glob_iff p s = (glob→Matches p s, Matches→glob)
