-- ===== src/Engagement/Gate/Limiter/Balanced.antt =====
-- The slots that a request takes and gives back.
use Prim.Native.Nat.{◌-◌}
use scheck.Prelude.{
  String, ℕ, ◌+◌, ◌≡◌, refl, sym, ap, ◌≤◌, Bool, true, false, Option, none, some, List, [], ◌∷◌,
  map_get, ltb, ◌==◌, string_eq, if◌then◌else◌, Bool-cases, Option-cases, inl, inr, arith,
}
use scheck.Engagement.Gate.Limiter.{
  Limiter, Limiters, new_limiter, start_at, take_tick, release, Wait, served, ended, ended_asleep,
  acquire, or_new, get, put, acquire_key, release_found, release_key, release_all, Provider,
  asset_ceiling, on_start, take_provider, after_asset, by_ceiling, throttle,
}

held_by : Option Limiter → ℕ
held_by none = 0
held_by (some l) = l.held

-- How many slots of the limiter of a key are taken.
pub held_of : Limiters → String → ℕ
held_of ls key = held_by (map_get ls key)

one : Bool → ℕ
one true = 1
one false = 0

-- How often a key stands among those that were taken.
pub count_of : String → List String → ℕ
count_of key [] = 0
count_of key (k ∷ ks) = one (k == key) + count_of key ks

-- The keys that a call of `throttle` leaves taken.
pub taken_by : Option (List String) → List String
taken_by none = []
taken_by (some ks) = ks

held_of-put :
    (ls : Limiters) (k : String) (l : Limiter) (key : String)
    → held_of (put ls k l) key ≡ (if k == key then l.held else held_of ls key)
unfolding held_of put held_by
held_of-put ls k l key = elim (Bool-cases (k == key)) [ inl e ↦ rw e refl | inr e ↦ rw e refl ]

held_of-eq : (ls : Limiters) (k key : String) → (k == key) ≡ true → held_of ls k ≡ held_of ls key
held_of-eq ls k key e = ap (held_of ls) ((string_eq.beq_iff k key).0 e)

get-held :
    (ls : Limiters) (k : String) (rate : Option ℕ) (conc : ℕ)
    → (get ls k rate conc).held ≡ held_of ls k
unfolding get or_new held_of held_by new_limiter
get-held ls k rate conc = elim (Option-cases (map_get ls k)) [
  | inl e ↦ rw e refl
  | inr (l, e) ↦ rw e refl
]

given : Option ℕ → ℕ
given none = 0
given (some s) = 1

acquire-held :
    (l : Limiter) (w : Wait) (t : ℕ) → (acquire l w t).0.held ≡ l.held + given (acquire l w t).1
unfolding acquire take_tick release given
acquire-held l ended t = omega arith
acquire-held l served t = omega arith
acquire-held l ended_asleep t = elim (Bool-cases (ltb t (start_at l t))) [
  | inl e ↦ rw e (omega arith)
  | inr e ↦ rw e (omega arith)
]

module _ (ls : Limiters) (k : String) (rate : Option ℕ) (conc : ℕ) (w : Wait) (t : ℕ) where
  held_of-acquire_key :
      (key : String)
      → held_of (acquire_key ls k rate conc w t).0 key
        ≡ held_of ls key + (if k == key then given (acquire_key ls k rate conc w t).1 else 0)
  unfolding acquire_key
  held_of-acquire_key key = elim (Bool-cases (k == key)) [
    | inl e ↦ rw (held_of-put, e, acquire-held, get-held, held_of-eq ls k key e) refl
    | inr e ↦ rw (held_of-put, e) (omega arith)
  ]

held_of-release_found :
    (ls : Limiters) (k key : String) (o : Option Limiter)
    → map_get ls k ≡ o
    → held_of (release_found ls k o) key ≡ held_of ls key - one (k == key)
unfolding release_found release held_of held_by one put
held_of-release_found ls k key none e = elim (Bool-cases (k == key)) [
  | inl u ↦ rw (u, sym ((string_eq.beq_iff k key).0 u), e) refl
  | inr u ↦ rw u (omega arith)
]
held_of-release_found ls k key (some l) e = elim (Bool-cases (k == key)) [
  | inl u ↦ rw (u, sym ((string_eq.beq_iff k key).0 u), e) refl
  | inr u ↦ rw u (omega arith)
]

held_of-release_key :
    (ls : Limiters) (k key : String)
    → held_of (release_key ls k) key ≡ held_of ls key - one (k == key)
unfolding release_key
held_of-release_key ls k key = held_of-release_found ls k key (map_get ls k) refl

held_of-release_all :
    (ls : Limiters) (ks : List String) (key : String)
    → held_of (release_all ls ks) key ≡ held_of ls key - count_of key ks
unfolding release_all count_of
held_of-release_all ls [] key = omega arith
held_of-release_all ls (k ∷ ks) key =
    omega (arith, held_of-release_all (release_key ls k) ks key, held_of-release_key ls k key)

-- The slots are those of before, and those that the result says are taken.
Adds : Limiters → List String → Limiters × Option (List String) → Type 0
Adds ls extra r =
    (key : String)
    → held_of r.0 key + count_of key extra ≡ held_of ls key + count_of key (taken_by r.1)

on_start-Adds :
    (ls : Limiters) (taken : List String) (k : String) (ls' : Limiters) (o : Option ℕ)
    → ((key : String) → held_of ls' key ≡ held_of ls key + (if k == key then given o else 0))
    → ((key : String) → count_of key taken ≤ held_of ls key)
    → Adds ls taken (on_start taken k (ls', o))
unfolding on_start Adds taken_by count_of given one
on_start-Adds ls taken k ls' none h le key =
    ground (arith, h key, le key, held_of-release_all ls' taken key)
on_start-Adds ls taken k ls' (some s) h le key = ground (arith, h key)

take_provider-Adds :
    (ls : Limiters) (taken : List String) (prov : Provider) (k : String) (w : Wait) (t : ℕ)
    → ((key : String) → count_of key taken ≤ held_of ls key)
    → Adds ls taken (take_provider ls taken prov k w t)
unfolding take_provider Adds taken_by
take_provider-Adds ls taken prov k w t le key = elim (Bool-cases prov.web) [
  | inl e ↦ rw e refl
  | inr e ↦ rw e (
      on_start-Adds ls taken k _ _ (held_of-acquire_key ls k prov.rate prov.concurrency w t) le key)
]

after_asset-Adds :
    (ls ls' : Limiters) (o : Option ℕ) (asset : String) (prov : Provider) (k : String) (w : Wait)
    (t : ℕ)
    → ((key : String) → held_of ls' key ≡ held_of ls key + (if asset == key then given o else 0))
    → Adds ls [] (after_asset (ls', o) asset prov k w t)
unfolding after_asset Adds taken_by count_of given one
after_asset-Adds ls ls' none asset prov k w t h key = ground (arith, h key)
after_asset-Adds ls ls' (some s) asset prov k w t h key =
    ground
      (arith, h key, take_provider-Adds ls' (asset ∷ []) prov k w t (λ x. ground (arith, h x)) key)

zero_le : (x : String) {n : ℕ} → count_of x [] ≤ n
unfolding count_of
zero_le x = omega arith

by_ceiling-Adds :
    (c : Option (Option ℕ × ℕ)) (ls : Limiters) (asset key : String) (prov : Provider) (w : Wait)
    (t : ℕ) (v : Wait) (u : ℕ)
    → Adds ls [] (by_ceiling c ls asset key prov w t v u)
unfolding by_ceiling
by_ceiling-Adds none ls asset key prov w t v u =
    take_provider-Adds ls [] prov key v u (λ x. zero_le x)
by_ceiling-Adds (some c) ls asset key prov w t v u =
    after_asset-Adds ls _ _ asset prov key v u (held_of-acquire_key ls asset c.0 c.1 w t)

throttle-Adds :
    (ls : Limiters) (asset provider : String) (prov : Provider) (rate : Option ℕ) (conc : ℕ)
    (w : Wait) (t : ℕ) (v : Wait) (u : ℕ)
    → Adds ls [] (throttle ls asset provider prov rate conc w t v u)
unfolding throttle
throttle-Adds ls asset provider prov rate conc w t v u =
    by_ceiling-Adds (asset_ceiling prov rate conc) ls _ _ prov w t v u

balance :
    (ls : Limiters) (r : Limiters × Option (List String)) (key : String)
    → Adds ls [] r
    → (held_of r.0 key ≡ held_of ls key + count_of key (taken_by r.1))
      × (held_of (release_all r.0 (taken_by r.1)) key ≡ held_of ls key)
unfolding Adds count_of
balance ls r key h =
    (omega (arith, h key), omega (arith, h key, held_of-release_all r.0 (taken_by r.1) key))

-- However the two waits of a request end, each limiter has as many slots taken as before, and one more for each
-- time that its key stands in the result, which names none if a wait failed; and releasing those gives every
-- limiter back the slots that it had.
pub throttle_balanced :
    (ls : Limiters) (asset provider : String) (prov : Provider) (rate : Option ℕ) (conc : ℕ)
    (w : Wait) (t : ℕ) (v : Wait) (u : ℕ) (key : String)
    → (held_of (throttle ls asset provider prov rate conc w t v u).0 key
        ≡ held_of ls key
          + count_of key (taken_by (throttle ls asset provider prov rate conc w t v u).1))
      × (held_of
            (release_all
              (throttle ls asset provider prov rate conc w t v u).0
              (taken_by (throttle ls asset provider prov rate conc w t v u).1))
            key
          ≡ held_of ls key)
throttle_balanced ls asset provider prov rate conc w t v u key =
    balance ls (throttle ls asset provider prov rate conc w t v u) key
      (throttle-Adds ls asset provider prov rate conc w t v u)
