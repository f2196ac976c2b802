-- ===== src/Engagement/Gate/Limiter/Spaced.antt =====
-- The starts that one limiter gives, over any sequence of its calls.
use scheck.Prelude.{
  ℕ, ◌+◌, ◌≤◌, ◌<◌, ◌≡◌, ◌≢◌, ◌⊎◌, refl, ◌∙◌, subst, Option, none, some, List, [], ◌∷◌, ◌++◌, ltb,
  Bool-cases, inl, inr, arith,
}
use scheck.Engagement.Gate.Limiter.{
  Limiter, start_at, take_tick, release, Wait, served, ended, ended_asleep, acquire,
}

abbrev pub starts : Option ℕ → List ℕ
starts none = []
starts (some s) = s ∷ []

-- One call of a limiter, with the start that it gives if any: an `acquire` at some time that finds a free slot, or
-- whose context ends before; or a release of a slot that is taken.
pub data Step (l : Limiter) : List ℕ → Limiter → Type 0 where
  acquires :
      (w : Wait) (t : ℕ)
      → (w ≡ ended) ⊎ (l.held < l.capacity)
      → Step l (starts (acquire l w t).1) (acquire l w t).0
  releases : 0 < l.held → Step l [] (release l)

-- Calls in the order in which they hold the limiter's lock, with the starts that they give.
pub data Steps : Limiter → List ℕ → Limiter → Type 0 where
  done : (l : Limiter) → Steps l [] l
  then_steps :
      (l m k : Limiter) (ss ts : List ℕ) → Step l ss m → Steps m ts k → Steps l (ss ++ ts) k

-- No start lies before `from`, and each lies at least the interval behind the one before it.
abbrev pub Spaced : ℕ → ℕ → List ℕ → Type 0
Spaced interval from [] = Unit
Spaced interval from (s ∷ ss) = (from ≤ s) × Spaced interval (s + interval) ss

-- No more slots are taken than there are.
abbrev pub Fits : Limiter → Type 0
Fits l = l.held ≤ l.capacity

Spaced-weaken :
    (interval a b : ℕ) (ss : List ℕ) → a ≤ b → Spaced interval b ss → Spaced interval a ss
Spaced-weaken interval a b [] h k = tt
Spaced-weaken interval a b (s ∷ ss) h k = (omega (arith, k.0), k.1)

-- What a call leaves alone, and what it may give.
record Keeps (l : Limiter) (ss : List ℕ) (m : Limiter) : Type 0 where
  interval : m.interval ≡ l.interval
  capacity : m.capacity ≡ l.capacity
  fits : Fits m
  spaced : (ts : List ℕ) → Spaced l.interval m.next ts → Spaced l.interval l.next (ss ++ ts)

next-le-start_at : (l : Limiter) (t : ℕ) → l.next ≤ start_at l t
unfolding start_at
next-le-start_at l t = ground arith

taken : (l : Limiter) (t : ℕ) → l.held < l.capacity → Keeps l (start_at l t ∷ []) (take_tick l t)
unfolding take_tick
taken l t h = record {
  interval = refl;
  capacity = refl;
  fits = omega arith;
  spaced = λ ts k. (next-le-start_at l t, k);
}

given_back : (l : Limiter) (t : ℕ) → l.held < l.capacity → Keeps l [] (release (take_tick l t))
unfolding take_tick release
given_back l t h = record {
  interval = refl;
  capacity = refl;
  fits = omega arith;
  spaced = λ ts k.
      Spaced-weaken l.interval l.next (start_at l t + l.interval) ts
        (omega (arith, next-le-start_at l t)) k;
}

unmoved : (l : Limiter) → Fits l → Keeps l [] l
unmoved l f = record { interval = refl; capacity = refl; fits = f; spaced = λ ts k. k }

free :
    (l : Limiter) (w : Wait) → w ≢ ended → (w ≡ ended) ⊎ (l.held < l.capacity) → l.held < l.capacity
free l w n (inl e) = absurd (n e)
free l w n (inr h) = h

acquire-Keeps :
    (l : Limiter) (w : Wait) (t : ℕ)
    → Fits l
    → (w ≡ ended) ⊎ (l.held < l.capacity)
    → Keeps l (starts (acquire l w t).1) (acquire l w t).0
unfolding acquire
acquire-Keeps l ended t f h = unmoved l f
acquire-Keeps l served t f h = taken l t (free l served (λ e. cc) h)
acquire-Keeps l ended_asleep t f h = elim (Bool-cases (ltb t (start_at l t))) [
  | inl e ↦ rw e (given_back l t (free l ended_asleep (λ e. cc) h))
  | inr e ↦ rw e (taken l t (free l ended_asleep (λ e. cc) h))
]

Step-Keeps : {l m : Limiter} {ss : List ℕ} → Fits l → Step l ss m → Keeps l ss m
unfolding release
Step-Keeps f (Step.acquires w t h) = acquire-Keeps _ w t f h
Step-Keeps {l} f (Step.releases h) = record {
  interval = refl;
  capacity = refl;
  fits = omega arith;
  spaced = λ ts k. k;
}

-- Over any calls of a limiter that has no more slots taken than it has, every start lies at least the interval
-- behind the one before it and none before `next`, and in the end too no more slots are taken than there are.
pub Steps-Spaced :
    (l k : Limiter) (ss : List ℕ)
    → Fits l
    → Steps l ss k
    → Spaced l.interval l.next ss × (k.capacity ≡ l.capacity) × Fits k
Steps-Spaced l k ss f (Steps.done _) = (tt, refl, f)
Steps-Spaced l k _ f (Steps.then_steps _ m _ ss ts step steps) =
    let p = Step-Keeps f step in
    let rest = Steps-Spaced m k ts p.fits steps in
    (p.spaced ts (subst (λ i. Spaced i m.next ts) p.interval rest.0), rest.1 ∙ p.capacity, rest.2)
