-- ===== src/Finding/Clock/Reads.antt =====
-- A leaving date against every read, where the code compares it with the earliest and the latest one.
use scheck.Prelude.{
  ℕ, ◌≤◌, ◌≡◌, ◌↔◌, Bool, true, false, not, ◌&&◌, ◌∙◌, some, List, [], ◌∷◌, all, map, ltb, leb,
  arith, if◌then◌else◌, Bool-cases, inl, inr,
}
use scheck.Finding.Clock.{
  left_passed, left_not_passed, span_loop, span, passed_by, of_span, left_at,
}

-- The day of every instant is behind `day`, or none is.
abbrev pub after_all : (ℕ → ℕ) → ℕ → List ℕ → Bool
after_all date_in day ts = all (λ t. ltb day (date_in t)) ts

abbrev pub after_none : (ℕ → ℕ) → ℕ → List ℕ → Bool
after_none date_in day ts = all (λ t. leb (date_in t) day) ts

ends :
    (a : Bool) (x y : ℕ) (day : ℕ)
    → passed_by a (ltb day y) ≡ passed_by (a && true) (not (leb y day && true))
unfolding passed_by
ends a x y day = ground arith

turn :
    (a b c x y z : Bool)
    → passed_by ((a && b) && c) (not ((x && y) && z))
      ≡ passed_by (a && (b && c)) (not (x && (y && z)))
unfolding passed_by
turn a b c x y z = ground arith

module _ (date_in : ℕ → ℕ) (mono : (s t : ℕ) → s ≤ t → date_in s ≤ date_in t) (day : ℕ) where
  earlier :
      (t first : ℕ)
      → ltb day (date_in (if ltb t first then t else first))
        ≡ (ltb day (date_in first) && ltb day (date_in t))
  earlier t first = elim (Bool-cases (ltb t first)) [
    | inl e ↦ rw e (min_date (date_in t) (date_in first) (mono t first (ground arith)))
    | inr e ↦ rw e (max_date (date_in t) (date_in first) (mono first t (ground arith)))
  ]
    where
      min_date : (x y : ℕ) → x ≤ y → ltb day x ≡ (ltb day y && ltb day x)
      min_date x y h = ground arith

      max_date : (x y : ℕ) → y ≤ x → ltb day y ≡ (ltb day y && ltb day x)
      max_date x y h = ground arith

  later :
      (t last : ℕ)
      → leb (date_in (if ltb last t then t else last)) day
        ≡ (leb (date_in last) day && leb (date_in t) day)
  later t last = elim (Bool-cases (ltb last t)) [
    | inl e ↦ rw e (up (date_in t) (date_in last) (mono last t (ground arith)))
    | inr e ↦ rw e (down (date_in t) (date_in last) (mono t last (ground arith)))
  ]
    where
      up : (x y : ℕ) → y ≤ x → leb x day ≡ (leb y day && leb x day)
      up x y h = ground arith

      down : (x y : ℕ) → x ≤ y → leb y day ≡ (leb y day && leb x day)
      down x y h = ground arith

  span_loop-days :
      (first last : ℕ) (ts : List ℕ)
      → of_span date_in day (span_loop first last (map some ts))
        ≡ passed_by
            (ltb day (date_in first) && after_all date_in day ts)
            (not (leb (date_in last) day && after_none date_in day ts))
  unfolding span_loop of_span
  span_loop-days first last [] = ends (ltb day (date_in first)) (date_in first) (date_in last) day
  span_loop-days first last (t ∷ ts) =
      span_loop-days (if ltb t first then t else first) (if ltb last t then t else last) ts
      ∙ rw (earlier t first, later t last)
          (turn (ltb day (date_in first)) (ltb day (date_in t)) (after_all date_in day ts)
            (leb (date_in last) day) (leb (date_in t) day) (after_none date_in day ts))

  verdict :
      (a n : Bool)
      → ((a && n) ≡ false)
      → ((passed_by a (not n) ≡ left_passed) ↔ (a ≡ true))
        × ((passed_by a (not n) ≡ left_not_passed) ↔ (n ≡ true))
  unfolding passed_by
  verdict a n h = ground arith

  not_both :
      (t : ℕ) (a n : Bool) → ((ltb day (date_in t) && a) && (leb (date_in t) day && n)) ≡ false
  not_both t a n = ground arith

  -- Over reads that all have a time, and a calendar in which a later instant has no earlier day, a date
  -- that parses had passed exactly when every read stands on a later day, and had not passed exactly when
  -- none does.
  pub left_at_iff :
      (t : ℕ) (ts : List ℕ)
      → ((left_at date_in (some day) (map some (t ∷ ts)) ≡ left_passed)
          ↔ (after_all date_in day (t ∷ ts) ≡ true))
        × ((left_at date_in (some day) (map some (t ∷ ts)) ≡ left_not_passed)
            ↔ (after_none date_in day (t ∷ ts) ≡ true))
  unfolding left_at span
  left_at_iff t ts = rw (span_loop-days t t ts) (
      verdict (after_all date_in day (t ∷ ts)) (after_none date_in day (t ∷ ts))
        (not_both t (after_all date_in day ts) (after_none date_in day ts)))
