-- ===== src/Policy/Redact/Order.antt =====
-- The spans as the loop meets them: all that were found, none empty, in the order of their starts and then of their
-- rules.
use scheck.Prelude.{
  ℕ, suc, ◌<◌, ◌≤◌, ◌≡◌, true, false, ◌||◌, Option, none, some, List, [], ◌∷◌, All, All-append, leb,
  nat_eq, arith, Bool-cases, inl, inr, slice,
}
use scheck.Prelude.Sort.{insert, sort_stable}
use scheck.Prelude.Sort.Sorted.{IsSorted, sort_stable-IsSorted}
use scheck.Policy.Redact.{
  Span, Bytes, RedactRule, Submatch, before, span_at, span_of, spans_of, collect, kept, skipped,
}

pub data Among : Span → List Span → Type 0 where
  here : {s : Span} {spans : List Span} → Among s (s ∷ spans)
  there : {s a : Span} {spans : List Span} → Among s spans → Among s (a ∷ spans)

pub All-Among :
    (P : Span → Type 0) (s : Span) (spans : List Span) → All P spans → Among s spans → P s
All-Among P s [] h m = elim m [ ]
All-Among P s (a ∷ spans) h here = h.0
All-Among P s (a ∷ spans) h (there m) = All-Among P s spans h.1 m

pub Among-All :
    (P : Span → Type 0) (spans : List Span) → ((s : Span) → Among s spans → P s) → All P spans
Among-All P [] h = tt
Among-All P (a ∷ spans) h = (h a here, Among-All P spans (λ s m. h s (there m)))

insert-All :
    (P : Span → Type 0) (x : Span) (spans : List Span)
    → P x
    → All P spans
    → All P (insert before x spans)
unfolding insert
insert-All P x [] p h = (p, tt)
insert-All P x (y ∷ spans) p h = elim (Bool-cases (before y x)) [
  | inl e ↦ rw e (h.0, insert-All P x spans p h.1)
  | inr e ↦ rw e (p, h)
]

pub sort-All :
    (P : Span → Type 0) (spans : List Span) → All P spans → All P (sort_stable before spans)
unfolding sort_stable
sort-All P [] h = tt
sort-All P (x ∷ spans) h = insert-All P x (sort_stable before spans) h.0 (sort-All P spans h.1)

insert-here : (x : Span) (spans : List Span) → Among x (insert before x spans)
unfolding insert
insert-here x [] = here
insert-here x (y ∷ spans) = elim (Bool-cases (before y x)) [
  | inl e ↦ rw e (there (insert-here x spans))
  | inr e ↦ rw e here
]

insert-there : (s x : Span) (spans : List Span) → Among s spans → Among s (insert before x spans)
unfolding insert
insert-there s x [] m = elim m [ ]
insert-there s x (y ∷ spans) here = elim (Bool-cases (before y x)) [
  | inl e ↦ rw e here
  | inr e ↦ rw e (there here)
]
insert-there s x (y ∷ spans) (there m) = elim (Bool-cases (before y x)) [
  | inl e ↦ rw e (there (insert-there s x spans m))
  | inr e ↦ rw e (there (there m))
]

-- Sorting loses no span, and adds none.
pub sort-Among : (s : Span) (spans : List Span) → Among s spans → Among s (sort_stable before spans)
unfolding sort_stable
sort-Among s [] m = elim m [ ]
sort-Among s (x ∷ spans) here = insert-here x (sort_stable before spans)
sort-Among s (x ∷ spans) (there m) =
    insert-there s x (sort_stable before spans) (sort-Among s spans m)

pub Among-sort : (s : Span) (spans : List Span) → Among s (sort_stable before spans) → Among s spans
Among-sort s spans m =
    All-Among (λ x. Among x spans) s (sort_stable before spans)
      (sort-All (λ x. Among x spans) spans (Among-All (λ x. Among x spans) spans (λ x n. n))) m

-- No span comes before one that stands ahead of it.
abbrev pub IsInOrder : List Span → Type 0
IsInOrder [] = Unit {0}
IsInOrder (a ∷ spans) = All (λ s. before s a ≡ false) spans × IsInOrder spans

before_asym : (x y : Span) → before x y ≡ true → before y x ≡ false
unfolding before
before_asym x y h = ground arith

before_trans : (a b c : Span) → before b a ≡ false → before c b ≡ false → before c a ≡ false
unfolding before
before_trans a b c h k = ground arith

behind :
    (a b : Span) (spans : List Span)
    → before b a ≡ false
    → All (λ s. before s b ≡ false) spans
    → All (λ s. before s a ≡ false) spans
behind a b [] h k = tt
behind a b (c ∷ spans) h k = (before_trans a b c h k.0, behind a b spans h k.1)

sorted-IsInOrder : (spans : List Span) → IsSorted before spans → IsInOrder spans
sorted-IsInOrder [] h = tt
sorted-IsInOrder (a ∷ []) h = (tt, tt)
sorted-IsInOrder (a ∷ b ∷ spans) h =
    let rest = sorted-IsInOrder (b ∷ spans) h.1 in ((h.0, behind a b spans h.0 rest.0), rest)

pub sort-IsInOrder : (spans : List Span) → IsInOrder (sort_stable before spans)
sort-IsInOrder spans =
    sorted-IsInOrder (sort_stable before spans) (sort_stable-IsSorted before before_asym spans)

pub before-starts : (a s : Span) → before s a ≡ false → a.start ≤ s.start
unfolding before
before-starts a s h = ground arith

-- The span holds at least one byte.
abbrev pub IsFull : Span → Type 0
IsFull s = s.start < s.stop

span_at-IsFull :
    (b : Bytes) (order : ℕ) (rule : RedactRule) (key group : Option (ℕ × ℕ))
    → All IsFull (span_at b order rule key group)
unfolding span_at
span_at-IsFull b order rule key none = tt
span_at-IsFull b order rule key (some (s, e)) =
    elim (Bool-cases (leb e s || kept rule.keep_if (slice b s e) || skipped rule.skip_key key b)) [
      | inl u ↦ rw u tt
      | inr u ↦ rw u (ground arith, tt)
    ]

spans_of-IsFull :
    (b : Bytes) (order : ℕ) (rule : RedactRule) (ms : List Submatch)
    → All IsFull (spans_of b order rule ms)
unfolding spans_of
spans_of-IsFull b order rule [] = tt
spans_of-IsFull b order rule (m ∷ ms) =
    All-append IsFull (span_of b order rule m) (spans_of b order rule ms)
      (unfold span_of in span_at-IsFull b order rule m.key m.group)
      (spans_of-IsFull b order rule ms)

pub collect-IsFull :
    (b : Bytes) (order : ℕ) (rules : List RedactRule) → All IsFull (collect b order rules)
unfolding collect
collect-IsFull b order [] = tt
collect-IsFull b order (rule ∷ rules) =
    All-append IsFull (spans_of b order rule (rule.find_all b)) (collect b (suc order) rules)
      (spans_of-IsFull b order rule (rule.find_all b)) (collect-IsFull b (suc order) rules)
