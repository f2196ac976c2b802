-- ===== src/Policy/Redact/Hidden.antt =====
-- What the pass writes of a text: no byte of a span that was found, but for what lies behind the end of another span in
-- which it starts.
use scheck.Prelude.{
  ℕ, zero, suc, ◌≤◌, ◌<◌, ◌⊎◌, inl, inr, ◌≡◌, ◌∙◌, refl, List, [], ◌∷◌, ltb, leb, arith, All, true,
  false, Bool-cases, ◌-◌,
}
use scheck.Prelude.Sort.{sort_stable}
use scheck.Policy.Redact.{
  Span, Bytes, RedactRule, before, collect, write_out, rest_of, redact_spans, redact_up_to,
}
use scheck.Policy.Redact.Pieces.{
  Piece, plain, hidden, pieces, tail_pieces, render, write_out-render,
}
use scheck.Policy.Redact.Order.{
  Among, here, there, All-Among, sort-All, sort-Among, Among-sort, Among-All, IsInOrder,
  sort-IsInOrder, before-starts, IsFull, collect-IsFull,
}

-- A span of the list that is not behind the given one in the order, in which it starts, and that ends at the place
-- or before it.
abbrev pub Overlapped : Span → List Span → ℕ → Type 0
Overlapped s spans l =
    (a : Span) × Among a spans × (before s a ≡ false) × (s.start < a.stop) × (a.stop ≤ l)

-- The piece holds no byte of the span, or starts behind the end of an earlier one in which the span starts.
abbrev pub Hides : List Span → Span → Piece → Type 0
Hides spans s (plain l r) = (r ≤ s.start) ⊎ (s.stop ≤ l) ⊎ Overlapped s spans l
Hides spans s (hidden rule n) = Unit {0}

-- The piece is none of the input before the place.
abbrev From : ℕ → Piece → Type 0
From k (plain l r) = k ≤ l
From k (hidden rule n) = Unit {0}

tail-From : (k up_to last : ℕ) → k ≤ last → All (From k) (tail_pieces up_to last)
tail-From k up_to last h = elim (Bool-cases (ltb last up_to)) [
  | inl e ↦ rw e (h, tt)
  | inr e ↦ rw e tt
]

not-before : (a b : ℕ) → ltb a b ≡ false → b ≤ a
not-before a b h = ground arith

-- From `last` on nothing is written that stands before it.
pieces-From :
    (k up_to last : ℕ) (spans : List Span)
    → All IsFull spans
    → k ≤ last
    → All (From k) (pieces up_to last spans)
unfolding pieces
pieces-From k up_to last [] w h = tail-From k up_to last h
pieces-From k up_to last (a ∷ spans) w h = elim (Bool-cases (ltb a.start last)) [
  | inl e ↦ rw e (pieces-From k up_to last spans w.1 h)
  | inr e ↦ elim (Bool-cases (leb up_to a.start)) [
    | inl u ↦ rw (e, u) (tail-From k up_to last h)
    | inr u ↦
        let le = not-before a.start last e in
        rw (e, u) (h, (tt, pieces-From k up_to a.stop spans w.1 (omega (arith, w.0))))
  ]
]

-- What holds of every piece from a place on.
From-Hides :
    (spans : List Span) (s : Span) (k : ℕ)
    → ((l : ℕ) → k ≤ l → (s.stop ≤ l) ⊎ Overlapped s spans l)
    → (ps : List Piece) → All (From k) ps
    → All (Hides spans s) ps
From-Hides spans s k f [] h = tt
From-Hides spans s k f (plain l r ∷ ps) h = (inr (f l h.0), From-Hides spans s k f ps h.1)
From-Hides spans s k f (hidden rule n ∷ ps) h = (tt, From-Hides spans s k f ps h.1)

-- The tail that is written where the loop ends before the span.
tail-Hides :
    (spans : List Span) (s : Span) (up_to last : ℕ)
    → up_to ≤ s.start
    → All (Hides spans s) (tail_pieces up_to last)
tail-Hides spans s up_to last h = elim (Bool-cases (ltb last up_to)) [
  | inl e ↦ rw e (inl h, tt)
  | inr e ↦ rw e tt
]

-- The loop has not come past the span's start, or only by a span in which it starts.
abbrev Stands : List Span → Span → ℕ → Type 0
Stands all_spans s last = (last ≤ s.start) ⊎ ((l : ℕ) → last ≤ l → Overlapped s all_spans l)

module _ (all_spans : List Span) (s : Span) (up_to : ℕ) where
  at_span :
      (last : ℕ) (spans : List Span)
      → All IsFull (s ∷ spans)
      → Stands all_spans s last
      → All (Hides all_spans s) (pieces up_to last (s ∷ spans))
  unfolding pieces
  at_span last spans w st = elim (Bool-cases (ltb s.start last)) [
    | inl e ↦ rw e (past st e)
    | inr e ↦ elim (Bool-cases (leb up_to s.start)) [
      | inl u ↦ rw (e, u) (tail-Hides all_spans s up_to last (ground arith))
      | inr u ↦
          rw (e, u)
            (
              inl (omega arith),
              (
                tt,
                From-Hides all_spans s s.stop (λ l h. inl h) (pieces up_to s.stop spans)
                    (pieces-From s.stop up_to s.stop spans w.1 (omega arith)),
              ),
            )
    ]
  ]
    where
      past :
          Stands all_spans s last
          → ltb s.start last ≡ true
          → All (Hides all_spans s) (pieces up_to last spans)
      past (inl h) e = absurd (ground (arith, e, h))
      past (inr f) e =
          From-Hides all_spans s last (λ l h. inr (f l h)) (pieces up_to last spans)
            (pieces-From last up_to last spans w.1 (omega arith))

  -- Behind a span that is not after `s` in the order.
  after : (a : Span) → Among a all_spans → before s a ≡ false → Stands all_spans s a.stop
  after a m h = elim (Bool-cases (leb a.stop s.start)) [
    | inl le ↦ inl (ground (arith, le))
    | inr gt ↦ inr (λ l k. (a, m, h, ground (arith, gt), k))
  ]

  pieces-Hides :
      (last : ℕ) (spans : List Span)
      → All IsFull spans
      → IsInOrder spans
      → ((a : Span) → Among a spans → Among a all_spans)
      → Stands all_spans s last
      → Among s spans
      → All (Hides all_spans s) (pieces up_to last spans)
  unfolding pieces
  pieces-Hides last [] w o sub st m = elim m [ ]
  pieces-Hides last (a ∷ spans) w o sub st here = at_span last spans w st
  pieces-Hides last (a ∷ spans) w o sub st (there m) =
      let b = All-Among (λ x. before x a ≡ false) s spans o.0 m in
      let le = before-starts a s b in
      elim (Bool-cases (ltb a.start last)) [
        | inl e ↦ rw e (pieces-Hides last spans w.1 o.1 (λ x n. sub x (there n)) st m)
        | inr e ↦ elim (Bool-cases (leb up_to a.start)) [
          | inl u ↦ rw (e, u) (tail-Hides all_spans s up_to last (ground arith))
          | inr u ↦
              rw (e, u)
                (
                  inl le,
                  (
                    tt,
                    pieces-Hides a.stop spans w.1 o.1 (λ x n. sub x (there n))
                        (after a (sub a here) b) m,
                  ),
                )
        ]
      ]

redact_spans-write_out :
    (b : Bytes) (up_to : ℕ) (spans : List Span)
    → (redact_spans b up_to spans).0 ≡ (write_out b up_to 0 (sort_stable before spans)).0
unfolding redact_spans write_out rest_of sort_stable
redact_spans-write_out b zero [] = refl
redact_spans-write_out b (suc n) [] =
    let e : ltb 0 (suc n) ≡ true = ground arith in
    let d : suc n - 0 ≡ suc n = omega arith in rw (e, d) refl
redact_spans-write_out b up_to (sp ∷ spans) = refl

-- Whatever the rules find, what the pass writes up to a place is a row of parts of the input and of markers, and each
-- part holds no byte of any span that was found, unless it starts behind the end of another one, in which that span
-- starts and which starts no later and, at the same start, is of the same or an earlier rule.
pub redact_up_to-Hides :
    (rules : List RedactRule) (b : Bytes) (up_to : ℕ)
    → ((redact_up_to rules b up_to).0
        ≡ render b (pieces up_to 0 (sort_stable before (collect b 0 rules))))
      × All
          (λ s.
            All
              (Hides (collect b 0 rules) s)
              (pieces up_to 0 (sort_stable before (collect b 0 rules))))
          (collect b 0 rules)
unfolding redact_up_to
redact_up_to-Hides rules b up_to =
    let found = collect b 0 rules in
    let row = sort_stable before found in
    (
      redact_spans-write_out b up_to found ∙ write_out-render b up_to 0 row,
      Among-All _ found (λ s m.
          pieces-Hides found s up_to 0 row (sort-All IsFull found (collect-IsFull b 0 rules))
            (sort-IsInOrder found) (λ a n. Among-sort a found n) (inl (omega arith))
            (sort-Among s found m)),
    )
