-- ===== src/Policy/Redact/Overlap.antt =====
-- Spans that overlap without nesting: the loop leaves out the one that starts second, with the bytes by
-- which it reaches past the first.
use scheck.Prelude.{
  ℕ, ◌≤◌, ◌<◌, ◌-◌, ◌≡◌, refl, [], ◌∷◌, ◌++◌, slice, arith, ◌==◌, nat_eq, true, false, ltb, leb,
}
use scheck.Prelude.Sort.{sort_stable, insert}
use scheck.Policy.Redact.{Span, Bytes, marker, write_out, rest_of, redact_spans, before}

ltb-true : (a b : ℕ) → a < b → ltb a b ≡ true
ltb-true a b h = ground arith

ltb-false : (a b : ℕ) → b ≤ a → ltb a b ≡ false
ltb-false a b h = ground arith

leb-false : (a b : ℕ) → b < a → leb a b ≡ false
leb-false a b h = ground arith

beq-false : (a b : ℕ) → b < a → (a == b) ≡ false
beq-false a b h = ground arith

-- Of two spans, the second starting inside the first and ending behind it, the pass hides the first only:
-- all bytes from the end of the first are written as they are, those of the second among them.
redact_spans-overlap :
    (b : Bytes) (up_to : ℕ) (x y : Span)
    → x.start < y.start
    → y.start < x.stop
    → x.stop < y.stop
    → y.stop ≤ up_to
    → redact_spans b up_to (x ∷ y ∷ []) ≡ (
      slice b 0 x.start ++ (marker x.rule (x.stop - x.start) ++ slice b x.stop up_to),
      record { rule = x.rule; bytes = x.stop - x.start } ∷ [],
    )
unfolding redact_spans write_out rest_of sort_stable before insert
redact_spans-overlap b up_to x y h1 h2 h3 h4 =
    rw
      (
        ltb-false y.start x.start (omega arith),
        beq-false y.start x.start h1,
        ltb-false x.start 0 (omega arith),
        leb-false up_to x.start (omega arith),
        ltb-true y.start x.stop h2,
        ltb-true x.stop up_to (omega arith),
      )
      refl
