-- ===== src/Finding/Clock.antt =====
-- internal/finding/clock.go: whether a leaving date had passed when scheck read what a judgment rests on.
-- A time is an instant, and `none` where Go's `IsZero` holds. The calendar is a parameter: `date_in` is the
-- day of an instant in the zone. A date is the number of its day; Go compares the dates' texts, which
-- stand in the same order.
pub mod Reads
use scheck.Prelude.{ℕ, Bool, true, false, Option, none, some, List, [], ◌∷◌, ltb, if◌then◌else◌}

-- `Leaving`.
pub data Leaving : Type 0 where
  left_unknown left_unread left_not_passed left_within left_passed : Leaving

-- The loop of `Span`, from the earliest and the latest time so far; `none` at an unrecorded time.
pub span_loop : ℕ → ℕ → List (Option ℕ) → Option (ℕ × ℕ)
span_loop first last [] = some (first, last)
span_loop first last (none ∷ times) = none
span_loop first last (some t ∷ times) =
    span_loop (if ltb t first then t else first) (if ltb last t then t else last) times

-- `Span`.
pub span : List (Option ℕ) → Option (ℕ × ℕ)
span [] = none
span (none ∷ times) = none
span (some t ∷ times) = span_loop t t times

-- The `switch` of `LeftAt`.
pub passed_by : Bool → Bool → Leaving
passed_by true later = left_passed
passed_by false true = left_within
passed_by false false = left_not_passed

pub of_span : (ℕ → ℕ) → ℕ → Option (ℕ × ℕ) → Leaving
of_span date_in day none = left_unknown
of_span date_in day (some (first, last)) =
    passed_by (ltb day (date_in first)) (ltb day (date_in last))

-- `LeftAt`; the first argument is `none` where the date does not parse.
pub left_at : (ℕ → ℕ) → Option ℕ → List (Option ℕ) → Leaving
left_at date_in none times = left_unknown
left_at date_in (some day) [] = left_unread
left_at date_in (some day) (t ∷ times) = of_span date_in day (span (t ∷ times))
