-- ===== src/Finding/Predicate/Lines.antt =====
-- When `AnyLine` fires, and when it says that the condition is disproved.
use scheck.Prelude.{String, Bool, true, false, not, ◌&&◌, List, [], ◌∷◌, any, all, ◌≡◌, ◌↔◌, arith}
use scheck.Check.Record.{lines, is_marker_line, has_marker}
use scheck.Finding.Predicate.{matched, not_matched, any_line_loop, eval_any_line}

module _ (re : String → Bool) where
  -- A line of output that the expression matches.
  abbrev pub hits : String → Bool
  hits l = not (is_marker_line l) && re l

  -- A line that was read in full and that the expression does not match.
  abbrev pub misses : String → Bool
  misses l = not (is_marker_line l) && not (has_marker l) && not (re l)

  loop-matched :
      (ls : List String) (cut : Bool)
      → ((any_line_loop re cut ls).status ≡ matched) ↔ (any hits ls ≡ true)
  unfolding any_line_loop
  loop-matched [] true = ground arith
  loop-matched [] false = ground arith
  loop-matched (l ∷ ls) true = ground (arith, loop-matched ls true)
  loop-matched (l ∷ ls) false = ground (arith, loop-matched ls true, loop-matched ls (has_marker l))

  loop-not_matched :
      (ls : List String) (cut : Bool)
      → ((any_line_loop re cut ls).status ≡ not_matched) ↔ ((cut ≡ false) × (all misses ls ≡ true))
  unfolding any_line_loop
  loop-not_matched [] true = ground arith
  loop-not_matched [] false = ground arith
  loop-not_matched (l ∷ ls) true = ground (arith, loop-not_matched ls true)
  loop-not_matched (l ∷ ls) false =
      ground (arith, loop-not_matched ls true, loop-not_matched ls (has_marker l))

  -- `AnyLine` fires exactly when a line of output, complete or not, matches, and says that nothing matches
  -- exactly when every line was read in full and does not match.
  eval_any_line_iff :
      (ls : List String)
      → (((eval_any_line re (lines ls)).status ≡ matched) ↔ (any hits ls ≡ true))
        × (((eval_any_line re (lines ls)).status ≡ not_matched) ↔ (all misses ls ≡ true))
  unfolding eval_any_line
  eval_any_line_iff ls = (loop-matched ls false, ground (arith, loop-not_matched ls false))
