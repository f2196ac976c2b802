-- ===== src/Prelude/Strings/Order.antt =====
-- Go's order of texts, by `compare`, is asymmetric.
use Prim.Native.Nat.{Ordering}
use Prim.Native.String.{String, compare}
use Prim.Native.String.compare
use mathlib.Core.Path.{◌≡◌}
use mathlib.Core.Logic.{◌≢◌}
use native.Mathlib.Omega.{arith}

pub compare_asym : (s t : String) → compare s t ≡ Ordering.lt → compare t s ≡ Ordering.gt
compare_asym String.[] String.[] h = ground (arith, h, compare.nil-nil)
compare_asym String.[] (String.◌∷◌ d t) h = compare.cons-nil d t
compare_asym (String.◌∷◌ c s) String.[] h = ground (arith, h, compare.cons-nil c s)
compare_asym (String.◌∷◌ c s) (String.◌∷◌ d t) h =
    ground (arith, h, compare.cons-cons c d s t, compare.cons-cons d c t s, compare_asym s t)

pub compare_trans :
    (s t u : String)
    → compare t s ≢ Ordering.lt
    → compare u t ≢ Ordering.lt
    → compare u s ≢ Ordering.lt
compare_trans String.[] String.[] u h k e' = k e'
compare_trans String.[] (String.◌∷◌ d t) String.[] h k e' = ground (arith, e', compare.nil-nil)
compare_trans String.[] (String.◌∷◌ d t) (String.◌∷◌ e u) h k e' =
    ground (arith, e', compare.cons-nil e u)
compare_trans (String.◌∷◌ c s) String.[] String.[] h k e' = h e'
compare_trans (String.◌∷◌ c s) (String.◌∷◌ d t) String.[] h k e' = k (compare.nil-cons d t)
compare_trans (String.◌∷◌ c s) String.[] (String.◌∷◌ e u) h k e' = h (compare.nil-cons c s)
compare_trans (String.◌∷◌ c s) (String.◌∷◌ d t) (String.◌∷◌ e u) h k e' = ground (
  arith,
  e',
  h,
  k,
  compare.cons-cons d c t s,
  compare.cons-cons e d u t,
  compare.cons-cons e c u s,
  compare_trans s t u,
)
