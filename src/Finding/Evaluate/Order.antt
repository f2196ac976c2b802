-- ===== src/Finding/Evaluate/Order.antt =====
-- The order of the findings is asymmetric, so that sorting by it orders them.
use Prim.Native.Nat.{Ordering}
use Prim.Native.String.{compare}
use scheck.Prelude.{
  String, true, false, ◌≡◌, ◌≢◌, ◌<◌, ◌⊎◌, inl, inr, arith, Bool-cases, ◌==◌, sym, ltb,
}
use scheck.Prelude.Strings.Order.{compare_asym}
use scheck.Finding.Severity.{Severity, rank, severity_beq, severity_eq}
use scheck.Finding.Report.{Finding}
use scheck.Finding.Evaluate.{string_less, finding_less}

string_less_asym : (s t : String) → string_less s t ≡ true → string_less t s ≡ false
unfolding string_less
string_less_asym s t h = ground (arith, compare_asym s t)

pub finding_less_asym : (a b : Finding) → finding_less a b ≡ true → finding_less b a ≡ false
unfolding finding_less
finding_less_asym a b h = ground (
  arith,
  h,
  severity_eq.beq_iff a.severity b.severity,
  severity_eq.beq_iff b.severity a.severity,
  string_less_asym a.id b.id,
)

string_less-false : (s t : String) → string_less s t ≡ false → compare s t ≢ Ordering.lt
unfolding string_less
string_less-false s t h e = ground (arith, h, e)

less_serious : (a b : Severity) → (b == a) ≡ false → ltb (rank a) (rank b) ≡ false → rank b < rank a
unfolding rank severity_beq
less_serious a b e h = ground arith

-- What the order says of two findings of which the second is not less.
pub finding_less-false :
    (a b : Finding)
    → finding_less b a ≡ false
    → (rank b.severity < rank a.severity)
      ⊎ ((a.severity ≡ b.severity) × (compare b.id a.id ≢ Ordering.lt))
unfolding finding_less
finding_less-false a b h = elim (Bool-cases (b.severity == a.severity)) [
  | inl e ↦ inr (
    sym ((severity_eq.beq_iff b.severity a.severity).0 e),
    string_less-false b.id a.id (rw e at h),
  )
  | inr e ↦ inl (less_serious a.severity b.severity e (rw e at h))
]
