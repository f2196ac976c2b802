-- ===== src/Finding/Severity.antt =====
-- internal/finding/finding.go and chain.go: the severity scale. A Go `Severity` is a string, whose
-- `Rank` is -1 outside the scale; here it is the five values of the scale, and the empty ceiling of
-- a definition is `none`.
use scheck.Prelude.{
  ℕ, zero, suc, ◌≤◌, min, ◌≡◌, ◌∙◌, ◌↔◌, Bool, true, arith, leb, Eq, nat_eq, ◌==◌, if◌then◌else◌,
}
use scheck.Prelude.Int.{ℤ, pos, negsuc, ◌+ℤ◌}

pub data Severity : Type 0 where
  critical high medium low info : Severity

-- `Severity.Rank`: a higher rank is more serious.
unfoldable pub rank : Severity → ℕ
rank critical = 4
rank high = 3
rank medium = 2
rank low = 1
rank info = 0

unfoldable pub severity_beq : Severity → Severity → Bool
unfolding rank
severity_beq s t = rank s == rank t

pub severity_beq_iff : (s t : Severity) → (severity_beq s t ≡ true) ↔ (s ≡ t)
unfolding severity_beq rank
severity_beq_iff s t = ground arith

instance abbrev pub severity_eq : Eq Severity
severity_eq = record { beq = severity_beq; beq_iff = severity_beq_iff }

-- `Severity.AtLeast`.
unfoldable pub at_least : Severity → Severity → Bool
unfolding rank
at_least s other = leb (rank other) (rank s)

-- `check.Profile`.
pub data Profile : Type 0 where
  baseline hardened : Profile

-- `Threshold`: the severity at which an open finding fails the run.
unfoldable threshold : Profile → Severity
threshold hardened = low
threshold baseline = medium

-- An index into `scale`, the five severities from info to critical.
scale_at : ℕ → Severity
scale_at zero = info
scale_at (suc zero) = low
scale_at (suc (suc zero)) = medium
scale_at (suc (suc (suc zero))) = high
scale_at (suc (suc (suc (suc n)))) = critical

-- `max(0, min(len(scale)-1, r))`.
unfoldable pub clamp : ℤ → ℕ
clamp (pos n) = min 4 n
clamp (negsuc n) = 0

-- `Severity.Shift`.
unfoldable pub shift : Severity → ℤ → Severity
unfolding scale_at clamp rank
shift s delta = scale_at (clamp (pos (rank s) +ℤ delta))

-- `maxSev`.
unfoldable pub max_sev : Severity → Severity → Severity
unfolding rank
max_sev a b = if leb (rank b) (rank a) then a else b

rank-scale_at : (n : ℕ) → rank (scale_at n) ≡ min 4 n
unfolding rank scale_at
rank-scale_at zero = omega arith
rank-scale_at (suc zero) = omega arith
rank-scale_at (suc (suc zero)) = omega arith
rank-scale_at (suc (suc (suc zero))) = omega arith
rank-scale_at (suc (suc (suc (suc n)))) = omega arith

pub rank-le : (s : Severity) → rank s ≤ 4
unfolding rank
rank-le s = ground arith

-- Two severities of one rank are one.
pub rank-injective : (s t : Severity) → rank s ≡ rank t → s ≡ t
unfolding rank
rank-injective s t h = ground arith

clamped : (z : ℤ) → min 4 (clamp z) ≡ clamp z
unfolding clamp
clamped (pos n) = omega arith
clamped (negsuc n) = omega arith

-- A shift adds the delta to the rank and clamps the sum to the scale.
pub rank-shift : (s : Severity) (d : ℤ) → rank (shift s d) ≡ clamp (pos (rank s) +ℤ d)
unfolding shift
rank-shift s d = rank-scale_at _ ∙ clamped _

rank-max_sev : (a b : Severity) → (rank a ≤ rank (max_sev a b)) × (rank b ≤ rank (max_sev a b))
unfolding max_sev
rank-max_sev a b = ground arith
