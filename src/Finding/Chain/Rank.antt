-- ===== src/Finding/Chain/Rank.antt =====
-- What a step of a severity chain does to the rank.
use scheck.Prelude.{
  ℕ, ◌≤◌, min, max, ◌≡◌, refl, Bool, true, false, Option, none, some, arith, if◌then◌else◌,
}
use scheck.Prelude.Int.{ℤ, pos, negsuc, ltb_ℤ, ◌+ℤ◌}
use scheck.Finding.Severity.{
  Severity, high, rank, shift, clamp, max_sev, severity_eq, severity_beq, rank-shift, rank-le,
}
use scheck.Finding.Chain.{Move, Chain, target, step}

-- The highest rank that a raise may give: the lower of the ceiling and, for a step that may not
-- pass high, high.
abbrev pub limit : Bool → Option Severity → ℕ
limit past none = if past then 4 else 3
limit past (some c) = min (rank c) (if past then 4 else 3)

rank_high : rank high ≡ 3
unfolding rank
rank_high = refl

-- A shift by a positive delta goes up.
shift_up : (s : Severity) (d : ℤ) → ltb_ℤ (pos 0) d ≡ true → rank s ≤ rank (shift s d)
unfolding clamp
shift_up s (pos n) h = ground (arith, rank-shift s (pos n), rank-le s)
shift_up s (negsuc n) h = ground arith

abbrev raised_rank : ℕ → ℕ → ℕ → ℕ
raised_rank old next cap = max old (min next cap)

rank-target_free :
    (sev : Severity) (m : Move)
    → rank (target sev m true none).0 ≡ (
        if ltb_ℤ (pos 0) m.delta
        then raised_rank (rank sev) (rank (shift sev m.delta)) (limit true none)
        else rank (shift sev m.delta))
unfolding target severity_beq max_sev
rank-target_free sev m =
    ground (arith, rank-le (shift sev m.delta), rank_high, shift_up sev m.delta)

rank-target_no_ceiling :
    (sev : Severity) (m : Move)
    → rank (target sev m false none).0 ≡ (
        if ltb_ℤ (pos 0) m.delta
        then raised_rank (rank sev) (rank (shift sev m.delta)) (limit false none)
        else rank (shift sev m.delta))
unfolding target severity_beq max_sev
rank-target_no_ceiling sev m =
    ground (arith, rank-le (shift sev m.delta), rank_high, shift_up sev m.delta)

rank-target_past :
    (sev : Severity) (m : Move) (c : Severity)
    → rank (target sev m true (some c)).0 ≡ (
        if ltb_ℤ (pos 0) m.delta
        then raised_rank (rank sev) (rank (shift sev m.delta)) (limit true (some c))
        else rank (shift sev m.delta))
unfolding target severity_beq max_sev
rank-target_past sev m c =
    ground (arith, rank-le (shift sev m.delta), rank_high, shift_up sev m.delta)

rank-target_both :
    (sev : Severity) (m : Move) (c : Severity)
    → rank (target sev m false (some c)).0 ≡ (
        if ltb_ℤ (pos 0) m.delta
        then raised_rank (rank sev) (rank (shift sev m.delta)) (limit false (some c))
        else rank (shift sev m.delta))
unfolding target severity_beq max_sev
rank-target_both sev m c =
    ground (arith, rank-le (shift sev m.delta), rank_high, shift_up sev m.delta)

rank-target :
    (sev : Severity) (m : Move) (past : Bool) (ceil : Option Severity)
    → rank (target sev m past ceil).0 ≡ (
        if ltb_ℤ (pos 0) m.delta
        then raised_rank (rank sev) (rank (shift sev m.delta)) (limit past ceil)
        else rank (shift sev m.delta))
rank-target sev m true none = rank-target_free sev m
rank-target sev m false none = rank-target_no_ceiling sev m
rank-target sev m true (some c) = rank-target_past sev m c
rank-target sev m false (some c) = rank-target_both sev m c

-- A step that lowers adds its delta, down to info. A step that raises adds its delta, up to the
-- limit, and never lowers a severity that is above the limit already.
pub rank-step :
    (c : Chain) (m : Move) (past : Bool) (ceil : Option Severity)
    → rank (step c m past ceil).0.severity ≡ (
        if ltb_ℤ (pos 0) m.delta
        then max
            (rank c.severity)
            (min (clamp (pos (rank c.severity) +ℤ m.delta)) (limit past ceil))
        else clamp (pos (rank c.severity) +ℤ m.delta))
unfolding step
rank-step c m past ceil = rw (← rank-shift c.severity m.delta) (rank-target c.severity m past ceil)
