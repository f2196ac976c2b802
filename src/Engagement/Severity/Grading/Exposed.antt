-- ===== src/Engagement/Severity/Grading/Exposed.antt =====
-- What a URL declared exposed on purpose does to a grading.
-- A finding about a URL that is declared exposed on purpose ends at info, whatever the collector and
-- the other rows of the table say, if its definition is an exposure.
use scheck.Prelude.{◌≡◌, refl, ◌∙◌, ◌≢◌, Bool, false, Option, some, arith, string_eq, string_ne→beq}
use scheck.Prelude.Int.{sub_ℕ}
use scheck.Prelude.Strings.{◌+◌}
use scheck.Finding.Severity.{Severity, rank, info, clamp, rank-injective}
use scheck.Finding.Chain
use scheck.Finding.Chain.{Chain, Move}
use scheck.Finding.Chain.Rank.{rank-step}
use scheck.Finding.Catalog.{is_exposure}
use scheck.Engagement.Severity.Table.{Declarations, Instance, Exposed}
use scheck.Engagement.Severity.Loop.{chain, row_step}
use scheck.Engagement.Severity.Loop.Terminal.{row_steps-terminal}
use scheck.Engagement.Severity.Rows.{
  rules, exposed_row, raising_rows, exposed_on_purpose, declared_exposed,
}

-- The lowering step ends at info.
step_down :
    (c : Chain) (m : Move) (past : Bool) (ceil : Option Severity)
    → m.delta ≡ sub_ℕ 0 (rank c.severity)
    → (Chain.step c m past ceil).0.severity ≡ info
unfolding rank clamp
step_down c m past ceil e = rank-injective _ _ (ground (arith, rank-step c m past ceil))

exposed_on_purpose-key :
    (d : Declarations) (i : Instance) (e : Exposed)
    → i.def.exposure ≡ is_exposure
    → declared_exposed d i.j.subject.key ≡ some e
    → exposed_on_purpose d i
      ≡ some (
        record { key = e.key; observation = ""; excerpt = "" },
        "You declared this URL exposed on purpose: " + e.reason,
      )
unfolding exposed_on_purpose
exposed_on_purpose-key d i e x u = rw (x, u)

exposed_step :
    (d : Declarations) (i : Instance) (e : Exposed) (c : Chain)
    → i.def.exposure ≡ is_exposure
    → declared_exposed d i.j.subject.key ≡ some e
    → let s = row_step d i (record { chain = c; exposed = "" }) exposed_row in
      (s.chain.severity ≡ info) × (s.exposed ≡ e.key)
unfolding row_step rank
exposed_step d i e c x u =
    rw (exposed_on_purpose-key d i e x u) (step_down c _ false i.def.ceiling refl, refl)

-- A finding about a URL declared exposed on purpose, under a key, ends at info, whatever the
-- collector and the other rows of the table say, if its definition is an exposure.
pub chain_exposed :
    (d : Declarations) (i : Instance) (start : Severity) (e : Exposed)
    → i.def.exposure ≡ is_exposure
    → declared_exposed d i.j.subject.key ≡ some e
    → e.key ≢ ""
    → (chain rules d i start).severity ≡ info
unfolding chain rules
chain_exposed d i start e x u k =
    let (down, key) = exposed_step d i e _ x u in
    row_steps-terminal d i _ raising_rows (rw key (string_ne→beq e.key "" k)) ∙ down
