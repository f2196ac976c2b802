-- ===== src/Finding/Cited/Supported.antt =====
-- What holds of evidence that is accepted.
use scheck.Prelude.{
  String, true, not, ◌&&◌, ◌||◌, ◌≡◌, refl, Option, none, some, List, [], ◌∷◌, any, All, All-append,
  ◌==◌, string_eq, Bool-cases, inl, inr, arith, subst,
}
use scheck.Prelude.Strings.{trim_space}
use scheck.Finding.Report.{Evidence, evidence_beq}
use scheck.Finding.Evaluate.{append_evidence}
use scheck.Finding.Cited.{
  Output, excerpt_in, is_ok, against, check_evidence, evidence, Ensures, Ensures-bind,
}

-- The entry quotes an output of this run: that of a check that succeeded, named by the entry, and the excerpt is
-- in it.
pub record IsSupported (output : Option (String → Option Output)) (ev : Evidence) : Type 0 where
  pub read : String → Option Output
  is_read : output ≡ some read
  pub res : Output
  is_res : read ev.observation ≡ some res
  pub succeeded : is_ok res.status ≡ true
  of_check : ev.check ≡ res.check_id
  pub cited : String
  is_cited : ev.excerpt ≡ trim_space cited
  is_in : excerpt_in cited res.raw ≡ true

module _ (read : String → Option Output) where
  against-IsSupported :
      (ev : Evidence) (o : Option Output)
      → read ev.observation ≡ o
      → Ensures (IsSupported (some read)) (against ev o)
  unfolding against
  against-IsSupported ev none e = tt
  against-IsSupported ev (some res) e =
      elim (Bool-cases
        (not (is_ok res.status) || (not (ev.check == "") && not (ev.check == res.check_id)))) [
          | inl u ↦ rw u tt
          | inr u ↦ elim (Bool-cases (excerpt_in ev.excerpt res.raw)) [
            | inl v ↦
                rw (u, v)
                  (record {
                    read = read;
                    is_read = refl;
                    res = res;
                    is_res = e;
                    succeeded = ground (arith, u);
                    of_check = refl;
                    cited = ev.excerpt;
                    is_cited = refl;
                    is_in = v;
                  })
            | inr v ↦ rw (u, v) tt
          ]
        ]

check_evidence-IsSupported :
    (output : Option (String → Option Output)) (ev : Evidence)
    → Ensures (IsSupported output) (check_evidence output ev)
unfolding check_evidence
check_evidence-IsSupported none ev =
    elim (Bool-cases (ev.observation == "" || trim_space ev.excerpt == "")) [
      | inl u ↦ rw u tt
      | inr u ↦ rw u tt
    ]
check_evidence-IsSupported (some read) ev =
    elim (Bool-cases (ev.observation == "" || trim_space ev.excerpt == "")) [
      | inl u ↦ rw u tt
      | inr u ↦ rw u (against-IsSupported read ev (read ev.observation) refl)
    ]

module _ (P : Evidence → Type 0) where
  append_evidence-All :
      (out : List Evidence) (e : Evidence) → All P out → P e → All P (append_evidence out e)
  unfolding append_evidence
  append_evidence-All out e h k = elim (Bool-cases (any (λ x. evidence_beq x e) out)) [
    | inl u ↦ rw u h
    | inr u ↦ rw u (All-append P out (e ∷ []) h (k, tt))
  ]

pub evidence-IsSupported :
    (output : Option (String → Option Output)) (out evs : List Evidence)
    → All (IsSupported output) out
    → Ensures (All (IsSupported output)) (evidence output out evs)
unfolding evidence
evidence-IsSupported output out [] h = h
evidence-IsSupported output out (ev ∷ evs) h =
    Ensures-bind (All (IsSupported output)) (check_evidence output ev) _ λ e eq.
      evidence-IsSupported output (append_evidence out e) evs (
        append_evidence-All (IsSupported output) out e h
          (subst (Ensures (IsSupported output)) eq (check_evidence-IsSupported output ev)))
