-- ===== src/Finding/Cited.antt =====
-- internal/finding/store.go: the evidence that the model cites, against the outputs of this run's checks. The
-- text of an error is not modelled: each kind of refusal is a constructor of `Invalid`.
pub mod Supported
use scheck.Prelude.{
  ◌≡◌, refl, String, Bool, true, false, not, ◌&&◌, ◌||◌, Option, none, some, List, [], ◌∷◌, ◌==◌,
  string_eq, if◌then◌else◌,
}
use scheck.Prelude.Strings.{has_infix, trim_space, join, fields}
use scheck.Finding.Report.{Evidence}
use scheck.Finding.Posture.{RunStatus, ok}
use scheck.Finding.Evaluate.{append_evidence}

-- The refusals, each an error that wraps `ErrInvalid`.
pub data Invalid : Type 0 where
  bad_confidence no_evidence incomplete_evidence no_output unusable_output not_in_output bad_port
        bad_proto :
      Invalid
  bad_slug no_severity incomplete_custom unknown_id other_platform is_disproved premise_disproved :
      Invalid
  is_finding no_note : Invalid

-- A value, or the refusal.
pub data Checked {ℓ} (A : Type ℓ) : Type ℓ where
  accepted : A → Checked A
  refused : Invalid → Checked A

infixl 10 ◌>>=◌
abbrev pub ◌>>=◌ {ℓ κ} : {A : Type ℓ} {B : Type κ} → Checked A → (A → Checked B) → Checked B
accepted a >>= f = f a
refused e >>= f = refused e

-- What `Output` says of an observation: the `runner.Result` fields that validation reads.
pub record Output : Type 0 where
  pub status : RunStatus
  pub check_id : String
  pub raw : String

-- `excerptIn`.
pub excerpt_in : String → String → Bool
excerpt_in excerpt output =
    let e = join (fields excerpt) " " in not (e == "") && has_infix (join (fields output) " ") e

pub is_ok : RunStatus → Bool
is_ok ok = true
is_ok _ = false

-- One entry against the output of the observation that it names.
pub against : Evidence → Option Output → Checked Evidence
against ev none = refused unusable_output
against ev (some res) =
    if not (is_ok res.status) || (not (ev.check == "") && not (ev.check == res.check_id))
    then refused unusable_output
    else if not (excerpt_in ev.excerpt res.raw)
    then refused not_in_output
    else accepted (record {
      observation = ev.observation;
      check = res.check_id;
      excerpt = trim_space ev.excerpt;
    })

-- One turn of the loop of `Store.evidence`.
pub check_evidence : Option (String → Option Output) → Evidence → Checked Evidence
check_evidence none ev =
    if ev.observation == "" || trim_space ev.excerpt == ""
    then refused incomplete_evidence
    else refused no_output
check_evidence (some output) ev =
    if ev.observation == "" || trim_space ev.excerpt == ""
    then refused incomplete_evidence
    else against ev (output ev.observation)

-- `Store.evidence`, from the entries that it has collected.
pub evidence :
    Option (String → Option Output) → List Evidence → List Evidence → Checked (List Evidence)
evidence output out [] = accepted out
evidence output out (ev ∷ evs) =
    check_evidence output ev >>= λ e. evidence output (append_evidence out e) evs

-- The property that an accepted value has.
abbrev pub Ensures {ℓ κ} : {A : Type ℓ} → (A → Type κ) → Checked A → Type κ
Ensures P (accepted a) = P a
Ensures P (refused e) = Unit

pub Ensures-bind {ℓ κ μ} :
    {A : Type ℓ} {B : Type κ} (P : B → Type μ) (v : Checked A) (f : A → Checked B)
    → ((a : A) → v ≡ accepted a → Ensures P (f a))
    → Ensures P (v >>= f)
Ensures-bind P (accepted a) f h = h a refl
Ensures-bind P (refused e) f h = tt
