-- ===== src/Runner/Probe/Moves.antt =====
-- The probes move the world by the steps that they are permitted.
use scheck.Prelude.{
  String, Bool, true, false, Option, none, some, List, [], ◌∷◌, ◌≡◌, refl, Bool-cases, inl, inr,
}
use scheck.Prelude.Strings.{has_prefix}
use scheck.Check.Catalog.{Check, lookup}
use scheck.Check.Bind.{Bound, bound, failed, bind}
use scheck.Prelude.Int.{ℤ}
use scheck.Runner.Model.{Runner, World, Result, send}
use scheck.Runner.Steps.{Steps, command}
use scheck.Runner.Probe.{
  recorded, resolve_sent, resolve_bound, resolve_with, resolve, installed_sent, installed_bound,
  installed_with, installed,
}

module _ (r : Runner) (Allowed : List String → Type 0) (start : World) where
  abbrev FromStart : World → Type 0
  FromStart = Steps r Allowed start

  -- The commands of a probe are permitted.
  abbrev pub Probes : String → String → Type 0
  Probes id name =
      (c : Check) (value : String) (argv : List String)
      → lookup r.entries id r.platform ≡ some c
      → bind c ((name, value) ∷ []) ≡ bound argv
      → Allowed argv

  recorded-Steps :
      (w : World) (argv : List String) (limit : ℤ) (c : Check) (sub : Result) (fails : Bool)
      → Allowed argv
      → FromStart w
      → FromStart (recorded r (send r w argv limit).0 c sub fails).0
  unfolding recorded
  recorded-Steps w argv limit c sub true may s = command argv limit _ _ may s
  recorded-Steps w argv limit c sub false may s = command argv limit _ _ may s

  resolve_bound-Steps :
      (w : World) (c : Check) (p : String) (b : Bound (List String))
      → ((argv : List String) → b ≡ bound argv → Allowed argv)
      → FromStart w
      → FromStart (resolve_bound r w c p b).0
  unfolding resolve_bound resolve_sent
  resolve_bound-Steps w c p (failed e) may s = s
  resolve_bound-Steps w c p (bound argv) may s = recorded-Steps w argv _ c _ _ (may argv refl) s

  resolve_with-Steps :
      (w : World) (p : String) (o : Option Check)
      → lookup r.entries "fs.realpath" r.platform ≡ o
      → Probes "fs.realpath" "path"
      → FromStart w
      → FromStart (resolve_with r w p o).0
  unfolding resolve_with
  resolve_with-Steps w p none e may s = s
  resolve_with-Steps w p (some c) e may s =
      resolve_bound-Steps w c p (bind c (("path", p) ∷ [])) (λ argv b. may c p argv e b) s

  pub resolve-Steps :
      (w : World) (p : String)
      → Probes "fs.realpath" "path"
      → FromStart w
      → FromStart (resolve r w p).0
  unfolding resolve
  resolve-Steps w p may s = resolve_with-Steps w p _ refl may s

  installed_bound-Steps :
      (w : World) (c : Check) (bin : String) (b : Bound (List String))
      → ((argv : List String) → b ≡ bound argv → Allowed argv)
      → FromStart w
      → FromStart (installed_bound r w c bin b).0
  unfolding installed_bound installed_sent
  installed_bound-Steps w c bin (failed e) may s = s
  installed_bound-Steps w c bin (bound argv) may s = recorded-Steps w argv _ c _ _ (may argv refl) s

  installed_with-Steps :
      (w : World) (bin : String) (o : Option Check)
      → lookup r.entries "sys.which" r.platform ≡ o
      → Probes "sys.which" "name"
      → FromStart w
      → FromStart (installed_with r w bin o).0
  unfolding installed_with
  installed_with-Steps w bin none e may s = s
  installed_with-Steps w bin (some c) e may s =
      installed_bound-Steps w c bin (bind c (("name", bin) ∷ [])) (λ argv b. may c bin argv e b) s

  pub installed-Steps :
      (w : World) (bin : String)
      → Probes "sys.which" "name"
      → FromStart w
      → FromStart (installed r w bin).0
  unfolding installed
  installed-Steps w bin may s = elim (Bool-cases (has_prefix bin "/")) [
    | inl e ↦ rw e s
    | inr e ↦ rw e (installed_with-Steps w bin _ refl may s)
  ]
