-- ===== src/Runner/Paths/Cleared.antt =====
-- What the path policy and the elevation permit of a check.
use scheck.Prelude.{
  String, true, false, Option, none, some, List, [], ◌∷◌, ◌++◌, map_get, ◌≡◌, refl, subst, All,
  All-append, inl, inr, Bool-cases,
}
use mathlib.Core.List.{append_assoc, append-nil}
use scheck.Policy.Path.{PathDecision, deny, allow, metadata_only}
use scheck.Check.Catalog.{Check, Param, Kind, kind_path, lookup, PathUse}
use scheck.Check.Bind.{Bound, bound, failed, bind}
use scheck.Finding.Posture.{RunStatus}
use scheck.Runner.Model.{Runner, World, Result, ReasonCode, elevate_sudo, elevate_root}
use scheck.Runner.Steps.{Steps, line}
use scheck.Runner.Probe.{resolve}
use scheck.Runner.Probe.Moves.{resolve-Steps}
use scheck.Runner.Paths.{
  Stand, ended, going, refuse, stat_bound, stat_instead, reads_content, on_verdict, verdict_on,
  or_empty, check_path, by_kind, check_param, check_params, sudo_prefix,
}

-- The policy lets a check have a path: it may be read, or its metadata may and the check reads no more.
pub data Lets : PathDecision → PathUse → Type 0 where
  readable : {u : PathUse} → Lets allow u
  metadata : {u : PathUse} → reads_content u ≡ false → Lets metadata_only u

-- A parameter is no path, or the policy lets the check have the path that the target resolved it to.
pub data Cleared (r : Runner) (u : PathUse) (params : List (String × String)) (p : Param)
    : Type 0 where
  no_path : ¬ (p.kind ≡ kind_path) → Cleared r u params p
  cleared :
      (w : World)
      → Lets (verdict_on r (resolve r w (or_empty (map_get params p.name))).1).decision u
      → Cleared r u params p

-- How the elevation turns an argument list into the command.
pub data Raised (r : Runner) (c : Check) (argv : List String) : List String → Type 0 where
  plain : c.elevated ≡ false → Raised r c argv argv
  as_root : c.elevated ≡ true → r.elevate ≡ elevate_root → Raised r c argv argv
  by_sudo : c.elevated ≡ true → r.elevate ≡ elevate_sudo → Raised r c argv (sudo_prefix ++ argv)

-- The commands that may be sent for a check with the given parameters.
pub data Permitted (r : Runner) (c : Check) (params : List (String × String))
    : List String → Type 0 where
  realpath :
      (f : Check) (path : String) (argv : List String)
      → lookup r.entries "fs.realpath" r.platform ≡ some f
      → bind f (("path", path) ∷ []) ≡ bound argv
      → Permitted r c params argv
  which :
      (f : Check) (bin : String) (argv : List String)
      → lookup r.entries "sys.which" r.platform ≡ some f
      → bind f (("name", bin) ∷ []) ≡ bound argv
      → Permitted r c params argv
  reads :
      (argv command : List String)
      → bind c params ≡ bound argv
      → All (Cleared r c.path_use params) c.params
      → Raised r c argv command
      → Permitted r c params command
  stats :
      (stat : Check) (path : String) (argv command : List String)
      → lookup r.entries "fs.stat" r.platform ≡ some stat
      → bind stat (("path", path) ∷ []) ≡ bound argv
      → (verdict_on r path).decision ≡ metadata_only
      → Raised r stat argv command
      → Permitted r c params command

module _ (r : Runner) (c : Check) (params : List (String × String)) (start : World) where
  abbrev pub Moves : World → Type 0
  Moves = Steps r (Permitted r c params) start

  -- What holds on the way, with the parameters that were looked at.
  pub data Standing (done : List Param) : Stand → Type 0 where
    stopped : {w : World} {res : Result} → Moves w → Standing done (ended w res)
    own :
        {w : World} {argv : List String} {res : Result}
        → res.params ≡ params
        → bind c params ≡ bound argv
        → All (Cleared r c.path_use params) done
        → Moves w
        → Standing done (going w c argv res)
    stat :
        {w : World} {stat : Check} {argv : List String} {res : Result} (path : String)
        → res.params ≡ params
        → lookup r.entries "fs.stat" r.platform ≡ some stat
        → bind stat (("path", path) ∷ []) ≡ bound argv
        → (verdict_on r path).decision ≡ metadata_only
        → Moves w
        → Standing done (going w stat argv res)

  refuse-Standing :
      {done : List Param} (w : World) (res : Result) (st : RunStatus) (why : ReasonCode)
      → Moves w
      → Standing done (refuse r w res st why)
  unfolding refuse
  refuse-Standing w res st why s = stopped (line _ s)

  stat_bound-Standing :
      {done : List Param} (w : World) (f : Check) (res : Result) (path : String)
      (b : Bound (List String))
      → res.params ≡ params
      → lookup r.entries "fs.stat" r.platform ≡ some f
      → bind f (("path", path) ∷ []) ≡ b
      → (verdict_on r path).decision ≡ metadata_only
      → Moves w
      → Standing done (stat_bound r w f res b)
  unfolding stat_bound
  stat_bound-Standing w f res path (failed e) same l b m s = refuse-Standing w _ _ _ s
  stat_bound-Standing w f res path (bound argv) same l b m s = stat path same l b m s

  stat_instead-Standing :
      {done : List Param} (w : World) (res : Result) (path : String) (o : Option Check)
      → res.params ≡ params
      → lookup r.entries "fs.stat" r.platform ≡ o
      → (verdict_on r path).decision ≡ metadata_only
      → Moves w
      → Standing done (stat_instead r w path res o)
  unfolding stat_instead
  stat_instead-Standing w res path none same l m s = refuse-Standing w res _ _ s
  stat_instead-Standing w res path (some f) same l m s =
      stat_bound-Standing w f res path _ same l refl m s

  -- The decision on a path of the check itself.
  on_verdict-own :
      (done : List Param) (d : PathDecision) (w : World) (argv : List String) (res : Result)
      (path : String) (p : Param)
      → res.params ≡ params
      → bind c params ≡ bound argv
      → (verdict_on r path).decision ≡ d
      → (Lets d c.path_use → Cleared r c.path_use params p)
      → All (Cleared r c.path_use params) done
      → Moves w
      → Standing (done ++ p ∷ []) (on_verdict d r w c argv res path)
  unfolding on_verdict
  on_verdict-own done deny w argv res path p same b v may all s = refuse-Standing w res _ _ s
  on_verdict-own done allow w argv res path p same b v may all s =
      own same b (All-append _ done (p ∷ []) all (may readable, tt)) s
  on_verdict-own done metadata_only w argv res path p same b v may all s =
      elim (Bool-cases (reads_content c.path_use)) [
        | inl e ↦ rw e (stat_instead-Standing w res path _ same refl v s)
        | inr e ↦ rw e (own same b (All-append _ done (p ∷ []) all (may (metadata e), tt)) s)
      ]

  -- The decision on a path once the check for metadata has taken the place of the check.
  on_verdict-stat :
      {done : List Param} (d : PathDecision) (w : World) (f : Check) (argv : List String)
      (res : Result) (path old : String)
      → res.params ≡ params
      → (verdict_on r path).decision ≡ d
      → lookup r.entries "fs.stat" r.platform ≡ some f
      → bind f (("path", old) ∷ []) ≡ bound argv
      → (verdict_on r old).decision ≡ metadata_only
      → Moves w
      → Standing done (on_verdict d r w f argv res path)
  unfolding on_verdict
  on_verdict-stat deny w f argv res path old same v l b m s = refuse-Standing w res _ _ s
  on_verdict-stat allow w f argv res path old same v l b m s = stat old same l b m s
  on_verdict-stat metadata_only w f argv res path old same v l b m s =
      elim (Bool-cases (reads_content f.path_use)) [
        | inl e ↦ rw e (stat_instead-Standing w res path _ same refl v s)
        | inr e ↦ rw e (stat old same l b m s)
      ]

  after_resolve : (w : World) (path : String) → Moves w → Moves (resolve r w path).0
  after_resolve w path s =
      resolve-Steps r (Permitted r c params) start w path (λ f v a. realpath f v a) s

  check_path-own :
      (done : List Param) (w : World) (argv : List String) (res : Result) (p : Param)
      → res.params ≡ params
      → bind c params ≡ bound argv
      → All (Cleared r c.path_use params) done
      → Moves w
      → Standing (done ++ p ∷ []) (check_path r w c argv res p.name)
  unfolding check_path
  check_path-own done w argv res p same b all s =
      let path = λ (ps : List (String × String)). (resolve r w (or_empty (map_get ps p.name))).1 in
      on_verdict-own done _ _ argv _ _ p same b refl
        (λ l. cleared w (subst (λ ps. Lets (verdict_on r (path ps)).decision c.path_use) same l))
        all (after_resolve w _ s)

  check_path-stat :
      {done : List Param} (w : World) (f : Check) (argv : List String) (res : Result)
      (name old : String)
      → res.params ≡ params
      → lookup r.entries "fs.stat" r.platform ≡ some f
      → bind f (("path", old) ∷ []) ≡ bound argv
      → (verdict_on r old).decision ≡ metadata_only
      → Moves w
      → Standing done (check_path r w f argv res name)
  unfolding check_path
  check_path-stat w f argv res name old same l b m s =
      on_verdict-stat _ _ f argv _ _ old same refl l b m (after_resolve w _ s)

  by_kind-own :
      (done : List Param) (k : Kind) (w : World) (argv : List String) (res : Result) (p : Param)
      → p.kind ≡ k
      → res.params ≡ params
      → bind c params ≡ bound argv
      → All (Cleared r c.path_use params) done
      → Moves w
      → Standing (done ++ p ∷ []) (by_kind k r w c argv res p.name)
  unfolding by_kind
  by_kind-own done kind_path w argv res p k same b all s =
      check_path-own done w argv res p same b all s
  by_kind-own done kind w argv res p k same b all s =
      own same b (All-append _ done (p ∷ []) all (no_path (λ e. cc), tt)) s

  by_kind-stat :
      {done : List Param} (k : Kind) (w : World) (f : Check) (argv : List String) (res : Result)
      (name old : String)
      → res.params ≡ params
      → lookup r.entries "fs.stat" r.platform ≡ some f
      → bind f (("path", old) ∷ []) ≡ bound argv
      → (verdict_on r old).decision ≡ metadata_only
      → Moves w
      → Standing done (by_kind k r w f argv res name)
  unfolding by_kind
  by_kind-stat kind_path w f argv res name old same l b m s =
      check_path-stat w f argv res name old same l b m s
  by_kind-stat kind w f argv res name old same l b m s = stat old same l b m s

  -- The parameters behind those that were looked at.
  pub check_params-Standing :
      (done rest : List Param) {st : Stand}
      → Standing done st
      → Standing (done ++ rest) (check_params r rest st)
  unfolding check_params check_param
  check_params-Standing done [] h = rw append-nil h
  check_params-Standing done (p ∷ ps) (stopped s) = stopped s
  check_params-Standing done (p ∷ ps) (own {w = w} {argv = argv} {res = res} same b all s) =
      rw (← append_assoc done (p ∷ []) ps) (
        check_params-Standing (done ++ p ∷ []) ps
          (by_kind-own done p.kind w argv res p refl same b all s))
  check_params-Standing done (p ∷ ps)
        (stat {w = w} {stat = f} {argv = argv} {res = res} old same l b m s) =
      rw (← append_assoc done (p ∷ []) ps) (
        check_params-Standing (done ++ p ∷ []) ps
          (by_kind-stat p.kind w f argv res p.name old same l b m s))
