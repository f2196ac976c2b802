-- ===== src/Runner/Paths/Raised.antt =====
-- The elevation of what the path policy permits.
use scheck.Prelude.{String, Bool, true, false, List, ◌≡◌, refl, if◌then◌else◌}
use scheck.Check.Catalog.{Check}
use scheck.Finding.Posture.{RunStatus}
use scheck.Runner.Model.{
  Runner, World, Result, ReasonCode, Elevation, elevate_none, elevate_sudo, elevate_root,
}
use scheck.Runner.Steps.{line}
use scheck.Runner.Probe.{Presence, present, missing, lost}
use scheck.Runner.Probe.Moves.{installed-Steps}
use scheck.Runner.Paths.{Stand, ended, going, refuse, with_sudo, by_elevation, elevate, first_token}
use scheck.Runner.Paths.Cleared.{
  Raised, plain, as_root, by_sudo, Permitted, which, reads, stats, Moves, Standing, stopped, own,
  stat,
}

module _ (r : Runner) (c : Check) (params : List (String × String)) (start : World) where
  -- Either nothing is left to send, or what is left is permitted.
  pub data Ready : Stand → Type 0 where
    over : {w : World} {res : Result} → Moves r c params start w → Ready (ended w res)
    ready :
        {w : World} {e : Check} {argv : List String} {res : Result}
        → Permitted r c params argv
        → Moves r c params start w
        → Ready (going w e argv res)

  refuse-Ready :
      (w : World) (res : Result) (st : RunStatus) (why : ReasonCode)
      → Moves r c params start w
      → Ready (refuse r w res st why)
  unfolding refuse
  refuse-Ready w res st why s = over (line _ s)

  with_sudo-Ready :
      (p : Presence) (w : World) (e : Check) (argv : List String) (res : Result)
      → ((command : List String) → Raised r e argv command → Permitted r c params command)
      → e.elevated ≡ true
      → r.elevate ≡ elevate_sudo
      → Moves r c params start w
      → Ready (with_sudo p r w e argv res)
  unfolding with_sudo
  with_sudo-Ready present w e argv res may up how s = ready (may _ (by_sudo up how)) s
  with_sudo-Ready missing w e argv res may up how s = refuse-Ready w _ _ _ s
  with_sudo-Ready lost w e argv res may up how s = refuse-Ready w _ _ _ s

  by_elevation-Ready :
      (m : Elevation) (w : World) (e : Check) (argv : List String) (res : Result)
      → ((command : List String) → Raised r e argv command → Permitted r c params command)
      → e.elevated ≡ true
      → r.elevate ≡ m
      → Moves r c params start w
      → Ready (by_elevation m r w e argv res)
  unfolding by_elevation
  by_elevation-Ready elevate_none w e argv res may up how s = refuse-Ready w _ _ _ s
  by_elevation-Ready elevate_root w e argv res may up how s = ready (may _ (as_root up how)) s
  by_elevation-Ready elevate_sudo w e argv res may up how s =
      with_sudo-Ready _ _ e argv res may up how (
        installed-Steps r (Permitted r c params) start w (first_token argv) (λ f v a. which f v a)
          s)

  elevate_going-Ready :
      (up : Bool) (w : World) (e : Check) (argv : List String) (res : Result)
      → e.elevated ≡ up
      → ((command : List String) → Raised r e argv command → Permitted r c params command)
      → Moves r c params start w
      → Ready (if up then by_elevation r.elevate r w e argv res else going w e argv res)
  elevate_going-Ready true w e argv res up may s =
      by_elevation-Ready r.elevate w e argv res may up refl s
  elevate_going-Ready false w e argv res down may s = ready (may argv (plain down)) s

  pub elevate-Ready : {st : Stand} → Standing r c params start c.params st → Ready (elevate r st)
  unfolding elevate
  elevate-Ready (stopped s) = over s
  elevate-Ready (own {w = w} {argv = argv} {res = res} same b all s) =
      elevate_going-Ready _ w c argv res refl (λ command. reads argv command b all) s
  elevate-Ready (stat {w = w} {stat = f} {argv = argv} {res = res} path same l b m s) =
      elevate_going-Ready _ w f argv res refl (λ command. stats f path argv command l b m) s
