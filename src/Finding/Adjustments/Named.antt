-- ===== src/Finding/Adjustments/Named.antt =====
-- Every row of the table of adjustments has a name.
use scheck.Prelude.{
  String, false, ◌&&◌, ◌||◌, ◌≡◌, refl, Option, none, some, Bool-cases, inl, inr, List, [], ◌∷◌,
  ◌++◌, ◌==◌, string_eq, All, All-append,
}
use scheck.Prelude.Split.{nonempty-append}
use scheck.Finding.Report.{Finding, ServiceRef}
use scheck.Finding.Adjustments.{
  Grader, Structured, Service, Pending, adjustments, service_adjustments, service_adjustment,
  exposure_adjustments, environment_adjustments,
}

unfoldable pub HasName : Pending → Type 0
HasName adj = (adj.rule == "") ≡ false

-- Every row of the table has a name.
service_adjustment-HasName :
    (g : Grader) (f : Finding) (s : ServiceRef) (found : Option Service)
    → All HasName (service_adjustment g f s found)
unfolding service_adjustment HasName
service_adjustment-HasName g f s (some svc) = (nonempty-append "e" "xpected_service:" _, tt)
service_adjustment-HasName g f s none = elim (Bool-cases (f.category == "network")) [
  | inl e ↦ rw e (nonempty-append "u" "nexpected_service:" _, tt)
  | inr e ↦ rw e tt
]

service_adjustments-HasName :
    (g : Grader) (f : Finding) (services : List Service) (s : Option ServiceRef)
    → All HasName (service_adjustments g f services s)
unfolding service_adjustments
service_adjustments-HasName g f [] s = tt
service_adjustments-HasName g f (svc ∷ services) none = tt
service_adjustments-HasName g f (svc ∷ services) (some s) = service_adjustment-HasName g f s _

exposure_adjustments-HasName :
    (g : Grader) (f : Finding) (exposure : String) → All HasName (exposure_adjustments g f exposure)
unfolding exposure_adjustments HasName
exposure_adjustments-HasName g f exposure =
    elim (Bool-cases
      (exposure == "internet" && (f.category == "remote-access" || f.category == "network"))) [
        | inl e ↦ rw e (refl, tt)
        | inr e ↦ elim (Bool-cases (exposure == "airgapped" && f.category == "remote-access")) [
          | inl u ↦ rw (e, u) (refl, tt)
          | inr u ↦ rw (e, u) tt
        ]
      ]

environment_adjustments-HasName :
    (g : Grader) (environment : String) → All HasName (environment_adjustments g environment)
unfolding environment_adjustments HasName
environment_adjustments-HasName g environment = elim (Bool-cases (environment == "dev")) [
  | inl e ↦ rw e (refl, tt)
  | inr e ↦ rw e tt
]

pub adjustments-HasName :
    (g : Grader) (c : Structured) (f : Finding) → All HasName (adjustments g c f)
unfolding adjustments
adjustments-HasName g c f =
    All-append HasName
      (service_adjustments g f c.expected_services f.service ++ exposure_adjustments g f c.exposure)
      (environment_adjustments g c.environment)
      (All-append HasName (service_adjustments g f c.expected_services f.service)
        (exposure_adjustments g f c.exposure)
        (service_adjustments-HasName g f c.expected_services f.service)
        (exposure_adjustments-HasName g f c.exposure))
      (environment_adjustments-HasName g c.environment)
