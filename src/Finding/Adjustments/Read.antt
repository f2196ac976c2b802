-- ===== src/Finding/Adjustments/Read.antt =====
-- What the table of adjustments reads of a finding.
use scheck.Prelude.{String, ◌≡◌, refl, ap, Option, none, some, List, [], ◌∷◌, ◌++◌}
use scheck.Finding.Report.{Finding, ServiceRef}
use scheck.Finding.Adjustments.{
  Grader, Structured, Service, adjustments, service_adjustments, service_adjustment,
  exposure_adjustments, environment_adjustments, expected,
}

service_adjustment-ext :
    (g : Grader) (f h : Finding) (s : ServiceRef) (found : Option Service)
    → h.severity_base ≡ f.severity_base
    → h.category ≡ f.category
    → service_adjustment g h s found ≡ service_adjustment g f s found
unfolding service_adjustment
service_adjustment-ext g f h s none eb ec = rw ec refl
service_adjustment-ext g f h s (some svc) eb ec = rw eb refl

-- A finding's services are judged by its base severity and its category alone.
service_adjustments-ext :
    (g : Grader) (f h : Finding) (services : List Service) (s : Option ServiceRef)
    → h.severity_base ≡ f.severity_base
    → h.category ≡ f.category
    → service_adjustments g h services s ≡ service_adjustments g f services s
unfolding service_adjustments
service_adjustments-ext g f h [] s eb ec = refl
service_adjustments-ext g f h (svc ∷ services) none eb ec = refl
service_adjustments-ext g f h (svc ∷ services) (some s) eb ec =
    service_adjustment-ext g f h s (expected (svc ∷ services) s) eb ec

exposure_adjustments-ext :
    (g : Grader) (f h : Finding) (exposure : String)
    → h.category ≡ f.category
    → exposure_adjustments g h exposure ≡ exposure_adjustments g f exposure
unfolding exposure_adjustments
exposure_adjustments-ext g f h exposure ec = rw ec refl

-- Two findings with the same base severity, category and service have the same adjustments.
pub adjustments-ext :
    (g : Grader) (c : Structured) (f h : Finding)
    → h.severity_base ≡ f.severity_base
    → h.category ≡ f.category
    → h.service ≡ f.service
    → adjustments g c h ≡ adjustments g c f
unfolding adjustments
adjustments-ext g c f h eb ec es =
    let rest = exposure_adjustments g f c.exposure in
    let last = environment_adjustments g c.environment in
    rw
      (
        service_adjustments-ext g f h c.expected_services h.service eb ec,
        exposure_adjustments-ext g f h c.exposure ec,
      )
      (ap (λ s. (service_adjustments g f c.expected_services s ++ rest) ++ last) es)
