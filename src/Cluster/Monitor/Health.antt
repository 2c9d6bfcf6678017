-- ===== src/Cluster/Monitor/Health.antt =====
-- cluster/monitor.go: the health of a deployment.
use provider.Base.{
  ◌≤◌, ◌≡◌, refl, ◌↔◌, inl, inr, true, Option, none, some, List, [], ◌∷◌, arith, nat_eq_iff,
  Bool-cases, ℕ-eq, Bytes, Bytes-eq, Each,
}
use provider.Base.Map.{Map, get}
use provider.Base.Int.{ℤ}
use provider.Cluster.Monitor.{bad_services, service_ok, uint32, ServiceSpec, do_check}

abbrev pub Serves : Map Bytes ℤ → ServiceSpec → Type 0
Serves status spec =
    (available : ℤ) × (get spec.name status ≡ some available) × (spec.replicas ≤ uint32 available)

service_ok-Serves :
    (spec : ServiceSpec) (o : Option ℤ)
    → (service_ok spec o ≡ true)
      ↔ ((available : ℤ) × (o ≡ some available) × (spec.replicas ≤ uint32 available))
unfolding service_ok
service_ok-Serves spec none = ground arith
service_ok-Serves spec (some a) =
    ((λ h. (a, refl, ground (arith, h))), (λ h. let (b, same, le) = h in ground (arith, same, le)))

bad_services-Serves :
    (status : Map Bytes ℤ) (specs : List ServiceSpec)
    → (bad_services status specs ≡ 0) ↔ Each (Serves status) specs
unfolding bad_services
bad_services-Serves status [] = ((λ h. tt), (λ h. refl))
bad_services-Serves status (spec ∷ specs) =
    let one = service_ok-Serves spec (get spec.name status) in
    let rest = bad_services-Serves status specs in
    elim (Bool-cases (service_ok spec (get spec.name status))) [
      | inl good ↦ rw good ((λ h. (one.0 good, rest.0 h)), (λ h. rest.1 h.1))
      | inr bad ↦ rw bad ((λ h. ground (arith, h)), (λ h. ground (arith, bad, one.1 h.0)))
    ]

-- A check of a report is good exactly when each service of the group is in it with at least its
-- replicas available.
pub do_check_lem :
    (specs : List ServiceSpec) (status : Map Bytes ℤ)
    → (do_check specs (some status) ≡ true) ↔ Each (Serves status) specs
unfolding do_check
do_check_lem specs status =
    let count = nat_eq_iff (bad_services status specs) 0 in
    let each = bad_services-Serves status specs in
    ((λ h. each.0 (count.0 h)), (λ h. count.1 (each.1 h)))
