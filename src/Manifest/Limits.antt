-- ===== src/Manifest/Limits.antt =====
-- manifest/proxy_limits.go: the caps on the proxy options of a manifest.
use provider.Base.{
  ℕ, ◌≤◌, ◌≡◌, refl, ◌↔◌, Option, none, some, List, [], ◌∷◌, arith, ltb, if◌then◌else◌, ℕ-eq, Bytes,
  Bytes-eq, codes, Each,
}
use provider.Manifest.Checks.{over_limit, Proxy, Expose, Service, Group, Failure}

-- The first of two optional errors.
abbrev pub or_else {ℓ} : {A : Type ℓ} → Option A → Option A → Option A
or_else none o = o
or_else (some a) o = some a

-- The caps: `maxProxyBufferSize` and the constants below it.
abbrev pub max_buffer_size : ℕ
max_buffer_size = 131_072

abbrev pub max_buffers_number : ℕ
max_buffers_number = 16

abbrev pub max_buffers_size : ℕ
max_buffers_size = 131_072

abbrev pub max_busy_buffers_size : ℕ
max_busy_buffers_size = 262_144

-- The switch of `validateProxyBufferLimits`.
proxy_over_limit : Bytes → Proxy → Option Failure
proxy_over_limit service p =
    if ltb max_buffer_size p.buffer_size
    then some (over_limit service (codes "buffer_size") p.buffer_size max_buffer_size)
    else if ltb max_buffers_number p.buffers_number
    then some (over_limit service (codes "buffers_number") p.buffers_number max_buffers_number)
    else if ltb max_buffers_size p.buffers_size
    then some (over_limit service (codes "buffers_size") p.buffers_size max_buffers_size)
    else if ltb max_busy_buffers_size p.busy_buffers_size
    then some
        (over_limit service (codes "busy_buffers_size") p.busy_buffers_size max_busy_buffers_size)
    else none

expose_over_limit : Bytes → Option Proxy → Option Failure
unfolding proxy_over_limit
expose_over_limit service none = none
expose_over_limit service (some p) = proxy_over_limit service p

service_over_limit : Bytes → List Expose → Option Failure
unfolding expose_over_limit
service_over_limit service [] = none
service_over_limit service (e ∷ es) =
    or_else (expose_over_limit service e.proxy) (service_over_limit service es)

group_over_limit : List Service → Option Failure
unfolding service_over_limit
group_over_limit [] = none
group_over_limit (s ∷ ss) = or_else (service_over_limit s.name s.expose) (group_over_limit ss)

-- `validateProxyBufferLimits`
pub validate_proxy_buffer_limits : List Group → Option Failure
unfolding group_over_limit
validate_proxy_buffer_limits [] = none
validate_proxy_buffer_limits (g ∷ gs) =
    or_else (group_over_limit g.services) (validate_proxy_buffer_limits gs)

-- No proxy option of a manifest that passes is above its cap.
abbrev pub IsWithin : Option Proxy → Type 0
IsWithin none = Unit
IsWithin (some p) =
    (p.buffer_size ≤ max_buffer_size)
    × (p.buffers_number ≤ max_buffers_number)
    × (p.buffers_size ≤ max_buffers_size)
    × (p.busy_buffers_size ≤ max_busy_buffers_size)

abbrev pub AllWithin : List Group → Type 0
AllWithin = Each (λ g. Each (λ s. Each (λ e. IsWithin e.proxy) s.expose) g.services)

or_else-none {ℓ} : {A : Type ℓ} (a b : Option A) → (or_else a b ≡ none) ↔ ((a ≡ none) × (b ≡ none))
or_else-none none b = ground arith
or_else-none (some x) b = ground arith

expose_over_limit-IsWithin :
    (service : Bytes) (p : Option Proxy) → (expose_over_limit service p ≡ none) ↔ IsWithin p
unfolding expose_over_limit
expose_over_limit-IsWithin service none = ((λ h. tt), (λ h. refl))
expose_over_limit-IsWithin service (some p) = ground arith

service_over_limit-Each :
    (service : Bytes) (es : List Expose)
    → (service_over_limit service es ≡ none) ↔ Each (λ e. IsWithin e.proxy) es
unfolding service_over_limit
service_over_limit-Each service [] = ((λ h. tt), (λ h. refl))
service_over_limit-Each service (e ∷ es) = ground (
  arith,
  or_else-none (expose_over_limit service e.proxy) (service_over_limit service es),
  expose_over_limit-IsWithin service e.proxy,
  service_over_limit-Each service es,
)

group_over_limit-Each :
    (ss : List Service)
    → (group_over_limit ss ≡ none) ↔ Each (λ s. Each (λ e. IsWithin e.proxy) s.expose) ss
unfolding group_over_limit
group_over_limit-Each [] = ((λ h. tt), (λ h. refl))
group_over_limit-Each (s ∷ ss) = ground (
  arith,
  or_else-none (service_over_limit s.name s.expose) (group_over_limit ss),
  service_over_limit-Each s.name s.expose,
  group_over_limit-Each ss,
)

-- The check of proxy options passes exactly the manifests in which each option is within its cap.
pub validate_proxy_buffer_limits_lem :
    (gs : List Group) → (validate_proxy_buffer_limits gs ≡ none) ↔ AllWithin gs
unfolding validate_proxy_buffer_limits
validate_proxy_buffer_limits_lem [] = ((λ h. tt), (λ h. refl))
validate_proxy_buffer_limits_lem (g ∷ gs) = ground (
  arith,
  or_else-none (group_over_limit g.services) (validate_proxy_buffer_limits gs),
  group_over_limit-Each g.services,
  validate_proxy_buffer_limits_lem gs,
)
