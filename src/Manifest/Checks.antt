-- ===== src/Manifest/Checks.antt =====
-- manifest/parse.go and the host name check of manifest/manager.go on one submitted manifest.
use provider.Base.{
  ℕ, Bool, true, false, ◌&&◌, ◌||◌, Option, none, some, List, [], ◌∷◌, ◌++◌, if◌then◌else◌, ◌==◌,
  ℕ-eq, Bytes, Bytes-eq,
}

-- `HTTPOptions.Proxy`
pub record Proxy : Type 0 where
  pub buffer_size : ℕ
  pub buffers_number : ℕ
  pub buffers_size : ℕ
  pub busy_buffers_size : ℕ

-- `is_ingress` is the answer of the chain package's `IsIngress`.
pub record Expose : Type 0 where
  pub hosts : List Bytes
  pub is_ingress : Bool
  pub proxy : Option Proxy

pub record Service : Type 0 where
  pub name : Bytes
  pub expose : List Expose

pub record Group : Type 0 where
  pub name : Bytes
  pub services : List Service

-- The chain's manifest package: a manifest, the groups of a deployment (`no_groups` before a
-- read), and the methods that the checks call. `validate` gives an error's text.
pub record Library : Type 1 where
  pub Manifest : Type 0
  pub Groups : Type 0
  pub no_groups : Groups
  pub groups_of : Manifest → List Group
  pub validate : Manifest → Option Bytes
  pub version : Manifest → Option Bytes
  pub check_against : Manifest → Groups → Bool

pub data Failure : Type 0 where
  request_cancelled invalid_manifest version_unreadable manifest_version : Failure
  groups_mismatch owner_unreadable manifest_rejected hostnames_refused : Failure
  over_limit : Bytes → Bytes → ℕ → ℕ → Failure
  query_failed : Bytes → Failure
  no_lease_for_deployment not_running : Failure

service_hostnames : List Expose → List Bytes
service_hostnames [] = []
service_hostnames (e ∷ es) = e.hosts ++ service_hostnames es

-- `AllHostnamesOfManifestGroup`
pub all_hostnames : List Service → List Bytes
unfolding service_hostnames
all_hostnames [] = []
all_hostnames (s ∷ ss) = service_hostnames s.expose ++ all_hostnames ss

abbrev is_empty {ℓ} : {A : Type ℓ} → List A → Bool
is_empty [] = true
is_empty (x ∷ xs) = false

exposes_no_host : List Expose → Bool
exposes_no_host [] = false
exposes_no_host (e ∷ es) = (e.is_ingress && is_empty e.hosts) || exposes_no_host es

pub missing_host : List Service → Bool
unfolding exposes_no_host
missing_host [] = false
missing_host (s ∷ ss) = exposes_no_host s.expose || missing_host ss

-- `checkHostnamesForManifest`: the host names of the groups that are leased; `none` where a
-- host is required and missing.
collect_group : Bool → Group → List Bytes → List Bytes → Option (List Bytes)
unfolding all_hostnames missing_host
collect_group require g [] acc = some acc
collect_group require g (name ∷ names) acc =
    let leased = name == g.name in
    let rest =
      collect_group require g names (if leased then acc ++ all_hostnames g.services else acc) in
    if leased && require && missing_host g.services then none else rest

pub collect_hostnames : Bool → List Group → List Bytes → List Bytes → Option (List Bytes)
unfolding collect_group
collect_hostnames require [] names acc = some acc
collect_hostnames require (g ∷ gs) names acc = elim (collect_group require g names acc) [
  | none ↦ none
  | some acc' ↦ collect_hostnames require gs names acc'
]

-- `CanReserveHostnames` of the host name service, by its outcome.
pub check_hostnames :
    Bool → (List Bytes → Bytes → Bool) → Option Bytes → List Group → List Bytes → Option Failure
unfolding collect_hostnames
check_hostnames require can_reserve none gs names = some owner_unreadable
check_hostnames require can_reserve (some owner) gs names =
    elim (collect_hostnames require gs names []) [
      | none ↦ some manifest_rejected
      | some hosts ↦ if can_reserve hosts owner then none else some hostnames_refused
    ]
