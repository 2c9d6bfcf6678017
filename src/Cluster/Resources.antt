-- ===== src/Cluster/Resources.antt =====
-- cluster/reservation.go, cluster/util/endpoint_quantity.go and the helpers of
-- cluster/inventory.go on resource groups. The types of resources are of the chain's packages.
use provider.Base.{
  ℕ, suc, ◌+◌, ◌≡◌, refl, Bool, true, false, not, ◌&&◌, Option, none, some, List, [], ◌∷◌, map,
  arith, if◌then◌else◌, ◌==◌, ℕ-eq, Bytes, Bytes-eq, codes, length, contains,
}
use provider.Ids.{OrderId}

pub data Kind : Type 0 where
  shared_http random_port leased_ip : Kind

abbrev pub kind_eq : Kind → Kind → Bool
kind_eq shared_http shared_http = true
kind_eq random_port random_port = true
kind_eq leased_ip leased_ip = true
kind_eq _ _ = false

pub record Endpoint : Type 0 where
  pub kind : Kind
  pub sequence_number : ℕ

-- One entry of `GetResourceUnits`. A resource that is nil is `none`.
pub record ResourceUnit : Type 0 where
  pub cpu : Option ℕ
  pub gpu : Option ℕ
  pub memory : Option ℕ
  pub storage : List ℕ
  pub endpoints : List Endpoint
  pub count : ℕ

pub record ResourceGroup : Type 0 where
  pub name : Bytes
  pub attributes : List (Bytes × Bytes)
  pub units : List ResourceUnit

pub data TeeType : Type 0 where
  tee_none tee_cpu tee_cpu_gpu : TeeType

-- `ParseTEEType`
abbrev pub parse_tee_type : Bytes → Option TeeType
parse_tee_type s =
    if s == []
    then some tee_none
    else if s == codes "cpu"
    then some tee_cpu
    else if s == codes "cpu-gpu"
    then some tee_cpu_gpu
    else none

-- `teeTypeFromResourceGroup`: the first attribute of that key whose value parses.
pub tee_type_of : List (Bytes × Bytes) → TeeType
tee_type_of [] = tee_none
tee_type_of ((key, value) ∷ attrs) =
    let rest = tee_type_of attrs in
    if key == codes "tee/type"
    then (elim (parse_tee_type value) [ some t ↦ t | none ↦ rest ])
    else rest

-- `accumEndpointsOfResources`: the map's keys, each once.
unfoldable pub accumulate : Kind → List Endpoint → List ℕ → List ℕ
accumulate kind [] accum = accum
accumulate kind (e ∷ es) accum = accumulate kind es (
    if kind_eq e.kind kind && not (contains accum e.sequence_number)
    then e.sequence_number ∷ accum
    else accum)

unfoldable pub accumulate_units : Kind → List ResourceUnit → List ℕ → List ℕ
accumulate_units kind [] accum = accum
accumulate_units kind (u ∷ us) accum = accumulate_units kind us (accumulate kind u.endpoints accum)

-- `GetEndpointQuantityOfResourceGroup`
unfoldable pub endpoint_quantity : Kind → ResourceGroup → ℕ
unfolding accumulate_units accumulate
endpoint_quantity kind group = length (accumulate_units kind group.units [])

abbrev pub random_ports : List Endpoint → ℕ
random_ports [] = 0
random_ports (e ∷ es) =
    let rest = random_ports es in if kind_eq e.kind random_port then suc rest else rest

-- `reservationCountEndpoints`, on the resources of a reservation.
pub count_endpoints : List ResourceUnit → ℕ
count_endpoints [] = 0
count_endpoints (u ∷ us) = random_ports u.endpoints + count_endpoints us

-- The check of `reserve` before a request is sent.
pub data InvalidResource : Type 0 where
  nil_cpu nil_gpu nil_memory : ℕ → InvalidResource

abbrev pub is_nil : Option ℕ → Bool
is_nil none = true
is_nil (some n) = false

pub check_units : ℕ → List ResourceUnit → Option InvalidResource
check_units idx [] = none
check_units idx (u ∷ us) =
    let rest = check_units (idx + 1) us in
    if is_nil u.cpu
    then some (nil_cpu idx)
    else if is_nil u.gpu
    then some (nil_gpu idx)
    else if is_nil u.memory
    then some (nil_memory idx)
    else rest

-- `sdlutil.ComputeCommittedResources` at each of the four configured levels.
pub record CommitLevels : Type 0 where
  pub commit_cpu : ℕ → ℕ
  pub commit_gpu : ℕ → ℕ
  pub commit_memory : ℕ → ℕ
  pub commit_storage : ℕ → ℕ

-- `resourcesToCommit`, on one unit; a getter of a nil resource gives a zero quantity.
abbrev pub quantity : Option ℕ → ℕ
quantity none = 0
quantity (some n) = n

unfoldable pub commit_unit : CommitLevels → ResourceUnit → ResourceUnit
commit_unit levels u = record {
  cpu = some (levels.commit_cpu (quantity u.cpu));
  gpu = some (levels.commit_gpu (quantity u.gpu));
  memory = some (levels.commit_memory (quantity u.memory));
  storage = map levels.commit_storage u.storage;
  endpoints = u.endpoints;
  count = u.count;
}

unfoldable pub resources_to_commit : CommitLevels → ResourceGroup → ResourceGroup
unfolding commit_unit
resources_to_commit levels group = record group { units = map (commit_unit levels) group.units }

-- A reservation; `adjusted` is what `Adjust` set, of a type of the inventory's.
pub record Reservation (A : Type 0) : Type 0 where
  pub order : OrderId
  pub resources : ResourceGroup
  pub adjusted : Option A
  pub endpoint_quantity_needed : ℕ
  pub allocated : Bool
  pub ips_confirmed : Bool
  pub tee_type : TeeType

unfoldable pub new_reservation : {A : Type 0} → OrderId → ResourceGroup → Reservation A
new_reservation order resources = record {
  order = order;
  resources = resources;
  adjusted = none;
  endpoint_quantity_needed = endpoint_quantity leased_ip resources;
  allocated = false;
  ips_confirmed = false;
  tee_type = tee_none;
}

-- Committing changes no endpoint, so neither the ports nor the leased addresses of a group.
pub count_endpoints-commit :
    (levels : CommitLevels) (us : List ResourceUnit)
    → count_endpoints (map (commit_unit levels) us) ≡ count_endpoints us
unfolding count_endpoints commit_unit
count_endpoints-commit levels [] = refl
count_endpoints-commit levels (u ∷ us) = omega (arith, count_endpoints-commit levels us)
