-- ===== src/Hostname/Service.antt =====
-- cluster/hostname.go: `hostnameService`, its run loop and its client methods. A `select` on
-- channels is an argument that says which of its cases is taken, a Boolean where there are two.
pub mod Ownership
pub mod Blocking
mod Samples
use provider.Base.{
  ℕ, ◌+◌, Bool, true, false, ◌&&◌, ◌||◌, Option, none, some, List, [], ◌∷◌, map, leb, if◌then◌else◌,
  ◌==◌, ℕ-eq, Bytes, bytes_eq, Bytes-eq, contains,
}
use provider.Base.Map.{Map, put}
use provider.Ids.{LeaseId}
use provider.Hostname.{
  HostnameId, Store, Error, host_blocked, domain_blocked, invalid_owner, not_running, cancelled,
  Result, ok, err, prepare, reserve, can_reserve, release,
}

pub record Service : Type 0 where
  pub in_use : Store
  pub blocked_hostnames : List Bytes
  pub blocked_domains : List Bytes

abbrev pub separator : ℕ
separator = b'.'

-- `strings.ToLower` on ASCII bytes.
abbrev pub lower_byte : ℕ → ℕ
lower_byte c = if leb b'A' c && leb c b'Z' then c + 32 else c

abbrev pub to_lower : Bytes → Bytes
to_lower = map lower_byte

-- `strings.HasSuffix`
abbrev pub has_suffix : Bytes → Bytes → Bool
has_suffix [] suffix = bytes_eq [] suffix
has_suffix (c ∷ s) suffix = bytes_eq (c ∷ s) suffix || has_suffix s suffix

-- The first loop of `newHostnameService`: `(blockedHostnames, blockedDomains)`.
pub parse_blocked : List Bytes → List Bytes × List Bytes
parse_blocked [] = ([], [])
parse_blocked ([] ∷ names) =
    let (hostnames, domains) = parse_blocked names in ([] ∷ hostnames, domains)
parse_blocked ((c ∷ rest) ∷ names) =
    let (hostnames, domains) = parse_blocked names in
    if c == separator
    then (rest ∷ hostnames, (c ∷ rest) ∷ domains)
    else ((c ∷ rest) ∷ hostnames, domains)

suffix_blocked : List Bytes → Bytes → Option Error
suffix_blocked [] host = none
suffix_blocked (domain ∷ domains) host =
    let rest = suffix_blocked domains host in
    if has_suffix host domain then some (domain_blocked host) else rest

pub is_hostname_blocked : Service → Bytes → Option Error
unfolding suffix_blocked
is_hostname_blocked s host =
    if contains s.blocked_hostnames host
    then some (host_blocked host)
    else suffix_blocked s.blocked_domains host

-- The loop of `ReserveHostnames` and `CanReserveHostnames` over the lowercase names.
first_blocked : Service → List Bytes → Option Error
first_blocked s [] = none
first_blocked s (h ∷ hs) =
    let rest = first_blocked s hs in
    elim (is_hostname_blocked s h) [ some e ↦ some e | none ↦ rest ]

-- What the run loop receives.
pub data Request : Type 0 where
  reserve_request : List Bytes → HostnameId → Request
  can_request : List Bytes → Bytes → Request
  release_request : HostnameId → Request
  prepare_request : List Bytes → HostnameId → Request

-- One round of `run`: the store after the request.
pub serve : Store → Request → Store
serve store (reserve_request hs hid) = (reserve store hs hid).0
serve store (can_request hs owner) = store
serve store (release_request hid) = release store hid
serve store (prepare_request hs hid) = (prepare store hs hid).0

pub serve_all : Store → List Request → Store
serve_all store [] = store
serve_all store (r ∷ rs) = serve_all (serve store r) rs

-- Which case of a `select` is taken: the channel operation, `ctx.Done()` or `ShuttingDown()`.
pub data Choice : Type 0 where
  proceed context_done shutting_down : Choice

abbrev pub answer {ℓ} : {A : Type ℓ} → Choice → Result A → Result A
answer proceed r = r
answer context_done r = err cancelled
answer shutting_down r = err not_running

-- `owner_address` is `DeploymentID.GetOwnerAddress`, of the chain's packages.
module _ (owner_address : Bytes → Option Bytes) where
  -- `hostnameIDFromLeaseID`
  pub hostname_id : LeaseId → Result HostnameId
  hostname_id lid = elim (owner_address lid.owner) [
    | none ↦ err invalid_owner
    | some address ↦ ok (record { owner = address; dseq = lid.dseq; gseq = lid.gseq })
  ]

  -- The second loop of `newHostnameService`.
  load : Map Bytes LeaseId → Store → Result Store
  load [] store = ok store
  load ((h, lid) ∷ rest) store = elim (hostname_id lid) [
    | err e ↦ err e
    | ok hid ↦ load rest (put h hid store)
  ]

  pub new_service : List Bytes → Map Bytes LeaseId → Result Service
  unfolding load
  new_service blocked initial = elim (load initial []) [
    | err e ↦ err e
    | ok store ↦ ok (record {
      in_use = store;
      blocked_hostnames = (parse_blocked blocked).0;
      blocked_domains = (parse_blocked blocked).1;
    })
  ]

  -- `ReserveHostnames`: the request is sent or not, and its answer is awaited or not.
  send_reserve : Service → List Bytes → HostnameId → Choice → Choice → Service × Result (List Bytes)
  send_reserve s hs hid proceed wait = (
    record s { in_use = serve s.in_use (reserve_request hs hid) },
    answer wait (reserve s.in_use hs hid).1,
  )
  send_reserve s hs hid context_done wait = (s, err cancelled)
  send_reserve s hs hid shutting_down wait = (s, err not_running)

  pub reserve_hostnames :
      Service → List Bytes → LeaseId → Choice → Choice → Service × Result (List Bytes)
  unfolding first_blocked send_reserve
  reserve_hostnames s names lid sent wait = elim (first_blocked s (map to_lower names)) [
    | some e ↦ (s, err e)
    | none ↦ elim (hostname_id lid) [
      | err e ↦ (s, err e)
      | ok hid ↦ send_reserve s (map to_lower names) hid sent wait
    ]
  ]

  -- `CanReserveHostnames`
  pub can_reserve_hostnames : Service → List Bytes → Bytes → Bool → Result (Unit {0})
  can_reserve_hostnames s names owner sent = elim (first_blocked s (map to_lower names)) [
    | some e ↦ err e
    | none ↦ elim sent [
      | true ↦ can_reserve s.in_use (map to_lower names) owner
      | false ↦ err not_running
    ]
  ]

  -- `PrepareHostnamesForTransfer`; the names are sent as they are.
  send_prepare : Service → List Bytes → HostnameId → Choice → Choice → Service × Result (Unit {0})
  send_prepare s hs hid proceed wait = (
    record s { in_use = serve s.in_use (prepare_request hs hid) },
    answer wait (prepare s.in_use hs hid).1,
  )
  send_prepare s hs hid context_done wait = (s, err cancelled)
  send_prepare s hs hid shutting_down context_done = (s, err cancelled)
  send_prepare s hs hid shutting_down wait = (s, err not_running)

  pub prepare_hostnames_for_transfer :
      Service → List Bytes → LeaseId → Choice → Choice → Service × Result (Unit {0})
  unfolding send_prepare
  prepare_hostnames_for_transfer s hs lid sent wait = elim (hostname_id lid) [
    | err e ↦ (s, err e)
    | ok hid ↦ send_prepare s hs hid sent wait
  ]

  -- `ReleaseHostnames`: a shutdown drops the request and is no error.
  pub release_hostnames : Service → LeaseId → Bool → Service × Result (Unit {0})
  release_hostnames s lid sent = elim (hostname_id lid) [
    | err e ↦ (s, err e)
    | ok hid ↦ elim sent [
      | true ↦ (record s { in_use = serve s.in_use (release_request hid) }, ok tt)
      | false ↦ (s, ok tt)
    ]
  ]
