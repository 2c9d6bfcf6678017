-- ===== src/Manifest/Manager.antt =====
-- manifest/manager.go: the manager of one deployment's manifests.
pub mod Waiting
pub mod Answers
pub mod Once
pub mod Versions
pub mod Rereads
pub mod Latest
mod Samples
use provider.Base.{
  ℕ, Bool, true, false, not, ◌&&◌, ◌||◌, Option, none, some, List, [], ◌∷◌, ◌++◌, map, ltb,
  if◌then◌else◌, ◌==◌, ℕ-eq, Bytes, Bytes-eq,
}
use provider.Ids.{LeaseId}
use provider.Manifest.Checks.{
  query_failed, not_running, no_lease_for_deployment, check_hostnames, groups_mismatch,
  manifest_version, request_cancelled, invalid_manifest, version_unreadable, Library, Failure,
}
use provider.Manifest.Limits.{validate_proxy_buffer_limits}

-- What a round of the loop observes of its surroundings: whether a request's context is done,
-- before its checks and within them, whether the last read is young enough to be used, and the
-- answer of the host name service for an owner's names.
pub record Env : Type 0 where
  pub cancelled : ℕ → Bool
  pub cancelled_later : ℕ → Bool
  pub cache_fresh : Bool
  pub can_reserve : List Bytes → Bytes → Bool

pub record Lease : Type 0 where
  pub id : LeaseId
  pub group_name : Bytes

-- The loop goes on, or ended.
pub data Status : Type 0 where
  running ended : Status

module _ (l : Library) where
  open l use {Manifest, Groups}

  -- The response to a deployment query; `owner` is `none` where the address does not parse.
  pub record Deployment : Type 0 where
    pub groups : Groups
    pub hash : Bytes
    pub owner : Option Bytes

  abbrev pub no_deployment : Deployment
  no_deployment = record { groups = l.no_groups; hash = []; owner = none }

  -- A request is known by its response channel, a number.
  pub record Request : Type 0 where
    pub channel : ℕ
    pub value : Manifest
    pub reread : Bool

  pub record FetchResult : Type 0 where
    pub deployment : Deployment
    pub leases : List Lease
    pub height : ℕ

  pub record Version : Type 0 where
    pub hash : Bytes
    pub height : ℕ

  -- The fields of `manager`; `stoptimer` and `runch` say that they are not nil.
  pub record State : Type 0 where
    pub require_host : Bool
    pub deployment_data : Deployment
    pub requests : List Request
    pub pending_requests : List Request
    pub manifests : List Manifest
    pub expected : Version
    pub local_leases : List Lease
    pub fetched : Bool
    pub stoptimer : Bool
    pub runch : Bool

  pub data Event : Type 0 where
    shutdown : Event
    stop_timer : Event
    lease_won : Event
    lease_removed : Event
    manifest_received : Request → Event
    deployment_updated : Bytes → Event
    fetch_failed : Bytes → Event
    fetch_done : FetchResult → Event

  pub data Effect : Type 0 where
    fetch : Effect
    answer : ℕ → Option Failure → Effect
    publish : LeaseId → Manifest → Deployment → Effect

  pub record Next : Type 0 where
    pub after : State
    pub status : Status
    pub effects : List Effect

  abbrev pub go : State → List Effect → Next
  go s effects = record { after = s; status = running; effects = effects }

  -- One call behind another.
  abbrev pub and_then : Next → (State → Next) → Next
  and_then n f =
      let m = f n.after in
      record { after = m.after; status = m.status; effects = n.effects ++ m.effects }

  -- `clearFetched`
  abbrev pub clear_fetched : State → State
  clear_fetched s = record s { fetched = false; deployment_data = no_deployment; local_leases = [] }

  abbrev pub is_empty {ℓ} : {A : Type ℓ} → List A → Bool
  is_empty [] = true
  is_empty (x ∷ xs) = false

  -- `maybeScheduleStop`
  maybe_schedule_stop : State → State
  maybe_schedule_stop s =
      if not (is_empty s.local_leases) || not (is_empty s.manifests)
      then record s { stoptimer = false }
      else if s.stoptimer
      then record s { stoptimer = true }
      else s

  -- `fetchData`
  abbrev pub fetch_data : State → Next
  fetch_data s = go (record s { runch = true }) (fetch ∷ [])

  -- `maybeFetchData`
  maybe_fetch_data : Env → State → Next
  maybe_fetch_data env s =
      if s.runch
      then go s []
      else if not s.fetched || not env.cache_fresh
      then fetch_data (clear_fetched s)
      else go s []

  -- `maybeRereadData`, called while no read runs
  maybe_reread_data : State → Next
  maybe_reread_data s = if is_empty s.requests then go s [] else fetch_data (clear_fetched s)

  -- `applyFetchResult`
  apply_fetch_result : FetchResult → State → State
  apply_fetch_result r s =
      let s' = record s {
        fetched = true;
        deployment_data = r.deployment;
        local_leases = r.leases;
      } in
      if is_empty r.deployment.hash
      then s'
      else if ltb r.height s.expected.height
      then s'
      else record s' { expected = record { hash = r.deployment.hash; height = r.height } }

  -- `fillAllRequests`
  answer_all : Option Failure → List Request → List Effect
  answer_all response [] = []
  answer_all response (r ∷ rs) = answer r.channel response ∷ answer_all response rs

  fill_all_requests : Failure → State → Next
  unfolding answer_all
  fill_all_requests response s =
      go (record s { pending_requests = []; requests = [] })
        (answer_all (some response) s.pending_requests ++ answer_all (some response) s.requests)

  -- `validateRequest`, its checks in order
  checks_of_hash : Env → State → Request → Option Bytes → Option Failure
  checks_of_hash env s r none = some version_unreadable
  checks_of_hash env s r (some version) =
      if not (version == s.expected.hash)
      then some manifest_version
      else if not (l.check_against r.value s.deployment_data.groups)
      then some groups_mismatch
      else check_hostnames s.require_host env.can_reserve s.deployment_data.owner
          (l.groups_of r.value) (map (λ lease. lease.group_name) s.local_leases)

  checks_of_limits : Env → State → Request → Option Failure → Option Failure
  unfolding checks_of_hash
  checks_of_limits env s r (some e) = some e
  checks_of_limits env s r none = checks_of_hash env s r (l.version r.value)

  checks_of_manifest : Env → State → Request → Option Bytes → Option Failure
  unfolding checks_of_limits
  checks_of_manifest env s r (some text) = some invalid_manifest
  checks_of_manifest env s r none =
      checks_of_limits env s r (validate_proxy_buffer_limits (l.groups_of r.value))

  pub validate_request : Env → State → Request → Option Failure
  unfolding checks_of_manifest
  validate_request env s r =
      if env.cancelled_later r.channel
      then some request_cancelled
      else checks_of_manifest env s r (l.validate r.value)

  -- The three outcomes of the loop of `validateRequests`.
  pub record Sorted : Type 0 where
    pub reread : List Request
    pub accepted : List Request
    pub effects : List Effect

  is_version_error : Failure → Bool
  is_version_error manifest_version = true
  is_version_error _ = false

  sort_one : Request → Option Failure → Sorted → Sorted
  unfolding is_version_error
  sort_one r none rest = record rest { accepted = r ∷ rest.accepted }
  sort_one r (some e) rest =
      if is_version_error e && not r.reread
      then record rest { reread = record r { reread = true } ∷ rest.reread }
      else record rest { effects = answer r.channel (some e) ∷ rest.effects }

  pub sort_requests : Env → State → List Request → Sorted
  unfolding sort_one
  sort_requests env s [] = record { reread = []; accepted = []; effects = [] }
  sort_requests env s (r ∷ rs) =
      let rest = sort_requests env s rs in
      if env.cancelled r.channel then rest else sort_one r (validate_request env s r) rest

  first_value : List Request → List Manifest
  first_value [] = []
  first_value (r ∷ rs) = r.value ∷ []

  -- `validateRequests`
  validate_requests : Env → State → Next
  unfolding sort_requests first_value
  validate_requests env s =
      let sorted = sort_requests env s s.requests in
      if not s.fetched || is_empty s.requests
      then go s []
      else go
          (record s {
            requests = sorted.reread;
            pending_requests = s.pending_requests ++ sorted.accepted;
            manifests = s.manifests ++ first_value sorted.accepted;
          })
          sorted.effects

  pub last_manifest : List Manifest → Option Manifest
  last_manifest [] = none
  last_manifest (m ∷ ms) = elim (last_manifest ms) [ none ↦ some m | some latest ↦ some latest ]

  publish_all : Manifest → Deployment → List Lease → List Effect
  publish_all m d [] = []
  publish_all m d (lease ∷ leases) = publish lease.id m d ∷ publish_all m d leases

  emit_latest : Option Manifest → State → Next
  unfolding publish_all answer_all fill_all_requests
  emit_latest none s = go s []
  emit_latest (some latest) s =
      if is_empty s.local_leases
      then fill_all_requests no_lease_for_deployment s
      else go (record s { pending_requests = [] })
          (publish_all latest s.deployment_data s.local_leases
            ++ answer_all none s.pending_requests)

  -- `emitReceivedEvents`
  emit_received_events : State → Next
  unfolding emit_latest last_manifest
  emit_received_events s =
      if not s.fetched then go s [] else emit_latest (last_manifest s.manifests) s

  -- `maybeEmitReceivedEvents`
  maybe_emit_received_events : State → Next
  unfolding emit_received_events
  maybe_emit_received_events s =
      if not (is_empty s.requests) && is_empty s.pending_requests
      then go s []
      else emit_received_events s

  -- What a round does with requests that can be checked now.
  check_and_emit : Env → State → Next
  unfolding validate_requests maybe_emit_received_events
  check_and_emit env s = and_then (validate_requests env s) maybe_emit_received_events

  on_manifest : Env → State → Next
  unfolding maybe_fetch_data check_and_emit maybe_reread_data
  on_manifest env s =
      let n = maybe_fetch_data env s in
      if n.after.runch then n else and_then (and_then n (check_and_emit env)) maybe_reread_data

  stop_with : Next → Next
  stop_with n = record n { status = ended }

  -- One round of the loop of `run`; the last round answers what is left.
  pub handle : Env → State → Event → Next
  unfolding on_manifest maybe_schedule_stop maybe_fetch_data check_and_emit maybe_reread_data
      apply_fetch_result fill_all_requests stop_with
  handle env s shutdown = stop_with (fill_all_requests not_running s)
  handle env s stop_timer = stop_with (fill_all_requests not_running s)
  handle env s lease_won = maybe_fetch_data env (maybe_schedule_stop (clear_fetched s))
  handle env s lease_removed = go (maybe_schedule_stop (clear_fetched s)) []
  handle env s (manifest_received r) =
      on_manifest env (maybe_schedule_stop (record s { requests = s.requests ++ r ∷ [] }))
  handle env s (deployment_updated version) = go (clear_fetched s) []
  handle env s (fetch_failed text) =
      fill_all_requests (query_failed text) (record s { runch = false })
  handle env s (fetch_done r) =
      and_then (check_and_emit env (apply_fetch_result r (record s { runch = false })))
        (λ s'. maybe_reread_data (maybe_schedule_stop s'))

  pub enabled : State → Event → Bool
  enabled s stop_timer = s.stoptimer
  enabled s (fetch_failed text) = s.runch
  enabled s (fetch_done r) = s.runch
  enabled s _ = true

  -- `newManager`
  pub start : Bool → State
  start require_host = record {
    require_host = require_host;
    deployment_data = no_deployment;
    requests = [];
    pending_requests = [];
    manifests = [];
    expected = record { hash = []; height = 0 };
    local_leases = [];
    fetched = false;
    stoptimer = false;
    runch = false;
  }

  abbrev pub is_running : Status → Bool
  is_running running = true
  is_running ended = false

  pub run : State → List (Env × Event) → Next
  run s [] = go s []
  run s ((env, e) ∷ es) =
      let n = handle env s e in
      let rest = run n.after es in
      if is_running n.status then record rest { effects = n.effects ++ rest.effects } else n
