-- ===== src/Manifest/Service.antt =====
-- manifest/service.go: the loop that starts a manager for each deployment with a lease or a
-- manifest, and a watchdog that closes a bid without a manifest. Managers are kept under
-- `DeploymentPath`, an injective text of the deployment's id: here under the id.
pub mod Starts
pub mod Lifetimes
pub mod Draining
mod Samples
use provider.Base.{
  ℕ, ◌≡◌, ◌↔◌, Bool, true, false, not, ◌&&◌, Option, none, some, List, [], ◌∷◌, ◌++◌, arith,
  if◌then◌else◌, Comparable, ◌==◌, ℕ-eq, Bytes, bytes_eq_iff, Bytes-eq, length,
}
use provider.Base.Map.{Map, get, put, delete}
use provider.Ids.{LeaseId}

pub record DeploymentId : Type 0 where
  pub owner : Bytes
  pub dseq : ℕ

abbrev pub deployment_eq : DeploymentId → DeploymentId → Bool
deployment_eq a b = a.owner == b.owner && a.dseq == b.dseq

pub deployment_eq_iff : (a b : DeploymentId) → (deployment_eq a b ≡ true) ↔ (a ≡ b)
deployment_eq_iff a b = ground (arith, bytes_eq_iff a.owner b.owner)

instance abbrev pub DeploymentId-eq : Comparable DeploymentId
DeploymentId-eq = record { same = deployment_eq; same_iff = deployment_eq_iff }

-- `LeaseID.DeploymentID()`
abbrev pub deployment_of : LeaseId → DeploymentId
deployment_of l = record { owner = l.owner; dseq = l.dseq }

-- The configuration: the provider's address and whether `ManifestTimeout` is above 0.
pub record Config : Type 0 where
  pub provider_address : Bytes
  pub has_timeout : Bool

-- A manager is known by its deployment, a watchdog by the lease it watches.
pub record State : Type 0 where
  pub managers : Map DeploymentId (Unit {0})
  pub watchdogs : Map DeploymentId LeaseId

pub data Event : Type 0 where
  shutdown : Event
  lease_won : LeaseId → Event
  deployment_updated : DeploymentId → Bytes → Event
  deployment_closed : DeploymentId → Event
  lease_closed : LeaseId → Event
  other_event : Event
  active_check : DeploymentId → Event
  submit : DeploymentId → ℕ → Event
  status_query : Event
  signal : Event
  manager_done : DeploymentId → Event
  watchdog_done : DeploymentId → Event

pub data Effect : Type 0 where
  start_manager : DeploymentId → Effect
  start_watchdog : LeaseId → Effect
  stop_watchdog : DeploymentId → Effect
  manager_lease : LeaseId → Effect
  manager_update : DeploymentId → Bytes → Effect
  manager_stop : DeploymentId → Effect
  manager_remove_lease : LeaseId → Effect
  manager_manifest : DeploymentId → ℕ → Effect
  answer_active : Bool → Effect
  answer_status : ℕ → Effect
  try_signal : Effect
  publish_status : ℕ → Effect

-- The loop goes on, or ended.
pub data Status : Type 0 where
  running ended : Status

pub record Next : Type 0 where
  pub after : State
  pub status : Status
  pub effects : List Effect

abbrev pub go : State → List Effect → Next
go s effects = record { after = s; status = running; effects = effects }

abbrev pub present {ℓ} : {A : Type ℓ} → Option A → Bool
present none = false
present (some a) = true

-- `maybeRemoveWatchdog`
pub maybe_remove_watchdog : State → DeploymentId → List Effect
maybe_remove_watchdog s did = if present (get did s.watchdogs) then stop_watchdog did ∷ [] else []

-- `ensureManager`
ensure_manager : State → DeploymentId → Next
ensure_manager s did =
    if present (get did s.managers)
    then go s []
    else go (record s { managers = put did tt s.managers }) (start_manager did ∷ [])

-- The first part of `handleLease`.
watch : Config → State → LeaseId → Bool → Next
watch c s lid is_new =
    if is_new && c.has_timeout && not (present (get (deployment_of lid) s.watchdogs))
    then go (record s { watchdogs = put (deployment_of lid) lid s.watchdogs })
        (start_watchdog lid ∷ [])
    else go s []

abbrev pub and_then : Next → (State → Next) → Next
and_then n f =
    let m = f n.after in
    record { after = m.after; status = m.status; effects = n.effects ++ m.effects }

-- `handleLease`
pub handle_lease : Config → State → LeaseId → Bool → Next
unfolding watch ensure_manager
handle_lease c s lid is_new =
    and_then (and_then (watch c s lid is_new) (λ s'. ensure_manager s' (deployment_of lid)))
      (λ s'. go s' (manager_lease lid ∷ []))

-- A message to the manager of a deployment, if there is one.
pub to_manager : State → DeploymentId → Effect → Next
to_manager s did e = if present (get did s.managers) then go s (e ∷ []) else go s []

-- `case req := <-s.mreqch`
pub on_submit : State → DeploymentId → ℕ → Next
unfolding maybe_remove_watchdog ensure_manager
on_submit s did channel =
    and_then (and_then (go s (maybe_remove_watchdog s did)) (λ s'. ensure_manager s' did))
      (λ s'. go s' (manager_manifest did channel ∷ try_signal ∷ []))

-- `case manager := <-s.managerch`
on_manager_done : State → DeploymentId → Next
unfolding maybe_remove_watchdog
on_manager_done s did =
    go (record s { managers = delete did s.managers })
      (maybe_remove_watchdog s did ++ try_signal ∷ [])

-- One round of the loop of `run`.
pub handle : Config → State → Event → Next
unfolding handle_lease to_manager on_submit on_manager_done
handle c s shutdown = record { after = s; status = ended; effects = [] }
handle c s (lease_won lid) =
    if not (lid.provider == c.provider_address) then go s [] else handle_lease c s lid true
handle c s (deployment_updated did hash) = to_manager s did (manager_update did hash)
handle c s (deployment_closed did) = to_manager s did (manager_stop did)
handle c s (lease_closed lid) =
    if not (lid.provider == c.provider_address)
    then go s []
    else to_manager s (deployment_of lid) (manager_remove_lease lid)
handle c s other_event = go s []
handle c s (active_check did) = go s (answer_active (present (get did s.managers)) ∷ [])
handle c s (submit did channel) = on_submit s did channel
handle c s status_query = go s (answer_status (length s.managers) ∷ [])
handle c s signal = go s (publish_status (length s.managers) ∷ [])
handle c s (manager_done did) = on_manager_done s did
handle c s (watchdog_done did) = go (record s { watchdogs = delete did s.watchdogs }) []

-- A manager or a watchdog is done once, and only one that was started.
pub enabled : State → Event → Bool
enabled s (manager_done did) = present (get did s.managers)
enabled s (watchdog_done did) = present (get did s.watchdogs)
enabled s _ = true

-- `NewService`
pub start : State
start = record { managers = []; watchdogs = [] }

abbrev pub is_running : Status → Bool
is_running running = true
is_running ended = false

pub run : Config → State → List Event → Next
run c s [] = go s []
run c s (e ∷ es) =
    let n = handle c s e in
    let rest = run c n.after es in
    if is_running n.status then record rest { effects = n.effects ++ rest.effects } else n

abbrev pub Fits : Config → State → List Event → Type 0
Fits c s [] = Unit
Fits c s (e ∷ es) = (enabled s e ≡ true) × Fits c (handle c s e).after es
