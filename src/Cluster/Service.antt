-- ===== src/Cluster/Service.antt =====
-- cluster/service.go: the service that keeps one deployment manager for each lease, looks its
-- reservation up when a manifest arrives, and gives it back when the manager is done.
pub mod Managers
pub mod Frees
mod Samples
use provider.Base.{
  ℕ, ◌-◌, ◌%◌, ◌^◌, ◌≡◌, Bool, true, false, not, ◌&&◌, Option, none, some, List, [], ◌∷◌, ◌++◌, map,
  nat_eq, if◌then◌else◌, ◌==◌, ℕ-eq, Bytes, Bytes-eq, length,
}
use provider.Base.Map.{Map, get, put, delete, put_all}
use provider.Ids.{LeaseId, OrderId-eq, LeaseId-eq, order_of}
use provider.Base.Trace.{change}
use provider.Cluster.Reservations.{Reservations}

-- The owner, deployment and group that `FindActiveLease` asks for.
pub record GroupRef : Type 0 where
  pub owner : Bytes
  pub dseq : ℕ
  pub gseq : ℕ

-- The loop of `run`, what is behind it with the managers still to wait for, and the end.
pub data Phase : Type 0 where
  running : Phase
  draining : ℕ → Phase
  ended : Phase

pub data Effect : Type 0 where
  start_manager : LeaseId → Bool → Effect
  update_manager : LeaseId → Effect
  teardown_manager : LeaseId → Effect
  reclaim_manager : LeaseId → ℕ → Effect
  remove_funds_monitor : LeaseId → Effect
  answer_status : ℕ → Effect
  publish_status : ℕ → Effect
  answer_lease : Option LeaseId → Effect
  try_signal : Effect

abbrev pub in_group : GroupRef → LeaseId → Bool
in_group g l = nat_eq l.gseq g.gseq && nat_eq l.dseq g.dseq && l.owner == g.owner

abbrev pub present {ℓ} : {A : Type ℓ} → Option A → Bool
present none = false
present (some a) = true

-- `doCheckDeploymentExists`: the first manager of the group, in the order of the map.
pub find_lease : GroupRef → Map LeaseId (Unit {0}) → Option LeaseId
find_lease g [] = none
find_lease g ((l, u) ∷ managers) =
    let rest = find_lease g managers in if in_group g l then some l else rest

-- The managers have been waited for.
abbrev pub is_drained : Phase → Bool
is_drained (draining n) = nat_eq n 0
is_drained _ = false

module _ (r : Reservations) where
  open r use {Store, lookup, unreserve}

  pub record State : Type 0 where
    pub managers : Map LeaseId (Unit {0})
    pub store : Store
    pub phase : Phase

  -- A manifest arrives with the name of its group, if it has it; a status comes with whether the
  -- inventory gave its own. `inventory_moved` is a change by the inventory and its other clients,
  -- and `inventory_done` its end, `<-s.inventory.done()`.
  pub data Event : Type 0 where
    shutdown : Event
    manifest_received : LeaseId → Option Bytes → Event
    lease_closed : LeaseId → Event
    lease_reclaim_started : LeaseId → ℕ → Event
    other_event : Event
    status_query : Event
    signal : Bool → Event
    inventory_published : Bool → Event
    manager_done : LeaseId → Event
    exists_query : GroupRef → Event
    inventory_moved : Store → Event
    inventory_done : Event

  pub record Next : Type 0 where
    pub after : State
    pub effects : List Effect

  abbrev pub go : State → List Effect → Next
  go s effects = record { after = s; effects = effects }

  -- `case event.ManifestReceived`
  pub on_manifest : State → LeaseId → Option Bytes → Next
  on_manifest s lid none = go s []
  on_manifest s lid (some name) =
      if not (lookup s.store (order_of lid) name)
      then go s []
      else if present (get lid s.managers)
      then go s (update_manager lid ∷ [])
      else go (record s { managers = put lid tt s.managers })
          (start_manager lid true ∷ try_signal ∷ [])

  -- `teardownLease`; the owner is the provider's address.
  pub teardown_lease : Bytes → State → LeaseId → Next
  teardown_lease owner s lid =
      if present (get lid s.managers)
      then go s (teardown_manager lid ∷ [])
      else if lid.provider == owner
      then go (record s { store = (unreserve s.store (order_of lid)).0 }) []
      else go s []

  -- `case *mtypes.EventLeaseClosed`
  pub on_lease_closed : Bytes → State → LeaseId → Next
  unfolding teardown_lease
  on_lease_closed owner s lid =
      let n = teardown_lease owner s lid in
      record n { effects = remove_funds_monitor lid ∷ n.effects }

  -- `case *mtypes.EventLeaseReclaimStarted`
  pub on_reclaim : State → LeaseId → ℕ → Next
  on_reclaim s lid deadline =
      if present (get lid s.managers) then go s (reclaim_manager lid deadline ∷ []) else go s []

  -- `case dm := <-s.managerch`
  pub on_manager_done : State → LeaseId → Next
  on_manager_done s lid =
      go
        (record s {
          managers = delete lid s.managers;
          store = (unreserve s.store (order_of lid)).0;
        })
        (try_signal ∷ [])

  -- `uint32(len(s.managers))`
  pub manager_count : State → ℕ
  manager_count s = length s.managers % 2 ^ 32

  -- A status is published with the inventory's, and not without it.
  pub publish : State → Bool → Next
  unfolding manager_count
  publish s available = if available then go s (publish_status (manager_count s) ∷ []) else go s []

  -- One round of the loop of `run`.
  pub handle_running : Bytes → State → Event → Next
  unfolding on_manifest on_lease_closed on_reclaim on_manager_done manager_count publish find_lease
  handle_running owner s shutdown = go (record s { phase = draining (length s.managers) }) []
  handle_running owner s (manifest_received lid name) = on_manifest s lid name
  handle_running owner s (lease_closed lid) = on_lease_closed owner s lid
  handle_running owner s (lease_reclaim_started lid deadline) = on_reclaim s lid deadline
  handle_running owner s other_event = go s []
  handle_running owner s status_query = go s (answer_status (manager_count s) ∷ [])
  handle_running owner s (signal available) = publish s available
  handle_running owner s (inventory_published available) = publish s available
  handle_running owner s (manager_done lid) = on_manager_done s lid
  handle_running owner s (exists_query g) = go s (answer_lease (find_lease g s.managers) ∷ [])
  handle_running owner s (inventory_moved store) = go (record s { store = store }) []
  handle_running owner s inventory_done = go s []

  -- One round of the loop that drains, which receives only from `managerch` and gives no
  -- reservation back, or the wait for the inventory behind it.
  pub handle_draining : ℕ → State → Event → Next
  handle_draining n s (manager_done lid) = go (record s { phase = draining (n - 1) }) []
  handle_draining n s inventory_done =
      if nat_eq n 0 then go (record s { phase = ended }) [] else go s []
  handle_draining n s (inventory_moved store) = go (record s { store = store }) []
  handle_draining n s _ = go s []

  pub handle_in : Phase → Bytes → State → Event → Next
  unfolding handle_running handle_draining
  handle_in running owner s e = handle_running owner s e
  handle_in (draining n) owner s e = handle_draining n s e
  handle_in ended owner s e = go s []

  pub handle : Bytes → State → Event → Next
  unfolding handle_in
  handle owner s e = handle_in s.phase owner s e

  -- A manager is done once, and the inventory's end is waited for behind the managers.
  pub enabled : State → Event → Bool
  enabled s (manager_done lid) = present (get lid s.managers)
  enabled s inventory_done = is_drained s.phase
  enabled s _ = true

  -- `NewService` and the start of `run`, once the operators are there, with the managers of the
  -- deployments found in the cluster (`startDeploymentManagers`).
  pub start : Store → List LeaseId → State
  start store deployments = record {
    managers = put_all deployments tt [];
    store = store;
    phase = running;
  }

  pub run : Bytes → State → List Event → Next
  unfolding handle
  run owner s [] = go s []
  run owner s (e ∷ es) =
      let n = handle owner s e in
      let rest = run owner n.after es in record rest { effects = n.effects ++ rest.effects }

  abbrev pub Fits : Bytes → State → List Event → Type 0
  Fits owner s [] = Unit
  Fits owner s (e ∷ es) = (enabled s e ≡ true) × Fits owner (handle owner s e).after es
