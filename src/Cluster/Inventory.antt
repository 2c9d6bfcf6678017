-- ===== src/Cluster/Inventory.antt =====
-- cluster/inventory.go: the inventory service, which owns the reservations. The cluster's
-- inventory is an interface of the source (`ctypes.Inventory`): here a type, with its `Adjust`.
pub mod Ports
pub mod Addresses
pub mod Requests
pub mod Availability
pub mod Samples
use provider.Base.{
  ℕ, ◌+◌, ◌-◌, ◌%◌, ◌^◌, ◌≡◌, Bool, true, false, not, ◌||◌, Option, none, some, List, [], ◌∷◌, ◌++◌,
  ltb, leb, nat_eq, if◌then◌else◌, ◌==◌, ℕ-eq, Bytes, Bytes-eq,
}
use provider.Ids.{OrderId, OrderId-eq}
use provider.Cluster.Resources.{
  ResourceGroup, TeeType, Reservation, new_reservation, CommitLevels, resources_to_commit,
  tee_type_of, count_endpoints,
}

-- `Adjust` may change the inventory and sets the adjusted resources, or it fails.
pub record Interface : Type 1 where
  pub Inventory : Type 0
  pub Adjusted : Type 0
  pub adjust : Inventory → ResourceGroup → TeeType → Inventory × Option Adjusted

-- The configuration: commit levels, and whether there is a client of the IP operator.
pub record Config : Type 0 where
  pub levels : CommitLevels
  pub has_ip_client : Bool

pub data Refusal : Type 0 where
  no_leased_ips insufficient_ips insufficient_capacity : Refusal
  reservation_not_found : Refusal

abbrev pub uint64 : ℕ
uint64 = 2 ^ 64

-- `availableLeasedIPs`; the subtractions are guarded.
pub available_leased_ips : ℕ → ℕ → ℕ → ℕ
available_leased_ips total in_use reserved =
    if leb total in_use
    then 0
    else let available = total - in_use in
      if leb available reserved then 0 else available - reserved

module _ (i : Interface) where
  open i use {Inventory, Adjusted, adjust}

  -- `inventoryServiceState`, the field `availableExternalPorts` and the variables of `run`.
  pub record State : Type 0 where
    pub inventory : Option Inventory
    pub available : ℕ
    pub in_use : ℕ
    pub reservations : List (Reservation Adjusted)
    pub available_external_ports : ℕ
    pub reservech : Bool
    pub runch : Bool
    pub timer : Bool

  pub data Event : Type 0 where
    shutdown : Event
    cluster_deployment : OrderId → Bytes → Bool → Event
    timer_fired : Event
    reserve : OrderId → ResourceGroup → Event
    lookup : OrderId → Bytes → Event
    unreserve : OrderId → Event
    inventory_update : Inventory → Event
    check_failed : Event
    check_done : ℕ → ℕ → List OrderId → Event

  pub data Effect : Type 0 where
    answer : Reservation Adjusted → Effect
    refuse : Refusal → Effect
    start_check : List (OrderId × ℕ) → Effect

  -- The loop goes on, ended, or dereferenced a nil inventory.
  pub data Status : Type 0 where
    running ended panicked : Status

  pub record Next : Type 0 where
    pub after : State
    pub status : Status
    pub effects : List Effect

  abbrev go : State → List Effect → Next
  go s effects = record { after = s; status = running; effects = effects }

  -- `countReservedIPs`
  pub count_reserved_ips : List (Reservation Adjusted) → ℕ
  count_reserved_ips [] = 0
  count_reserved_ips (r ∷ rs) =
      let rest = count_reserved_ips rs in
      if r.ips_confirmed then rest else (r.endpoint_quantity_needed + rest) % uint64

  -- The end of `handleRequest`, behind the call of `Adjust`.
  add_adjusted : State → Inventory → Reservation Adjusted → Option Adjusted → Next
  add_adjusted s inv r none =
      go (record s { inventory = some inv }) (refuse insufficient_capacity ∷ [])
  add_adjusted s inv r (some a) =
      let r' = record r { adjusted = some a } in
      go (record s { inventory = some inv; reservations = s.reservations ++ r' ∷ [] })
        (answer r' ∷ [])

  adjust_and_add : State → Option Inventory → Reservation Adjusted → Next
  unfolding add_adjusted
  adjust_and_add s none r = record { after = s; status = panicked; effects = [] }
  adjust_and_add s (some inv) r =
      let result = adjust inv r.resources r.tee_type in add_adjusted s result.0 r result.1

  -- The branch of `handleRequest` for a reservation that needs leased addresses.
  request_leased : Config → State → Reservation Adjusted → Next
  unfolding adjust_and_add
  request_leased c s r =
      let reserved = count_reserved_ips s.reservations in
      let available = available_leased_ips s.available s.in_use reserved in
      if not c.has_ip_client
      then go s (refuse no_leased_ips ∷ [])
      else if ltb available r.endpoint_quantity_needed
      then go s (refuse insufficient_ips ∷ [])
      else adjust_and_add s s.inventory r

  -- `handleRequest`
  pub handle_request : Config → State → OrderId → ResourceGroup → Next
  unfolding adjust_and_add request_leased
  handle_request c s order group =
      let r = new_reservation {A = Adjusted} order (resources_to_commit c.levels group) in
      let typed = record r { tee_type = tee_type_of group.attributes } in
      if nat_eq r.endpoint_quantity_needed 0
      then adjust_and_add s s.inventory (record typed { ips_confirmed = true })
      else request_leased c s typed

  -- `runCheck`: what is asked of the IP operator.
  pub to_confirm : List (Reservation Adjusted) → List (OrderId × ℕ)
  to_confirm [] = []
  to_confirm (r ∷ rs) =
      let rest = to_confirm rs in
      if r.ips_confirmed || not r.allocated
      then rest
      else (r.order, r.endpoint_quantity_needed) ∷ rest

  abbrev has_inventory : Option Inventory → Bool
  has_inventory none = false
  has_inventory (some inv) = true

  -- `updateIPs`
  update_ips : Config → State → Next
  update_ips c s =
      if c.has_ip_client
      then if s.runch
        then go (record s { reservech = false }) []
        else go (record s { reservech = false; timer = false; runch = true })
            (start_check (to_confirm s.reservations) ∷ [])
      else go (record s { reservech = s.reservech || has_inventory s.inventory }) []

  -- The loop of the deployment event: the first reservation of that order and group, and the
  -- change of the available ports.
  mark_allocated :
      OrderId → Bytes → Bool → List (Reservation Adjusted) → ℕ → List (Reservation Adjusted) × ℕ
  mark_allocated order name deployed [] ports = ([], ports)
  mark_allocated order name deployed (r ∷ rs) ports =
      let rest = mark_allocated order name deployed rs ports in
      let count = count_endpoints r.resources.units in
      if not (r.order == order) || not (r.resources.name == name) then (r ∷ rest.0, rest.1) else (
        record r { allocated = deployed } ∷ rs,
        elim r.allocated [
          | true ↦ if deployed then ports else (ports + count % uint64) % uint64
          | false ↦ if deployed then (ports + uint64 - count % uint64) % uint64 else ports
        ],
      )

  on_cluster_deployment : Config → State → OrderId → Bytes → Bool → Next
  unfolding mark_allocated update_ips
  on_cluster_deployment c s order name deployed =
      let marked = mark_allocated order name deployed s.reservations s.available_external_ports in
      update_ips c (record s { reservations = marked.0; available_external_ports = marked.1 })

  unfoldable pub find_reservation : OrderId → Bytes → List (Reservation Adjusted) → Effect
  find_reservation order name [] = refuse reservation_not_found
  find_reservation order name (r ∷ rs) =
      let rest = find_reservation order name rs in
      if not (r.order == order) || not (r.resources.name == name) then rest else answer r

  -- The loop of `unreserve`: the list without the first reservation of the order, the ports, and
  -- the answer.
  unfoldable pub remove_reservation :
      OrderId → List (Reservation Adjusted) → ℕ → List (Reservation Adjusted) × ℕ × Effect
  remove_reservation order [] ports = ([], ports, refuse reservation_not_found)
  remove_reservation order (r ∷ rs) ports =
      let rest = remove_reservation order rs ports in
      if not (r.order == order) then (r ∷ rest.0, rest.1, rest.2) else (
        rs,
        if r.allocated
            then (ports + count_endpoints r.resources.units % uint64) % uint64
            else ports,
        answer r,
      )

  unfoldable pub on_unreserve : State → OrderId → Next
  on_unreserve s order =
      let removed = remove_reservation order s.reservations s.available_external_ports in
      go (record s { reservations = removed.0; available_external_ports = removed.1 })
        (removed.2 ∷ [])

  -- What a successful `Adjust` does to the reservation.
  set_adjusted : Option Adjusted → Reservation Adjusted → Reservation Adjusted
  set_adjusted none r = r
  set_adjusted (some a) r = record r { adjusted = some a }

  -- The loop that adjusts a new inventory by the pending reservations.
  readjust : Inventory → List (Reservation Adjusted) → Inventory × List (Reservation Adjusted)
  unfolding set_adjusted
  readjust inv [] = (inv, [])
  readjust inv (r ∷ rs) =
      let step = if r.allocated then (inv, none) else adjust inv r.resources r.tee_type in
      let rest = readjust step.0 rs in (rest.0, set_adjusted step.1 r ∷ rest.1)

  on_inventory : Config → State → Inventory → Next
  unfolding update_ips readjust
  on_inventory c s inv =
      let n = update_ips c (record s { inventory = some inv }) in
      let adjusted = readjust inv n.after.reservations in
      record n {
        after = record (n.after) { inventory = some adjusted.0; reservations = adjusted.1 };
      }

  -- The loop over one confirmed order.
  confirm : OrderId → List (Reservation Adjusted) → List (Reservation Adjusted)
  confirm order [] = []
  confirm order (r ∷ rs) =
      let rest = confirm order rs in
      if r.order == order then record r { ips_confirmed = true } ∷ rs else r ∷ rest

  pub confirm_all : List OrderId → List (Reservation Adjusted) → List (Reservation Adjusted)
  unfolding confirm
  confirm_all [] rs = rs
  confirm_all (order ∷ orders) rs = confirm_all orders (confirm order rs)

  -- `resumeProcessingReservations`, with the timer of the next check.
  resume : State → State
  resume s = record s { runch = false; timer = true; reservech = true }

  -- One round of the loop of `run`.
  unfoldable pub handle : Config → State → Event → Next
  unfolding on_cluster_deployment find_reservation on_unreserve on_inventory resume update_ips
      handle_request
  handle c s shutdown = record { after = s; status = ended; effects = [] }
  handle c s (cluster_deployment order name deployed) =
      on_cluster_deployment c s order name deployed
  handle c s timer_fired = update_ips c (record s { timer = false })
  handle c s (reserve order group) = handle_request c s order group
  handle c s (lookup order name) = go s (find_reservation order name s.reservations ∷ [])
  handle c s (unreserve order) = on_unreserve s order
  handle c s (inventory_update inv) = on_inventory c s inv
  handle c s check_failed = go (resume s) []
  handle c s (check_done available in_use orders) =
      go
        (resume (record s {
          available = available;
          in_use = in_use;
          reservations = confirm_all orders s.reservations;
        }))
        []

  pub enabled : State → Event → Bool
  enabled s timer_fired = s.timer
  enabled s (reserve order group) = s.reservech
  enabled s check_failed = s.runch
  enabled s (check_done available in_use orders) = s.runch
  enabled s _ = true

  -- The state before the loop.
  pub start : ℕ → List (Reservation Adjusted) → State
  start ports reservations = record {
    inventory = none;
    available = 0;
    in_use = 0;
    reservations = reservations;
    available_external_ports = ports;
    reservech = false;
    runch = false;
    timer = false;
  }

  abbrev pub is_running : Status → Bool
  is_running running = true
  is_running _ = false

  pub run : Config → State → List Event → Next
  run c s [] = go s []
  run c s (e ∷ es) =
      let n = handle c s e in
      let rest = run c n.after es in
      if is_running n.status then record rest { effects = n.effects ++ rest.effects } else n

  -- Each event can be received, up to the end of the loop.
  abbrev pub Fits : Config → State → List Event → Type 0
  Fits c s [] = Unit
  Fits c s (e ∷ es) = (enabled s e ≡ true) × Fits c (handle c s e).after es
