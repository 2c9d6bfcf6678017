-- ===== src/Cluster/Inventory/Ports.antt =====
-- The external ports: what is available and what the allocated reservations hold.
use provider.Base.{
  ℕ, ◌+◌, ◌%◌, ◌≡◌, refl, ap, ◌∙◌, Bool, false, not, Option, none, some, List, [], ◌∷◌, ◌++◌, arith,
  ltb, nat_eq, if◌then◌else◌, if_intro, ℕ-eq, Bytes, Bytes-eq,
}
use provider.Ids.{OrderId, OrderId-eq}
use provider.Cluster.Resources.{ResourceGroup, Reservation, new_reservation, count_endpoints}
use provider.Cluster.Inventory.{
  request_leased, add_adjusted, check_failed, timer_fired, shutdown, check_done, inventory_update,
  unreserve, lookup, reserve, cluster_deployment, handle_request, adjust_and_add, update_ips,
  set_adjusted, confirm_all, confirm, readjust, remove_reservation, mark_allocated, Interface,
  Config, State, Event, Next, handle, uint64,
}

module _ {A : Type 0} where
  abbrev pub allocated_ports : List (Reservation A) → ℕ
  allocated_ports [] = 0
  allocated_ports (r ∷ rs) =
      let rest = allocated_ports rs in
      if r.allocated then count_endpoints r.resources.units + rest else rest

  allocated_ports-append :
      (rs : List (Reservation A)) (r : Reservation A)
      → r.allocated ≡ false
      → allocated_ports (rs ++ r ∷ []) ≡ allocated_ports rs
  allocated_ports-append [] r h = ground arith
  allocated_ports-append (x ∷ rs) r h = ground (arith, allocated_ports-append rs r h)

module _ (i : Interface) where
  open i use {Inventory, Adjusted, adjust}

  mark_allocated-ports :
      (order : OrderId) (name : Bytes) (deployed : Bool) (rs : List (Reservation Adjusted))
      (ports : ℕ)
      → let m = mark_allocated i order name deployed rs ports in
        (m.1 + allocated_ports m.0) % uint64 ≡ (ports + allocated_ports rs) % uint64
  unfolding mark_allocated
  mark_allocated-ports order name deployed [] ports = refl
  mark_allocated-ports order name deployed (r ∷ rs) ports =
      let ih = mark_allocated-ports order name deployed rs ports in ground (arith, ih)

  remove_reservation-ports :
      (order : OrderId) (rs : List (Reservation Adjusted)) (ports : ℕ)
      → let m = remove_reservation i order rs ports in
        (m.1 + allocated_ports m.0) % uint64 ≡ (ports + allocated_ports rs) % uint64
  unfolding remove_reservation
  remove_reservation-ports order [] ports = refl
  remove_reservation-ports order (r ∷ rs) ports =
      let ih = remove_reservation-ports order rs ports in ground (arith, ih)

  set_adjusted-ports :
      (o : Option Adjusted) (r : Reservation Adjusted) (rs : List (Reservation Adjusted))
      → allocated_ports (set_adjusted i o r ∷ rs) ≡ allocated_ports (r ∷ rs)
  unfolding set_adjusted
  set_adjusted-ports none r rs = refl
  set_adjusted-ports (some a) r rs = refl

  readjust-ports :
      (inv : Inventory) (rs : List (Reservation Adjusted))
      → allocated_ports (readjust i inv rs).1 ≡ allocated_ports rs
  unfolding readjust
  readjust-ports inv [] = refl
  readjust-ports inv (r ∷ rs) =
      let step = if r.allocated then (inv, none) else adjust inv r.resources r.tee_type in
      set_adjusted-ports step.1 r (readjust i step.0 rs).1
      ∙ ap (λ n. if r.allocated then count_endpoints r.resources.units + n else n)
          (readjust-ports step.0 rs)

  confirm-ports :
      (order : OrderId) (rs : List (Reservation Adjusted))
      → allocated_ports (confirm i order rs) ≡ allocated_ports rs
  unfolding confirm
  confirm-ports order [] = refl
  confirm-ports order (r ∷ rs) = ground (arith, confirm-ports order rs)

  confirm_all-ports :
      (orders : List OrderId) (rs : List (Reservation Adjusted))
      → allocated_ports (confirm_all i orders rs) ≡ allocated_ports rs
  unfolding confirm_all
  confirm_all-ports [] rs = refl
  confirm_all-ports (o ∷ orders) rs = confirm_all-ports orders (confirm i o rs) ∙ confirm-ports o rs

  -- The ports available and held, modulo the width of `uint`.
  abbrev pub ports_total : State i → ℕ
  ports_total s = (s.available_external_ports + allocated_ports s.reservations) % uint64

  abbrev Keeps : State i → Next i → Type 0
  Keeps s n = ports_total n.after ≡ ports_total s

  update_ips-ports : (c : Config) (s : State i) → Keeps s (update_ips i c s)
  unfolding update_ips
  update_ips-ports c s =
      if_intro (Keeps s) c.has_ip_client _ _ (if_intro (Keeps s) s.runch _ _ refl refl) refl

  add_adjusted-ports :
      (s : State i) (inv : Inventory) (r : Reservation Adjusted) (o : Option Adjusted)
      → r.allocated ≡ false
      → Keeps s (add_adjusted i s inv r o)
  unfolding add_adjusted
  add_adjusted-ports s inv r none h = refl
  add_adjusted-ports s inv r (some a) h =
      ap (λ n. (s.available_external_ports + n) % uint64)
        (allocated_ports-append s.reservations (record r { adjusted = some a }) h)

  adjust_and_add-ports :
      (s : State i) (inv : Option Inventory) (r : Reservation Adjusted)
      → r.allocated ≡ false
      → Keeps s (adjust_and_add i s inv r)
  unfolding adjust_and_add
  adjust_and_add-ports s none r h = refl
  adjust_and_add-ports s (some inv) r h =
      add_adjusted-ports s (adjust inv r.resources r.tee_type).0 r
        (adjust inv r.resources r.tee_type).1 h

  request_leased-ports :
      (c : Config) (s : State i) (r : Reservation Adjusted)
      → r.allocated ≡ false
      → Keeps s (request_leased i c s r)
  unfolding request_leased
  request_leased-ports c s r h = if_intro (Keeps s) (not c.has_ip_client) _ _ refl (
      if_intro (Keeps s) (ltb _ r.endpoint_quantity_needed) _ _ refl
        (adjust_and_add-ports s s.inventory r h))

  handle_request-ports :
      (c : Config) (s : State i) (order : OrderId) (group : ResourceGroup)
      → Keeps s (handle_request i c s order group)
  unfolding handle_request new_reservation
  handle_request-ports c s order group =
      if_intro (Keeps s) (nat_eq _ 0) _ _ (adjust_and_add-ports s s.inventory _ refl)
        (request_leased-ports c s _ refl)

  -- Every event of the inventory service keeps the sum of the available external ports and the
  -- ports of the allocated reservations, modulo the width of uint.
  pub handle-ports :
      (c : Config) (s : State i) (e : Event i) → ports_total (handle i c s e).after ≡ ports_total s
  unfolding handle
  handle-ports c s shutdown = refl
  handle-ports c s (cluster_deployment order name deployed) =
      let m = mark_allocated i order name deployed s.reservations s.available_external_ports in
      update_ips-ports c (record s { reservations = m.0; available_external_ports = m.1 })
      ∙ mark_allocated-ports order name deployed s.reservations s.available_external_ports
  handle-ports c s timer_fired = update_ips-ports c (record s { timer = false })
  handle-ports c s (reserve order group) = handle_request-ports c s order group
  handle-ports c s (lookup order name) = refl
  handle-ports c s (unreserve order) =
      remove_reservation-ports order s.reservations s.available_external_ports
  handle-ports c s (inventory_update inv) =
      ap
        (λ n.
          ((update_ips i c (record s { inventory = some inv })).after.available_external_ports + n)
          % uint64)
        (readjust-ports inv _)
      ∙ update_ips-ports c (record s { inventory = some inv })
  handle-ports c s check_failed = refl
  handle-ports c s (check_done available in_use orders) =
      ap (λ n. (s.available_external_ports + n) % uint64) (confirm_all-ports orders s.reservations)
