-- ===== src/Cluster/Inventory/Addresses.antt =====
-- cluster/inventory.go: the leased addresses that requests ask for.
use provider.Base.{
  ℕ, ◌+◌, ◌-◌, ◌%◌, ◌≤◌, ◌<◌, ◌≡◌, refl, ap, ◌∙◌, inl, inr, Bool, false, Option, none, some, List,
  [], ◌∷◌, ◌++◌, arith, ltb, nat_eq, if◌then◌else◌, Bool-cases, if_intro, ℕ-eq, Bytes, Bytes-eq,
}
use provider.Ids.{OrderId}
use provider.Cluster.Resources.{new_reservation}
use provider.Cluster.Inventory.{
  ResourceGroup, check_failed, timer_fired, shutdown, inventory_update, unreserve, lookup, reserve,
  confirm_all, new_reservation, cluster_deployment, check_done, handle_request, request_leased,
  adjust_and_add, add_adjusted, update_ips, readjust, set_adjusted, remove_reservation,
  mark_allocated, count_reserved_ips, Reservation, available_leased_ips, Interface, Config, State,
  Event, Next, handle, uint64,
}

pub available_leased_ips_lem :
    (total in_use reserved : ℕ)
    → available_leased_ips total in_use reserved ≡ total - in_use - reserved
unfolding available_leased_ips
available_leased_ips_lem total in_use reserved = ground arith

module _ {A : Type 0} where
  -- The addresses that the unconfirmed reservations ask for.
  abbrev pub demand : List (Reservation A) → ℕ
  demand [] = 0
  demand (r ∷ rs) =
      let rest = demand rs in if r.ips_confirmed then rest else r.endpoint_quantity_needed + rest

  -- What one reservation adds to it.
  abbrev pub need : Reservation A → ℕ
  need r = if r.ips_confirmed then 0 else r.endpoint_quantity_needed

  demand-append :
      (rs : List (Reservation A)) (r : Reservation A) → demand (rs ++ r ∷ []) ≡ demand rs + need r
  demand-append [] r = ground arith
  demand-append (x ∷ rs) r = ground (arith, demand-append rs r)

module _ (i : Interface) where
  open i use {Inventory, Adjusted, adjust}

  -- The wrap-around of the counter.
  count_reserved_ips_lem :
      (rs : List (Reservation Adjusted)) → count_reserved_ips i rs ≡ demand rs % uint64
  unfolding count_reserved_ips
  count_reserved_ips_lem [] = refl
  count_reserved_ips_lem (r ∷ rs) = ground (arith, count_reserved_ips_lem rs)

  mark_allocated-demand :
      (order : OrderId) (name : Bytes) (deployed : Bool) (rs : List (Reservation Adjusted))
      (ports : ℕ)
      → demand (mark_allocated i order name deployed rs ports).0 ≡ demand rs
  unfolding mark_allocated
  mark_allocated-demand order name deployed [] ports = refl
  mark_allocated-demand order name deployed (r ∷ rs) ports =
      ground (arith, mark_allocated-demand order name deployed rs ports)

  remove_reservation-demand :
      (order : OrderId) (rs : List (Reservation Adjusted)) (ports : ℕ)
      → demand (remove_reservation i order rs ports).0 ≤ demand rs
  unfolding remove_reservation
  remove_reservation-demand order [] ports = ground arith
  remove_reservation-demand order (r ∷ rs) ports =
      ground (arith, remove_reservation-demand order rs ports)

  set_adjusted-demand :
      (o : Option Adjusted) (r : Reservation Adjusted) (rs : List (Reservation Adjusted))
      → demand (set_adjusted i o r ∷ rs) ≡ demand (r ∷ rs)
  unfolding set_adjusted
  set_adjusted-demand none r rs = refl
  set_adjusted-demand (some a) r rs = refl

  readjust-demand :
      (inv : Inventory) (rs : List (Reservation Adjusted))
      → demand (readjust i inv rs).1 ≡ demand rs
  unfolding readjust
  readjust-demand inv [] = refl
  readjust-demand inv (r ∷ rs) =
      let step = if r.allocated then (inv, none) else adjust inv r.resources r.tee_type in
      set_adjusted-demand step.1 r (readjust i step.0 rs).1
      ∙ ap (λ n. if r.ips_confirmed then n else r.endpoint_quantity_needed + n)
          (readjust-demand step.0 rs)

  -- The addresses in use and those promised are at most the available ones.
  abbrev pub Covered : State i → Type 0
  Covered s = s.in_use + demand s.reservations ≤ s.available

  update_ips-Covered : (c : Config) (s : State i) → Covered s → Covered (update_ips i c s).after
  unfolding update_ips
  update_ips-Covered c s h =
      let P : Next i → Type 0 = λ n. Covered n.after in
      if_intro P c.has_ip_client _ _ (if_intro P s.runch _ _ h h) h

  add_adjusted-Covered :
      (s : State i) (inv : Inventory) (r : Reservation Adjusted) (o : Option Adjusted)
      → Covered s
      → s.in_use + demand s.reservations + need r ≤ s.available
      → Covered (add_adjusted i s inv r o).after
  unfolding add_adjusted
  add_adjusted-Covered s inv r none h g = h
  add_adjusted-Covered s inv r (some a) h g =
      omega (arith, demand-append s.reservations (record r { adjusted = some a }), g)

  adjust_and_add-Covered :
      (s : State i) (inv : Option Inventory) (r : Reservation Adjusted)
      → Covered s
      → s.in_use + demand s.reservations + need r ≤ s.available
      → Covered (adjust_and_add i s inv r).after
  unfolding adjust_and_add
  adjust_and_add-Covered s none r h g = h
  adjust_and_add-Covered s (some inv) r h g =
      add_adjusted-Covered s (adjust inv r.resources r.tee_type).0 r
        (adjust inv r.resources r.tee_type).1 h g

  fits :
      (s : State i) (r : Reservation Adjusted)
      → s.available < uint64
      → r.ips_confirmed ≡ false
      → Covered s
      → ltb
          (available_leased_ips s.available s.in_use (count_reserved_ips i s.reservations))
          r.endpoint_quantity_needed
        ≡ false
      → s.in_use + demand s.reservations + need r ≤ s.available
  fits s r lim new h enough = ground (
    arith,
    count_reserved_ips_lem s.reservations,
    available_leased_ips_lem s.available s.in_use (count_reserved_ips i s.reservations),
  )

  request_leased-Covered :
      (c : Config) (s : State i) (r : Reservation Adjusted)
      → s.available < uint64
      → r.ips_confirmed ≡ false
      → Covered s
      → Covered (request_leased i c s r).after
  unfolding request_leased
  request_leased-Covered c s r lim new h = elim (Bool-cases c.has_ip_client) [
    | inr bare ↦ rw bare h
    | inl client ↦
        elim (Bool-cases (
          ltb (available_leased_ips s.available s.in_use (count_reserved_ips i s.reservations))
            r.endpoint_quantity_needed)) [
              | inl short ↦ rw (client, short) h
              | inr enough ↦
                  rw (client, enough)
                    (adjust_and_add-Covered s s.inventory r h (fits s r lim new h enough))
            ]
  ]

  handle_request-Covered :
      (c : Config) (s : State i) (order : OrderId) (group : ResourceGroup)
      → s.available < uint64
      → Covered s
      → Covered (handle_request i c s order group).after
  unfolding handle_request new_reservation
  handle_request-Covered c s order group lim h =
      let P : Next i → Type 0 = λ n. Covered n.after in
      if_intro P (nat_eq _ 0) _ _ (adjust_and_add-Covered s s.inventory _ h (omega (arith, h)))
        (request_leased-Covered c s _ lim refl h)

  -- The result of a check that still covers the reservations it leaves unconfirmed.
  abbrev pub Consistent : State i → Event i → Type 0
  Consistent s (check_done available in_use orders) =
      in_use + demand (confirm_all i orders s.reservations) ≤ available
  Consistent s _ = Unit

  -- While the leased addresses in use and those promised to unconfirmed reservations are at most
  -- the available ones, of which there are fewer than the width of uint, an event leaves it so,
  -- unless it is the result of a check that says otherwise.
  pub handle-Covered :
      (c : Config) (s : State i) (e : Event i)
      → s.available < uint64
      → Consistent s e
      → Covered s
      → Covered (handle i c s e).after
  unfolding handle
  handle-Covered c s shutdown lim k h = h
  handle-Covered c s (cluster_deployment order name deployed) lim k h =
      let m = mark_allocated i order name deployed s.reservations s.available_external_ports in
      update_ips-Covered c (record s { reservations = m.0; available_external_ports = m.1 })
        (omega (
          arith,
          h,
          mark_allocated-demand order name deployed s.reservations s.available_external_ports,
        ))
  handle-Covered c s timer_fired lim k h = update_ips-Covered c (record s { timer = false }) h
  handle-Covered c s (reserve order group) lim k h = handle_request-Covered c s order group lim h
  handle-Covered c s (lookup order name) lim k h = h
  handle-Covered c s (unreserve order) lim k h =
      omega (arith, h, remove_reservation-demand order s.reservations s.available_external_ports)
  handle-Covered c s (inventory_update inv) lim k h =
      let n = update_ips i c (record s { inventory = some inv }) in
      omega (
        arith,
        update_ips-Covered c (record s { inventory = some inv }) h,
        readjust-demand inv n.after.reservations,
      )
  handle-Covered c s check_failed lim k h = h
  handle-Covered c s (check_done available in_use orders) lim k h = k
