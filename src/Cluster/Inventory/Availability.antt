-- ===== src/Cluster/Inventory/Availability.antt =====
-- The channel of reserve requests and the inventory that a request needs.
use provider.Base.{
  ℕ, ◌≡◌, refl, ◌≢◌, ◌⊎◌, inl, inr, Bool, true, false, not, Option, none, some, List, [], ◌∷◌,
  arith, ltb, nat_eq, if_intro, ℕ-eq, Bytes, Bytes-eq,
}
use provider.Ids.{OrderId}
use provider.Cluster.Resources.{leased_ip, endpoint_quantity, new_reservation}
use provider.Cluster.Inventory.{
  Effect, timer_fired, shutdown, check_done, inventory_update, unreserve, ended, lookup, is_running,
  running, mark_allocated, request_leased, add_adjusted, has_inventory, Event, Status,
  handle_request, adjust_and_add, update_ips, Next, State, panicked, Fits, reserve, check_failed,
  cluster_deployment, resources_to_commit, ResourceGroup, Reservation, new_reservation, enabled,
  Interface, Config, handle, start, run,
}

module _ (i : Interface) where
  open i use {Inventory, Adjusted, adjust}

  -- With a client of the IP operator, a deployment event, the failure of the check that it starts
  -- and a request without leased addresses, all before the first inventory, are received in that
  -- order, and the request reads a nil inventory.
  pub early_request-panics :
      (c : Config) (ports : ℕ) (rs : List (Reservation Adjusted)) (order wanted : OrderId)
      (name : Bytes) (deployed : Bool) (group : ResourceGroup)
      → c.has_ip_client ≡ true
      → endpoint_quantity leased_ip (resources_to_commit c.levels group) ≡ 0
      → let es =
          cluster_deployment order name deployed ∷ check_failed ∷ reserve wanted group ∷ [] in
        Fits i c (start i ports rs) es × ((run i c (start i ports rs) es).status ≡ panicked)
  unfolding run handle enabled start new_reservation
  early_request-panics c ports rs order wanted name deployed group h q = ground arith

  -- Without that client, requests are received only once there is an inventory.
  pub record Inv (c : Config) (s : State i) : Type 0 where
    pub bare : c.has_ip_client ≡ false
    pub no_check : s.runch ≡ false
    pub ready : s.reservech ≡ true → has_inventory i s.inventory ≡ true

  Safe : Config → Next i → Type 0
  Safe c n = (n.status ≢ panicked) × Inv c n.after

  update_ips-Safe : (c : Config) (s : State i) → Inv c s → Safe c (update_ips i c s)
  unfolding update_ips Safe
  update_ips-Safe c s v = ground arith

  go-Safe :
      (c : Config) (s : State i) (effects : List (Effect i))
      → Inv c s
      → Safe c (record { after = s; status = running; effects = effects })
  unfolding Safe
  go-Safe c s effects v = ground arith

  add_adjusted-Safe :
      (c : Config) (s : State i) (inv : Inventory) (r : Reservation Adjusted) (o : Option Adjusted)
      → Inv c s
      → Safe c (add_adjusted i s inv r o)
  unfolding add_adjusted Safe
  add_adjusted-Safe c s inv r none v = ground arith
  add_adjusted-Safe c s inv r (some a) v = ground arith

  adjust_and_add-Safe :
      (c : Config) (s : State i) (inv : Option Inventory) (r : Reservation Adjusted)
      → Inv c s
      → has_inventory i inv ≡ true
      → Safe c (adjust_and_add i s inv r)
  unfolding adjust_and_add
  adjust_and_add-Safe c s none r v h = ground arith
  adjust_and_add-Safe c s (some inv) r v h =
      add_adjusted-Safe c s (adjust inv r.resources r.tee_type).0 r
        (adjust inv r.resources r.tee_type).1 v

  request_leased-Safe :
      (c : Config) (s : State i) (r : Reservation Adjusted)
      → Inv c s
      → has_inventory i s.inventory ≡ true
      → Safe c (request_leased i c s r)
  unfolding request_leased
  request_leased-Safe c s r v h = if_intro (Safe c) (not c.has_ip_client) _ _ (go-Safe c s _ v) (
      if_intro (Safe c) (ltb _ r.endpoint_quantity_needed) _ _ (go-Safe c s _ v)
        (adjust_and_add-Safe c s s.inventory r v h))

  handle_request-Safe :
      (c : Config) (s : State i) (order : OrderId) (group : ResourceGroup)
      → Inv c s
      → s.reservech ≡ true
      → Safe c (handle_request i c s order group)
  unfolding handle_request new_reservation
  handle_request-Safe c s order group v h =
      if_intro (Safe c) (nat_eq _ 0) _ _ (adjust_and_add-Safe c s s.inventory _ v (v.ready h))
        (request_leased-Safe c s _ v (v.ready h))

  handle-Safe :
      (c : Config) (s : State i) (e : Event i)
      → Inv c s
      → enabled i s e ≡ true
      → Safe c (handle i c s e)
  unfolding handle enabled Safe
  handle-Safe c s shutdown v en = ground arith
  handle-Safe c s (cluster_deployment order name deployed) v en =
      let m = mark_allocated i order name deployed s.reservations s.available_external_ports in
      update_ips-Safe c (record s { reservations = m.0; available_external_ports = m.1 })
        (record { bare = v.bare; no_check = v.no_check; ready = v.ready })
  handle-Safe c s timer_fired v en =
      update_ips-Safe c (record s { timer = false })
        (record { bare = v.bare; no_check = v.no_check; ready = v.ready })
  handle-Safe c s (reserve order group) v en = handle_request-Safe c s order group v en
  handle-Safe c s (lookup order name) v en = ground arith
  handle-Safe c s (unreserve order) v en = ground arith
  handle-Safe c s (inventory_update inv) v en =
      let u =
        update_ips-Safe c (record s { inventory = some inv })
          (record { bare = v.bare; no_check = v.no_check; ready = λ _. refl }) in
      (u.0, record { bare = v.bare; no_check = u.1.no_check; ready = λ _. refl })
  handle-Safe c s check_failed v en = ground arith
  handle-Safe c s (check_done available in_use orders) v en = ground arith

  start-Inv :
      (c : Config) (ports : ℕ) (rs : List (Reservation Adjusted))
      → c.has_ip_client ≡ false
      → Inv c (start i ports rs)
  unfolding start
  start-Inv c ports rs h = ground arith

  status-cases : (n : Status i) → (n ≡ running) ⊎ (is_running i n ≡ false)
  status-cases running = inl refl
  status-cases ended = inr refl
  status-cases panicked = inr refl

  run-Safe :
      (c : Config) (s : State i) (es : List (Event i))
      → Inv c s
      → Fits i c s es
      → (run i c s es).status ≢ panicked
  unfolding run Safe
  run-Safe c s [] v f = ground arith
  run-Safe c s (e ∷ es) v f =
      let one = handle-Safe c s e v f.0 in
      elim (status-cases (handle i c s e).status) [
        | inl goes ↦ rw goes (run-Safe c (handle i c s e).after es one.1 f.1)
        | inr stops ↦ rw stops one.0
      ]

  -- Without a client of the IP operator no history of the inventory service that the channels
  -- allow reads a nil inventory.
  pub bare-no_panic :
      (c : Config) (ports : ℕ) (rs : List (Reservation Adjusted)) (es : List (Event i))
      → c.has_ip_client ≡ false
      → Fits i c (start i ports rs) es
      → (run i c (start i ports rs) es).status ≢ panicked
  bare-no_panic c ports rs es h f = run-Safe c (start i ports rs) es (start-Inv c ports rs h) f
