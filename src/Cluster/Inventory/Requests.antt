-- ===== src/Cluster/Inventory/Requests.antt =====
-- The life of a reservation: what a request adds, what an unreserve takes away.
use provider.Base.{
  ℕ, ◌+◌, ◌%◌, ◌≡◌, refl, ap, ◌⊎◌, inl, inr, false, not, Option, none, some, List, [], ◌∷◌, ◌++◌,
  ltb, nat_eq, if◌then◌else◌, Bool-cases, if_intro, ◌==◌, ==_iff, ==_refl, ℕ-eq, Bytes-eq, Each,
}
use provider.Ids.{OrderId, OrderId-eq}
use provider.Cluster.Resources.{new_reservation}
use provider.Cluster.Inventory.{
  unreserve, reserve, ResourceGroup, new_reservation, Config, Next, handle, handle_request,
  request_leased, adjust_and_add, add_adjusted, State, answer, reservation_not_found, refuse,
  uint64, Effect, count_endpoints, remove_reservation, Reservation, Interface,
}

module _ (i : Interface) where
  open i use {Inventory, Adjusted, adjust}

  -- No reservation of an order.
  abbrev pub Absent : OrderId → List (Reservation Adjusted) → Type 0
  Absent order rs = Each (λ r. (r.order == order) ≡ false) rs

  -- The first reservation of an order taken out of a list.
  pub record Taken (order : OrderId) (rs rest : List (Reservation Adjusted)) : Type 0 where
    pub front : List (Reservation Adjusted)
    pub taken : Reservation Adjusted
    pub back : List (Reservation Adjusted)
    pub whole : rs ≡ front ++ taken ∷ back
    pub left : rest ≡ front ++ back
    pub found : taken.order ≡ order
    pub first : Absent order front

  unfoldable pub ports_back : Reservation Adjusted → ℕ → ℕ
  ports_back r ports =
      if r.allocated then (ports + count_endpoints r.resources.units % uint64) % uint64 else ports

  abbrev pub Removes :
      OrderId
      → List (Reservation Adjusted)
      → ℕ
      → List (Reservation Adjusted) × ℕ × Effect i
      → Type 0
  Removes order rs ports m =
      (Absent order rs × (m ≡ (rs, ports, refuse reservation_not_found)))
      ⊎ ((t : Taken order rs m.0) × (m.1 ≡ ports_back t.taken ports) × (m.2 ≡ answer t.taken))

  -- Unreserving an order takes exactly its first reservation out of the list, in place, gives its
  -- ports back where it was allocated, and answers it; without a reservation of the order nothing
  -- changes and the answer is the error.
  pub remove_reservation-Removes :
      (order : OrderId) (rs : List (Reservation Adjusted)) (ports : ℕ)
      → Removes order rs ports (remove_reservation i order rs ports)
  unfolding remove_reservation ports_back
  remove_reservation-Removes order [] ports = inl (tt, refl)
  remove_reservation-Removes order (r ∷ rs) ports = elim (Bool-cases (r.order == order)) [
    | inl eq ↦ rw eq (
        inr (
          record {
            front = [];
            taken = r;
            back = rs;
            whole = refl;
            left = refl;
            found = (==_iff r.order order).0 eq;
            first = tt;
          },
          refl,
          refl,
        ))
    | inr ne ↦ elim (remove_reservation-Removes order rs ports) [
      | inl (absent, same) ↦ rw (ne, same) (inl ((refl, absent), refl))
      | inr (t, back, reply) ↦ rw ne (
          inr (
            record {
              front = r ∷ t.front;
              taken = t.taken;
              back = t.back;
              whole = ap (λ l. r ∷ l) t.whole;
              left = ap (λ l. r ∷ l) t.left;
              found = t.found;
              first = (ne, t.first);
            },
            back,
            reply,
          ))
    ]
  ]

  -- A request that is not answered keeps the reservations; the answer of the other is the one
  -- reservation that it adds, of that order and not allocated. The ports stay.
  Requested : OrderId → State i → Next i → Type 0
  Requested order s n =
      (n.after.available_external_ports ≡ s.available_external_ports)
      × ((n.after.reservations ≡ s.reservations)
          ⊎ ((r : Reservation Adjusted) × (n.effects ≡ answer r ∷ [])
              × (n.after.reservations ≡ s.reservations ++ r ∷ [])
              × (r.order ≡ order)
              × (r.allocated ≡ false)))

  add_adjusted-Requested :
      (s : State i) (inv : Inventory) (r : Reservation Adjusted) (o : Option Adjusted)
      → r.allocated ≡ false
      → Requested r.order s (add_adjusted i s inv r o)
  unfolding add_adjusted Requested
  add_adjusted-Requested s inv r none h = (refl, inl refl)
  add_adjusted-Requested s inv r (some a) h =
      (refl, inr (record r { adjusted = some a }, refl, refl, refl, h))

  adjust_and_add-Requested :
      (s : State i) (inv : Option Inventory) (r : Reservation Adjusted)
      → r.allocated ≡ false
      → Requested r.order s (adjust_and_add i s inv r)
  unfolding adjust_and_add Requested
  adjust_and_add-Requested s none r h = (refl, inl refl)
  adjust_and_add-Requested s (some inv) r h =
      add_adjusted-Requested s (adjust inv r.resources r.tee_type).0 r
        (adjust inv r.resources r.tee_type).1 h

  request_leased-Requested :
      (c : Config) (s : State i) (r : Reservation Adjusted)
      → r.allocated ≡ false
      → Requested r.order s (request_leased i c s r)
  unfolding request_leased Requested
  request_leased-Requested c s r h =
      if_intro (Requested r.order s) (not c.has_ip_client) _ _ (refl, inl refl)
        (if_intro (Requested r.order s) (ltb _ r.endpoint_quantity_needed) _ _ (refl, inl refl)
          (adjust_and_add-Requested s s.inventory r h))

  handle_request-Requested :
      (c : Config) (s : State i) (order : OrderId) (group : ResourceGroup)
      → Requested order s (handle_request i c s order group)
  unfolding handle_request new_reservation
  handle_request-Requested c s order group =
      if_intro (Requested order s) (nat_eq _ 0) _ _ (adjust_and_add-Requested s s.inventory _ refl)
        (request_leased-Requested c s _ refl)

  remove_reservation-Absent :
      (order : OrderId) (rs : List (Reservation Adjusted)) (ports : ℕ)
      → Absent order rs
      → remove_reservation i order rs ports ≡ (rs, ports, refuse reservation_not_found)
  unfolding remove_reservation
  remove_reservation-Absent order [] ports absent = refl
  remove_reservation-Absent order (x ∷ rs) ports absent =
      rw (absent.0, remove_reservation-Absent order rs ports absent.1) refl

  remove_reservation-append :
      (order : OrderId) (rs : List (Reservation Adjusted)) (r : Reservation Adjusted) (ports : ℕ)
      → Absent order rs
      → r.order ≡ order
      → r.allocated ≡ false
      → remove_reservation i order (rs ++ r ∷ []) ports ≡ (rs, ports, answer r)
  unfolding remove_reservation
  remove_reservation-append order [] r ports absent same free = rw (same, ==_refl order, free) refl
  remove_reservation-append order (x ∷ rs) r ports absent same free =
      rw (absent.0, remove_reservation-append order rs r ports absent.1 same free) refl

  -- An order without a reservation that reserves and then unreserves leaves the reservations and
  -- the ports as they were, whether the request was granted or not.
  pub unreserve-reserve :
      (c : Config) (s : State i) (order : OrderId) (group : ResourceGroup)
      → Absent order s.reservations
      → let after =
          (handle i c (handle i c s (reserve order group)).after (unreserve order)).after in
        (after.reservations ≡ s.reservations)
        × (after.available_external_ports ≡ s.available_external_ports)
  unfolding handle Requested
  unreserve-reserve c s order group absent =
      let q = handle_request-Requested c s order group in
      elim q.1 [
        | inl same ↦
            rw
              (
                q.0,
                same,
                remove_reservation-Absent order s.reservations s.available_external_ports absent,
              )
              (refl, refl)
        | inr (r, reply, grown, order_r, free) ↦
            rw
              (
                q.0,
                grown,
                remove_reservation-append order s.reservations r s.available_external_ports absent
                    order_r free,
              )
              (refl, refl)
      ]
