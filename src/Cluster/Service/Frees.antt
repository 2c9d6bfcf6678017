-- ===== src/Cluster/Service/Frees.antt =====
-- cluster/service.go: the reservations that the cluster service gives back.
use provider.Base.{
  ℕ, ◌+◌, ◌-◌, ◌≡◌, refl, inl, inr, Bool, true, false, not, ◌&&◌, none, some, List, [], ◌∷◌, arith,
  if◌then◌else◌, Bool-cases, ◌==◌, ℕ-eq, Bytes, Bytes-eq, Each,
}
use provider.Base.Map.{get}
use provider.Ids.{OrderId, LeaseId, OrderId-eq, LeaseId-eq, order_of}
use provider.Cluster.Reservations.{Reservations}
use provider.Cluster.Service.{
  inventory_done, status_query, other_event, shutdown, exists_query, inventory_published, ended,
  signal, publish, lease_reclaim_started, on_reclaim, lease_closed, running, on_manifest, draining,
  manifest_received, inventory_moved, manager_done, handle, on_manager_done, present, Next, run,
  handle_in, handle_draining, handle_running, on_lease_closed, teardown_lease, State, Event, Phase,
}

module _ (r : Reservations) where
  open r use {Store, lookup, unreserve, lookup_counts, unreserve_counts, count}

  -- Whether an event gives a reservation of an order back: the end of a manager of a lease on the
  -- order, or the close of this provider's lease on it without a manager, before the shutdown.
  abbrev pub frees_in : Phase → Bytes → State r → Event r → OrderId → Bool
  frees_in running owner s (manager_done lid) p = order_of lid == p
  frees_in running owner s (lease_closed lid) p =
      not (present (get lid s.managers)) && lid.provider == owner && order_of lid == p
  frees_in _ owner s _ p = false

  abbrev pub is_moved : Event r → Bool
  is_moved (inventory_moved store) = true
  is_moved _ = false

  -- One reservation less, where there is one.
  Freed : OrderId → State r → Bool → Next r → Type 0
  Freed p s freed n =
      count n.after.store p ≡ (if freed then count s.store p - 1 else count s.store p)

  teardown_lease-Freed :
      (p : OrderId) (owner : Bytes) (s : State r) (lid : LeaseId)
      → Freed p s
          (not (present (get lid s.managers)) && lid.provider == owner && order_of lid == p)
          (teardown_lease r owner s lid)
  unfolding Freed teardown_lease
  teardown_lease-Freed p owner s lid = ground (arith, unreserve_counts s.store (order_of lid) p)

  on_lease_closed-Freed :
      (p : OrderId) (owner : Bytes) (s : State r) (lid : LeaseId)
      → Freed p s
          (not (present (get lid s.managers)) && lid.provider == owner && order_of lid == p)
          (on_lease_closed r owner s lid)
  unfolding Freed on_lease_closed
  on_lease_closed-Freed p owner s lid = teardown_lease-Freed p owner s lid

  running-Freed :
      (p : OrderId) (owner : Bytes) (s : State r) (e : Event r)
      → is_moved e ≡ false
      → Freed p s (frees_in running owner s e p) (handle_running r owner s e)
  unfolding handle_running on_manager_done Freed on_manifest on_reclaim publish
  running-Freed p owner s shutdown h = refl
  running-Freed p owner s (manifest_received lid none) h = refl
  running-Freed p owner s (manifest_received lid (some name)) h = ground arith
  running-Freed p owner s (lease_closed lid) h = on_lease_closed-Freed p owner s lid
  running-Freed p owner s (lease_reclaim_started lid deadline) h = ground arith
  running-Freed p owner s other_event h = refl
  running-Freed p owner s status_query h = refl
  running-Freed p owner s (signal available) h = ground arith
  running-Freed p owner s (inventory_published available) h = ground arith
  running-Freed p owner s (manager_done lid) h = unreserve_counts s.store (order_of lid) p
  running-Freed p owner s (exists_query g) h = refl
  running-Freed p owner s inventory_done h = refl
  running-Freed p owner s (inventory_moved store) h = absurd (ground (arith, h))

  draining-Freed :
      (p : OrderId) (n : ℕ) (s : State r) (e : Event r)
      → is_moved e ≡ false
      → Freed p s false (handle_draining r n s e)
  unfolding handle_draining Freed
  draining-Freed p n s shutdown h = refl
  draining-Freed p n s (manifest_received lid name) h = refl
  draining-Freed p n s (lease_closed lid) h = refl
  draining-Freed p n s (lease_reclaim_started lid deadline) h = refl
  draining-Freed p n s other_event h = refl
  draining-Freed p n s status_query h = refl
  draining-Freed p n s (signal available) h = refl
  draining-Freed p n s (inventory_published available) h = refl
  draining-Freed p n s (manager_done lid) h = refl
  draining-Freed p n s (exists_query g) h = refl
  draining-Freed p n s inventory_done h = ground arith
  draining-Freed p n s (inventory_moved store) h = absurd (ground (arith, h))

  handle_in-Freed :
      (phase : Phase) (p : OrderId) (owner : Bytes) (s : State r) (e : Event r)
      → is_moved e ≡ false
      → Freed p s (frees_in phase owner s e p) (handle_in r phase owner s e)
  unfolding handle_in Freed
  handle_in-Freed running p owner s e h = running-Freed p owner s e h
  handle_in-Freed (draining n) p owner s e h = draining-Freed p n s e h
  handle_in-Freed ended p owner s e h = refl

  -- The reservations of an order that a history gives back.
  pub frees : Bytes → State r → List (Event r) → OrderId → ℕ
  frees owner s [] p = 0
  frees owner s (e ∷ es) p =
      (if frees_in s.phase owner s e p then 1 else 0) + frees owner (handle r owner s e).after es p

  -- Over a history without changes by others, the cluster service takes from the reservations of
  -- an order one for each manager of a lease on it that is done and for each of this provider's
  -- leases on it that closes without a manager, as long as there are any, in its loop, before the
  -- shutdown, and no other, and none behind the shutdown.
  pub run-frees :
      (p : OrderId) (owner : Bytes) (s : State r) (es : List (Event r))
      → Each (λ e. is_moved e ≡ false) es
      → count (run r owner s es).after.store p ≡ count s.store p - frees owner s es p
  unfolding run frees handle Freed
  run-frees p owner s [] calm = omega arith
  run-frees p owner s (e ∷ es) calm =
      let one = handle_in-Freed s.phase p owner s e calm.0 in
      let rest = run-frees p owner (handle r owner s e).after es calm.1 in
      elim (Bool-cases (frees_in s.phase owner s e p)) [
        | inl f ↦ rw f (omega (arith, rest, rw f at one))
        | inr f ↦ rw f (omega (arith, rest, rw f at one))
      ]
