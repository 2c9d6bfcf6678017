-- ===== src/Cluster/Service/Managers.antt =====
-- cluster/service.go: the managers that start and end, against the specification of things that
-- begin and end under a key, and the reservation behind each.
use provider.Base.{
  ℕ, nat_eq, ◌≡◌, refl, ap, Bool, true, false, not, Option, none, some, List, [], ◌∷◌, ◌++◌, arith,
  if_intro, if_split, ◌==◌, ℕ-eq, Bytes, Bytes-eq, append_nil,
}
use provider.Base.Map.{get, put, delete, get-put, get-delete}
use provider.Ids.{LeaseId, OrderId-eq, LeaseId-eq, order_of, lease_eq_iff}
use provider.Base.Trace.{Label, began, over, Trace, quiet, begins, ends, Trace-append, unchanged}
use mathlib.Core.Path.{fun_ext}
use provider.Cluster.Reservations.{Reservations}
use provider.Cluster.Service.{
  inventory_done, status_query, other_event, shutdown, inventory_moved, exists_query, try_signal,
  inventory_published, answer_lease, signal, publish_status, lease_reclaim_started, answer_status,
  lease_closed, remove_funds_monitor, manifest_received, reclaim_manager, ended, manager_done,
  teardown_manager, Fits, draining, enabled, running, update_manager, handle, on_manager_done, Next,
  Event, present, start_manager, run, handle_in, handle_draining, handle_running, publish,
  on_reclaim, on_lease_closed, teardown_lease, on_manifest, Phase, State, Effect,
}

-- The managers that effects start.
abbrev pub begun : List Effect → List (Label LeaseId)
begun [] = []
begun (start_manager lid is_new ∷ effects) = began lid ∷ begun effects
begun (e ∷ effects) = begun effects

begun-append : (xs ys : List Effect) → begun (xs ++ ys) ≡ begun xs ++ begun ys
begun-append [] ys = refl
begun-append (start_manager lid is_new ∷ xs) ys = ap (λ ls. began lid ∷ ls) (begun-append xs ys)
begun-append (update_manager lid ∷ xs) ys = begun-append xs ys
begun-append (teardown_manager lid ∷ xs) ys = begun-append xs ys
begun-append (reclaim_manager lid deadline ∷ xs) ys = begun-append xs ys
begun-append (remove_funds_monitor lid ∷ xs) ys = begun-append xs ys
begun-append (answer_status n ∷ xs) ys = begun-append xs ys
begun-append (publish_status n ∷ xs) ys = begun-append xs ys
begun-append (answer_lease found ∷ xs) ys = begun-append xs ys
begun-append (try_signal ∷ xs) ys = begun-append xs ys

module _ (r : Reservations) where
  open r use {Store, lookup, unreserve, lookup_counts, count}

  -- The leases with a manager.
  abbrev pub managed : State r → LeaseId → Bool
  managed s lid = present (get lid s.managers)

  -- The end of a manager that the loop receives; the drain only counts.
  abbrev pub finished_in : Phase → Event r → List (Label LeaseId)
  finished_in running (manager_done lid) = over lid ∷ []
  finished_in _ _ = []

  Visible : Phase → State r → Event r → Next r → Type 0
  Visible phase s e n = Trace (managed s) (begun n.effects ++ finished_in phase e) (managed n.after)

  begins-Trace :
      (s : State r) (lid : LeaseId)
      → managed s lid ≡ false
      → Trace (managed s) (began lid ∷ []) (managed (record s { managers = put lid tt s.managers }))
  begins-Trace s lid h =
      begins h
        (unchanged (fun_ext λ p. ground (arith, get-put lid p tt s.managers, lease_eq_iff lid p)))

  ends-Trace :
      (s : State r) (lid : LeaseId) (store : Store)
      → managed s lid ≡ true
      → Trace
          (managed s)
          (over lid ∷ [])
          (managed (record s { managers = delete lid s.managers; store = store }))
  ends-Trace s lid store h =
      ends h
        (unchanged (fun_ext λ p. ground (arith, get-delete lid p s.managers, lease_eq_iff lid p)))

  -- Calls that end no manager.
  Follows : State r → Next r → Type 0
  Follows s n = Trace (managed s) (begun n.effects) (managed n.after)

  on_manifest-Follows :
      (s : State r) (lid : LeaseId) (name : Option Bytes) → Follows s (on_manifest r s lid name)
  unfolding Follows on_manifest
  on_manifest-Follows s lid none = quiet
  on_manifest-Follows s lid (some name) =
      if_intro (Follows s) (not (lookup s.store (order_of lid) name)) _ _ quiet (
        if_split (Follows s) (present (get lid s.managers)) _ _ (λ p. quiet)
          (λ p. begins-Trace s lid p))

  teardown_lease-Follows :
      (owner : Bytes) (s : State r) (lid : LeaseId) → Follows s (teardown_lease r owner s lid)
  unfolding Follows teardown_lease
  teardown_lease-Follows owner s lid =
      if_intro (Follows s) (present (get lid s.managers)) _ _ quiet
        (if_intro (Follows s) (lid.provider == owner) _ _ quiet quiet)

  on_lease_closed-Follows :
      (owner : Bytes) (s : State r) (lid : LeaseId) → Follows s (on_lease_closed r owner s lid)
  unfolding Follows on_lease_closed
  on_lease_closed-Follows owner s lid = teardown_lease-Follows owner s lid

  on_reclaim-Follows :
      (s : State r) (lid : LeaseId) (deadline : ℕ) → Follows s (on_reclaim r s lid deadline)
  unfolding Follows on_reclaim
  on_reclaim-Follows s lid deadline =
      if_intro (Follows s) (present (get lid s.managers)) _ _ quiet quiet

  publish-Follows : (s : State r) (available : Bool) → Follows s (publish r s available)
  unfolding Follows publish
  publish-Follows s available = if_intro (Follows s) available _ _ quiet quiet

  Follows-Visible :
      (s : State r) (e : Event r) (n : Next r)
      → finished_in running e ≡ []
      → Follows s n
      → Visible running s e n
  unfolding Follows Visible
  Follows-Visible s e n h t = rw (h, append_nil (begun n.effects)) t

  running-Visible :
      (owner : Bytes) (s : State r) (e : Event r)
      → enabled r s e ≡ true
      → Visible running s e (handle_running r owner s e)
  unfolding handle_running on_manager_done enabled Visible
  running-Visible owner s shutdown en = quiet
  running-Visible owner s (manifest_received lid name) en =
      Follows-Visible s (manifest_received lid name) _ refl (on_manifest-Follows s lid name)
  running-Visible owner s (lease_closed lid) en =
      Follows-Visible s (lease_closed lid) _ refl (on_lease_closed-Follows owner s lid)
  running-Visible owner s (lease_reclaim_started lid deadline) en =
      Follows-Visible s (lease_reclaim_started lid deadline) _ refl
        (on_reclaim-Follows s lid deadline)
  running-Visible owner s other_event en = quiet
  running-Visible owner s status_query en = quiet
  running-Visible owner s (signal available) en =
      Follows-Visible s (signal available) _ refl (publish-Follows s available)
  running-Visible owner s (inventory_published available) en =
      Follows-Visible s (inventory_published available) _ refl (publish-Follows s available)
  running-Visible owner s (manager_done lid) en =
      ends-Trace s lid (unreserve s.store (order_of lid)).0 en
  running-Visible owner s (exists_query g) en = quiet
  running-Visible owner s inventory_done en = quiet
  running-Visible owner s (inventory_moved store) en = quiet

  draining-Visible :
      (n : ℕ) (s : State r) (e : Event r) → Visible (draining n) s e (handle_draining r n s e)
  unfolding handle_draining Visible
  draining-Visible n s shutdown = quiet
  draining-Visible n s (manifest_received lid name) = quiet
  draining-Visible n s (lease_closed lid) = quiet
  draining-Visible n s (lease_reclaim_started lid deadline) = quiet
  draining-Visible n s other_event = quiet
  draining-Visible n s status_query = quiet
  draining-Visible n s (signal available) = quiet
  draining-Visible n s (inventory_published available) = quiet
  draining-Visible n s (manager_done lid) = quiet
  draining-Visible n s (exists_query g) = quiet
  draining-Visible n s (inventory_moved store) = quiet
  draining-Visible n s inventory_done =
      if_intro (Visible (draining n) s inventory_done) (nat_eq n 0) _ _ quiet quiet

  handle_in-Visible :
      (phase : Phase) (owner : Bytes) (s : State r) (e : Event r)
      → enabled r s e ≡ true
      → Visible phase s e (handle_in r phase owner s e)
  unfolding handle_in Visible
  handle_in-Visible running owner s e en = running-Visible owner s e en
  handle_in-Visible (draining n) owner s e en = draining-Visible n s e
  handle_in-Visible ended owner s e en = quiet

  -- The managers that a history starts and ends, in order.
  pub trace : Bytes → State r → List (Event r) → List (Label LeaseId)
  trace owner s [] = []
  trace owner s (e ∷ es) =
      let n = handle r owner s e in
      (begun n.effects ++ finished_in s.phase e) ++ trace owner n.after es

  -- Whatever arrives at the cluster service, the deployment managers that it starts and ends over
  -- a history that its channels allow are a trace of the specification in Base/Trace: a lease
  -- never has two.
  pub managers-refine :
      (owner : Bytes) (s : State r) (es : List (Event r))
      → Fits r owner s es
      → Trace (managed s) (trace owner s es) (managed (run r owner s es).after)
  unfolding run trace handle Visible
  managers-refine owner s [] fits = quiet
  managers-refine owner s (e ∷ es) fits =
      Trace-append (handle_in-Visible s.phase owner s e fits.0)
        (managers-refine owner (handle r owner s e).after es fits.1)
