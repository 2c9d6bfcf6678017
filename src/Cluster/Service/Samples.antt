-- ===== src/Cluster/Service/Samples.antt =====
-- A lease with a reservation: its manifest, a second one, its close, and the end of its manager;
-- the inventory service is the one of the small cluster.
use provider.Base.{ℕ, ◌-◌, ◌≡◌, refl, true, some, List, [], ◌∷◌, ℕ-eq, Bytes, Bytes-eq, codes}
use provider.Base.Map.{get, put, delete, put_all}
use provider.Ids.{LeaseId, OrderId-eq, LeaseId-eq}
use provider.Base.Trace.{Trace}
use provider.Cluster.Inventory.Samples.{places, without_ips, serving, oid}
use provider.Cluster.Service.{
  teardown_manager, remove_funds_monitor, update_manager, manager_done, try_signal, lease_closed,
  start_manager, manifest_received, State, Event, start, run, handle, enabled, Fits,
}
use provider.Cluster.Reservations.{Reservations, inventory_service}
use provider.Cluster.Service.Managers.{trace, managed, managers-refine}
use provider.Cluster.Service.Frees.{frees, run-frees}

abbrev inventory : Reservations
inventory = inventory_service places without_ips

abbrev me : Bytes
me = codes "me"

abbrev lease : ℕ → LeaseId
lease dseq = record { owner = codes "tenant"; dseq = dseq; gseq = 1; oseq = 1; provider = me }

abbrev initial : State inventory
initial = start inventory serving []

abbrev history : List (Event inventory)
history =
    manifest_received (lease 1) (some (codes "web"))
    ∷ manifest_received (lease 1) (some (codes "web"))
    ∷ manifest_received (lease 2) (some (codes "web"))
    ∷ lease_closed (lease 1)
    ∷ manager_done (lease 1)
    ∷ lease_closed (lease 1)
    ∷ []

history-Fits : Fits inventory me initial history
unfolding start handle enabled get put delete provider.Cluster.Inventory.handle put_all
history-Fits = (refl, (refl, (refl, (refl, (refl, (refl, tt))))))

-- The lease without a reservation gets no manager.
history_effects :
    (run inventory me initial history).effects
    ≡ start_manager (lease 1) true
      ∷ try_signal
      ∷ update_manager (lease 1)
      ∷ remove_funds_monitor (lease 1)
      ∷ teardown_manager (lease 1)
      ∷ try_signal
      ∷ remove_funds_monitor (lease 1)
      ∷ []
unfolding run start handle get put delete provider.Cluster.Inventory.handle put_all
history_effects = refl

managers-refine_example :
    Trace
      (managed inventory initial)
      (trace inventory me initial history)
      (managed inventory (run inventory me initial history).after)
managers-refine_example = managers-refine inventory me initial history history-Fits

run-frees_example :
    inventory.count (run inventory me initial history).after.store (oid 1)
    ≡ inventory.count initial.store (oid 1) - frees inventory me initial history (oid 1)
run-frees_example =
    run-frees inventory (oid 1) me initial history
      (refl, (refl, (refl, (refl, (refl, (refl, tt))))))
