-- ===== src/Cluster/Inventory/Samples.antt =====
-- A small cluster: its inventory is a number of places, and each reservation takes one.
use provider.Base.{
  ℕ, zero, suc, ◌≡◌, refl, true, false, Option, none, some, List, [], ◌∷◌, arith, ℕ-eq, Bytes-eq,
  codes,
}
use provider.Ids.{OrderId, OrderId-eq, LeaseId-eq}
use provider.Cluster.Resources.{
  endpoint_quantity, resources_to_commit, accumulate_units, accumulate, commit_unit,
  endpoint_quantity, Endpoint, ResourceUnit, ResourceGroup, TeeType, Reservation, endpoint_quantity,
  resources_to_commit, accumulate_units, accumulate, commit_unit, leased_ip, random_port,
}
use provider.Cluster.Inventory.{
  inventory_update, check_failed, resources_to_commit, panicked, cluster_deployment, reserve,
  unreserve, Interface, Config, State, Event, handle, start, run, Fits, enabled,
}
use provider.Cluster.Inventory.Ports.{handle-ports, ports_total}
use provider.Cluster.Inventory.Addresses.{handle-Covered, Covered}
use provider.Cluster.Inventory.Requests.{unreserve-reserve}
use provider.Cluster.Inventory.Availability.{early_request-panics}

abbrev pub take_place : ℕ → ResourceGroup → TeeType → ℕ × Option ℕ
take_place zero group tee = (zero, none)
take_place (suc n) group tee = (n, some n)

abbrev pub places : Interface
places = record { Inventory = ℕ; Adjusted = ℕ; adjust = take_place }

abbrev pub same_amount : ℕ → ℕ
same_amount n = n

abbrev pub with_ips : Config
with_ips = record {
  levels = record {
    commit_cpu = same_amount;
    commit_gpu = same_amount;
    commit_memory = same_amount;
    commit_storage = same_amount;
  };
  has_ip_client = true;
}

abbrev pub without_ips : Config
without_ips = record with_ips { has_ip_client = false }

abbrev pub unit_with : List Endpoint → ResourceUnit
unit_with es = record {
  cpu = some 100;
  gpu = some 0;
  memory = some 512;
  storage = 10 ∷ [];
  endpoints = es;
  count = 1;
}

abbrev pub group_with : List Endpoint → ResourceGroup
group_with es = record { name = codes "web"; attributes = []; units = unit_with es ∷ [] }

abbrev pub web : ResourceGroup
web = group_with (record { kind = random_port; sequence_number = 0 } ∷ [])

abbrev leased : ResourceGroup
leased = group_with (record { kind = leased_ip; sequence_number = 7 } ∷ [])

abbrev pub oid : ℕ → OrderId
oid n = record { owner = codes "tenant"; dseq = n; gseq = 1; oseq = 1 }

abbrev pub held : Reservation ℕ
held = record {
  order = oid 1;
  resources = web;
  adjusted = some 3;
  endpoint_quantity_needed = 0;
  allocated = true;
  ips_confirmed = true;
  tee_type = TeeType.tee_none;
}

abbrev pub serving : State places
serving = record {
  inventory = some 2;
  available = 4;
  in_use = 1;
  reservations = held ∷ [];
  available_external_ports = 9;
  reservech = true;
  runch = false;
  timer = true;
}

handle-ports_example :
    ports_total places (handle places with_ips serving (unreserve (oid 1))).after
    ≡ ports_total places serving
handle-ports_example = handle-ports places with_ips serving (unreserve (oid 1))

handle-Covered_example :
    Covered places (handle places with_ips serving (reserve (oid 2) leased)).after
handle-Covered_example =
    handle-Covered places with_ips serving (reserve (oid 2) leased) (omega arith) tt (omega arith)

unreserve-reserve_example :
    let after =
      (handle places with_ips
        (handle places with_ips serving (reserve (oid 2) leased)).after
        (unreserve (oid 2))).after in
    (after.reservations ≡ serving.reservations)
    × (after.available_external_ports ≡ serving.available_external_ports)
unreserve-reserve_example = unreserve-reserve places with_ips serving (oid 2) leased (refl, tt)

web-no_ips : endpoint_quantity leased_ip (resources_to_commit with_ips.levels web) ≡ 0
unfolding endpoint_quantity resources_to_commit accumulate_units accumulate commit_unit
web-no_ips = refl

early_request-panics_example :
    let es =
      cluster_deployment (oid 1) (codes "web") true ∷ check_failed ∷ reserve (oid 2) web ∷ [] in
    Fits places with_ips (start places 10 (held ∷ [])) es
    × ((run places with_ips (start places 10 (held ∷ [])) es).status ≡ panicked)
early_request-panics_example =
    early_request-panics places with_ips 10 (held ∷ []) (oid 1) (oid 2) (codes "web") true web refl
      web-no_ips

abbrev history : List (Event places)
history =
    cluster_deployment (oid 1) (codes "web") true ∷ inventory_update 2 ∷ reserve (oid 2) web ∷ []

history-Fits : Fits places without_ips (start places 10 (held ∷ [])) history
unfolding start handle enabled
history-Fits = (refl, (refl, (refl, tt)))
