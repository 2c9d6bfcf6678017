-- ===== src/Cluster/Reconcile/Samples.antt =====
-- Three own leases in the cluster: two of one group, both closed, and one alone in its group.
use provider.Base.{ℕ, ◌≡◌, refl, Bool, true, false, some, List, [], ◌∷◌, ℕ-eq, Bytes-eq, codes}
use provider.Base.Map.{get, put, keys_where}
use provider.Ids.{LeaseId, OrderId-eq, LeaseId-eq}
use provider.Cluster.Reconcile.{
  release_hostnames, teardown_lease, purge_ips, lease_closed, own_leases, purge_hostnames, found,
  reconcile_once, active, LeaseReply, World, Effect, Leases,
}
use provider.Cluster.Reconcile.Safety.{
  ReportedClosed, NotActive, IsOwn, Touches, reconcile_once-closed,
}
use provider.Cluster.Reconcile.Hostnames.{AllAlone, reconcile_once-alone}
use provider.Cluster.Reconcile.Complete.{AllSettled, reconcile_once_complete}
use provider.Cluster.Reconcile.Pages.{Listing}

abbrev lease : ℕ → ℕ → LeaseId
lease gseq oseq = record {
  owner = codes "tenant";
  dseq = 5;
  gseq = gseq;
  oseq = oseq;
  provider = codes "me";
}

abbrev in_cluster : List LeaseId
in_cluster = lease 1 1 ∷ lease 1 2 ∷ lease 2 1 ∷ []

abbrev nobody_active : Leases
nobody_active = []

abbrev all_closed : LeaseId → LeaseReply
all_closed lid = found lid lease_closed

abbrev unmanaged : LeaseId → Bool
unmanaged lid = false

abbrev all_well : Effect → Bool
all_well e = true

abbrev world : World
world = record {
  owner = codes "me";
  cluster_leases = some in_cluster;
  reading = active nobody_active;
  lease = all_closed;
  managed = unmanaged;
  succeeds = all_well;
}

-- The host names of the first group are not released, although both of its leases are gone.
world_effects :
    (reconcile_once world).effects
    ≡ purge_hostnames (lease 1 1)
      ∷ purge_ips (lease 1 1)
      ∷ teardown_lease (lease 1 1)
      ∷ purge_hostnames (lease 1 2)
      ∷ purge_ips (lease 1 2)
      ∷ teardown_lease (lease 1 2)
      ∷ purge_hostnames (lease 2 1)
      ∷ purge_ips (lease 2 1)
      ∷ release_hostnames (lease 2 1)
      ∷ teardown_lease (lease 2 1)
      ∷ []
unfolding reconcile_once get put keys_where
world_effects = refl

reconcile_once-closed_example :
    Touches
      (λ lid. IsOwn world lid × NotActive world.reading lid × ReportedClosed world lid)
      (reconcile_once world).effects
reconcile_once-closed_example = reconcile_once-closed world

reconcile_once-alone_example :
    AllAlone nobody_active (own_leases world in_cluster) (reconcile_once world)
reconcile_once-alone_example = reconcile_once-alone world in_cluster nobody_active refl refl

world-well : (reconcile_once world).has_failed ≡ false
unfolding reconcile_once get put keys_where
world-well = refl

reconcile_once_complete_example :
    AllSettled world nobody_active (reconcile_once world) (own_leases world in_cluster)
reconcile_once_complete_example =
    reconcile_once_complete world in_cluster nobody_active refl refl world-well

abbrev listing : Listing
listing [] = (lease 1 1 ∷ [], 7 ∷ [])
listing (b ∷ bs) = (lease 2 1 ∷ lease 1 1 ∷ [], [])
