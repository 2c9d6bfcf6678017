-- ===== src/Cluster/Reconcile/Complete.antt =====
-- cluster/service.go: what a reconciliation pass without a failure has done.
use provider.Base.{
  ℕ, ◌≡◌, refl, ◌⊎◌, inl, inr, Bool, true, false, ◌&&◌, ◌||◌, some, List, [], ◌∷◌, ◌++◌, arith,
  if◌then◌else◌, if_intro, if_split, ◌==◌, ℕ-eq, Bytes-eq, Each, Each-map,
}
use provider.Base.Map.{Map}
use provider.Ids.{LeaseId, OrderId-eq, LeaseId-eq, lease_eq_iff}
use provider.Cluster.Reconcile.{
  group_leases, closed, own_leases, lease_insufficient_funds, release_hostnames, active,
  lease_closed, purge_ips, purge_hostnames, reconcile_read, found, call, teardown_lease,
  reconcile_leases, nothing, GroupId, on_verdict, LeaseReply, and_pass, publish_closed,
  reconcile_once, is_nil, reconcile_each, is_active, reconcile_lease, closed_lease,
  remove_unmanaged_lease, World, Pass, Effect, Leases,
}
use provider.Cluster.Reconcile.Safety.{ReportedClosed}

-- The close of a lease is announced to its manager, or its namespace and manifest are removed, by
-- a call that succeeds.
abbrev pub settles : World → LeaseId → List Effect → Bool
settles w lid [] = false
settles w lid (publish_closed l ∷ es) =
    (l == lid && w.succeeds (publish_closed l)) || settles w lid es
settles w lid (teardown_lease l ∷ es) =
    (l == lid && w.succeeds (teardown_lease l)) || settles w lid es
settles w lid (e ∷ es) = settles w lid es

settles-append :
    (w : World) (lid : LeaseId) (xs ys : List Effect)
    → settles w lid (xs ++ ys) ≡ (settles w lid xs || settles w lid ys)
settles-append w lid [] ys = refl
settles-append w lid (publish_closed l ∷ xs) ys = ground (arith, settles-append w lid xs ys)
settles-append w lid (teardown_lease l ∷ xs) ys = ground (arith, settles-append w lid xs ys)
settles-append w lid (purge_hostnames l ∷ xs) ys = settles-append w lid xs ys
settles-append w lid (purge_ips l ∷ xs) ys = settles-append w lid xs ys
settles-append w lid (release_hostnames l ∷ xs) ys = settles-append w lid xs ys

-- Without a failure the lease is settled.
abbrev pub Settles : World → LeaseId → Pass → Type 0
Settles w lid p = p.has_failed ≡ false → settles w lid p.effects ≡ true

remove_unmanaged_lease-Settles :
    (w : World) (lid : LeaseId) (last : Bool) → Settles w lid (remove_unmanaged_lease w lid last)
unfolding remove_unmanaged_lease
remove_unmanaged_lease-Settles w lid last =
    let purged = and_pass (call w (purge_hostnames lid)) (call w (purge_ips lid)) in
    let released : Pass = if last then call w (release_hostnames lid) else nothing in
    if_split (Settles w lid) purged.has_failed purged
      (and_pass purged (and_pass released (call w (teardown_lease lid))))
      (λ f h. absurd (ground (arith, f, h)))
      (λ f h. ground (
        arith,
        settles-append w lid released.effects (teardown_lease lid ∷ []),
        lease_eq_iff lid lid,
      ))

closed_lease-lem :
    (lid : LeaseId) (reply : LeaseReply)
    → (reply ≡ found lid lease_closed) ⊎ (reply ≡ found lid lease_insufficient_funds)
    → closed_lease lid reply ≡ closed
unfolding closed_lease
closed_lease-lem lid reply (inl e) = rw (e, (lease_eq_iff lid lid).1 refl) refl
closed_lease-lem lid reply (inr e) = rw (e, (lease_eq_iff lid lid).1 refl) refl

reconcile_lease-Settles :
    (w : World) (leases : Leases) (groups : Map GroupId ℕ) (lid : LeaseId)
    → is_active leases lid ≡ false
    → ReportedClosed w lid
    → Settles w lid (reconcile_lease w leases groups lid)
unfolding reconcile_lease on_verdict
reconcile_lease-Settles w leases groups lid a c =
    rw (a, closed_lease-lem lid (w.lease lid) c)
      (if_intro (Settles w lid) (w.managed lid) (call w (publish_closed lid)) _
        (λ h. ground (arith, lease_eq_iff lid lid)) (remove_unmanaged_lease-Settles w lid _))

-- What is to be settled of a list.
abbrev pub AllSettled : World → Leases → Pass → List LeaseId → Type 0
AllSettled w leases p =
    Each
      (λ lid. is_active leases lid ≡ false → ReportedClosed w lid → settles w lid p.effects ≡ true)

reconcile_each-AllSettled :
    (w : World) (leases : Leases) (groups : Map GroupId ℕ) (ls : List LeaseId)
    → (reconcile_each w leases groups ls).has_failed ≡ false
    → AllSettled w leases (reconcile_each w leases groups ls) ls
unfolding reconcile_each
reconcile_each-AllSettled w leases groups [] h = tt
reconcile_each-AllSettled w leases groups (l ∷ ls) h =
    let one = reconcile_lease w leases groups l in
    let rest = reconcile_each w leases groups ls in
    (
      λ a c. ground (
        arith,
        reconcile_lease-Settles w leases groups l a c (ground (arith, h)),
        settles-append w l one.effects rest.effects,
      ),
      Each-map _ _ ls
          (λ lid k a c. ground (arith, k a c, settles-append w lid one.effects rest.effects))
          (reconcile_each-AllSettled w leases groups ls (ground (arith, h))),
    )

nil-AllSettled :
    (w : World) (leases : Leases) (own : List LeaseId)
    → is_nil own ≡ true
    → AllSettled w leases nothing own
nil-AllSettled w leases [] n = tt
nil-AllSettled w leases (l ∷ ls) n = absurd (ground (arith, n))

-- A pass that reads the cluster's and the active leases and reports no failure has announced the
-- close, or removed the namespace and manifest, by a call that succeeded, of each own lease in
-- the cluster that is not among those read as active and that the chain reports closed.
pub reconcile_once_complete :
    (w : World) (lids : List LeaseId) (leases : Leases)
    → w.cluster_leases ≡ some lids
    → w.reading ≡ active leases
    → (reconcile_once w).has_failed ≡ false
    → AllSettled w leases (reconcile_once w) (own_leases w lids)
unfolding reconcile_once reconcile_leases reconcile_read
reconcile_once_complete w lids leases known read =
    let own = own_leases w lids in
    rw (known, read)
      (if_split (λ (p : Pass). p.has_failed ≡ false → AllSettled w leases p own) (is_nil own)
        nothing _ (λ n h. nil-AllSettled w leases own n)
        (λ n. reconcile_each-AllSettled w leases (group_leases leases own) own))
