-- ===== src/Cluster/Reconcile/Safety.antt =====
-- cluster/service.go: what a reconciliation pass tears down, and what it leaves.
use provider.Base.{
  ℕ, ◌≡◌, refl, ◌⊎◌, inl, inr, Bool, false, Option, none, some, List, [], ◌∷◌, arith, if◌then◌else◌,
  Bool-cases, if_intro, if_split, ◌==◌, ==_iff, ℕ-eq, Bytes-eq, Each, Each-append, Each-map,
}
use provider.Base.Map.{Map}
use provider.Ids.{LeaseId, OrderId-eq, LeaseId-eq, lease_eq_iff}
use provider.Cluster.Reconcile.{
  is_nil, reconcile_leases, unread, stalled, keep, failed, unconfirmed, lease_other, lease_active,
  group_leases, Verdict, active, GroupId, closed_state, reconcile_once, reconcile_read, Reading,
  own_leases, reconcile_each, reconcile_lease, on_verdict, and_pass, LeaseState, query_error,
  teardown_lease, not_found, nothing, purge_ips, release_hostnames, closed,
  lease_insufficient_funds, purge_hostnames, call, is_active, LeaseReply, lease_closed,
  publish_closed, remove_unmanaged_lease, Leases, closed_lease, found, World, Pass, Effect,
}

abbrev pub lease_of : Effect → LeaseId
lease_of (publish_closed lid) = lid
lease_of (purge_hostnames lid) = lid
lease_of (purge_ips lid) = lid
lease_of (release_hostnames lid) = lid
lease_of (teardown_lease lid) = lid

-- The chain reports this very lease closed.
abbrev pub ReportedClosed : World → LeaseId → Type 0
ReportedClosed w lid =
    (w.lease lid ≡ found lid lease_closed) ⊎ (w.lease lid ≡ found lid lease_insufficient_funds)

closed_state-closed :
    (lid : LeaseId) (state : LeaseState)
    → closed_state state ≡ closed
    → (found lid state ≡ found lid lease_closed)
      ⊎ (found lid state ≡ found lid lease_insufficient_funds)
closed_state-closed lid lease_active h = absurd (ground (arith, h))
closed_state-closed lid lease_insufficient_funds h = inr refl
closed_state-closed lid lease_closed h = inl refl
closed_state-closed lid lease_other h = absurd (ground (arith, h))

closed_lease-ReportedClosed :
    (lid : LeaseId) (reply : LeaseReply)
    → closed_lease lid reply ≡ closed
    → (reply ≡ found lid lease_closed) ⊎ (reply ≡ found lid lease_insufficient_funds)
unfolding closed_lease
closed_lease-ReportedClosed lid not_found h = absurd (ground (arith, h))
closed_lease-ReportedClosed lid query_error h = absurd (ground (arith, h))
closed_lease-ReportedClosed lid (found id state) h = elim (Bool-cases (id == lid)) [
  | inl eq ↦
      let same : id ≡ lid = (lease_eq_iff id lid).0 eq in
      rw same (closed_state-closed lid state (rw eq at h))
  | inr ne ↦ absurd (ground (arith, h, ne))
]

-- A lease that a pass may touch.
abbrev pub IsClosed : World → Leases → LeaseId → Type 0
IsClosed w leases lid = (is_active leases lid ≡ false) × ReportedClosed w lid

abbrev pub Touches : (LeaseId → Type 0) → List Effect → Type 0
Touches Q = Each (λ e. Q (lease_of e))

and_pass-Touches :
    (Q : LeaseId → Type 0) (a b : Pass)
    → Touches Q a.effects
    → Touches Q b.effects
    → Touches Q (and_pass a b).effects
and_pass-Touches Q a b p q = Each-append _ a.effects b.effects p q

remove_unmanaged_lease-Touches :
    (Q : LeaseId → Type 0) (w : World) (lid : LeaseId) (last : Bool)
    → Q lid
    → Touches Q (remove_unmanaged_lease w lid last).effects
unfolding remove_unmanaged_lease
remove_unmanaged_lease-Touches Q w lid last q =
    let purged = and_pass (call w (purge_hostnames lid)) (call w (purge_ips lid)) in
    let released : Pass = if last then call w (release_hostnames lid) else nothing in
    let releases : Touches Q released.effects =
      if_intro (λ (p : Pass). Touches Q p.effects) last (call w (release_hostnames lid)) nothing
        (q, tt) tt in
    if_intro (λ (p : Pass). Touches Q p.effects) purged.has_failed purged
      (and_pass purged (and_pass released (call w (teardown_lease lid)))) (q, (q, tt))
      (q, (q, and_pass-Touches Q released (call w (teardown_lease lid)) releases (q, tt)))

on_verdict-Touches :
    (Q : LeaseId → Type 0) (w : World) (lid : LeaseId) (groups : Map GroupId ℕ) (v : Verdict)
    → (v ≡ closed → Q lid)
    → Touches Q (on_verdict w lid groups v).effects
unfolding on_verdict
on_verdict-Touches Q w lid groups unconfirmed q = tt
on_verdict-Touches Q w lid groups keep q = tt
on_verdict-Touches Q w lid groups closed q =
    if_intro (λ (p : Pass). Touches Q p.effects) (w.managed lid) (call w (publish_closed lid)) _
      (q refl, tt) (remove_unmanaged_lease-Touches Q w lid _ (q refl))

reconcile_lease-Touches :
    (Q : LeaseId → Type 0) (w : World) (leases : Leases) (groups : Map GroupId ℕ) (lid : LeaseId)
    → (IsClosed w leases lid → Q lid)
    → Touches Q (reconcile_lease w leases groups lid).effects
unfolding reconcile_lease
reconcile_lease-Touches Q w leases groups lid q =
    if_split (λ (p : Pass). Touches Q p.effects) (is_active leases lid) nothing _ (λ a. tt)
      (λ a.
        on_verdict-Touches Q w lid groups (closed_lease lid (w.lease lid))
          (λ v. q (a, closed_lease-ReportedClosed lid (w.lease lid) v)))

-- Own leases in the cluster.
abbrev pub IsOwn : World → LeaseId → Type 0
IsOwn w lid = lid.provider ≡ w.owner

reconcile_each-Touches :
    (w : World) (leases : Leases) (groups : Map GroupId ℕ) (own : List LeaseId)
    → Each (IsOwn w) own
    → Touches
        (λ lid. IsOwn w lid × IsClosed w leases lid)
        (reconcile_each w leases groups own).effects
unfolding reconcile_each
reconcile_each-Touches w leases groups [] o = tt
reconcile_each-Touches w leases groups (l ∷ ls) o =
    and_pass-Touches (λ lid. IsOwn w lid × IsClosed w leases lid)
      (reconcile_lease w leases groups l) (reconcile_each w leases groups ls)
      (reconcile_lease-Touches (λ lid. IsOwn w lid × IsClosed w leases lid) w leases groups l
        (λ c. (o.0, c)))
      (reconcile_each-Touches w leases groups ls o.1)

own_leases-IsOwn : (w : World) (lids : List LeaseId) → Each (IsOwn w) (own_leases w lids)
own_leases-IsOwn w [] = tt
own_leases-IsOwn w (l ∷ ls) =
    if_split (Each (IsOwn w)) (l.provider == w.owner) _ _
      (λ p. ((==_iff l.provider w.owner).0 p, own_leases-IsOwn w ls)) (λ p. own_leases-IsOwn w ls)

-- Not in the set that was read.
abbrev pub NotActive : Reading → LeaseId → Type 0
NotActive (active leases) lid = is_active leases lid ≡ false
NotActive _ lid = Unit

reconcile_read-Touches :
    (w : World) (own : List LeaseId) (reading : Reading)
    → Each (IsOwn w) own
    → Touches
        (λ lid. IsOwn w lid × NotActive reading lid × ReportedClosed w lid)
        (reconcile_read w own reading).effects
unfolding reconcile_read
reconcile_read-Touches w own (active leases) o =
    Each-map _ _ (reconcile_each w leases (group_leases leases own) own).effects
      (λ e t. (t.0, t.1.0, t.1.1)) (reconcile_each-Touches w leases (group_leases leases own) own o)
reconcile_read-Touches w own failed o = tt
reconcile_read-Touches w own stalled o = tt
reconcile_read-Touches w own unread o = tt

reconcile_leases-Touches :
    (w : World) (lids : Option (List LeaseId))
    → Touches
        (λ lid. IsOwn w lid × NotActive w.reading lid × ReportedClosed w lid)
        (reconcile_leases w lids).effects
unfolding reconcile_leases
reconcile_leases-Touches w none = tt
reconcile_leases-Touches w (some lids) =
    let own = own_leases w lids in
    if_intro
      (λ (p : Pass).
        Touches (λ lid. IsOwn w lid × NotActive w.reading lid × ReportedClosed w lid) p.effects)
      (is_nil own) nothing (reconcile_read w own w.reading) tt
      (reconcile_read-Touches w own w.reading (own_leases-IsOwn w lids))

-- Whatever fails, a reconciliation pass makes a call for a lease only if the lease is this
-- provider's, is not among the leases read as active, and the chain reports this very lease
-- closed or short of funds.
pub reconcile_once-closed :
    (w : World)
    → Touches
        (λ lid. IsOwn w lid × NotActive w.reading lid × ReportedClosed w lid)
        (reconcile_once w).effects
unfolding reconcile_once
reconcile_once-closed w = reconcile_leases-Touches w w.cluster_leases
