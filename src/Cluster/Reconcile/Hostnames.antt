-- ===== src/Cluster/Reconcile/Hostnames.antt =====
-- cluster/service.go: when a reconciliation pass releases host names.
use provider.Base.{
  ◌≤◌, ◌≡◌, refl, inl, inr, Bool, true, not, ◌||◌, some, List, [], ◌∷◌, ◌++◌, arith, nat_eq,
  if◌then◌else◌, Bool-cases, if_intro, if_split, ◌==◌, ℕ-eq, Bytes-eq, Each, Each-append, contains,
  contains-select,
}
use provider.Base.Map.{get, keys_where}
use provider.Ids.{LeaseId, OrderId-eq, LeaseId-eq, lease_eq_iff}
use provider.Cluster.Reconcile.{
  closed, keep, is_nil, teardown_lease, unconfirmed, own_leases, closed_lease, purge_ips, active,
  nothing, publish_closed, purge_hostnames, group_eq_iff, reconcile_read, call, group_leases,
  release_hostnames, reconcile_leases, reconcile_lease, Verdict, and_pass, value_of, group_of,
  inactive, is_active, any_lease, reconcile_once, reconcile_each, on_verdict,
  remove_unmanaged_lease, Leases, World, Pass, Effect, GroupId-eq,
}
use provider.Cluster.Reconcile.Groups.{members, members-two, group_leases-members}

contains-keys :
    (leases : Leases) (lid : LeaseId)
    → contains (keys_where any_lease leases) lid ≡ is_active leases lid
unfolding keys_where get
contains-keys [] lid = refl
contains-keys ((l, u) ∷ leases) lid = ground (arith, contains-keys leases lid)

contains-append :
    (xs ys : List LeaseId) (a : LeaseId) → contains (xs ++ ys) a ≡ (contains xs a || contains ys a)
contains-append [] ys a = refl
contains-append (x ∷ xs) ys a = ground (arith, contains-append xs ys a)

-- The leases that are counted: the own ones in the cluster and the active ones.
abbrev pub counted : Leases → List LeaseId → LeaseId → Bool
counted leases own l = contains own l || is_active leases l

counted-contains :
    (leases : Leases) (own : List LeaseId) (l : LeaseId)
    → counted leases own l ≡ true
    → contains (inactive leases own ++ keys_where any_lease leases) l ≡ true
counted-contains leases own l h = ground (
  arith,
  h,
  contains-append (inactive leases own) (keys_where any_lease leases) l,
  contains-select (λ l. not (is_active leases l)) own l,
  contains-keys leases l,
)

-- No other lease of the group is counted.
abbrev pub IsAlone : Leases → List LeaseId → LeaseId → Type 0
IsAlone leases own lid =
    (other : LeaseId)
    → counted leases own other ≡ true
    → group_of other ≡ group_of lid
    → other ≡ lid

last_of_group-IsAlone :
    (leases : Leases) (own : List LeaseId) (lid : LeaseId)
    → contains own lid ≡ true
    → nat_eq (value_of (get (group_of lid) (group_leases leases own))) 1 ≡ true
    → IsAlone leases own lid
last_of_group-IsAlone leases own lid mine one other c same =
    let g = group_of lid in
    let all = inactive leases own ++ keys_where any_lease leases in
    elim (Bool-cases (other == lid)) [
      | inl e ↦ (lease_eq_iff other lid).0 e
      | inr ne ↦
          let two : 2 ≤ members g all =
            members-two g all other lid (counted-contains leases own other c)
              (counted-contains leases own lid (ground (arith, mine))) ne
              ((group_eq_iff (group_of other) g).1 same) ((group_eq_iff g g).1 refl) in
          absurd (ground (arith, one, group_leases-members g leases own, two))
    ]

abbrev pub ReleasesAlone : Leases → List LeaseId → Effect → Type 0
ReleasesAlone leases own (release_hostnames lid) = IsAlone leases own lid
ReleasesAlone leases own _ = Unit

abbrev pub AllAlone : Leases → List LeaseId → Pass → Type 0
AllAlone leases own p = Each (ReleasesAlone leases own) p.effects

remove_unmanaged_lease-AllAlone :
    (leases : Leases) (own : List LeaseId) (w : World) (lid : LeaseId) (last : Bool)
    → (last ≡ true → IsAlone leases own lid)
    → AllAlone leases own (remove_unmanaged_lease w lid last)
unfolding remove_unmanaged_lease
remove_unmanaged_lease-AllAlone leases own w lid last h =
    let purged = and_pass (call w (purge_hostnames lid)) (call w (purge_ips lid)) in
    let released : Pass = if last then call w (release_hostnames lid) else nothing in
    let releases : AllAlone leases own released =
      if_split (AllAlone leases own) last (call w (release_hostnames lid)) nothing (λ l. (h l, tt))
        (λ l. tt) in
    if_intro (AllAlone leases own) purged.has_failed purged
      (and_pass purged (and_pass released (call w (teardown_lease lid)))) (tt, (tt, tt))
      (
        tt,
        (
          tt,
          Each-append _ released.effects (call w (teardown_lease lid)).effects releases (tt, tt),
        ),
      )

on_verdict-AllAlone :
    (leases : Leases) (own : List LeaseId) (w : World) (lid : LeaseId) (v : Verdict)
    → contains own lid ≡ true
    → AllAlone leases own (on_verdict w lid (group_leases leases own) v)
unfolding on_verdict
on_verdict-AllAlone leases own w lid unconfirmed mine = tt
on_verdict-AllAlone leases own w lid keep mine = tt
on_verdict-AllAlone leases own w lid closed mine =
    if_intro (AllAlone leases own) (w.managed lid) (call w (publish_closed lid)) _ (tt, tt)
      (remove_unmanaged_lease-AllAlone leases own w lid _
        (last_of_group-IsAlone leases own lid mine))

reconcile_each-AllAlone :
    (leases : Leases) (own : List LeaseId) (w : World) (ls : List LeaseId)
    → Each (λ l. contains own l ≡ true) ls
    → AllAlone leases own (reconcile_each w leases (group_leases leases own) ls)
unfolding reconcile_each reconcile_lease
reconcile_each-AllAlone leases own w [] mine = tt
reconcile_each-AllAlone leases own w (l ∷ ls) mine =
    let one = reconcile_lease w leases (group_leases leases own) l in
    let rest = reconcile_each w leases (group_leases leases own) ls in
    Each-append _ one.effects rest.effects
      (if_intro (AllAlone leases own) (is_active leases l) nothing _ tt
        (on_verdict-AllAlone leases own w l (closed_lease l (w.lease l)) mine.0))
      (reconcile_each-AllAlone leases own w ls mine.1)

Each-contains :
    (ls whole : List LeaseId)
    → ((a : LeaseId) → contains ls a ≡ true → contains whole a ≡ true)
    → Each (λ l. contains whole l ≡ true) ls
Each-contains [] whole h = tt
Each-contains (l ∷ ls) whole h = (
  h l (ground (arith, lease_eq_iff l l)),
  Each-contains ls whole (λ a c. h a (ground (arith, c))),
)

-- A pass that reads the cluster's and the active leases releases host names, which are reserved
-- for a whole group, only for a lease that is the one lease of its group among the provider's own
-- in the cluster and the active ones, whatever is closed in the same pass.
pub reconcile_once-alone :
    (w : World) (lids : List LeaseId) (leases : Leases)
    → w.cluster_leases ≡ some lids
    → w.reading ≡ active leases
    → AllAlone leases (own_leases w lids) (reconcile_once w)
unfolding reconcile_once reconcile_leases reconcile_read
reconcile_once-alone w lids leases known read =
    let own = own_leases w lids in
    rw (known, read)
      (if_intro (AllAlone leases own) (is_nil own) nothing _ tt
        (reconcile_each-AllAlone leases own w own (Each-contains own own (λ a c. c))))
