-- ===== src/Cluster/Reconcile.antt =====
-- cluster/service.go: a pass of the lease reconciliation, which matches the leases in the cluster
-- against the chain, and the reading of the active leases.
pub mod Safety
pub mod Groups
pub mod Hostnames
pub mod Complete
pub mod Pages
mod Samples
use provider.Base.{
  ℕ, ◌+◌, ◌≡◌, ◌↔◌, Bool, true, false, not, ◌&&◌, ◌||◌, Option, none, some, List, [], ◌∷◌, ◌++◌,
  map, arith, nat_eq, if◌then◌else◌, Comparable, ◌==◌, ℕ-eq, Bytes, bytes_eq_iff, Bytes-eq, select,
}
use provider.Base.Map.{Map, get, put, put_all, keys_where}
use provider.Ids.{LeaseId, OrderId-eq, LeaseId-eq}

-- A query of a page of active leases: an error, or the leases and the next key.
pub data Reply : Type 0 where
  query_failed : Reply
  answered : List LeaseId → Bytes → Reply

-- The set of active leases is a map, as in the source.
abbrev pub Leases : Type 0
Leases = Map LeaseId (Unit {0})

pub data Reading : Type 0 where
  active : Leases → Reading
  failed : Reading
  stalled : Reading
  unread : Reading

abbrev pub is_empty : Bytes → Bool
is_empty [] = true
is_empty (b ∷ bs) = false

on_reply : Leases → Bytes → Reply → (Leases → Bytes → Reading) → Reading
on_reply found key query_failed go_on = failed
on_reply found key (answered ls next) go_on =
    if is_empty next
    then active (put_all ls tt found)
    else if next == key
    then stalled
    else go_on (put_all ls tt found) next

-- `activeLeases`: the replies are what the node answers, query by query, for each key; without
-- more of them the loop still reads.
unfoldable pub active_leases : Leases → Bytes → List (Bytes → Reply) → Reading
unfolding on_reply
active_leases found key [] = unread
active_leases found key (node ∷ nodes) =
    on_reply found key (node key) (λ found' next. active_leases found' next nodes)

-- The states of a lease on the chain.
pub data LeaseState : Type 0 where
  lease_active lease_insufficient_funds lease_closed lease_other : LeaseState

-- The answer to the query of one lease.
pub data LeaseReply : Type 0 where
  not_found query_error : LeaseReply
  found : LeaseId → LeaseState → LeaseReply

-- What is known of a lease: it is closed, it is kept, or it cannot be confirmed.
pub data Verdict : Type 0 where
  closed keep unconfirmed : Verdict

abbrev pub closed_state : LeaseState → Verdict
closed_state lease_closed = closed
closed_state lease_insufficient_funds = closed
closed_state _ = keep

-- `closedLease`
unfoldable pub closed_lease : LeaseId → LeaseReply → Verdict
closed_lease lid not_found = keep
closed_lease lid query_error = unconfirmed
closed_lease lid (found id state) = if not (id == lid) then unconfirmed else closed_state state

-- The calls of a pass, with their success.
pub data Effect : Type 0 where
  publish_closed : LeaseId → Effect
  purge_hostnames : LeaseId → Effect
  purge_ips : LeaseId → Effect
  release_hostnames : LeaseId → Effect
  teardown_lease : LeaseId → Effect

-- What a pass meets: the answers of the chain, and which calls succeed.
pub record World : Type 0 where
  pub owner : Bytes
  pub cluster_leases : Option (List LeaseId)
  pub reading : Reading
  pub lease : LeaseId → LeaseReply
  pub managed : LeaseId → Bool
  pub succeeds : Effect → Bool

pub record Pass : Type 0 where
  pub effects : List Effect
  pub has_failed : Bool

abbrev pub and_pass : Pass → Pass → Pass
and_pass a b = record {
  effects = a.effects ++ b.effects;
  has_failed = a.has_failed || b.has_failed;
}

abbrev pub call : World → Effect → Pass
call w e = record { effects = e ∷ []; has_failed = not (w.succeeds e) }

abbrev pub nothing : Pass
nothing = record { effects = []; has_failed = false }

-- `removeUnmanagedLease`
unfoldable pub remove_unmanaged_lease : World → LeaseId → Bool → Pass
remove_unmanaged_lease w lid last_of_group =
    let purged = and_pass (call w (purge_hostnames lid)) (call w (purge_ips lid)) in
    if purged.has_failed
    then purged
    else and_pass purged (
        and_pass (if last_of_group then call w (release_hostnames lid) else nothing)
          (call w (teardown_lease lid)))

-- `groupLeases[lid.GroupID()]++`, by the group's id.
pub record GroupId : Type 0 where
  pub owner : Bytes
  pub dseq : ℕ
  pub gseq : ℕ

abbrev pub group_eq : GroupId → GroupId → Bool
group_eq a b = a.owner == b.owner && a.dseq == b.dseq && a.gseq == b.gseq

pub group_eq_iff : (a b : GroupId) → (group_eq a b ≡ true) ↔ (a ≡ b)
group_eq_iff a b = ground (arith, bytes_eq_iff a.owner b.owner)

instance abbrev pub GroupId-eq : Comparable GroupId
GroupId-eq = record { same = group_eq; same_iff = group_eq_iff }

abbrev pub group_of : LeaseId → GroupId
group_of l = record { owner = l.owner; dseq = l.dseq; gseq = l.gseq }

abbrev pub value_of : Option ℕ → ℕ
value_of none = 0
value_of (some n) = n

unfoldable pub count_groups : List LeaseId → Map GroupId ℕ → Map GroupId ℕ
count_groups [] m = m
count_groups (l ∷ ls) m = count_groups ls (put (group_of l) (value_of (get (group_of l) m) + 1) m)

abbrev pub present {ℓ} : {A : Type ℓ} → Option A → Bool
present none = false
present (some a) = true

abbrev pub is_active : Leases → LeaseId → Bool
is_active leases lid = present (get lid leases)

-- The leases that the chain does not report active.
abbrev pub inactive : Leases → List LeaseId → List LeaseId
inactive leases = select (λ l. not (is_active leases l))

abbrev pub any_lease : LeaseId → Unit {0} → Bool
any_lease lid u = true

pub group_leases : Leases → List LeaseId → Map GroupId ℕ
unfolding count_groups
group_leases leases own =
    count_groups (inactive leases own) (count_groups (keys_where any_lease leases) [])

-- The body of the loop of `reconcileLeasesOnce`, behind the test for an active lease.
on_verdict : World → LeaseId → Map GroupId ℕ → Verdict → Pass
unfolding remove_unmanaged_lease
on_verdict w lid groups unconfirmed = record { effects = []; has_failed = true }
on_verdict w lid groups keep = nothing
on_verdict w lid groups closed =
    if w.managed lid
    then call w (publish_closed lid)
    else remove_unmanaged_lease w lid (nat_eq (value_of (get (group_of lid) groups)) 1)

reconcile_lease : World → Leases → Map GroupId ℕ → LeaseId → Pass
unfolding on_verdict closed_lease
reconcile_lease w leases groups lid =
    if is_active leases lid
    then nothing
    else on_verdict w lid groups (closed_lease lid (w.lease lid))

reconcile_each : World → Leases → Map GroupId ℕ → List LeaseId → Pass
unfolding reconcile_lease
reconcile_each w leases groups [] = nothing
reconcile_each w leases groups (l ∷ ls) =
    let rest = reconcile_each w leases groups ls in
    and_pass (reconcile_lease w leases groups l) rest

abbrev pub own_leases : World → List LeaseId → List LeaseId
own_leases w = select (λ l. l.provider == w.owner)

abbrev failure : Pass
failure = record { effects = []; has_failed = true }

reconcile_read : World → List LeaseId → Reading → Pass
unfolding reconcile_each group_leases
reconcile_read w own (active leases) = reconcile_each w leases (group_leases leases own) own
reconcile_read w own _ = failure

abbrev pub is_nil {ℓ} : {A : Type ℓ} → List A → Bool
is_nil [] = true
is_nil (x ∷ xs) = false

reconcile_leases : World → Option (List LeaseId) → Pass
unfolding reconcile_read
reconcile_leases w none = failure
reconcile_leases w (some lids) =
    let own = own_leases w lids in if is_nil own then nothing else reconcile_read w own w.reading

-- `reconcileLeasesOnce`
pub reconcile_once : World → Pass
unfolding reconcile_leases
reconcile_once w = reconcile_leases w w.cluster_leases
