-- ===== src/Manifest/Fetch/Groups.antt =====
-- manifest/manager.go: the group that `doFetchData` finds for each lease.
use provider.Base.{
  ℕ, ◌≡◌, refl, sym, ap, ◌∙◌, ◌⊎◌, inl, inr, Bool, true, false, Option, none, some, List, [], ◌∷◌,
  arith, if◌then◌else◌, ◌==◌, ==_refl, ℕ-eq, Bytes, Bytes-eq, Each, contains,
}
use provider.Base.Map.{Map, get, put, get-put}
use provider.Ids.{LeaseId, OrderId-eq, LeaseId-eq}
use provider.Manifest.Checks.{Library}
use provider.Manifest.Manager.{FetchResult, Lease}
use provider.Manifest.Service.{DeploymentId}
use provider.Manifest.Fetch.{
  query_error, no_group_for_lease, Error, NamedGroup, Filters, Response, Node, index_groups,
  and_lease, pair_leases, fetched, with_leases, with_deployment, do_fetch_data, read_height,
}

-- The name of the last group with this GSeq.
abbrev pub name_or : Option Bytes → Option Bytes → Option Bytes
name_or none other = other
name_or (some name) other = some name

abbrev pub name_at : ℕ → List NamedGroup → Option Bytes
name_at gseq [] = none
name_at gseq ((g, name) ∷ groups) =
    name_or (name_at gseq groups) (if g == gseq then some name else none)

abbrev pub ids_of : List Lease → List LeaseId
ids_of [] = []
ids_of (x ∷ xs) = x.id ∷ ids_of xs

name_or-if :
    (first other : Option Bytes) (name : Bytes) (same : Bool)
    → name_or first (if same then some name else other)
      ≡ name_or (name_or first (if same then some name else none)) other
name_or-if none other name true = refl
name_or-if none other name false = refl
name_or-if (some x) other name same = refl

name_or-none : (o : Option Bytes) → name_or o none ≡ o
name_or-none none = refl
name_or-none (some x) = refl

module _ (l : Library) where
  get-index_groups :
      (gseq : ℕ) (groups : List NamedGroup) (m : Map ℕ Bytes)
      → get gseq (index_groups l groups m) ≡ name_or (name_at gseq groups) (get gseq m)
  unfolding index_groups
  get-index_groups gseq [] m = refl
  get-index_groups gseq ((g, name) ∷ groups) m =
      rw (get-index_groups gseq groups (put g name m), get-put g gseq name m)
        (name_or-if (name_at gseq groups) (get gseq m) name (g == gseq))

  -- Each lease with its group's name.
  abbrev pub IsPaired : List NamedGroup → Lease → Type 0
  IsPaired groups lease = name_at lease.id.gseq groups ≡ some lease.group_name

  -- The outcome for the leases: all of them with their groups, or the first without one.
  abbrev pub Paired : List NamedGroup → List LeaseId → Error ⊎ List Lease → Type 0
  Paired groups ids (inr leases) = (ids_of leases ≡ ids) × Each (IsPaired groups) leases
  Paired groups ids (inl (query_error text)) = ⊥
  Paired groups ids (inl (no_group_for_lease id)) =
      (contains ids id ≡ true) × (name_at id.gseq groups ≡ none)

  and_lease-Paired :
      (groups : List NamedGroup) (id : LeaseId) (ids : List LeaseId) (found : Option Bytes)
      (rest : Error ⊎ List Lease)
      → found ≡ name_at id.gseq groups
      → Paired groups ids rest
      → Paired groups (id ∷ ids) (and_lease l id found rest)
  unfolding and_lease
  and_lease-Paired groups id ids none rest e h = (rw (==_refl id) refl, sym e)
  and_lease-Paired groups id ids (some name) (inl (query_error text)) e h = h
  and_lease-Paired groups id ids (some name) (inl (no_group_for_lease other)) e h =
      (ground (arith, h.0), h.1)
  and_lease-Paired groups id ids (some name) (inr leases) e h =
      (ap (λ ids'. id ∷ ids') h.0, (sym e, h.1))

  pair_leases-Paired :
      (groups : List NamedGroup) (m : Map ℕ Bytes) (ids : List LeaseId)
      → ((gseq : ℕ) → get gseq m ≡ name_at gseq groups)
      → Paired groups ids (pair_leases l m ids)
  unfolding pair_leases
  pair_leases-Paired groups m [] h = (refl, tt)
  pair_leases-Paired groups m (id ∷ ids) h =
      let induct = pair_leases-Paired groups m ids h in
      and_lease-Paired groups id ids (get id.gseq m) (pair_leases l m ids) (h id.gseq) induct

  -- What a read returns: the deployment that the node answered with, the leases that it answered
  -- with, in order and each with the last group of its GSeq, and the height of the header; or the
  -- error of the first query that fails, or a lease without a group.
  abbrev pub IsRead : Bytes ⊎ Response l → Bytes ⊎ List LeaseId → Error ⊎ FetchResult l → Type 0
  IsRead (inl text) leases outcome = outcome ≡ inl (query_error text)
  IsRead (inr d) (inl text) outcome = outcome ≡ inl (query_error text)
  IsRead (inr d) (inr ids) (inl (query_error text)) = ⊥
  IsRead (inr d) (inr ids) (inl (no_group_for_lease id)) =
      (contains ids id ≡ true) × (name_at id.gseq d.groups ≡ none)
  IsRead (inr d) (inr ids) (inr r) =
      (ids_of r.leases ≡ ids)
      × Each (IsPaired d.groups) r.leases
      × (r.deployment ≡ d.deployment)
      × (r.height ≡ read_height d.header)

  fetched-IsRead :
      (d : Response l) (ids : List LeaseId) (paired : Error ⊎ List Lease)
      → Paired d.groups ids paired
      → IsRead (inr d) (inr ids) (fetched l d paired)
  unfolding fetched
  fetched-IsRead d ids (inl (query_error text)) h = h
  fetched-IsRead d ids (inl (no_group_for_lease id)) h = h
  fetched-IsRead d ids (inr leases) h = (h.0, h.1, refl, refl)

  with_leases-IsRead :
      (d : Response l) (answer : Bytes ⊎ List LeaseId)
      → IsRead (inr d) answer (with_leases l d answer)
  unfolding with_leases get
  with_leases-IsRead d (inl text) = refl
  with_leases-IsRead d (inr ids) =
      fetched-IsRead d ids (pair_leases l (index_groups l d.groups []) ids) (
        pair_leases-Paired d.groups (index_groups l d.groups []) ids
          (λ gseq. get-index_groups gseq d.groups [] ∙ name_or-none (name_at gseq d.groups)))

  with_deployment-IsRead :
      (n : Node l) (f : Filters) (answer : Bytes ⊎ Response l)
      → IsRead answer (n.leases f) (with_deployment l n f answer)
  unfolding with_deployment
  with_deployment-IsRead n f (inl text) = refl
  with_deployment-IsRead n f (inr d) = with_leases-IsRead d (n.leases f)

  -- Whatever the node answers, doFetchData returns the deployment and the height that it answered
  -- with, and its leases in order, each with the last group of its GSeq in the deployment, or the
  -- error of the first query that fails, or a lease of the answer whose GSeq no group has.
  pub do_fetch_data-IsRead :
      (n : Node l) (daddr : DeploymentId) (provider : Bytes)
      → IsRead
          (n.deployment daddr)
          (n.leases (record { owner = daddr.owner; dseq = daddr.dseq; provider = provider }))
          (do_fetch_data l n daddr provider)
  unfolding do_fetch_data
  do_fetch_data-IsRead n daddr provider =
      with_deployment-IsRead n
        (record { owner = daddr.owner; dseq = daddr.dseq; provider = provider })
        (n.deployment daddr)
