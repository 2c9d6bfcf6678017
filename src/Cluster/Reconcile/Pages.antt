-- ===== src/Cluster/Reconcile/Pages.antt =====
-- cluster/service.go: the reading of the active leases, against the node's listing.
use provider.Base.{
  ◌≤◌, ◌<◌, ◌≡◌, refl, false, List, [], ◌∷◌, map, arith, ◌==◌, ==_refl, ℕ-eq, Bytes, Bytes-eq,
  length,
}
use provider.Base.Map.{put_all}
use provider.Ids.{LeaseId, OrderId-eq, LeaseId-eq}
use provider.Cluster.Reconcile.{
  stalled, active, on_reply, active_leases, answered, is_empty, Reply, Leases,
}

-- A node that answers: the leases of the page at a key, and the key of the next page.
abbrev pub Listing : Type 0
Listing = Bytes → List LeaseId × Bytes

-- The pages from a key to the page without a next key, in order.
pub data Listed (node : Listing) : Bytes → List (List LeaseId) → Type 0 where
  final_page : {key : Bytes} → (node key).1 ≡ [] → Listed node key ((node key).0 ∷ [])
  middle_page :
      {key : Bytes} {pages : List (List LeaseId)}
      → is_empty (node key).1 ≡ false
      → ((node key).1 == key) ≡ false
      → Listed node (node key).1 pages
      → Listed node key ((node key).0 ∷ pages)

abbrev pub answers : Listing → Bytes → Reply
answers node key = answered (node key).0 (node key).1

-- The same node, query by query.
abbrev pub queries : Listing → List (Unit {0}) → List (Bytes → Reply)
queries node = map (λ u. answers node)

abbrev pub put_pages : List (List LeaseId) → Leases → Leases
put_pages [] found = found
put_pages (ls ∷ pages) found = put_pages pages (put_all ls tt found)

Listed-pos :
    {node : Listing} {key : Bytes} {pages : List (List LeaseId)}
    → Listed node key pages
    → 0 < length pages
Listed-pos (final_page e) = omega arith
Listed-pos (middle_page ne fresh rest) = omega arith

-- Where the node's listing of active leases ends, as many queries as it has pages read it to the
-- end, and what they find is the set of the leases of all its pages.
pub active_leases_lem :
    (node : Listing) (key : Bytes) (pages : List (List LeaseId)) (found : Leases)
    (tries : List (Unit {0}))
    → Listed node key pages
    → length pages ≤ length tries
    → active_leases found key (queries node tries) ≡ active (put_pages pages found)
unfolding active_leases on_reply
active_leases_lem node key pages found [] p h = absurd (ground (arith, Listed-pos p))
active_leases_lem node key pages found (u ∷ tries) (final_page e) h = rw (active_leases, e) refl
active_leases_lem node key pages found (u ∷ tries) (middle_page ne fresh rest) h =
    rw (active_leases, ne, fresh)
      (active_leases_lem node (node key).1 _ (put_all (node key).0 tt found) tries rest
        (omega (arith, h)))

-- A node that names the requested key as the next one ends the reading at that query.
pub repeated_lem :
    (node : Listing) (key : Bytes) (found : Leases) (u : Unit {0}) (tries : List (Unit {0}))
    → is_empty key ≡ false
    → (node key).1 ≡ key
    → active_leases found key (queries node (u ∷ tries)) ≡ stalled
unfolding active_leases on_reply
repeated_lem node key found u tries ne same = rw (active_leases, same, ne, ==_refl key) refl
