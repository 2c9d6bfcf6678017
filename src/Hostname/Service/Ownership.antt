-- ===== src/Hostname/Service/Ownership.antt =====
-- cluster/hostname.go: the requests of one owner and the host names of another.
use provider.Base.{
  ◌≡◌, refl, ap, ◌∙◌, ◌≢◌, inl, inr, Bool, true, false, not, ◌&&◌, some, List, [], ◌∷◌, arith,
  Bool-cases, ℕ-eq, Bytes, bytes_eq_iff, Bytes-eq, Each, contains,
}
use provider.Base.Map.{get, IsMap}
use provider.Hostname.{
  HostnameId, id_equals, id_equals_iff, Store, Result, ok, err, prepare, reserve,
}
use provider.Hostname.Entries.{
  owned_or_free, all_available-owned, Reserves, reserve-Reserves, reserved_entry, get-release,
}
use provider.Hostname.Preparation.{Prepares, prepare-Prepares, prepared_entry}
use provider.Hostname.Keys.{reserve-IsMap, prepare-IsMap, release-IsMap}
use provider.Hostname.Service.{
  Request, reserve_request, can_request, release_request, prepare_request, serve, serve_all,
}

-- The owner for whom a request acts.
abbrev pub requester : Request → Bytes
requester (reserve_request hs hid) = hid.owner
requester (can_request hs owner) = owner
requester (release_request hid) = hid.owner
requester (prepare_request hs hid) = hid.owner

pub serve-IsMap : (store : Store) (r : Request) → IsMap store → IsMap (serve store r)
unfolding serve
serve-IsMap store (reserve_request hs hid) m = reserve-IsMap store hs hid m
serve-IsMap store (can_request hs owner) m = m
serve-IsMap store (release_request hid) m = release-IsMap store hid m
serve-IsMap store (prepare_request hs hid) m = prepare-IsMap store hs hid m

reserved_other :
    (requested : Bool) (hid x : HostnameId)
    → x.owner ≢ hid.owner
    → reserved_entry requested hid (some x) ≡ some x
reserved_other true hid x ne = refl
reserved_other false hid x ne = elim (Bool-cases (id_equals x hid)) [
  | inl e ↦ absurd (ne (ap (λ (i : HostnameId). i.owner) ((id_equals_iff x hid).0 e)))
  | inr e ↦ rw e
]

prepared_other :
    (requested : Bool) (hid x : HostnameId)
    → x.owner ≢ hid.owner
    → (requested && not (owned_or_free hid.owner (some x))) ≡ false
    → prepared_entry requested hid (some x) ≡ some x
prepared_other false hid x ne h = refl
prepared_other true hid x ne h = absurd (ne ((bytes_eq_iff x.owner hid.owner).0 (ground arith)))

module _ (store : Store) (j : Bytes) (x : HostnameId) (held : get j store ≡ some x) where
  reserve_other :
      (hs : List Bytes) (hid : HostnameId) (r : Store × Result (List Bytes))
      → x.owner ≢ hid.owner
      → Reserves store hs hid j r
      → get j r.0 ≡ some x
  reserve_other hs hid (after, err e) ne r = ap (get j) r.1 ∙ held
  reserve_other hs hid (after, ok w) ne r =
      r.1 ∙ ap (reserved_entry (contains hs j) hid) held ∙ reserved_other (contains hs j) hid x ne

  prepare_other :
      (hs : List Bytes) (hid : HostnameId) (r : Store × Result (Unit {0}))
      → x.owner ≢ hid.owner
      → Prepares store hs hid j r
      → get j r.0 ≡ some x
  prepare_other hs hid (after, err e) ne r = ap (get j) r.1 ∙ held
  prepare_other hs hid (after, ok u) ne r =
      r.1
      ∙ ap (prepared_entry (contains hs j) hid) held
      ∙ prepared_other (contains hs j) hid x ne
          (rw held at (all_available-owned store hs hid.owner j r.0))

  serve_other : (r : Request) → IsMap store → x.owner ≢ requester r → get j (serve store r) ≡ some x
  unfolding serve
  serve_other (reserve_request hs hid) m ne =
      reserve_other hs hid (reserve store hs hid) ne (reserve-Reserves store hs hid j m)
  serve_other (can_request hs owner) m ne = held
  serve_other (release_request hid) m ne =
      get-release store hid j m ∙ ap (reserved_entry false hid) held ∙ reserved_other false hid x ne
  serve_other (prepare_request hs hid) m ne =
      prepare_other hs hid (prepare store hs hid) ne (prepare-Prepares store hs hid j)

-- However many requests other owners make of the run loop, each entry of an owner stays as it is,
-- in a store with one entry for a key.
pub serve_all-isolated :
    (store : Store) (rs : List Request) (j : Bytes) (x : HostnameId)
    → IsMap store
    → get j store ≡ some x
    → Each (λ r. x.owner ≢ requester r) rs
    → get j (serve_all store rs) ≡ some x
unfolding serve_all
serve_all-isolated store [] j x m held others = held
serve_all-isolated store (r ∷ rs) j x m held others =
    serve_all-isolated (serve store r) rs j x (serve-IsMap store r m)
      (serve_other store j x held r m others.0) others.1
