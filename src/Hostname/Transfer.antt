-- ===== src/Hostname/Transfer.antt =====
-- Moving host names from one deployment of an owner to another: `prepare`, then `reserve`.
use provider.Base.{
  ◌≡◌, refl, sym, ap, ◌∙◌, Bool, true, false, Option, none, some, List, [], ◌∷◌, arith, ℕ-eq, Bytes,
  bytes_eq_iff, Bytes-eq, contains,
}
use provider.Base.Map.{get, IsMap}
use provider.Hostname.{HostnameId, id_equals_iff, Store, Result, ok, err, prepare, reserve}
use provider.Hostname.Entries.{
  is_ok, all_available, owned_or_free, is_withheld, Reserves, reserve-Reserves, reserved_entry,
}
use provider.Hostname.Preparation.{Prepares, prepare-Prepares, prepared_entry}
use provider.Hostname.Keys.{prepare-IsMap}

all_available-of_owned :
    (store : Store) (hs : List Bytes) (owner : Bytes)
    → ((j : Bytes) → contains hs j ≡ true → owned_or_free owner (get j store) ≡ true)
    → all_available store hs owner ≡ true
all_available-of_owned store [] owner h = refl
all_available-of_owned store (x ∷ hs) owner h = ground (
  arith,
  h x (rw ((bytes_eq_iff x x).1 refl) refl),
  all_available-of_owned store hs owner (λ j c. h j (ground arith)),
)

prepared-owned :
    (requested : Bool) (hid : HostnameId) (o : Option HostnameId)
    → requested ≡ true
    → owned_or_free hid.owner (prepared_entry requested hid o) ≡ true
prepared-owned true hid none h = refl
prepared-owned true hid (some x) h = (bytes_eq_iff hid.owner hid.owner).1 refl
prepared-owned false hid o h = absurd (cc h)

prepared-not_withheld :
    (requested : Bool) (hid : HostnameId) (o : Option HostnameId)
    → requested ≡ true
    → (is_withheld hid (prepared_entry requested hid o) ≡ false)
      × (reserved_entry requested hid (prepared_entry requested hid o) ≡ some hid)
prepared-not_withheld true hid none h = (refl, refl)
prepared-not_withheld true hid (some x) h = (rw ((id_equals_iff hid hid).1 refl) refl, refl)
prepared-not_withheld false hid o h = absurd (cc h)

prepared_at :
    (store : Store) (hs : List Bytes) (hid : HostnameId) (j : Bytes) (r : Store × Result (Unit {0}))
    → Prepares store hs hid j r
    → is_ok r.1 ≡ true
    → get j r.0 ≡ prepared_entry (contains hs j) hid (get j store)
prepared_at store hs hid j (after, ok u) p h = p.1
prepared_at store hs hid j (after, err e) p h = absurd (cc h)

transferred :
    (store : Store) (hs : List Bytes) (hid : HostnameId) (j : Bytes) (o : Option HostnameId)
    (r : Store × Result (List Bytes))
    → Reserves store hs hid j r
    → all_available store hs hid.owner ≡ true
    → contains hs j ≡ true
    → get j store ≡ prepared_entry (contains hs j) hid o
    → (is_ok r.1 ≡ true) × (get j r.0 ≡ some hid)
transferred store hs hid j o (after, err e) p a c g = absurd (cc (sym p.0 ∙ a))
transferred store hs hid j o (after, ok w) p a c g = (
  refl,
  p.1
      ∙ ap (reserved_entry (contains hs j) hid) g
      ∙ (prepared-not_withheld (contains hs j) hid o c).1,
)

-- After a successful prepare, in a store with one entry for a key, reserving the same names for
-- the same id succeeds and the id then holds each of them.
pub prepare-reserve :
    (store : Store) (hs : List Bytes) (hid : HostnameId) (j : Bytes)
    → IsMap store
    → is_ok (prepare store hs hid).1 ≡ true
    → contains hs j ≡ true
    → (is_ok (reserve (prepare store hs hid).0 hs hid).1 ≡ true)
      × (get j (reserve (prepare store hs hid).0 hs hid).0 ≡ some hid)
prepare-reserve store hs hid j m h c =
    let middle = (prepare store hs hid).0 in
    let at = λ (i : Bytes).
      prepared_at store hs hid i (prepare store hs hid) (prepare-Prepares store hs hid i) h in
    transferred middle hs hid j (get j store) (reserve middle hs hid)
      (reserve-Reserves middle hs hid j (prepare-IsMap store hs hid m))
      (all_available-of_owned middle hs hid.owner (λ i ci.
        ap (owned_or_free hid.owner) (at i) ∙ prepared-owned (contains hs i) hid (get i store) ci))
      c (at j)
