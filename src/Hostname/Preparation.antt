-- ===== src/Hostname/Preparation.antt =====
-- `prepareHostnamesImpl`, name by name.
use provider.Base.{
  ◌≡◌, refl, sym, inl, inr, Bool, true, false, not, ◌&&◌, Option, none, some, List, [], ◌∷◌, arith,
  if◌then◌else◌, Bool-cases, ◌==◌, ℕ-eq, Bytes, bytes_eq_iff, Bytes-eq, contains,
}
use provider.Base.Map.{get, get-put_all, passes}
use provider.Hostname.{prepare_commit, prepare_scan, HostnameId, Store, Result, ok, err, prepare}
use provider.Hostname.Entries.{is_ok, owned_or_free, all_available, all_available-owned}

is_ok-prepare_scan :
    (store : Store) (hs : List Bytes) (hid : HostnameId)
    → is_ok (prepare_scan store hs hid) ≡ all_available store hs hid.owner
unfolding prepare_scan
is_ok-prepare_scan store [] hid = refl
is_ok-prepare_scan store (h ∷ hs) hid = ground (arith, is_ok-prepare_scan store hs hid)

-- Likewise for `prepare`.
abbrev pub Changes : Store → List Bytes → HostnameId → Bytes → Result (List Bytes) → Type 0
Changes store hs hid j (err e) = Unit
Changes store hs hid j (ok to_change) =
    contains to_change j ≡ (contains hs j && passes (λ x. x.owner == hid.owner) (get j store))

prepare_scan-Changes :
    (store : Store) (hs : List Bytes) (hid : HostnameId) (j : Bytes)
    → Changes store hs hid j (prepare_scan store hs hid)
unfolding prepare_scan
prepare_scan-Changes store [] hid j = refl
prepare_scan-Changes store (h ∷ hs) hid j = elim (Bool-cases (h == j)) [
  | inl e ↦
      let same : h ≡ j = (bytes_eq_iff h j).0 e in
      rw same (ground (arith, bytes_eq_iff j j, prepare_scan-Changes store hs hid j))
  | inr ne ↦ ground (arith, prepare_scan-Changes store hs hid j)
]

-- The entry that a successful `prepare` leaves: a requested name that is in use moves to this id.
abbrev pub prepared_entry : Bool → HostnameId → Option HostnameId → Option HostnameId
prepared_entry true hid (some x) = some hid
prepared_entry requested hid o = o

-- `prepare` either reports a name held by another owner and changes nothing, or every requested
-- name was free or the owner's, and then each of them that is in use belongs to this id.
abbrev pub Prepares : Store → List Bytes → HostnameId → Bytes → Store × Result (Unit {0}) → Type 0
Prepares store hs hid j (after, err e) =
    (all_available store hs hid.owner ≡ false) × (after ≡ store)
Prepares store hs hid j (after, ok done) =
    (all_available store hs hid.owner ≡ true)
    × (get j after ≡ prepared_entry (contains hs j) hid (get j store))

moved_value :
    (requested : Bool) (hid : HostnameId) (o : Option HostnameId)
    → (requested && not (owned_or_free hid.owner o)) ≡ false
    → (if requested && passes (λ x. x.owner == hid.owner) o then some hid else o)
      ≡ prepared_entry requested hid o
moved_value true hid none h = refl
moved_value false hid none h = refl
moved_value true hid (some x) h = ground arith
moved_value false hid (some x) h = refl

prepare_commit-Prepares :
    (store : Store) (hs : List Bytes) (hid : HostnameId) (j : Bytes) (r : Result (List Bytes))
    → is_ok r ≡ all_available store hs hid.owner
    → Changes store hs hid j r
    → Prepares store hs hid j (prepare_commit store hid r)
unfolding prepare_commit
prepare_commit-Prepares store hs hid j (err e) a w = ground arith
prepare_commit-Prepares store hs hid j (ok to_change) a w = (
  sym a,
  rw (get-put_all to_change j hid store, w)
      (moved_value (contains hs j) hid (get j store)
        (all_available-owned store hs hid.owner j (sym a))),
)

-- prepareHostnamesImpl on every branch, at every name: an error happens exactly when a requested
-- name is another owner's and changes nothing; a success moves the requested names that have an
-- entry to this id and no other name.
pub prepare-Prepares :
    (store : Store) (hs : List Bytes) (hid : HostnameId) (j : Bytes)
    → Prepares store hs hid j (prepare store hs hid)
unfolding prepare
prepare-Prepares store hs hid j =
    prepare_commit-Prepares store hs hid j (prepare_scan store hs hid)
      (is_ok-prepare_scan store hs hid) (prepare_scan-Changes store hs hid j)
