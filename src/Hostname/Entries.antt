-- ===== src/Hostname/Entries.antt =====
-- The store of host names, entry by entry.
use provider.Base.{
  ◌≡◌, refl, sym, ◌∙◌, inl, inr, Bool, true, false, not, ◌&&◌, Option, none, some, List, [], ◌∷◌,
  arith, if◌then◌else◌, Bool-cases, ◌==◌, ℕ-eq, Bytes, bytes_eq_iff, Bytes-eq, contains,
  contains-select,
}
use provider.Base.Map.{get, get-delete_all, get-put_all, IsMap, passes, contains-keys_where}
use provider.Hostname.{
  HostnameId, id_equals, id_equals_iff, Store, Result, ok, err, reserve_scan, abandoned,
  reserve_commit, reserve, can_reserve, release,
}

abbrev pub is_ok {ℓ} : {A : Type ℓ} → Result A → Bool
is_ok (ok a) = true
is_ok (err e) = false

-- No entry at a requested name belongs to another owner.
abbrev pub owned_or_free : Bytes → Option HostnameId → Bool
owned_or_free owner none = true
owned_or_free owner (some x) = x.owner == owner

abbrev pub all_available : Store → List Bytes → Bytes → Bool
all_available store [] owner = true
all_available store (h ∷ hs) owner =
    owned_or_free owner (get h store) && all_available store hs owner

-- Held by the same owner for another deployment.
abbrev pub is_withheld : HostnameId → Option HostnameId → Bool
is_withheld hid none = false
is_withheld hid (some x) = not (id_equals x hid)

is_ok-can_reserve :
    (store : Store) (hs : List Bytes) (owner : Bytes)
    → is_ok (can_reserve store hs owner) ≡ all_available store hs owner
unfolding can_reserve
is_ok-can_reserve store [] owner = refl
is_ok-can_reserve store (h ∷ hs) owner = ground (arith, is_ok-can_reserve store hs owner)

is_ok-reserve_scan :
    (store : Store) (hs : List Bytes) (hid : HostnameId)
    → is_ok (reserve_scan store hs hid) ≡ all_available store hs hid.owner
unfolding reserve_scan
is_ok-reserve_scan store [] hid = refl
is_ok-reserve_scan store (h ∷ hs) hid = ground (arith, is_ok-reserve_scan store hs hid)

-- What the first loop of `reserve` withholds, at one name.
abbrev pub Withholds : Store → List Bytes → HostnameId → Bytes → Result (List Bytes) → Type 0
Withholds store hs hid j (err e) = Unit
Withholds store hs hid j (ok withheld) =
    contains withheld j ≡ (contains hs j && is_withheld hid (get j store))

reserve_scan-Withholds :
    (store : Store) (hs : List Bytes) (hid : HostnameId) (j : Bytes)
    → Withholds store hs hid j (reserve_scan store hs hid)
unfolding reserve_scan
reserve_scan-Withholds store [] hid j = refl
reserve_scan-Withholds store (h ∷ hs) hid j = elim (Bool-cases (h == j)) [
  | inl e ↦
      let same : h ≡ j = (bytes_eq_iff h j).0 e in
      rw same (ground (arith, bytes_eq_iff j j, reserve_scan-Withholds store hs hid j))
  | inr ne ↦ ground (arith, reserve_scan-Withholds store hs hid j)
]

-- The entry that a successful `reserve` leaves at a name: a requested name is this id's unless
-- another deployment of the owner holds it, and every other name of this id is dropped.
abbrev pub reserved_entry : Bool → HostnameId → Option HostnameId → Option HostnameId
reserved_entry true hid none = some hid
reserved_entry true hid (some x) = some x
reserved_entry false hid none = none
reserved_entry false hid (some x) = if id_equals x hid then none else some x

abandoned-keys :
    (store : Store) (hs : List Bytes) (hid : HostnameId) (j : Bytes)
    → IsMap store
    → contains (abandoned store hs hid) j
      ≡ passes (λ x. not (contains hs j) && id_equals x hid) (get j store)
unfolding abandoned
abandoned-keys store hs hid j m = contains-keys_where _ j store m

-- `reserve` either reports a name held by another owner and changes nothing, or every requested
-- name was free or the owner's, and then each entry is as `reserved_entry` says and the withheld
-- names are the requested ones that another deployment of the owner holds.
abbrev pub Reserves : Store → List Bytes → HostnameId → Bytes → Store × Result (List Bytes) → Type 0
Reserves store hs hid j (after, err e) =
    (all_available store hs hid.owner ≡ false) × (after ≡ store)
Reserves store hs hid j (after, ok withheld) =
    (all_available store hs hid.owner ≡ true)
    × (get j after ≡ reserved_entry (contains hs j) hid (get j store))
    × (contains withheld j ≡ (contains hs j && is_withheld hid (get j store)))

entry_value :
    (requested : Bool) (hid : HostnameId) (o : Option HostnameId)
    → (if passes (λ x. not requested && id_equals x hid) o
        then none
        else if requested && not (requested && is_withheld hid o)
        then some hid
        else o)
      ≡ reserved_entry requested hid o
entry_value true hid none = refl
entry_value false hid none = refl
entry_value true hid (some x) = ground (arith, id_equals_iff x hid)
entry_value false hid (some x) = ground arith

reserve_commit-Reserves :
    (store : Store) (hs : List Bytes) (hid : HostnameId) (j : Bytes) (r : Result (List Bytes))
    → IsMap store
    → is_ok r ≡ all_available store hs hid.owner
    → Withholds store hs hid j r
    → Reserves store hs hid j (reserve_commit store hs hid r)
unfolding reserve_commit
reserve_commit-Reserves store hs hid j (err e) m a w = ground arith
reserve_commit-Reserves store hs hid j (ok withheld) m a w = (
  sym a,
  rw
      (
        get-delete_all (abandoned store hs hid) j _,
        get-put_all _ j hid store,
        abandoned-keys store hs hid j m,
        contains-select (λ h. not (contains withheld h)) hs j,
        w,
      )
      (entry_value (contains hs j) hid (get j store)),
  w,
)

-- reserveHostnamesImpl on every branch, at every name of a store with one entry for a key: an
-- error happens exactly when a requested name is another owner's and changes nothing; a success
-- takes the free names, withholds exactly those that another deployment of the owner holds, and
-- drops the names of this id that are not requested any more.
pub reserve-Reserves :
    (store : Store) (hs : List Bytes) (hid : HostnameId) (j : Bytes)
    → IsMap store
    → Reserves store hs hid j (reserve store hs hid)
unfolding reserve
reserve-Reserves store hs hid j m =
    reserve_commit-Reserves store hs hid j (reserve_scan store hs hid) m
      (is_ok-reserve_scan store hs hid) (reserve_scan-Withholds store hs hid j)

pub all_available-owned :
    (store : Store) (hs : List Bytes) (owner : Bytes) (j : Bytes)
    → all_available store hs owner ≡ true
    → (contains hs j && not (owned_or_free owner (get j store))) ≡ false
all_available-owned store [] owner j a = refl
all_available-owned store (h ∷ hs) owner j a = elim (Bool-cases (h == j)) [
  | inl e ↦
      let same : h ≡ j = (bytes_eq_iff h j).0 e in
      rw (← same) (ground (arith, all_available-owned store hs owner h, bytes_eq_iff h h))
  | inr ne ↦ ground (arith, all_available-owned store hs owner j)
]

-- releaseHostnamesImpl drops the entries of this id and no other, in a store with one entry for a
-- key.
pub get-release :
    (store : Store) (hid : HostnameId) (j : Bytes)
    → IsMap store
    → get j (release store hid) ≡ reserved_entry false hid (get j store)
unfolding release
get-release store hid j m =
    rw (get-delete_all _ j store, contains-keys_where (λ h x. id_equals x hid) j store m)
      (released_value hid (get j store))
  where
    released_value :
        (hid : HostnameId) (o : Option HostnameId)
        → (if passes (λ x. id_equals x hid) o then none else o) ≡ reserved_entry false hid o
    released_value hid none = refl
    released_value hid (some x) = refl

-- CanReserveHostnames accepts exactly the requests that a reservation for that owner would
-- accept.
pub can_reserve-reserve :
    (store : Store) (hs : List Bytes) (hid : HostnameId)
    → is_ok (can_reserve store hs hid.owner) ≡ is_ok (reserve store hs hid).1
unfolding reserve
can_reserve-reserve store hs hid =
    is_ok-can_reserve store hs hid.owner
    ∙ sym (is_ok-reserve_scan store hs hid)
    ∙ commit (reserve_scan store hs hid)
  where
    commit : (r : Result (List Bytes)) → is_ok r ≡ is_ok (reserve_commit store hs hid r).1
    commit (ok w) = refl
    commit (err e) = refl
