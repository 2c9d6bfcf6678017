-- ===== src/Hostname.antt =====
-- cluster/hostname.go: the store of host names in use and the service around it.
-- The `Impl` functions send one value on a channel; here they return it, with the new store.
pub mod Entries
pub mod Preparation
pub mod Keys
pub mod Transfer
pub mod Service
use provider.Base.{
  ℕ, ◌≡◌, ◌↔◌, Bool, true, not, ◌&&◌, none, some, List, [], ◌∷◌, arith, if◌then◌else◌, ◌==◌, ℕ-eq,
  Bytes, bytes_eq_iff, Bytes-eq, select, contains,
}
use provider.Base.Map.{Map, get, delete_all, put_all, keys_where}

-- Identifies the target of a reservation.
pub record HostnameId : Type 0 where
  pub owner : Bytes
  pub dseq : ℕ
  pub gseq : ℕ

-- `hostnameID.Equals`
pub id_equals : HostnameId → HostnameId → Bool
id_equals a b = a.gseq == b.gseq && a.dseq == b.dseq && a.owner == b.owner

pub id_equals_iff : (a b : HostnameId) → (id_equals a b ≡ true) ↔ (a ≡ b)
unfolding id_equals
id_equals_iff a b = ground (arith, bytes_eq_iff a.owner b.owner)

abbrev pub Store : Type 0
Store = Map Bytes HostnameId

pub data Error : Type 0 where
  host_in_use host_blocked domain_blocked : Bytes → Error
  invalid_owner not_running cancelled : Error

pub data Result {ℓ} (A : Type ℓ) : Type ℓ where
  ok : A → Result A
  err : Error → Result A

-- The first loop of `prepareHostnamesImpl`: the host names to change.
prepare_scan : Store → List Bytes → HostnameId → Result (List Bytes)
prepare_scan store [] hid = ok []
prepare_scan store (h ∷ hs) hid =
    let rest = prepare_scan store hs hid in
    elim (get h store) [
      | none ↦ rest
      | some existing ↦
          if existing.owner == hid.owner
          then (elim rest [ ok to_change ↦ ok (h ∷ to_change) | err e ↦ err e ])
          else err (host_in_use h)
    ]

-- The rest of `prepareHostnamesImpl`: swap over each host name.
prepare_commit : Store → HostnameId → Result (List Bytes) → Store × Result (Unit {0})
prepare_commit store hid (ok to_change) = (put_all to_change hid store, ok tt)
prepare_commit store hid (err e) = (store, err e)

pub prepare : Store → List Bytes → HostnameId → Store × Result (Unit {0})
unfolding prepare_scan prepare_commit
prepare store hs hid = prepare_commit store hid (prepare_scan store hs hid)

-- The first loop of `reserveHostnamesImpl`: the host names withheld. A name is in the map
-- `withheldHostnamesMap` just when it is in this list.
reserve_scan : Store → List Bytes → HostnameId → Result (List Bytes)
reserve_scan store [] hid = ok []
reserve_scan store (h ∷ hs) hid =
    let rest = reserve_scan store hs hid in
    elim (get h store) [
      | none ↦ rest
      | some existing ↦
          if existing.owner == hid.owner
          then if id_equals existing hid
            then rest
            else (elim rest [ ok withheld ↦ ok (h ∷ withheld) | err e ↦ err e ])
          else err (host_in_use h)
    ]

-- The second loop: the host names this id used and does not request any more.
abandoned : Store → List Bytes → HostnameId → List Bytes
abandoned store hs hid =
    keys_where (λ h existing. not (contains hs h) && id_equals existing hid) store

-- The rest of `reserveHostnamesImpl`: mark the names that are not withheld as in use, and remove
-- the ones that are no longer in use.
reserve_commit : Store → List Bytes → HostnameId → Result (List Bytes) → Store × Result (List Bytes)
unfolding abandoned
reserve_commit store hs hid (ok withheld) = (
  delete_all (abandoned store hs hid)
      (put_all (select (λ h. not (contains withheld h)) hs) hid store),
  ok withheld,
)
reserve_commit store hs hid (err e) = (store, err e)

pub reserve : Store → List Bytes → HostnameId → Store × Result (List Bytes)
unfolding reserve_scan reserve_commit
reserve store hs hid = reserve_commit store hs hid (reserve_scan store hs hid)

pub can_reserve : Store → List Bytes → Bytes → Result (Unit {0})
can_reserve store [] owner = ok tt
can_reserve store (h ∷ hs) owner =
    let rest = can_reserve store hs owner in
    elim (get h store) [
      | none ↦ rest
      | some existing ↦ if existing.owner == owner then rest else err (host_in_use h)
    ]

pub release : Store → HostnameId → Store
release store hid = delete_all (keys_where (λ h existing. id_equals existing hid) store) store
