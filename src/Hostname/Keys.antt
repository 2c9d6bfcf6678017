-- ===== src/Hostname/Keys.antt =====
-- cluster/hostname.go: the keys of the store under its operations.
use provider.Base.{List, ℕ-eq, Bytes, Bytes-eq}
use provider.Base.Map.{IsMap, IsMap-put_all, IsMap-delete_all}
use provider.Hostname.{
  abandoned, prepare_scan, prepare_commit, reserve_scan, reserve_commit, HostnameId, Store, Result,
  ok, err, prepare, reserve, release,
}

commit-IsMap :
    (store : Store) (hs : List Bytes) (hid : HostnameId) (r : Result (List Bytes))
    → IsMap store
    → IsMap (reserve_commit store hs hid r).0
unfolding reserve_commit
commit-IsMap store hs hid (ok w) m =
    IsMap-delete_all (abandoned store hs hid) _ (IsMap-put_all _ hid store m)
commit-IsMap store hs hid (err e) m = m

pub reserve-IsMap :
    (store : Store) (hs : List Bytes) (hid : HostnameId)
    → IsMap store
    → IsMap (reserve store hs hid).0
unfolding reserve
reserve-IsMap store hs hid m = commit-IsMap store hs hid (reserve_scan store hs hid) m

swap-IsMap :
    (store : Store) (hid : HostnameId) (r : Result (List Bytes))
    → IsMap store
    → IsMap (prepare_commit store hid r).0
unfolding prepare_commit
swap-IsMap store hid (ok hs) m = IsMap-put_all hs hid store m
swap-IsMap store hid (err e) m = m

pub prepare-IsMap :
    (store : Store) (hs : List Bytes) (hid : HostnameId)
    → IsMap store
    → IsMap (prepare store hs hid).0
unfolding prepare
prepare-IsMap store hs hid m = swap-IsMap store hid (prepare_scan store hs hid) m

pub release-IsMap : (store : Store) (hid : HostnameId) → IsMap store → IsMap (release store hid)
unfolding release
release-IsMap store hid m = IsMap-delete_all _ store m
