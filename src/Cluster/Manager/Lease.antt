-- ===== src/Cluster/Manager/Lease.antt =====
-- cluster/manager.go: the lease check before a deploy, the close of a reclaimed lease and the
-- outcome of a teardown. Answers of the chain and of the cluster are arguments.
use provider.Base.{
  ℕ, ◌-◌, ◌*◌, ◌<◌, ◌≡◌, refl, ◌↔◌, ◌⊎◌, inl, inr, Bool, true, false, not, ◌&&◌, Option, none, some,
  List, [], ◌∷◌, arith, leb, if◌then◌else◌, Bool-cases, ◌==◌, ℕ-eq, Bytes, Bytes-eq, codes, Each,
}
use provider.Base.Int.{
  ℤ, pos, ltb_ℤ, sub_int64, scale_int64, sub_int64_le, sub_int64_gt, scale_int64_pos,
}
use provider.Ids.{LeaseId, LeaseId-eq, lease_eq_iff}
use provider.Cluster.Manager.{Failure, lease_inactive, other_failure}

-- `mv1.Lease_State`
pub data LeaseState : Type 0 where
  lease_active lease_reclaiming lease_closed lease_insufficient_funds lease_invalid : LeaseState

pub record LeaseInfo : Type 0 where
  pub id : LeaseId
  pub state : LeaseState
  pub reclamation : Option ℤ

-- What the retried query returns in the end.
pub data Query : Type 0 where
  query_failed : Bytes → Query
  query_found : LeaseInfo → Query

-- The error of a check, and the deadline that it hands to `reclaim`.
pub record Check : Type 0 where
  pub error : Option Failure
  pub rearmed : Option ℤ

abbrev pub check : Option Failure → Option ℤ → Check
check error rearmed = record { error = error; rearmed = rearmed }

check_state : LeaseState → Option ℤ → Check
check_state lease_active reclamation = check none none
check_state lease_reclaiming reclamation = check none reclamation
check_state lease_closed reclamation = check (some lease_inactive) none
check_state lease_insufficient_funds reclamation = check (some lease_inactive) none
check_state lease_invalid reclamation =
    check (some (other_failure (codes "unexpected lease state"))) none

-- `checkLeaseActive`
pub check_lease_active : LeaseId → Query → Check
unfolding check_state
check_lease_active lid (query_failed text) = check (some (other_failure text)) none
check_lease_active lid (query_found info) =
    if not (info.id == lid)
    then check (some (other_failure (codes "lease query returned a different ID"))) none
    else check_state info.state info.reclamation

-- `SyncInfo`: an error, or whether the node is catching up and its latest block time.
pub data Sync : Type 0 where
  sync_failed : Sync
  sync_info : Bool → ℤ → Sync

-- The result of `attemptReclaimClose`, and whether it broadcast the close.
pub record Attempt : Type 0 where
  pub broadcast : Bool
  pub done : Bool
  pub wait : ℤ

abbrev pub wait_for : ℤ → Attempt
wait_for wait = record { broadcast = false; done = false; wait = wait }

-- A second, in nanoseconds.
abbrev pub second : ℕ
second = 1_000_000_000

-- `attemptReclaimClose`, where `accepted` says that the broadcast succeeds.
pub attempt_reclaim_close : ℤ → ℤ → Sync → Bool → Attempt
attempt_reclaim_close interval deadline sync_failed accepted = wait_for interval
attempt_reclaim_close interval deadline (sync_info catching_up block_time) accepted =
    if catching_up
    then wait_for interval
    else let remaining = sub_int64 deadline block_time in
      if ltb_ℤ (pos 0) remaining
      then wait_for (scale_int64 second remaining)
      else if accepted
      then record { broadcast = true; done = true; wait = pos 0 }
      else record { broadcast = true; done = false; wait = interval }

-- `doTeardown`: the first error of the three cleanups, in the order in which they finish.
pub first_error : List (Option Failure) → Option Failure
first_error [] = none
first_error (none ∷ rs) = first_error rs
first_error (some e ∷ rs) = some e

-- For times below 9e9 seconds, the close is broadcast exactly when the node is synced and its
-- block time has reached the deadline; it is done exactly when the broadcast is accepted, and
-- before the deadline the wait is the gap in block time.
pub attempt_reclaim_close_lem :
    (interval : ℤ) (deadline time : ℕ) (catching_up accepted : Bool)
    → deadline < 9_000_000_000
    → time < 9_000_000_000
    → let a =
        attempt_reclaim_close interval (pos deadline) (sync_info catching_up (pos time)) accepted in
      (a.broadcast ≡ (not catching_up && leb deadline time))
      × (a.done ≡ (a.broadcast && accepted))
      × (catching_up ≡ false → time < deadline → a.wait ≡ pos ((deadline - time) * second))
unfolding attempt_reclaim_close
attempt_reclaim_close_lem interval deadline time catching_up accepted hd ht =
    elim (Bool-cases (leb deadline time)) [
      | inl due ↦
          let r = (sub_int64_le deadline time (ground arith) (omega arith)).0 in ground (arith, r)
      | inr early ↦
          let r = sub_int64_gt deadline time (ground arith) (omega arith) in
          let w = scale_int64_pos second (deadline - time) (omega arith) in ground (arith, r, w)
    ]

-- A deploy goes on only for this lease, and only while it is active or reclaiming.
pub check_lease_active_lem :
    (lid : LeaseId) (info : LeaseInfo)
    → ((check_lease_active lid (query_found info)).error ≡ none)
      ↔ ((info.id ≡ lid) × ((info.state ≡ lease_active) ⊎ (info.state ≡ lease_reclaiming)))
unfolding check_lease_active
check_lease_active_lem lid info = ground (arith, lease_eq_iff info.id lid)

-- A teardown succeeds exactly when each cleanup does.
pub first_error-none :
    (rs : List (Option Failure)) → (first_error rs ≡ none) ↔ Each (λ r. r ≡ none) rs
unfolding first_error
first_error-none [] = ((λ _. tt), (λ _. refl))
first_error-none (none ∷ rs) = ground (arith, first_error-none rs)
first_error-none (some e ∷ rs) = ground arith
