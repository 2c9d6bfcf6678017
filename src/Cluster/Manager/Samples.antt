-- ===== src/Cluster/Manager/Samples.antt =====
-- A manager that is updated, fails to tear down once, and ends; deployments are numbers here.
use provider.Base.{
  ℕ, ◌≡◌, refl, ◌≢◌, true, false, none, some, List, [], ◌∷◌, ◌++◌, arith, ℕ-eq, Bytes-eq, codes,
}
use provider.Base.Int.{pos}
use provider.Ids.{LeaseId}
use provider.Cluster.Manager.{
  start_teardown, remove_funds_monitor, stop_monitor, retry_fired, start_monitor, Fits,
  other_failure, teardown_complete, tearing_down, start_deploy, enabled, teardown_request,
  run_result, ended, reclaim_fired, panicked, handle, update, teardown_pending, run, start, Event,
  State, Failure, lease_inactive,
}
use provider.Cluster.Manager.Invariant.{start-Inv, run-no_panic, Inv}
use provider.Cluster.Manager.Teardown.{teardown_completes, torn-final, remaining, revivals}
use provider.Cluster.Manager.Updates.{latest_deployed, last_deploy, IsCurrent, latest, received}

abbrev history : List (Event ℕ)
history =
    update 2
    ∷ update 3
    ∷ run_result none
    ∷ run_result none
    ∷ teardown_request
    ∷ update 4
    ∷ run_result (some (other_failure (codes "timeout")))
    ∷ retry_fired
    ∷ run_result none
    ∷ []

history-Fits : Fits (start 1).after history
unfolding start handle enabled
history-Fits = (refl, (refl, (refl, (refl, (refl, (refl, (refl, (refl, (refl, tt)))))))))

history_effects :
    (run (start 1).after history).effects
    ≡ start_deploy 3
      ∷ start_monitor
      ∷ stop_monitor
      ∷ stop_monitor
      ∷ remove_funds_monitor
      ∷ start_teardown
      ∷ stop_monitor
      ∷ remove_funds_monitor
      ∷ start_teardown
      ∷ []
unfolding run start handle
history_effects = refl

run-no_panic_example : (run (start 1).after history).status ≢ panicked
run-no_panic_example = run-no_panic (start 1).after history (start-Inv 1) history-Fits

abbrev updated : List (Event ℕ)
updated = update 2 ∷ run_result none ∷ []

latest_deployed_example :
    let n = run {D = ℕ} (start {D = ℕ} 1).after updated in
    IsCurrent n.after.state
      (latest 1 (received (start {D = ℕ} 1).after updated))
      (last_deploy none ((start {D = ℕ} 1).effects ++ n.effects))
latest_deployed_example = latest_deployed 1 updated

-- A closing lease with a deploy under way.
abbrev closing : State ℕ
closing = record {
  state = teardown_pending;
  deployment = 3;
  has_monitor = false;
  messages = [];
  runch = true;
  retry_teardown = false;
  teardown_err = none;
  reclaim_timer = true;
  reclaim_deadline = pos 40;
  reclaiming = false;
}

closing-Inv : Inv closing
closing-Inv = ground arith

torn-final_example :
    (revivals (run closing (reclaim_fired ∷ update 9 ∷ run_result none ∷ [])).effects ≡ 0)
    × (tearing_down (run closing (reclaim_fired ∷ update 9 ∷ run_result none ∷ [])).after.state
        ≡ true)
torn-final_example = torn-final closing (reclaim_fired ∷ update 9 ∷ run_result none ∷ []) refl

abbrev timed_out : Failure
timed_out = other_failure (codes "timeout")

abbrev failures : List Failure
failures = timed_out ∷ lease_inactive ∷ []

teardown_completes_example :
    let es = remaining closing.state closing.retry_teardown (some timed_out) failures in
    Fits closing es
    × ((run closing es).status ≡ ended)
    × ((run closing es).after.state ≡ teardown_complete)
teardown_completes_example = teardown_completes closing (some timed_out) failures closing-Inv refl

abbrev lid : LeaseId
lid = record { owner = codes "tenant"; dseq = 5; gseq = 1; oseq = 1; provider = codes "me" }
