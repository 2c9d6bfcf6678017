-- ===== src/Cluster/Manager/Invariant.antt =====
-- The states of a manager and its pending operations.
use provider.Base.{
  ◌≡◌, refl, ◌≢◌, ◌⊎◌, inl, inr, Bool, true, false, not, none, some, List, [], ◌∷◌, arith, ℕ-eq,
  Bytes-eq,
}
use provider.Cluster.Manager.{
  ended, Fits, is_running, run, Status, teardown_request, lease_inactive, retry_fired,
  reclaim_fired, shutdown, other_failure, run_result, teardown_pending, update, deploy_complete,
  reclaim_result, deploy_pending, reclaim_request, teardown_complete, teardown_active,
  deploy_active, running, panicked, enabled, start, DeploymentState, State, Event, handle,
}

-- Exactly the states with an operation under way have one, and a retry waits only in the middle
-- of a teardown.
abbrev pub busy : DeploymentState → Bool → Bool
busy deploy_active retry = true
busy deploy_pending retry = true
busy deploy_complete retry = false
busy teardown_active retry = not retry
busy teardown_pending retry = true
busy teardown_complete retry = false

abbrev pub is_teardown_active : DeploymentState → Bool
is_teardown_active teardown_active = true
is_teardown_active _ = false

abbrev pub is_teardown_complete : DeploymentState → Bool
is_teardown_complete teardown_complete = true
is_teardown_complete _ = false

pub status-cases : (status : Status) → (status ≡ running) ⊎ (is_running status ≡ false)
status-cases running = inl refl
status-cases ended = inr refl
status-cases panicked = inr refl

module _ {D : Type 0} where
  pub record Inv (s : State D) : Type 0 where
    pub operation : s.runch ≡ busy s.state s.retry_teardown
    pub retry : s.retry_teardown ≡ true → is_teardown_active s.state ≡ true
    pub unfinished : is_teardown_complete s.state ≡ false

  pub start-Inv : (d : D) → Inv (start d).after
  unfolding start
  start-Inv d = ground arith

  pub handle-Inv :
      (s : State D) (e : Event D)
      → Inv s
      → enabled s e ≡ true
      → ((handle s e).status ≢ panicked) × ((handle s e).status ≡ running → Inv (handle s e).after)
  unfolding handle enabled
  handle-Inv s shutdown v en = ground arith
  handle-Inv s (reclaim_request deadline) v en = ground arith
  handle-Inv s reclaim_fired v en = ground arith
  handle-Inv s (reclaim_result done wait) v en = ground arith
  handle-Inv s (update d) v en = ground arith
  handle-Inv s (run_result none) v en = ground arith
  handle-Inv s (run_result (some lease_inactive)) v en = ground arith
  handle-Inv s (run_result (some (other_failure text))) v en = ground arith
  handle-Inv s retry_fired v en = ground arith
  handle-Inv s teardown_request v en = ground arith

  -- From a state that keeps the manager's invariant, no history that the channels allow makes the
  -- loop panic: a result is read only while an operation runs.
  pub run-no_panic :
      (s : State D) (es : List (Event D)) → Inv s → Fits s es → (run s es).status ≢ panicked
  unfolding run
  run-no_panic s [] v f = ground arith
  run-no_panic s (e ∷ es) v f =
      let one = handle-Inv s e v f.0 in
      elim (status-cases (handle s e).status) [
        | inl goes ↦ rw goes (run-no_panic (handle s e).after es (one.1 goes) f.1)
        | inr stops ↦ rw stops one.0
      ]
