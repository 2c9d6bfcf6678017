-- ===== src/Cluster/Manager/Teardown.antt =====
-- cluster/manager.go: the teardown of a lease and its repetition.
use provider.Base.{
  ℕ, ◌+◌, ◌≡◌, refl, ◌⊎◌, inl, inr, Bool, true, false, Option, none, some, List, [], ◌∷◌, ◌++◌,
  arith, ℕ-eq, Bytes-eq,
}
use provider.Cluster.Manager.{
  Failure, Fits, running, deploy_complete, deploy_pending, deploy_active, stop_monitor,
  teardown_request, remove_funds_monitor, lease_inactive, start_teardown, reclaim_fired,
  start_monitor, update, arm_reclaim, teardown_pending, teardown_complete, shutdown, reclaim_result,
  attempt_reclaim, teardown_active, retry_fired, other_failure, ended, reclaim_request,
  start_deploy, run_result, enabled, run, DeploymentState, State, Event, Effect, handle,
  tearing_down,
}
use provider.Cluster.Manager.Invariant.{Inv}

abbrev pub count : Bool → ℕ
count true = 1
count false = 0

module _ {D : Type 0} where
  -- What a closing lease must not start: deploys, monitors and attempts to close the bid.
  abbrev pub is_revival : Effect D → Bool
  is_revival (start_deploy d) = true
  is_revival start_monitor = true
  is_revival (attempt_reclaim deadline) = true
  is_revival (arm_reclaim wait) = true
  is_revival start_teardown = false
  is_revival remove_funds_monitor = false
  is_revival stop_monitor = false

  abbrev pub revivals : List (Effect D) → ℕ
  revivals [] = 0
  revivals (e ∷ es) = count (is_revival e) + revivals es

  revivals-append : (xs ys : List (Effect D)) → revivals (xs ++ ys) ≡ revivals xs + revivals ys
  revivals-append [] ys = omega arith
  revivals-append (x ∷ xs) ys = omega (arith, revivals-append xs ys)

  handle-torn :
      (s : State D) (e : Event D)
      → tearing_down s.state ≡ true
      → (revivals (handle s e).effects ≡ 0) × (tearing_down (handle s e).after.state ≡ true)
  unfolding handle
  handle-torn s shutdown t = ground arith
  handle-torn s (reclaim_request deadline) t = ground arith
  handle-torn s reclaim_fired t = ground arith
  handle-torn s (reclaim_result done wait) t = ground arith
  handle-torn s (update d) t = ground arith
  handle-torn s (run_result none) t = ground arith
  handle-torn s (run_result (some lease_inactive)) t = ground arith
  handle-torn s (run_result (some (other_failure text))) t = ground arith
  handle-torn s retry_fired t = ground arith
  handle-torn s teardown_request t = ground arith

  -- Once a teardown is pending or under way, no sequence of events deploys the lease again or
  -- starts a monitor or a reclamation close, and the state stays a teardown state.
  pub torn-final :
      (s : State D) (es : List (Event D))
      → tearing_down s.state ≡ true
      → (revivals (run s es).effects ≡ 0) × (tearing_down (run s es).after.state ≡ true)
  unfolding run
  torn-final s [] t = ground arith
  torn-final s (e ∷ es) t =
      let one = handle-torn s e t in
      let rest = torn-final (handle s e).after es one.1 in
      ground (
        arith,
        one.0,
        rest.0,
        revivals-append (handle s e).effects (run (handle s e).after es).effects,
      )

  -- The loop ends on a shutdown, or because a teardown succeeded.
  pub handle-ended :
      (s : State D) (e : Event D)
      → Inv s
      → enabled s e ≡ true
      → (handle s e).status ≡ ended
      → (e ≡ shutdown)
        ⊎ ((e ≡ run_result none)
            × (s.state ≡ teardown_active)
            × ((handle s e).after.state ≡ teardown_complete))
  unfolding handle enabled
  handle-ended s shutdown v en h = inl refl
  handle-ended s (reclaim_request deadline) v en h = absurd (ground arith)
  handle-ended s reclaim_fired v en h = absurd (ground arith)
  handle-ended s (reclaim_result done wait) v en h = absurd (ground arith)
  handle-ended s (update d) v en h = absurd (ground arith)
  handle-ended s (run_result none) v en h = inr (ground arith)
  handle-ended s (run_result (some lease_inactive)) v en h = absurd (ground arith)
  handle-ended s (run_result (some (other_failure text))) v en h = absurd (ground arith)
  handle-ended s retry_fired v en h = absurd (ground arith)
  handle-ended s teardown_request v en h = absurd (ground arith)

  -- A teardown under way whose attempts fail with these errors, and that then succeeds. An
  -- inactive lease is torn down again at once, and the other errors are waited for.
  abbrev pub attempts : List Failure → List (Event D)
  attempts [] = run_result none ∷ []
  attempts (lease_inactive ∷ fs) = run_result (some lease_inactive) ∷ attempts fs
  attempts (other_failure text ∷ fs) =
      run_result (some (other_failure text)) ∷ retry_fired ∷ attempts fs

  -- What the closing lease still waits for, before those attempts; `pending` is the result of the
  -- operation that a pending teardown waits for.
  abbrev pub remaining : DeploymentState → Bool → Option Failure → List Failure → List (Event D)
  remaining teardown_pending retry pending fs = run_result pending ∷ attempts fs
  remaining teardown_active true pending fs = retry_fired ∷ attempts fs
  remaining state retry pending fs = attempts fs

  -- The events can be received, and with them the teardown ends.
  Completes : State D → List (Event D) → Type 0
  Completes s es =
      Fits s es × ((run s es).status ≡ ended) × ((run s es).after.state ≡ teardown_complete)

  -- A step behind which the loop goes on.
  and_then-Completes :
      (s : State D) (e : Event D) (es : List (Event D))
      → enabled s e ≡ true
      → (handle s e).status ≡ running
      → Completes (handle s e).after es
      → Completes s (e ∷ es)
  unfolding Completes run
  and_then-Completes s e es en goes c = rw goes ((en, c.0), c.1, c.2)

  Tearing : State D → Type 0
  Tearing s = (s.state ≡ teardown_active) × (s.retry_teardown ≡ false) × (s.runch ≡ true)

  attempts-Completes : (fs : List Failure) (s : State D) → Tearing s → Completes s (attempts fs)
  unfolding Completes run handle enabled Tearing
  attempts-Completes [] s t = ground arith
  attempts-Completes (lease_inactive ∷ fs) s t =
      and_then-Completes s (run_result (some lease_inactive)) (attempts fs) t.2 refl (
        attempts-Completes fs (handle s (run_result (some lease_inactive))).after (refl, t.1, refl))
  attempts-Completes (other_failure text ∷ fs) s t =
      let failed = handle s (run_result (some (other_failure text))) in
      let again = handle failed.after retry_fired in
      and_then-Completes s (run_result (some (other_failure text))) (retry_fired ∷ attempts fs) t.2
        (ground arith)
        (and_then-Completes failed.after retry_fired (attempts fs) (ground arith) refl
          (attempts-Completes fs again.after (ground arith)))

  pending-Completes :
      (r : Option Failure) (fs : List Failure) (s : State D)
      → s.state ≡ teardown_pending
      → s.retry_teardown ≡ false
      → s.runch ≡ true
      → Completes s (run_result r ∷ attempts fs)
  unfolding handle enabled Tearing
  pending-Completes none fs s a q h =
      and_then-Completes s (run_result none) (attempts fs) h (ground arith)
        (attempts-Completes fs (handle s (run_result none)).after (ground arith))
  pending-Completes (some lease_inactive) fs s a q h =
      and_then-Completes s (run_result (some lease_inactive)) (attempts fs) h (ground arith)
        (attempts-Completes fs (handle s (run_result (some lease_inactive))).after (ground arith))
  pending-Completes (some (other_failure text)) fs s a q h =
      let r = run_result (some (other_failure text)) in
      and_then-Completes s r (attempts fs) h (ground arith)
        (attempts-Completes fs (handle s r).after (ground arith))

  retry-Completes :
      (fs : List Failure) (s : State D)
      → s.retry_teardown ≡ true
      → Completes s (retry_fired ∷ attempts fs)
  unfolding handle enabled Tearing
  retry-Completes fs s q =
      and_then-Completes s retry_fired (attempts fs) q refl
        (attempts-Completes fs (handle s retry_fired).after (refl, refl, refl))

  -- A closing lease in a state that keeps the manager's invariant reaches the end of its teardown
  -- when each operation returns: whatever the operation returns that a pending teardown waits
  -- for, and however many attempts fail and with what error, until one succeeds. Each of these
  -- results and retries can be received.
  pub teardown_completes :
      (s : State D) (pending : Option Failure) (fs : List Failure)
      → Inv s
      → tearing_down s.state ≡ true
      → let es = remaining s.state s.retry_teardown pending fs in
        Fits s es × ((run s es).status ≡ ended) × ((run s es).after.state ≡ teardown_complete)
  unfolding Completes Tearing
  teardown_completes s pending fs v t = completes s.state s.retry_teardown refl refl
    where
      completes :
          (state : DeploymentState) (retry : Bool)
          → s.state ≡ state
          → s.retry_teardown ≡ retry
          → Completes s (remaining state retry pending fs)
      completes teardown_active false a r =
          attempts-Completes fs s (a, r, ground (arith, v.operation))
      completes teardown_active true a r = retry-Completes fs s r
      completes teardown_pending true a r = absurd (ground (arith, v.retry))
      completes teardown_pending false a r =
          pending-Completes pending fs s a r (ground (arith, v.operation))
      completes teardown_complete retry a r = absurd (ground (arith, v.unfinished))
      completes deploy_active retry a r = absurd (ground arith)
      completes deploy_pending retry a r = absurd (ground arith)
      completes deploy_complete retry a r = absurd (ground arith)
