-- ===== src/Cluster/Manager/Updates.antt =====
-- cluster/manager.go: the updates of a deployment and the deploys that they start.
use provider.Base.{
  ◌≡◌, refl, ap, ◌∙◌, inl, inr, Bool, true, false, Option, none, some, List, [], ◌∷◌, ◌++◌, arith,
  Bool-cases, if◌then◌else◌, ℕ-eq, Bytes-eq,
}
use mathlib.Core.Path.{subst}
use provider.Cluster.Manager.{
  start, is_running, teardown_request, lease_inactive, retry_fired, reclaim_fired, stop_monitor,
  shutdown, teardown_complete, start_monitor, other_failure, teardown_pending, remove_funds_monitor,
  run_result, teardown_active, start_teardown, update, arm_reclaim, deploy_pending, reclaim_result,
  attempt_reclaim, deploy_complete, reclaim_request, start_deploy, deploy_active, run,
  DeploymentState, State, Event, Effect, Next, handle, before,
}

module _ {D : Type 0} where
  -- The deployment that was last handed to the cluster.
  abbrev pub last_deploy : Option D → List (Effect D) → Option D
  last_deploy d [] = d
  last_deploy d (start_deploy d' ∷ es) = last_deploy (some d') es
  last_deploy d (_ ∷ es) = last_deploy d es

  last_deploy-append :
      (d : Option D) (xs ys : List (Effect D))
      → last_deploy d (xs ++ ys) ≡ last_deploy (last_deploy d xs) ys
  last_deploy-append d [] ys = refl
  last_deploy-append d (start_deploy d' ∷ xs) ys = last_deploy-append (some d') xs ys
  last_deploy-append d (start_teardown ∷ xs) ys = last_deploy-append d xs ys
  last_deploy-append d (remove_funds_monitor ∷ xs) ys = last_deploy-append d xs ys
  last_deploy-append d (start_monitor ∷ xs) ys = last_deploy-append d xs ys
  last_deploy-append d (stop_monitor ∷ xs) ys = last_deploy-append d xs ys
  last_deploy-append d (attempt_reclaim t ∷ xs) ys = last_deploy-append d xs ys
  last_deploy-append d (arm_reclaim t ∷ xs) ys = last_deploy-append d xs ys

  -- Where no update is queued and the lease is not closing, the cluster has the current one.
  abbrev pub IsCurrent : DeploymentState → D → Option D → Type 0
  IsCurrent deploy_active d last = last ≡ some d
  IsCurrent deploy_complete d last = last ≡ some d
  IsCurrent deploy_pending d last = Unit
  IsCurrent teardown_active d last = Unit
  IsCurrent teardown_pending d last = Unit
  IsCurrent teardown_complete d last = Unit

  handle-IsCurrent :
      (s : State D) (e : Event D) (last : Option D)
      → IsCurrent s.state s.deployment last
      → IsCurrent
          (handle s e).after.state
          (handle s e).after.deployment
          (last_deploy last (handle s e).effects)
  unfolding handle
  handle-IsCurrent s shutdown last c = c
  handle-IsCurrent s (reclaim_request deadline) last c = ground arith
  handle-IsCurrent s reclaim_fired last c = ground arith
  handle-IsCurrent s (reclaim_result done wait) last c = ground arith
  handle-IsCurrent s (update d) last c = ground arith
  handle-IsCurrent s (run_result none) last c = ground arith
  handle-IsCurrent s (run_result (some lease_inactive)) last c = ground arith
  handle-IsCurrent s (run_result (some (other_failure text))) last c = ground arith
  handle-IsCurrent s retry_fired last c = ground arith
  handle-IsCurrent s teardown_request last c = ground arith

  abbrev IsUpToDate : Option D → Next D → Type 0
  IsUpToDate last n = IsCurrent n.after.state n.after.deployment (last_deploy last n.effects)

  either-IsUpToDate :
      (last : Option D) (b : Bool) (n m : Next D)
      → IsUpToDate last n
      → IsUpToDate last m
      → IsUpToDate last (if b then n else m)
  either-IsUpToDate last true n m hn hm = hn
  either-IsUpToDate last false n m hn hm = hm

  run-IsCurrent :
      (s : State D) (es : List (Event D)) (last : Option D)
      → IsCurrent s.state s.deployment last
      → IsUpToDate last (run s es)
  unfolding run
  run-IsCurrent s [] last c = c
  run-IsCurrent s (e ∷ es) last c =
      let n = handle s e in
      let rest = run n.after es in
      let one = handle-IsCurrent s e last c in
      either-IsUpToDate last (is_running n.status) (before n.effects rest) n
        (rw (last_deploy-append last n.effects rest.effects)
          (run-IsCurrent n.after es (last_deploy last n.effects) one))
        one

  -- The events that the loop receives: those up to its end.
  abbrev pub received : State D → List (Event D) → List (Event D)
  received s [] = []
  received s (e ∷ es) =
      let n = handle s e in
      let rest = received n.after es in if is_running n.status then e ∷ rest else e ∷ []

  -- The manifest of the last update among events.
  abbrev pub latest : D → List (Event D) → D
  latest d [] = d
  latest d (update d' ∷ es) = latest d' es
  latest d (_ ∷ es) = latest d es

  handle-latest :
      (s : State D) (e : Event D) → (handle s e).after.deployment ≡ latest s.deployment (e ∷ [])
  unfolding handle
  handle-latest s shutdown = refl
  handle-latest s (reclaim_request deadline) = ground arith
  handle-latest s reclaim_fired = ground arith
  handle-latest s (reclaim_result done wait) = ground arith
  handle-latest s (update d) = ground arith
  handle-latest s (run_result none) = ground arith
  handle-latest s (run_result (some lease_inactive)) = ground arith
  handle-latest s (run_result (some (other_failure text))) = ground arith
  handle-latest s retry_fired = ground arith
  handle-latest s teardown_request = ground arith

  latest-step :
      (d : D) (e : Event D) (es : List (Event D))
      → latest (latest d (e ∷ [])) es ≡ latest d (e ∷ es)
  latest-step d shutdown es = refl
  latest-step d (reclaim_request deadline) es = refl
  latest-step d reclaim_fired es = refl
  latest-step d (reclaim_result done wait) es = refl
  latest-step d (update d') es = refl
  latest-step d (run_result r) es = refl
  latest-step d retry_fired es = refl
  latest-step d teardown_request es = refl

  run-latest_update :
      (s : State D) (es : List (Event D))
      → (run s es).after.deployment ≡ latest s.deployment (received s es)
  unfolding run
  run-latest_update s [] = refl
  run-latest_update s (e ∷ es) =
      let n = handle s e in
      let one = handle-latest s e in
      elim (Bool-cases (is_running n.status)) [
        | inl goes ↦ rw goes (
            run-latest_update n.after es
            ∙ ap (λ d. latest d (received n.after es)) one
            ∙ latest-step s.deployment e (received n.after es))
        | inr ends ↦ rw ends one
      ]

  -- After any history of a manager whose state is that of a deploy under way or complete, the
  -- last deploy that was started is of the manifest of the last update that it received, or of
  -- the first manifest where it received none.
  pub latest_deployed :
      (d : D) (es : List (Event D))
      → let n = run (start d).after es in
        IsCurrent n.after.state
          (latest d (received (start d).after es))
          (last_deploy none ((start d).effects ++ n.effects))
  unfolding start
  latest_deployed d es =
      let s = (start d).after in
      let n = run s es in
      subst (λ d'. IsCurrent n.after.state d' (last_deploy none ((start d).effects ++ n.effects)))
        (run-latest_update s es) (run-IsCurrent s es (some d) refl)
