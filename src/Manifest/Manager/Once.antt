-- ===== src/Manifest/Manager/Once.antt =====
-- Whole histories: from the start of a manager to its shutdown.
use provider.Base.{
  ℕ, ◌+◌, ◌≡◌, refl, ap, Bool, true, false, not, ◌&&◌, Option, none, some, List, [], ◌∷◌, ◌++◌,
  arith, if_intro, ℕ-eq, Bytes-eq, Each,
}
use provider.Manifest.Checks.{query_failed, Library, Failure}
use provider.Manifest.Manager.{
  ended, lease_removed, lease_won, apply_fetch_result, fetch_done, fetch_failed, deployment_updated,
  manifest_received, last_manifest, stop_timer, clear_fetched, check_and_emit, emit_received_events,
  is_empty, shutdown, maybe_schedule_stop, on_manifest, fill_all_requests, maybe_reread_data,
  maybe_fetch_data, maybe_emit_received_events, emit_latest, running, Env, State, Event, Next,
  handle, start, run,
}
use provider.Manifest.Manager.Waiting.{run-keeps, start-Inv}
use provider.Manifest.Manager.Answers.{
  waiting, shutdown-answered, answered, held, brings, handle-answered, answered-append,
}

module _ (l : Library) where
  open l use {Manifest, Groups}

  -- The events behind which the loop goes on.
  abbrev pub goes_on : Event l → Bool
  goes_on shutdown = false
  goes_on stop_timer = false
  goes_on _ = true

  Runs : Next l → Type 0
  Runs n = n.status ≡ running

  latest-Runs : (o : Option Manifest) (s : State l) → Runs (emit_latest l o s)
  unfolding emit_latest fill_all_requests Runs
  latest-Runs none s = refl
  latest-Runs (some m) s = if_intro Runs (is_empty l s.local_leases) _ _ refl refl

  emit-Runs : (s : State l) → Runs (maybe_emit_received_events l s)
  unfolding maybe_emit_received_events emit_received_events Runs
  emit-Runs s =
      if_intro Runs (not (is_empty l s.requests) && is_empty l s.pending_requests) _ _ refl
        (if_intro Runs (not s.fetched) _ _ refl (latest-Runs (last_manifest l s.manifests) s))

  fetch-Runs : (env : Env) (s : State l) → Runs (maybe_fetch_data l env s)
  unfolding maybe_fetch_data Runs
  fetch-Runs env s = ground arith

  reread-Runs : (s : State l) → Runs (maybe_reread_data l s)
  unfolding maybe_reread_data Runs
  reread-Runs s = if_intro Runs (is_empty l s.requests) _ _ refl refl

  fill-Runs : (e : Failure) (s : State l) → Runs (fill_all_requests l e s)
  unfolding fill_all_requests Runs
  fill-Runs e s = refl

  on_manifest-Runs : (env : Env) (s : State l) → Runs (on_manifest l env s)
  unfolding on_manifest Runs
  on_manifest-Runs env s =
      let n = maybe_fetch_data l env s in
      if_intro Runs n.after.runch _ _ (fetch-Runs env s)
        (reread-Runs (check_and_emit l env n.after).after)

  pub handle-Runs :
      (env : Env) (s : State l) (e : Event l)
      → goes_on e ≡ true
      → (handle l env s e).status ≡ running
  unfolding handle Runs
  handle-Runs env s shutdown h = ground arith
  handle-Runs env s stop_timer h = ground arith
  handle-Runs env s lease_won h = fetch-Runs env (maybe_schedule_stop l (clear_fetched l s))
  handle-Runs env s lease_removed h = refl
  handle-Runs env s (manifest_received r) h =
      on_manifest-Runs env (maybe_schedule_stop l (record s { requests = s.requests ++ r ∷ [] }))
  handle-Runs env s (deployment_updated version) h = refl
  handle-Runs env s (fetch_failed text) h =
      fill-Runs (query_failed text) (record s { runch = false })
  handle-Runs env s (fetch_done r) h = reread-Runs (
      maybe_schedule_stop l
        (check_and_emit l env (apply_fetch_result l r (record s { runch = false }))).after)

  -- A history that goes on, in which the context of the requests of a channel is never done.
  abbrev pub Attends : ℕ → List (Env × Event l) → Type 0
  Attends k = Each (λ step. (step.0.cancelled k ≡ false) × (goes_on step.1 ≡ true))

  abbrev pub all_brings : ℕ → List (Env × Event l) → ℕ
  all_brings k [] = 0
  all_brings k ((env, e) ∷ es) = brings l k e + all_brings k es

  shutdown-ended : (env : Env) (s : State l) → (handle l env s shutdown).status ≡ ended
  unfolding handle
  shutdown-ended env s = refl

  run-shutdown :
      (k : ℕ) (s : State l) (es : List (Env × Event l)) (last : Env)
      → Attends k es
      → answered l k (run l s (es ++ (last, shutdown) ∷ [])).effects ≡ held l k s + all_brings k es
  unfolding run Runs
  run-shutdown k s [] last h =
      rw (shutdown-ended last s) (omega (arith, shutdown-answered l k last s))
  run-shutdown k s ((env, e) ∷ es) last h =
      let n = handle l env s e in
      rw (handle-Runs env s e h.0.1) (
        omega (
          arith,
          run-shutdown k n.after es last h.1,
          handle-answered l k env s e h.0.0,
          answered-append l k n.effects (run l n.after (es ++ (last, shutdown) ∷ [])).effects,
        ))

  -- When a manifest manager that was not stopped before is shut down, each channel has had
  -- exactly as many answers as requests were received on it, if the context of none of them was
  -- done in any round before.
  pub answered_once :
      (k : ℕ) (require_host : Bool) (es : List (Env × Event l)) (last : Env)
      → Attends k es
      → answered l k (run l (start l require_host) (es ++ (last, shutdown) ∷ [])).effects
        ≡ all_brings k es
  unfolding start
  answered_once k require_host es last h =
      omega (arith, run-shutdown k (start l require_host) es last h)

  run-answered :
      (k : ℕ) (s : State l) (es : List (Env × Event l))
      → Attends k es
      → let n = run l s es in
        answered l k n.effects + held l k n.after ≡ held l k s + all_brings k es
  unfolding run Runs
  run-answered k s [] h = omega arith
  run-answered k s ((env, e) ∷ es) h =
      let n = handle l env s e in
      rw (handle-Runs env s e h.0.1) (
        omega (
          arith,
          run-answered k n.after es h.1,
          handle-answered l k env s e h.0.0,
          answered-append l k n.effects (run l n.after es).effects,
        ))

  -- After any history of a manager that was not stopped, each request on a channel has had its
  -- answer or is still to be checked, if the context of none of them was done; no accepted
  -- request is kept without its answer, and one is still to be checked only while a read of the
  -- chain is under way.
  pub run-waits :
      (k : ℕ) (require_host : Bool) (es : List (Env × Event l))
      → Attends k es
      → let n = run l (start l require_host) es in
        (answered l k n.effects + waiting l k n.after.requests ≡ all_brings k es)
        × (n.after.pending_requests ≡ [])
        × (is_empty l n.after.requests ≡ false → n.after.runch ≡ true)
  unfolding start
  run-waits k require_host es h =
      let s = start l require_host in
      let v = run-keeps l s es (start-Inv l require_host) in
      let none_pending : waiting l k (run l s es).after.pending_requests ≡ 0 =
        ap (waiting l k) v.accepted in
      (omega (arith, run-answered k s es h, none_pending), v.accepted, v.reading)
