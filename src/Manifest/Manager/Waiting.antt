-- ===== src/Manifest/Manager/Waiting.antt =====
-- manifest/manager.go: the requests and the timer that wait between two rounds.
use provider.Base.{
  ◌≡◌, refl, ◌∙◌, ◌⊎◌, inl, inr, Bool, true, false, not, ◌||◌, Option, none, some, List, [], ◌∷◌,
  ◌++◌, arith, if_intro, if_split, ℕ-eq, Bytes-eq,
}
use provider.Manifest.Checks.{query_failed, not_running, Failure, Library}
use provider.Manifest.Manager.{
  is_running, run, clear_fetched, lease_removed, lease_won, stop_timer, shutdown, fetch_done,
  fetch_failed, deployment_updated, manifest_received, Event, FetchResult, handle, on_manifest,
  apply_fetch_result, maybe_schedule_stop, maybe_fetch_data, maybe_reread_data, start,
  sort_requests, fill_all_requests, is_empty, check_and_emit, maybe_emit_received_events,
  emit_received_events, emit_latest, validate_requests, first_value, last_manifest, Env, State,
  Next, Request,
}

module _ (l : Library) where
  open l use {Manifest, Groups}

  last_manifest-append :
      (ms : List Manifest) (m : Manifest) → last_manifest l (ms ++ m ∷ []) ≡ some m
  unfolding last_manifest
  last_manifest-append [] m = refl
  last_manifest-append (x ∷ ms) m = rw (last_manifest-append ms m) refl

  -- The accepted requests have a manifest to publish.
  Ready : State l → Type 0
  Ready s =
      (s.pending_requests ≡ [])
      ⊎ ((s.fetched ≡ true) × ((m : Manifest) × (last_manifest l s.manifests ≡ some m)))

  -- No accepted request is left, and neither the read nor the timer changes.
  Settled : State l → Next l → Type 0
  Settled s n =
      (n.after.pending_requests ≡ [])
      × (n.after.runch ≡ s.runch)
      × (n.after.stoptimer ≡ s.stoptimer)

  waits_none : (s : State l) → s.pending_requests ≡ [] → Ready s
  unfolding Ready
  waits_none s h = inl h

  accepted-Ready :
      (s : State l) (accepted reread : List (Request l))
      → s.fetched ≡ true
      → s.pending_requests ≡ []
      → Ready (record s {
        requests = reread;
        pending_requests = s.pending_requests ++ accepted;
        manifests = s.manifests ++ first_value l accepted;
      })
  unfolding Ready first_value
  accepted-Ready s [] reread f h = rw h (inl refl)
  accepted-Ready s (r ∷ rs) reread f h =
      inr (f, (r.value, last_manifest-append s.manifests r.value))

  Checked : State l → Next l → Type 0
  Checked s n = Ready n.after × (n.after.runch ≡ s.runch) × (n.after.stoptimer ≡ s.stoptimer)

  validate_requests-Ready :
      (env : Env) (s : State l) → s.pending_requests ≡ [] → Checked s (validate_requests l env s)
  unfolding validate_requests Checked
  validate_requests-Ready env s h =
      let sorted = sort_requests l env s s.requests in
      if_split (Checked s) (not s.fetched || is_empty l s.requests) _ _
        (λ p. (waits_none s h, refl, refl))
        (λ p. (accepted-Ready s sorted.accepted sorted.reread (ground arith) h, refl, refl))

  emit_latest-Settled :
      (s : State l) (o : Option Manifest)
      → (s.pending_requests ≡ []) ⊎ ((m : Manifest) × (o ≡ some m))
      → Settled s (emit_latest l o s)
  unfolding emit_latest Settled fill_all_requests
  emit_latest-Settled s none h = ground arith
  emit_latest-Settled s (some m) h =
      if_intro (Settled s) (is_empty l s.local_leases) _ _ (refl, refl, refl) (refl, refl, refl)

  emit_received_events-Settled : (s : State l) → Ready s → Settled s (emit_received_events l s)
  unfolding emit_received_events Ready Settled
  emit_received_events-Settled s h =
      if_split (Settled s) (not s.fetched) _ _ (λ p. ground arith)
        (λ p. emit_latest-Settled s (last_manifest l s.manifests) (ground arith))

  maybe_emit-Settled : (s : State l) → Ready s → Settled s (maybe_emit_received_events l s)
  unfolding maybe_emit_received_events Settled
  maybe_emit-Settled s h = ground (arith, emit_received_events-Settled s h)

  check_and_emit-Settled :
      (env : Env) (s : State l) → s.pending_requests ≡ [] → Settled s (check_and_emit l env s)
  unfolding check_and_emit Settled Checked
  check_and_emit-Settled env s h =
      let v = validate_requests-Ready env s h in
      let e = maybe_emit-Settled (validate_requests l env s).after v.0 in
      (e.0, e.1 ∙ v.1, e.2 ∙ v.2)

  pub record Inv (s : State l) : Type 0 where
    pub accepted : s.pending_requests ≡ []
    pub reading : is_empty l s.requests ≡ false → s.runch ≡ true
    pub no_timer : s.stoptimer ≡ false

  pub start-Inv : (require_host : Bool) → Inv (start l require_host)
  unfolding start
  start-Inv require_host = ground arith

  Holds : Next l → Type 0
  Holds n = Inv n.after

  maybe_reread_data-Inv :
      (s : State l) → s.pending_requests ≡ [] → s.stoptimer ≡ false → Holds (maybe_reread_data l s)
  unfolding maybe_reread_data Holds
  maybe_reread_data-Inv s h t = ground arith

  maybe_fetch_data-Inv : (env : Env) (s : State l) → Inv s → Holds (maybe_fetch_data l env s)
  unfolding maybe_fetch_data Holds
  maybe_fetch_data-Inv env s v = ground arith

  maybe_schedule_stop-timer :
      (s : State l) → s.stoptimer ≡ false → (maybe_schedule_stop l s).stoptimer ≡ false
  unfolding maybe_schedule_stop
  maybe_schedule_stop-timer s t = ground arith

  maybe_schedule_stop-same :
      (s : State l)
      → ((maybe_schedule_stop l s).requests ≡ s.requests)
        × ((maybe_schedule_stop l s).pending_requests ≡ s.pending_requests)
        × ((maybe_schedule_stop l s).runch ≡ s.runch)
  unfolding maybe_schedule_stop
  maybe_schedule_stop-same s = ground arith

  apply_fetch_result-same :
      (r : FetchResult l) (s : State l)
      → ((apply_fetch_result l r s).requests ≡ s.requests)
        × ((apply_fetch_result l r s).pending_requests ≡ s.pending_requests)
        × ((apply_fetch_result l r s).stoptimer ≡ s.stoptimer)
  unfolding apply_fetch_result
  apply_fetch_result-same r s = ground arith

  maybe_fetch_data-same :
      (env : Env) (s : State l)
      → ((maybe_fetch_data l env s).after.pending_requests ≡ s.pending_requests)
        × ((maybe_fetch_data l env s).after.stoptimer ≡ s.stoptimer)
  unfolding maybe_fetch_data
  maybe_fetch_data-same env s = ground arith

  -- A request joins the list: a read runs or starts, or the request is checked at once.
  on_manifest-Inv :
      (env : Env) (s : State l)
      → s.pending_requests ≡ []
      → s.stoptimer ≡ false
      → Holds (on_manifest l env s)
  unfolding on_manifest Holds Settled
  on_manifest-Inv env s h t =
      let n = maybe_fetch_data l env s in
      let same = maybe_fetch_data-same env s in
      let checked = check_and_emit-Settled env n.after (same.0 ∙ h) in
      if_split Holds n.after.runch _ _
        (λ p. record { accepted = same.0 ∙ h; reading = (λ q. p); no_timer = same.1 ∙ t })
        (λ p.
          maybe_reread_data-Inv (check_and_emit l env n.after).after checked.0
            (checked.2 ∙ same.1 ∙ t))

  timed-Inv : (s : State l) → Inv s → Inv (maybe_schedule_stop l s)
  timed-Inv s v =
      let same = maybe_schedule_stop-same s in
      record {
        accepted = same.1 ∙ v.accepted;
        reading = rw (same.0, same.2) v.reading;
        no_timer = maybe_schedule_stop-timer s v.no_timer;
      }

  cleared-Inv : (s : State l) → Inv s → Inv (clear_fetched l s)
  cleared-Inv s v = record { accepted = v.accepted; reading = v.reading; no_timer = v.no_timer }

  fill_all_requests-Inv :
      (e : Failure) (s : State l) → s.stoptimer ≡ false → Holds (fill_all_requests l e s)
  unfolding fill_all_requests Holds
  fill_all_requests-Inv e s t = ground arith

  fetch_done-Inv :
      (env : Env) (r : FetchResult l) (s : State l) → Inv s → Holds (handle l env s (fetch_done r))
  unfolding handle Holds Settled
  fetch_done-Inv env r s v =
      let read = apply_fetch_result l r (record s { runch = false }) in
      let same = apply_fetch_result-same r (record s { runch = false }) in
      let checked = check_and_emit-Settled env read (same.1 ∙ v.accepted) in
      let s' = (check_and_emit l env read).after in
      maybe_reread_data-Inv (maybe_schedule_stop l s') ((maybe_schedule_stop-same s').1 ∙ checked.0)
        (maybe_schedule_stop-timer s' (checked.2 ∙ same.2 ∙ v.no_timer))

  pub handle-Inv : (env : Env) (s : State l) (e : Event l) → Inv s → Inv (handle l env s e).after
  unfolding handle Holds
  handle-Inv env s shutdown v = fill_all_requests-Inv not_running s v.no_timer
  handle-Inv env s stop_timer v = fill_all_requests-Inv not_running s v.no_timer
  handle-Inv env s lease_won v =
      maybe_fetch_data-Inv env (maybe_schedule_stop l (clear_fetched l s))
        (timed-Inv (clear_fetched l s) (cleared-Inv s v))
  handle-Inv env s lease_removed v = timed-Inv (clear_fetched l s) (cleared-Inv s v)
  handle-Inv env s (manifest_received r) v =
      let grown = record s { requests = s.requests ++ r ∷ [] } in
      on_manifest-Inv env (maybe_schedule_stop l grown)
        ((maybe_schedule_stop-same grown).1 ∙ v.accepted)
        (maybe_schedule_stop-timer grown v.no_timer)
  handle-Inv env s (deployment_updated version) v = cleared-Inv s v
  handle-Inv env s (fetch_failed text) v =
      fill_all_requests-Inv (query_failed text) (record s { runch = false }) v.no_timer
  handle-Inv env s (fetch_done r) v = fetch_done-Inv env r s v

  pub run-keeps : (s : State l) (es : List (Env × Event l)) → Inv s → Inv (run l s es).after
  unfolding run
  run-keeps s [] v = v
  run-keeps s ((env, e) ∷ es) v =
      if_split (λ (n : Next l). Inv n.after) (is_running l (handle l env s e).status) _ _
        (λ p. run-keeps (handle l env s e).after es (handle-Inv env s e v))
        (λ p. handle-Inv env s e v)

  -- After any history of a manager the stop timer does not run.
  pub run-no_timer :
      (require_host : Bool) (es : List (Env × Event l))
      → (run l (start l require_host) es).after.stoptimer ≡ false
  run-no_timer require_host es =
      (run-keeps (start l require_host) es (start-Inv require_host)).no_timer
