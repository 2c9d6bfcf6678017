-- ===== src/Manifest/Manager/Versions.antt =====
-- manifest/manager.go: the expected version and the versions of the manifests that join the list.
use provider.Base.{
  ◌≡◌, refl, ap, ◌∙◌, ◌⊎◌, inl, inr, false, not, ◌&&◌, ◌||◌, Option, none, some, List, [], ◌∷◌,
  ◌++◌, arith, ltb, if◌then◌else◌, Bool-cases, if_intro, ◌==◌, ==_iff, ℕ-eq, Bytes, Bytes-eq,
  append_nil, Each,
}
use provider.Manifest.Checks.{Library, Failure}
use provider.Manifest.Manager.{
  lease_removed, lease_won, stop_timer, shutdown, fetch_failed, deployment_updated,
  manifest_received, clear_fetched, fetch_done, on_manifest, apply_fetch_result, last_manifest,
  emit_received_events, fill_all_requests, is_empty, Sorted, check_and_emit, maybe_schedule_stop,
  maybe_reread_data, maybe_fetch_data, maybe_emit_received_events, emit_latest, validate_requests,
  first_value, sort_requests, sort_one, validate_request, checks_of_manifest, checks_of_limits,
  checks_of_hash, Env, State, Event, Next, Request, FetchResult, Version, handle,
}

module _ (l : Library) where
  open l use {Manifest, Groups}

  hash-version :
      (env : Env) (s : State l) (r : Request l) (o : Option Bytes)
      → checks_of_hash l env s r o ≡ none
      → o ≡ some s.expected.hash
  unfolding checks_of_hash
  hash-version env s r none h = ground arith
  hash-version env s r (some v) h = elim (Bool-cases (v == s.expected.hash)) [
    | inl eq ↦ ap (λ b. some b) ((==_iff v s.expected.hash).0 eq)
    | inr ne ↦ ground arith
  ]

  limits-version :
      (env : Env) (s : State l) (r : Request l) (o : Option Failure)
      → checks_of_limits l env s r o ≡ none
      → l.version r.value ≡ some s.expected.hash
  unfolding checks_of_limits
  limits-version env s r (some e) h = ground arith
  limits-version env s r none h = hash-version env s r (l.version r.value) h

  manifest-version :
      (env : Env) (s : State l) (r : Request l) (o : Option Bytes)
      → checks_of_manifest l env s r o ≡ none
      → l.version r.value ≡ some s.expected.hash
  unfolding checks_of_manifest
  manifest-version env s r (some text) h = ground arith
  manifest-version env s r none h = limits-version env s r _ h

  validate_request-version :
      (env : Env) (s : State l) (r : Request l)
      → validate_request l env s r ≡ none
      → l.version r.value ≡ some s.expected.hash
  unfolding validate_request
  validate_request-version env s r h = elim (Bool-cases (env.cancelled_later r.channel)) [
    | inl eq ↦ ground arith
    | inr ne ↦ manifest-version env s r (l.validate r.value) (ground arith)
  ]

  Current : State l → Request l → Type 0
  Current s r = l.version r.value ≡ some s.expected.hash

  sort_one-Current :
      (s : State l) (r : Request l) (o : Option Failure) (rest : Sorted l)
      → (o ≡ none → Current s r)
      → Each (Current s) rest.accepted
      → Each (Current s) (sort_one l r o rest).accepted
  unfolding sort_one
  sort_one-Current s r none rest h hs = (h refl, hs)
  sort_one-Current s r (some e) rest h hs =
      if_intro (λ (sorted : Sorted l). Each (Current s) sorted.accepted) _ _ _ hs hs

  sort_requests-Current :
      (env : Env) (s : State l) (rs : List (Request l))
      → Each (Current s) (sort_requests l env s rs).accepted
  unfolding sort_requests Current
  sort_requests-Current env s [] = tt
  sort_requests-Current env s (r ∷ rs) =
      let rest = sort_requests l env s rs in
      let hs = sort_requests-Current env s rs in
      if_intro (λ (sorted : Sorted l). Each (Current s) sorted.accepted) (env.cancelled r.channel) _
        _ hs
        (sort_one-Current s r (validate_request l env s r) rest (validate_request-version env s r)
          hs)

  -- The manifests stay, or one joins them that has the expected version.
  abbrev pub GrownTo : List Manifest → List Manifest → Version l → Type 0
  GrownTo ms ms' expected =
      (ms' ≡ ms) ⊎ ((m : Manifest) × (ms' ≡ ms ++ m ∷ []) × (l.version m ≡ some expected.hash))

  abbrev pub Grown : State l → Next l → Type 0
  Grown s n = GrownTo s.manifests n.after.manifests n.after.expected

  GrownTo-moved :
      (ms0 ms ms' ms'' : List Manifest) (v v' : Version l)
      → ms ≡ ms0
      → GrownTo ms ms' v
      → ms'' ≡ ms'
      → v' ≡ v
      → GrownTo ms0 ms'' v'
  GrownTo-moved ms0 ms ms' ms'' v v' p g q x = rw (q, x, ← p) g

  Stays : State l → Next l → Type 0
  Stays s n = (n.after.manifests ≡ s.manifests) × (n.after.expected ≡ s.expected)

  Checks : State l → Next l → Type 0
  Checks s n = Grown s n × (n.after.expected ≡ s.expected)

  first_value-Grown :
      (s : State l) (rs : List (Request l))
      → Each (Current s) rs
      → GrownTo s.manifests (s.manifests ++ first_value l rs) s.expected
  unfolding first_value Current
  first_value-Grown s [] h = inl (append_nil s.manifests)
  first_value-Grown s (r ∷ rs) h = inr (r.value, refl, h.0)

  validate_requests-Checks : (env : Env) (s : State l) → Checks s (validate_requests l env s)
  unfolding validate_requests Checks
  validate_requests-Checks env s =
      if_intro (Checks s) (not s.fetched || is_empty l s.requests) _ _ (inl refl, refl)
        (
          first_value-Grown s (sort_requests l env s s.requests).accepted
              (sort_requests-Current env s s.requests),
          refl,
        )

  latest-Stays : (o : Option Manifest) (s : State l) → Stays s (emit_latest l o s)
  unfolding emit_latest fill_all_requests Stays
  latest-Stays none s = (refl, refl)
  latest-Stays (some m) s =
      if_intro (Stays s) (is_empty l s.local_leases) _ _ (refl, refl) (refl, refl)

  emit-Stays : (s : State l) → Stays s (maybe_emit_received_events l s)
  unfolding maybe_emit_received_events emit_received_events Stays
  emit-Stays s =
      if_intro (Stays s) (not (is_empty l s.requests) && is_empty l s.pending_requests) _ _
        (refl, refl)
        (if_intro (Stays s) (not s.fetched) _ _ (refl, refl)
          (latest-Stays (last_manifest l s.manifests) s))

  fetch-Stays : (env : Env) (s : State l) → Stays s (maybe_fetch_data l env s)
  unfolding maybe_fetch_data Stays
  fetch-Stays env s =
      if_intro (Stays s) s.runch _ _ (refl, refl)
        (if_intro (Stays s) (not s.fetched || not env.cache_fresh) _ _ (refl, refl) (refl, refl))

  reread-Stays : (s : State l) → Stays s (maybe_reread_data l s)
  unfolding maybe_reread_data Stays
  reread-Stays s = if_intro (Stays s) (is_empty l s.requests) _ _ (refl, refl) (refl, refl)

  timer-Stays :
      (s : State l)
      → ((maybe_schedule_stop l s).manifests ≡ s.manifests)
        × ((maybe_schedule_stop l s).expected ≡ s.expected)
  unfolding maybe_schedule_stop
  timer-Stays s =
      let P : State l → Type 0 = λ t. (t.manifests ≡ s.manifests) × (t.expected ≡ s.expected) in
      if_intro P (not (is_empty l s.local_leases) || not (is_empty l s.manifests)) _ _ (refl, refl)
        (if_intro P s.stoptimer _ _ (refl, refl) (refl, refl))

  check_and_emit-Checks : (env : Env) (s : State l) → Checks s (check_and_emit l env s)
  unfolding check_and_emit Checks Stays
  check_and_emit-Checks env s =
      let v = validate_requests-Checks env s in
      let e = emit-Stays (validate_requests l env s).after in (rw (e.0, e.1) v.0, e.1 ∙ v.1)

  -- What a successful read makes of the expected version.
  abbrev pub expected_after : State l → FetchResult l → Version l
  expected_after s r =
      if is_empty l r.deployment.hash
      then s.expected
      else if ltb r.height s.expected.height
      then s.expected
      else record { hash = r.deployment.hash; height = r.height }

  apply_fetch_result-expected :
      (r : FetchResult l) (s : State l)
      → ((apply_fetch_result l r s).manifests ≡ s.manifests)
        × ((apply_fetch_result l r s).expected ≡ expected_after s r)
  unfolding apply_fetch_result
  apply_fetch_result-expected r s = elim (Bool-cases (is_empty l r.deployment.hash)) [
    | inl e ↦ rw e (refl, refl)
    | inr e ↦ elim (Bool-cases (ltb r.height s.expected.height)) [
      | inl behind ↦ rw (e, behind) (refl, refl)
      | inr ahead ↦ rw (e, ahead) (refl, refl)
    ]
  ]

  on_manifest-Grown :
      (env : Env) (s : State l)
      → Grown s (on_manifest l env s) × ((on_manifest l env s).after.expected ≡ s.expected)
  unfolding on_manifest Checks Stays
  on_manifest-Grown env s =
      let n = maybe_fetch_data l env s in
      let f = fetch-Stays env s in
      let c = check_and_emit-Checks env n.after in
      let r = reread-Stays (check_and_emit l env n.after).after in
      if_intro (λ (m : Next l). Grown s m × (m.after.expected ≡ s.expected)) n.after.runch _ _
        (inl f.0, f.1) (GrownTo-moved _ _ _ _ _ _ f.0 c.0 r.0 r.1, r.1 ∙ c.1 ∙ f.1)

  on_fetch_done-Grown :
      (env : Env) (s : State l) (r : FetchResult l)
      → Grown s (handle l env s (fetch_done r))
        × ((handle l env s (fetch_done r)).after.expected ≡ expected_after s r)
  unfolding handle Checks Stays
  on_fetch_done-Grown env s r =
      let s0 = record s { runch = false } in
      let a = apply_fetch_result-expected r s0 in
      let read = apply_fetch_result l r s0 in
      let c = check_and_emit-Checks env read in
      let t = timer-Stays (check_and_emit l env read).after in
      let q = reread-Stays (maybe_schedule_stop l (check_and_emit l env read).after) in
      (GrownTo-moved _ _ _ _ _ _ a.0 c.0 (q.0 ∙ t.0) (q.1 ∙ t.1), q.1 ∙ t.1 ∙ c.1 ∙ a.1)

  -- The expected version behind an event.
  abbrev pub expected_next : State l → Event l → Version l
  expected_next s (fetch_done r) = expected_after s r
  expected_next s _ = s.expected

  pub handle-expected :
      (env : Env) (s : State l) (e : Event l)
      → Grown s (handle l env s e) × ((handle l env s e).after.expected ≡ expected_next s e)
  unfolding handle fill_all_requests Stays
  handle-expected env s shutdown = (inl refl, refl)
  handle-expected env s stop_timer = (inl refl, refl)
  handle-expected env s lease_won =
      let t = timer-Stays (clear_fetched l s) in
      let f = fetch-Stays env (maybe_schedule_stop l (clear_fetched l s)) in
      (inl (f.0 ∙ t.0), f.1 ∙ t.1)
  handle-expected env s lease_removed = let t = timer-Stays (clear_fetched l s) in (inl t.0, t.1)
  handle-expected env s (manifest_received r) =
      let grown = record s { requests = s.requests ++ r ∷ [] } in
      let t = timer-Stays grown in
      let m = on_manifest-Grown env (maybe_schedule_stop l grown) in
      (
        GrownTo-moved _ _ _ _ (on_manifest l env (maybe_schedule_stop l grown)).after.expected _ t.0
            m.0 refl refl,
        m.1 ∙ t.1,
      )
  handle-expected env s (deployment_updated version) = (inl refl, refl)
  handle-expected env s (fetch_failed text) = (inl refl, refl)
  handle-expected env s (fetch_done r) = on_fetch_done-Grown env s r

  -- Each event leaves the list of manifests as it is, or appends one to it whose version is the
  -- version expected behind the event.
  pub handle-Grown : (env : Env) (s : State l) (e : Event l) → Grown s (handle l env s e)
  handle-Grown env s e = (handle-expected env s e).0
