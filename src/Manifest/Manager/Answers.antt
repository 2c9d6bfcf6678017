-- ===== src/Manifest/Manager/Answers.antt =====
-- manifest/manager.go: the answers of a round, counted for one channel.
use provider.Base.{
  ℕ, suc, ◌+◌, ◌≡◌, refl, ap, inl, inr, true, false, not, ◌&&◌, ◌||◌, Option, none, some, List, [],
  ◌∷◌, ◌++◌, arith, if◌then◌else◌, nat_eq_iff, Bool-cases, if_intro, if_split, ◌==◌, ℕ-eq, Bytes-eq,
}
use provider.Manifest.Checks.{query_failed, no_lease_for_deployment, not_running, Library, Failure}
use provider.Manifest.Manager.{
  lease_removed, lease_won, stop_timer, shutdown, fetch_done, fetch_failed, deployment_updated,
  last_manifest, clear_fetched, emit_received_events, is_empty, manifest_received, on_manifest,
  apply_fetch_result, maybe_schedule_stop, maybe_reread_data, maybe_fetch_data, check_and_emit,
  and_then, maybe_emit_received_events, emit_latest, fill_all_requests, validate_requests,
  validate_request, fetch, publish, Sorted, answer, sort_requests, sort_one, publish_all,
  answer_all, Env, Lease, Deployment, State, Event, Effect, Next, Request, FetchResult, handle,
}

module _ (l : Library) where
  open l use {Manifest, Groups}

  -- The requests of a channel in a list, and the answers on it among effects.
  abbrev pub waiting : ℕ → List (Request l) → ℕ
  waiting k [] = 0
  waiting k (r ∷ rs) = let rest = waiting k rs in if r.channel == k then suc rest else rest

  abbrev pub answers_one : ℕ → Effect l → ℕ
  answers_one k fetch = 0
  answers_one k (answer channel response) = if channel == k then 1 else 0
  answers_one k (publish id m d) = 0

  abbrev pub answered : ℕ → List (Effect l) → ℕ
  answered k [] = 0
  answered k (e ∷ es) = answers_one k e + answered k es

  waiting-append :
      (k : ℕ) (xs ys : List (Request l)) → waiting k (xs ++ ys) ≡ waiting k xs + waiting k ys
  waiting-append k [] ys = omega arith
  waiting-append k (x ∷ xs) ys = ground (arith, waiting-append k xs ys)

  pub answered-append :
      (k : ℕ) (xs ys : List (Effect l)) → answered k (xs ++ ys) ≡ answered k xs + answered k ys
  answered-append k [] ys = omega arith
  answered-append k (x ∷ xs) ys = omega (arith, answered-append k xs ys)

  answered-answer_all :
      (k : ℕ) (response : Option Failure) (rs : List (Request l))
      → answered k (answer_all l response rs) ≡ waiting k rs
  unfolding answer_all
  answered-answer_all k response [] = refl
  answered-answer_all k response (r ∷ rs) = ground (arith, answered-answer_all k response rs)

  answered-publish_all :
      (k : ℕ) (m : Manifest) (d : Deployment l) (leases : List Lease)
      → answered k (publish_all l m d leases) ≡ 0
  unfolding publish_all
  answered-publish_all k m d [] = refl
  answered-publish_all k m d (lease ∷ leases) = omega (arith, answered-publish_all k m d leases)

  abbrev pub held : ℕ → State l → ℕ
  held k s = waiting k s.pending_requests + waiting k s.requests

  -- What was held is held or answered.
  Kept : ℕ → State l → Next l → Type 0
  Kept k s n = answered k n.effects + held k n.after ≡ held k s

  sort_one-count :
      (k : ℕ) (r : Request l) (o : Option Failure) (rest : Sorted l)
      → let sorted = sort_one l r o rest in
        answered k sorted.effects + waiting k sorted.accepted + waiting k sorted.reread
        ≡ answered k rest.effects
          + waiting k rest.accepted
          + waiting k rest.reread
          + (if r.channel == k then 1 else 0)
  unfolding sort_one
  sort_one-count k r none rest = ground arith
  sort_one-count k r (some e) rest = ground arith

  not_cancelled :
      (env : Env) (j k : ℕ) → env.cancelled j ≡ true → env.cancelled k ≡ false → (j == k) ≡ false
  not_cancelled env j k yes_j no_k = elim (Bool-cases (j == k)) [
    | inl eq ↦
        let same : env.cancelled j ≡ env.cancelled k = ap env.cancelled ((nat_eq_iff j k).0 eq) in
        ground (arith, same)
    | inr ne ↦ ne
  ]

  abbrev total : ℕ → Sorted l → ℕ
  total k sorted = answered k sorted.effects + waiting k sorted.accepted + waiting k sorted.reread

  sort_requests-count :
      (k : ℕ) (env : Env) (s : State l) (rs : List (Request l))
      → env.cancelled k ≡ false
      → total k (sort_requests l env s rs) ≡ waiting k rs
  unfolding sort_requests
  sort_requests-count k env s [] h = refl
  sort_requests-count k env s (r ∷ rs) h =
      let rest = sort_requests l env s rs in
      let ih = sort_requests-count k env s rs h in
      if_split (λ (sorted : Sorted l). total k sorted ≡ waiting k (r ∷ rs))
        (env.cancelled r.channel) _ _ (λ p. rw (not_cancelled env r.channel k p h) ih)
        (λ p. ground (arith, ih, sort_one-count k r (validate_request l env s r) rest))

  validate_requests-Kept :
      (k : ℕ) (env : Env) (s : State l)
      → env.cancelled k ≡ false
      → Kept k s (validate_requests l env s)
  unfolding validate_requests Kept
  validate_requests-Kept k env s h =
      let sorted = sort_requests l env s s.requests in
      if_split (Kept k s) (not s.fetched || is_empty l s.requests) _ _ (λ p. omega arith)
        (λ p. omega (
          arith,
          sort_requests-count k env s s.requests h,
          waiting-append k s.pending_requests sorted.accepted,
        ))

  fill_all_requests-Kept : (k : ℕ) (e : Failure) (s : State l) → Kept k s (fill_all_requests l e s)
  unfolding fill_all_requests Kept
  fill_all_requests-Kept k e s = omega (
    arith,
    answered-append k (answer_all l (some e) s.pending_requests) (answer_all l (some e) s.requests),
    answered-answer_all k (some e) s.pending_requests,
    answered-answer_all k (some e) s.requests,
  )

  emit_latest-Kept : (k : ℕ) (o : Option Manifest) (s : State l) → Kept k s (emit_latest l o s)
  unfolding emit_latest Kept
  emit_latest-Kept k none s = omega arith
  emit_latest-Kept k (some m) s =
      if_intro (Kept k s) (is_empty l s.local_leases) _ _
        (fill_all_requests-Kept k no_lease_for_deployment s)
        (omega (
          arith,
          answered-append k (publish_all l m s.deployment_data s.local_leases)
              (answer_all l none s.pending_requests),
          answered-publish_all k m s.deployment_data s.local_leases,
          answered-answer_all k none s.pending_requests,
        ))

  maybe_emit-Kept : (k : ℕ) (s : State l) → Kept k s (maybe_emit_received_events l s)
  unfolding maybe_emit_received_events emit_received_events Kept
  maybe_emit-Kept k s =
      if_intro (Kept k s) (not (is_empty l s.requests) && is_empty l s.pending_requests) _ _
        (omega arith)
        (if_intro (Kept k s) (not s.fetched) _ _ (omega arith)
          (emit_latest-Kept k (last_manifest l s.manifests) s))

  and_then-Kept :
      (k : ℕ) (s : State l) (n : Next l) (f : State l → Next l)
      → Kept k s n
      → Kept k n.after (f n.after)
      → Kept k s (and_then l n f)
  unfolding Kept
  and_then-Kept k s n f one two =
      omega (arith, one, two, answered-append k n.effects (f n.after).effects)

  check_and_emit-Kept :
      (k : ℕ) (env : Env) (s : State l)
      → env.cancelled k ≡ false
      → Kept k s (check_and_emit l env s)
  unfolding check_and_emit
  check_and_emit-Kept k env s h =
      and_then-Kept k s (validate_requests l env s) (maybe_emit_received_events l)
        (validate_requests-Kept k env s h) (maybe_emit-Kept k (validate_requests l env s).after)

  maybe_fetch_data-Kept : (k : ℕ) (env : Env) (s : State l) → Kept k s (maybe_fetch_data l env s)
  unfolding maybe_fetch_data Kept
  maybe_fetch_data-Kept k env s = ground arith

  maybe_reread_data-Kept : (k : ℕ) (s : State l) → Kept k s (maybe_reread_data l s)
  unfolding maybe_reread_data Kept
  maybe_reread_data-Kept k s =
      if_intro (Kept k s) (is_empty l s.requests) _ _ (omega arith) (omega arith)

  held-maybe_schedule_stop : (k : ℕ) (s : State l) → held k (maybe_schedule_stop l s) ≡ held k s
  unfolding maybe_schedule_stop
  held-maybe_schedule_stop k s = ground arith

  held-apply_fetch_result :
      (k : ℕ) (r : FetchResult l) (s : State l) → held k (apply_fetch_result l r s) ≡ held k s
  unfolding apply_fetch_result
  held-apply_fetch_result k r s = ground arith

  on_manifest-Kept :
      (k : ℕ) (env : Env) (s : State l) → env.cancelled k ≡ false → Kept k s (on_manifest l env s)
  unfolding on_manifest
  on_manifest-Kept k env s h =
      let n = maybe_fetch_data l env s in
      let fetches = maybe_fetch_data-Kept k env s in
      if_intro (Kept k s) n.after.runch _ _ fetches (
        and_then-Kept k s (and_then l n (check_and_emit l env)) (maybe_reread_data l)
          (and_then-Kept k s n (check_and_emit l env) fetches (check_and_emit-Kept k env n.after h))
          (maybe_reread_data-Kept k (check_and_emit l env n.after).after))

  -- The requests of a channel that an event brings.
  abbrev pub brings : ℕ → Event l → ℕ
  brings k (manifest_received r) = if r.channel == k then 1 else 0
  brings k _ = 0

  pub handle-answered :
      (k : ℕ) (env : Env) (s : State l) (e : Event l)
      → env.cancelled k ≡ false
      → answered k (handle l env s e).effects + held k (handle l env s e).after
        ≡ held k s + brings k e
  unfolding handle Kept
  handle-answered k env s shutdown h = omega (arith, fill_all_requests-Kept k not_running s)
  handle-answered k env s stop_timer h = omega (arith, fill_all_requests-Kept k not_running s)
  handle-answered k env s lease_won h = omega (
    arith,
    maybe_fetch_data-Kept k env (maybe_schedule_stop l (clear_fetched l s)),
    held-maybe_schedule_stop k (clear_fetched l s),
  )
  handle-answered k env s lease_removed h =
      omega (arith, held-maybe_schedule_stop k (clear_fetched l s))
  handle-answered k env s (manifest_received r) h =
      let grown = record s { requests = s.requests ++ r ∷ [] } in
      ground (
        arith,
        on_manifest-Kept k env (maybe_schedule_stop l grown) h,
        held-maybe_schedule_stop k grown,
        waiting-append k s.requests (r ∷ []),
      )
  handle-answered k env s (deployment_updated version) h = omega arith
  handle-answered k env s (fetch_failed text) h =
      omega (arith, fill_all_requests-Kept k (query_failed text) (record s { runch = false }))
  handle-answered k env s (fetch_done r) h =
      let read = apply_fetch_result l r (record s { runch = false }) in
      let n = check_and_emit l env read in
      let reread : State l → Next l = λ s'. maybe_reread_data l (maybe_schedule_stop l s') in
      omega (
        arith,
        check_and_emit-Kept k env read h,
        held-apply_fetch_result k r (record s { runch = false }),
        maybe_reread_data-Kept k (maybe_schedule_stop l n.after),
        held-maybe_schedule_stop k n.after,
        answered-append k n.effects (reread n.after).effects,
      )

  pub shutdown-answered :
      (k : ℕ) (env : Env) (s : State l) → answered k (handle l env s shutdown).effects ≡ held k s
  unfolding handle Kept fill_all_requests
  shutdown-answered k env s = omega (arith, fill_all_requests-Kept k not_running s)
