-- ===== src/Manifest/Manager/Rereads.antt =====
-- manifest/manager.go: the requests that wait for another read after a version mismatch.
use provider.Base.{
  ◌≡◌, refl, ◌∙◌, ◌⊎◌, inl, inr, true, false, not, ◌&&◌, ◌||◌, Option, none, some, List, [], ◌∷◌,
  arith, if_intro, if_split, ℕ-eq, Bytes-eq, Each,
}
use provider.Manifest.Checks.{Library, Failure}
use provider.Manifest.Manager.{
  last_manifest, maybe_schedule_stop, emit_received_events, fill_all_requests, fetch_done,
  check_and_emit, apply_fetch_result, maybe_reread_data, maybe_emit_received_events, emit_latest,
  validate_request, is_version_error, is_empty, Sorted, validate_requests, sort_requests, sort_one,
  Env, State, Next, FetchResult, Request, handle,
}

module _ (l : Library) where
  open l use {Manifest, Groups}

  abbrev Marked : List (Request l) → Type 0
  Marked = Each (λ r. r.reread ≡ true)

  -- From requests that `rs` holds to those left: all of them are marked, and none of a marked
  -- list is left.
  abbrev Thinned : List (Request l) → List (Request l) → Type 0
  Thinned rs left = Marked left × (Marked rs → left ≡ [])

  sort_one-Thinned :
      (r : Request l) (o : Option Failure) (rest : Sorted l) (rs : List (Request l))
      → Thinned rs rest.reread
      → Thinned (r ∷ rs) (sort_one l r o rest).reread
  unfolding sort_one
  sort_one-Thinned r none rest rs h = (h.0, λ m. h.1 m.1)
  sort_one-Thinned r (some e) rest rs h =
      if_split (λ (sorted : Sorted l). Thinned (r ∷ rs) sorted.reread)
        (is_version_error l e && not r.reread) _ _
        (λ p. ((refl, h.0), (λ m. ground (arith, p, m.0)))) (λ p. (h.0, (λ m. h.1 m.1)))

  sort_requests-Thinned :
      (env : Env) (s : State l) (rs : List (Request l))
      → Thinned rs (sort_requests l env s rs).reread
  unfolding sort_requests
  sort_requests-Thinned env s [] = (tt, (λ m. refl))
  sort_requests-Thinned env s (r ∷ rs) =
      let rest = sort_requests l env s rs in
      let h = sort_requests-Thinned env s rs in
      if_intro (λ (sorted : Sorted l). Thinned (r ∷ rs) sorted.reread) (env.cancelled r.channel) _ _
        (h.0, (λ m. h.1 m.1)) (sort_one-Thinned r (validate_request l env s r) rest rs h)

  empty-Thinned : (rs : List (Request l)) → is_empty l rs ≡ true → Thinned rs rs
  empty-Thinned [] h = (tt, (λ m. refl))
  empty-Thinned (r ∷ rs) h = ground arith

  Thins : State l → Next l → Type 0
  Thins s n = Thinned s.requests n.after.requests

  validate_requests-Thins :
      (env : Env) (s : State l) → s.fetched ≡ true → Thins s (validate_requests l env s)
  unfolding validate_requests Thins
  validate_requests-Thins env s f =
      if_split (Thins s) (not s.fetched || is_empty l s.requests) _ _
        (λ p. empty-Thinned s.requests (ground arith)) (λ p. sort_requests-Thinned env s s.requests)

  -- What is left is what was there, or nothing.
  abbrev SameOrEmpty : List (Request l) → List (Request l) → Type 0
  SameOrEmpty rs left = (left ≡ rs) ⊎ (left ≡ [])

  shrink-Thinned :
      (rs0 rs left left' left'' : List (Request l))
      → rs ≡ rs0
      → Thinned rs left
      → SameOrEmpty left left'
      → left'' ≡ left'
      → Thinned rs0 left''
  shrink-Thinned rs0 rs left left' left'' p h (inl same) q = rw (q, same, ← p) h
  shrink-Thinned rs0 rs left left' left'' p h (inr none_left) q =
      rw (q, none_left) (tt, (λ m. refl))

  Shrinks : State l → Next l → Type 0
  Shrinks s n = SameOrEmpty s.requests n.after.requests

  latest-Shrinks : (o : Option Manifest) (s : State l) → Shrinks s (emit_latest l o s)
  unfolding emit_latest fill_all_requests Shrinks
  latest-Shrinks none s = inl refl
  latest-Shrinks (some m) s =
      if_intro (Shrinks s) (is_empty l s.local_leases) _ _ (inr refl) (inl refl)

  emit-Shrinks : (s : State l) → Shrinks s (maybe_emit_received_events l s)
  unfolding maybe_emit_received_events emit_received_events Shrinks
  emit-Shrinks s =
      if_intro (Shrinks s) (not (is_empty l s.requests) && is_empty l s.pending_requests) _ _
        (inl refl)
        (if_intro (Shrinks s) (not s.fetched) _ _ (inl refl)
          (latest-Shrinks (last_manifest l s.manifests) s))

  reread-requests : (s : State l) → (maybe_reread_data l s).after.requests ≡ s.requests
  unfolding maybe_reread_data
  reread-requests s =
      if_intro (λ (n : Next l). n.after.requests ≡ s.requests) (is_empty l s.requests) _ _ refl refl

  timer-requests : (s : State l) → (maybe_schedule_stop l s).requests ≡ s.requests
  unfolding maybe_schedule_stop
  timer-requests s = ground arith

  read-fetched :
      (r : FetchResult l) (s : State l)
      → ((apply_fetch_result l r s).fetched ≡ true)
        × ((apply_fetch_result l r s).requests ≡ s.requests)
  unfolding apply_fetch_result
  read-fetched r s = ground arith

  fetch_done-Thinned :
      (env : Env) (s : State l) (r : FetchResult l)
      → Thinned s.requests (handle l env s (fetch_done r)).after.requests
  unfolding handle check_and_emit Thins Shrinks
  fetch_done-Thinned env s r =
      let read = apply_fetch_result l r (record s { runch = false }) in
      let f = read-fetched r (record s { runch = false }) in
      let v = validate_requests-Thins env read f.0 in
      let n = validate_requests l env read in
      let e = emit-Shrinks n.after in
      let s' = (maybe_emit_received_events l n.after).after in
      shrink-Thinned s.requests read.requests n.after.requests s'.requests
        (maybe_reread_data l (maybe_schedule_stop l s')).after.requests f.1 v e
        (reread-requests (maybe_schedule_stop l s') ∙ timer-requests s')

  -- Two successful reads of the chain in a row leave no request waiting, whatever they return.
  pub two_reads :
      (env env' : Env) (s : State l) (r r' : FetchResult l)
      → (handle l env' (handle l env s (fetch_done r)).after (fetch_done r')).after.requests ≡ []
  two_reads env env' s r r' =
      (fetch_done-Thinned env' (handle l env s (fetch_done r)).after r').1
        (fetch_done-Thinned env s r).0
