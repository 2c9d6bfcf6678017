-- ===== src/Manifest/Service/Lifetimes.antt =====
-- manifest/service.go: the managers and the watchdogs of one deployment over a history.
use provider.Base.{
  ℕ, ◌+◌, ◌≡◌, refl, inl, inr, Bool, true, false, not, ◌&&◌, none, List, [], ◌∷◌, ◌++◌, arith,
  Bool-cases, if_intro, if_split, ◌==◌, ==_iff, ==_refl, ℕ-eq, Bytes-eq, Each,
}
use provider.Base.Map.{Map, get, delete, get-delete}
use provider.Ids.{LeaseId}
use provider.Manifest.Service.{
  signal, status_query, other_event, submit, manager_remove_lease, active_check, manager_stop,
  lease_closed, manager_update, deployment_closed, deployment_updated, running, try_signal,
  manager_lease, on_submit, maybe_remove_watchdog, lease_won, to_manager, go, watchdog_done,
  manager_done, shutdown, watch, ensure_manager, Fits, handle_lease, enabled, on_manager_done,
  ended, present, DeploymentId, DeploymentId-eq, deployment_of, Config, State, Event, Next, handle,
  start, run,
}
use provider.Manifest.Service.Starts.{
  on_submit-Starts, to_manager-Starts, handle_lease-Starts, quiet-Starts, total-append,
  maybe_remove_watchdog-quiet, count, starts_manager, starts_watchdog, total, has_manager,
  has_watchdog, Starts,
}

-- The managers and the watchdogs of a deployment that an event ends.
abbrev pub ends_manager : DeploymentId → Event → ℕ
ends_manager did (manager_done d) = count (d == did)
ends_manager did _ = 0

abbrev pub ends_watchdog : DeploymentId → Event → ℕ
ends_watchdog did (watchdog_done d) = count (d == did)
ends_watchdog did _ = 0

Balanced : DeploymentId → State → Event → Next → Type 0
Balanced did s e n =
    (has_manager did n.after + ends_manager did e
      ≡ has_manager did s + total (starts_manager did) n.effects)
    × (has_watchdog did n.after + ends_watchdog did e
        ≡ has_watchdog did s + total (starts_watchdog did) n.effects)

delete-count {ℓ} :
    {A : Type ℓ} (did d : DeploymentId) (m : Map DeploymentId A)
    → present (get d m) ≡ true
    → count (present (get did (delete d m))) + count (d == did) ≡ count (present (get did m))
delete-count did d m h = elim (Bool-cases (d == did)) [
  | inl eq ↦
      let same : d ≡ did = (==_iff d did).0 eq in ground (arith, get-delete d did m, rw same at h)
  | inr ne ↦ ground (arith, get-delete d did m)
]

Starts-Balanced :
    (did : DeploymentId) (s : State) (e : Event) (n : Next)
    → ends_manager did e ≡ 0
    → ends_watchdog did e ≡ 0
    → Starts did s n
    → Balanced did s e n
unfolding Starts Balanced
Starts-Balanced did s e n p q h = (omega (arith, p, h.0), omega (arith, q, h.1))

end-Starts :
    (did : DeploymentId) (s : State)
    → Starts did s (record { after = s; status = ended; effects = [] })
unfolding Starts
end-Starts did s = (omega arith, omega arith)

done-Balanced :
    (did : DeploymentId) (s : State) (d : DeploymentId)
    → present (get d s.managers) ≡ true
    → Balanced did s (manager_done d) (on_manager_done s d)
unfolding on_manager_done Balanced
done-Balanced did s d en =
    let q = maybe_remove_watchdog-quiet did s d in
    (
      omega (
        arith,
        delete-count did d s.managers en,
        q.0,
        total-append (starts_manager did) (maybe_remove_watchdog s d) (try_signal ∷ []),
      ),
      omega (
        arith,
        q.1,
        total-append (starts_watchdog did) (maybe_remove_watchdog s d) (try_signal ∷ []),
      ),
    )

watchdog-Balanced :
    (did : DeploymentId) (s : State) (d : DeploymentId)
    → present (get d s.watchdogs) ≡ true
    → Balanced did s (watchdog_done d) (go (record s { watchdogs = delete d s.watchdogs }) [])
unfolding Balanced
watchdog-Balanced did s d en = (omega arith, omega (arith, delete-count did d s.watchdogs en))

handle-Balanced :
    (did : DeploymentId) (c : Config) (s : State) (e : Event)
    → enabled s e ≡ true
    → Balanced did s e (handle c s e)
unfolding handle enabled
handle-Balanced did c s shutdown en =
    Starts-Balanced did s shutdown (record { after = s; status = ended; effects = [] }) refl refl
      (end-Starts did s)
handle-Balanced did c s (lease_won lid) en = Starts-Balanced did s (lease_won lid) _ refl refl (
    if_intro (Starts did s) (not (lid.provider == c.provider_address)) _ _
      (quiet-Starts did s [] refl refl) (handle_lease-Starts did c s lid true))
handle-Balanced did c s (deployment_updated d hash) en =
    Starts-Balanced did s (deployment_updated d hash) _ refl refl
      (to_manager-Starts did s d (manager_update d hash) refl refl)
handle-Balanced did c s (deployment_closed d) en =
    Starts-Balanced did s (deployment_closed d) _ refl refl
      (to_manager-Starts did s d (manager_stop d) refl refl)
handle-Balanced did c s (lease_closed lid) en =
    Starts-Balanced did s (lease_closed lid) _ refl refl (
      if_intro (Starts did s) (not (lid.provider == c.provider_address)) _ _
        (quiet-Starts did s [] refl refl)
        (to_manager-Starts did s (deployment_of lid) (manager_remove_lease lid) refl refl))
handle-Balanced did c s other_event en =
    Starts-Balanced did s other_event _ refl refl (quiet-Starts did s [] refl refl)
handle-Balanced did c s (active_check d) en =
    Starts-Balanced did s (active_check d) _ refl refl (quiet-Starts did s _ refl refl)
handle-Balanced did c s (submit d channel) en =
    Starts-Balanced did s (submit d channel) _ refl refl (on_submit-Starts did s d channel)
handle-Balanced did c s status_query en =
    Starts-Balanced did s status_query _ refl refl (quiet-Starts did s _ refl refl)
handle-Balanced did c s signal en =
    Starts-Balanced did s signal _ refl refl (quiet-Starts did s _ refl refl)
handle-Balanced did c s (manager_done d) en = done-Balanced did s d en
handle-Balanced did c s (watchdog_done d) en = watchdog-Balanced did s d en

abbrev pub goes_on : Event → Bool
goes_on shutdown = false
goes_on _ = true

handle-running :
    (c : Config) (s : State) (e : Event) → goes_on e ≡ true → (handle c s e).status ≡ running
unfolding handle handle_lease ensure_manager to_manager on_submit on_manager_done
handle-running c s shutdown h = ground arith
handle-running c s (lease_won lid) h = ground arith
handle-running c s (deployment_updated d hash) h = ground arith
handle-running c s (deployment_closed d) h = ground arith
handle-running c s (lease_closed lid) h = ground arith
handle-running c s other_event h = refl
handle-running c s (active_check d) h = refl
handle-running c s (submit d channel) h = ground arith
handle-running c s status_query h = refl
handle-running c s signal h = refl
handle-running c s (manager_done d) h = refl
handle-running c s (watchdog_done d) h = refl

abbrev pub all_ends : (Event → ℕ) → List Event → ℕ
all_ends f [] = 0
all_ends f (e ∷ es) = f e + all_ends f es

run-Balanced :
    (did : DeploymentId) (c : Config) (s : State) (es : List Event)
    → Fits c s es
    → Each (λ e. goes_on e ≡ true) es
    → let n = run c s es in
      (has_manager did n.after + all_ends (ends_manager did) es
        ≡ has_manager did s + total (starts_manager did) n.effects)
      × (has_watchdog did n.after + all_ends (ends_watchdog did) es
          ≡ has_watchdog did s + total (starts_watchdog did) n.effects)
unfolding run Balanced
run-Balanced did c s [] f g = (omega arith, omega arith)
run-Balanced did c s (e ∷ es) f g =
    let n = handle c s e in
    let one = handle-Balanced did c s e f.0 in
    let rest = run-Balanced did c n.after es f.1 g.1 in
    let effects = (run c n.after es).effects in
    rw (handle-running c s e g.0) (
      omega (arith, one.0, rest.0, total-append (starts_manager did) n.effects effects),
      omega (arith, one.1, rest.1, total-append (starts_watchdog did) n.effects effects),
    )

-- Over any history of the manifest service before its shutdown that the channels allow, the
-- managers started for a deployment are as many as are done and the one that the map holds, if
-- any, and so are its watchdogs.
pub one_at_a_time :
    (did : DeploymentId) (c : Config) (es : List Event)
    → Fits c start es
    → Each (λ e. goes_on e ≡ true) es
    → let n = run c start es in
      (total (starts_manager did) n.effects
        ≡ all_ends (ends_manager did) es + has_manager did n.after)
      × (total (starts_watchdog did) n.effects
          ≡ all_ends (ends_watchdog did) es + has_watchdog did n.after)
unfolding start run get
one_at_a_time did c es f g =
    let b = run-Balanced did c start es f g in (omega (arith, b.0), omega (arith, b.1))

-- The effects of the parts of `handleLease` that start no watchdog, and of the one that does.
ensure-unwatched :
    (did : DeploymentId) (s : State) (d : DeploymentId)
    → total (starts_watchdog did) (ensure_manager s d).effects ≡ 0
unfolding ensure_manager
ensure-unwatched did s d =
    if_intro (λ (n : Next). total (starts_watchdog did) n.effects ≡ 0) (present (get d s.managers))
      _ _ refl refl

watch-watched :
    (c : Config) (s : State) (lid : LeaseId)
    → c.has_timeout ≡ true
    → get (deployment_of lid) s.watchdogs ≡ none
    → total (starts_watchdog (deployment_of lid)) (watch c s lid true).effects ≡ 1
unfolding watch
watch-watched c s lid t absent =
    if_split (λ (n : Next). total (starts_watchdog (deployment_of lid)) n.effects ≡ 1)
      (true && c.has_timeout && not (present (get (deployment_of lid) s.watchdogs))) _ _
      (λ p. ground (arith, ==_refl (deployment_of lid))) (λ p. ground (arith, absent, t))

-- With a manifest timeout, a won lease of this provider starts a watchdog whenever its deployment
-- has none, whatever managers there are.
pub lease_won-watched :
    (c : Config) (s : State) (lid : LeaseId)
    → c.has_timeout ≡ true
    → lid.provider ≡ c.provider_address
    → get (deployment_of lid) s.watchdogs ≡ none
    → total (starts_watchdog (deployment_of lid)) (handle c s (lease_won lid)).effects ≡ 1
unfolding handle handle_lease
lease_won-watched c s lid t own absent =
    let did = deployment_of lid in
    let n = watch c s lid true in
    let m = ensure_manager n.after did in
    if_split (λ (n : Next). total (starts_watchdog did) n.effects ≡ 1)
      (not (lid.provider == c.provider_address)) _ _
      (λ p. ground (arith, p, (==_iff lid.provider c.provider_address).1 own))
      (λ p. omega (
        arith,
        watch-watched c s lid t absent,
        ensure-unwatched did n.after did,
        total-append (starts_watchdog did) n.effects m.effects,
        total-append (starts_watchdog did) (n.effects ++ m.effects) (manager_lease lid ∷ []),
      ))
