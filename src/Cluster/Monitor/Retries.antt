-- ===== src/Cluster/Monitor/Retries.antt =====
-- How many failed checks close a lease.
use provider.Base.{
  ℕ, zero, suc, ◌+◌, ◌%◌, ◌^◌, ◌≤◌, ◌<◌, ◌≡◌, refl, true, false, not, List, [], ◌∷◌, ◌++◌, arith,
  leb, if_intro, if_split, ℕ-eq, Bytes-eq,
}
use provider.Cluster.Monitor.{
  status_eq, schedule_retry, DeploymentStatus, pending, report, running, check_result, close_lease,
  on_check_result, tick, Config, State, Event, Effect, Next, handle, run, Fits, enabled,
}

-- The closes among effects, and a number of failed checks in a row.
abbrev pub closes : List Effect → ℕ
closes [] = 0
closes (close_lease ∷ es) = suc (closes es)
closes (_ ∷ es) = closes es

abbrev pub fails : ℕ → List Event
fails zero = []
fails (suc k) = tick ∷ check_result false ∷ fails k

closes-append : (xs ys : List Effect) → closes (xs ++ ys) ≡ closes xs + closes ys
closes-append [] ys = omega arith
closes-append (x ∷ xs) ys = ground (arith, closes-append xs ys)

-- The round of one failed check.
failed : Config → State → Next
unfolding handle
failed c s = handle c (handle c s tick).after (check_result false)

failed-running : (c : Config) (s : State) → (failed c s).status ≡ running
unfolding failed handle on_check_result
failed-running c s =
    if_intro (λ (n : Next). n.status ≡ running) (leb ((s.attempts + 1) % 2 ^ 64) c.max_retries) _ _
      refl refl

closes-report :
    (current : DeploymentStatus) (s : State) (e : Effect)
    → closes (report current s ++ e ∷ []) ≡ closes (e ∷ [])
unfolding report
closes-report current s e =
    if_intro (λ (es : List Effect). closes (es ++ e ∷ []) ≡ closes (e ∷ []))
      (not (status_eq current s.prev_status)) _ _ refl refl

failed-retries :
    (c : Config) (s : State)
    → s.attempts + 1 ≤ c.max_retries
    → c.max_retries < 2 ^ 64
    → (closes (failed c s).effects ≡ 0)
      × ((failed c s).after.attempts ≡ s.attempts + 1)
      × ((failed c s).after.tickch ≡ true)
unfolding failed handle on_check_result
failed-retries c s le lim =
    let s1 = (handle c s tick).after in
    if_split
      (λ (n : Next).
        (closes n.effects ≡ 0) × (n.after.attempts ≡ s.attempts + 1) × (n.after.tickch ≡ true))
      (leb ((s.attempts + 1) % 2 ^ 64) c.max_retries) _ _
      (λ p. (closes-report pending s1 schedule_retry, omega (arith, le, lim), refl))
      (λ p. ground (arith, p, le, lim))

failed-closes :
    (c : Config) (s : State)
    → c.max_retries < s.attempts + 1
    → s.attempts + 1 < 2 ^ 64
    → (closes (failed c s).effects ≡ 1) × ((failed c s).after.tickch ≡ false)
unfolding failed handle on_check_result
failed-closes c s lt lim =
    let s1 = (handle c s tick).after in
    if_split (λ (n : Next). (closes n.effects ≡ 1) × (n.after.tickch ≡ false))
      (leb ((s.attempts + 1) % 2 ^ 64) c.max_retries) _ _ (λ p. ground (arith, p, lt, lim))
      (λ p. (closes-report pending s1 close_lease, refl))

closes-fails :
    (c : Config) (s : State) (k : ℕ)
    → closes (run c s (fails (suc k))).effects
      ≡ closes (failed c s).effects + closes (run c (failed c s).after (fails k)).effects
unfolding run failed handle
closes-fails c s k =
    rw (failed-running c s)
      (closes-append (failed c s).effects (run c (failed c s).after (fails k)).effects)

fails-Fits :
    (c : Config) (s : State) (k : ℕ)
    → s.tickch ≡ true
    → Fits c (failed c s).after (fails k)
    → Fits c s (fails (suc k))
unfolding handle enabled failed
fails-Fits c s k t f = (t, (refl, f))

below :
    (c : Config) (s : State) (k : ℕ)
    → c.max_retries + 1 < 2 ^ 64
    → s.attempts + k ≤ c.max_retries
    → closes (run c s (fails k)).effects ≡ 0
unfolding run
below c s zero lim le = refl
below c s (suc k) lim le =
    let r = failed-retries c s (omega (arith, le)) (omega (arith, lim)) in
    omega
      (arith, closes-fails c s k, r.0, below c (failed c s).after k lim (omega (arith, le, r.1)))

closes-nothing : (c : Config) (s : State) → closes (run c s (fails 0)).effects ≡ 0
unfolding run
closes-nothing c s = refl

at_limit :
    (c : Config) (s : State) (k : ℕ)
    → c.max_retries + 1 < 2 ^ 64
    → s.attempts + k ≡ c.max_retries
    → s.tickch ≡ true
    → (closes (run c s (fails (suc k))).effects ≡ 1) × Fits c s (fails (suc k))
at_limit c s zero lim eq t = (
  omega (
    arith,
    closes-fails c s 0,
    closes-nothing c (failed c s).after,
    (failed-closes c s (omega (arith, eq)) (omega (arith, eq, lim))).0,
  ),
  fails-Fits c s 0 t tt,
)
at_limit c s (suc k) lim eq t =
    let r = failed-retries c s (omega (arith, eq)) (omega (arith, lim)) in
    let rest = at_limit c (failed c s).after k lim (omega (arith, eq, r.1)) r.2 in
    (omega (arith, closes-fails c s (suc k), r.0, rest.0), fails-Fits c s (suc k) t rest.1)

-- A monitor without a failed check since its last good one and with its next check scheduled
-- closes the lease at the failed check behind the configured number of retries, once, and at none
-- before; each of these checks is made. The number of retries is below the largest uint, 2 ^ 64 -
-- 1.
pub retries_lem :
    (c : Config) (s : State) (k : ℕ)
    → c.max_retries + 1 < 2 ^ 64
    → s.attempts ≡ 0
    → s.tickch ≡ true
    → k ≤ c.max_retries
    → (closes (run c s (fails k)).effects ≡ 0)
      × (closes (run c s (fails (suc c.max_retries))).effects ≡ 1)
      × Fits c s (fails (suc c.max_retries))
retries_lem c s k lim fresh t le =
    let b = at_limit c s c.max_retries lim (omega (arith, fresh)) t in
    (below c s k lim (omega (arith, fresh, le)), b.0, b.1)
