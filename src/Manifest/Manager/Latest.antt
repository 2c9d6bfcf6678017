-- ===== src/Manifest/Manager/Latest.antt =====
-- The expected version over whole histories.
use provider.Base.{
  ◌≤◌, ◌≡◌, refl, ap, ◌⊎◌, inl, inr, Bool, true, false, List, [], ◌∷◌, ◌++◌, arith, ltb,
  if◌then◌else◌, Bool-cases, ℕ-eq, Bytes-eq, Each,
}
use provider.Manifest.Checks.{Library}
use provider.Manifest.Manager.{
  lease_removed, lease_won, stop_timer, shutdown, fetch_failed, deployment_updated,
  manifest_received, fetch_done, is_empty, Env, State, Event, FetchResult, Version, handle, start,
  run,
}
use provider.Manifest.Manager.Once.{goes_on, handle-Runs}
use provider.Manifest.Manager.Versions.{expected_after, expected_next, handle-expected}

module _ (l : Library) where
  open l use {Manifest, Groups}

  -- The reads that report a deployment's version.
  abbrev pub reads : List (Env × Event l) → List (FetchResult l)
  reads [] = []
  reads ((env, fetch_done r) ∷ es) =
      let rest = reads es in if is_empty l r.deployment.hash then rest else r ∷ rest
  reads ((env, _) ∷ es) = reads es

  abbrev pub version_of : FetchResult l → Version l
  version_of r = record { hash = r.deployment.hash; height = r.height }

  -- `v` became `v'` behind some reads: no read is from a greater height, the height did not fall,
  -- and the version is the old one or that of one of the reads.
  pub record Latest (v : Version l) (rs : List (FetchResult l)) (v' : Version l) : Type 0 where
    pub above : Each (λ r. r.height ≤ v'.height) rs
    pub kept : v.height ≤ v'.height
    pub origin :
        (v' ≡ v)
        ⊎ ((front : List (FetchResult l)) × (r : FetchResult l) × (back : List (FetchResult l))
            × (rs ≡ front ++ r ∷ back)
            × (v' ≡ version_of r))

  abbrev Origin : Version l → List (FetchResult l) → Version l → Type 0
  Origin v rs v' =
      (v' ≡ v)
      ⊎ ((front : List (FetchResult l)) × (r : FetchResult l) × (back : List (FetchResult l)) × (rs
            ≡ front ++ r ∷ back)
          × (v' ≡ version_of r))

  later :
      (x : FetchResult l) (rs : List (FetchResult l)) (v v' : Version l)
      → Origin v rs v'
      → Origin v (x ∷ rs) v'
  later x rs v v' (inl same) = inl same
  later x rs v v' (inr (front, r, back, split, is)) =
      inr (x ∷ front, r, back, ap (λ ys. x ∷ ys) split, is)

  taken :
      (x : FetchResult l) (rs : List (FetchResult l)) (v v' : Version l)
      → Origin (version_of x) rs v'
      → Origin v (x ∷ rs) v'
  taken x rs v v' (inl same) = inr ([], x, rs, refl, same)
  taken x rs v v' (inr (front, r, back, split, is)) =
      inr (x ∷ front, r, back, ap (λ ys. x ∷ ys) split, is)

  Latest-read :
      (s : State l) (r : FetchResult l) (rs : List (FetchResult l)) (v' : Version l)
      → is_empty l r.deployment.hash ≡ false
      → Latest (expected_after l s r) rs v'
      → Latest s.expected (r ∷ rs) v'
  Latest-read s r rs v' e h = elim (Bool-cases (ltb r.height s.expected.height)) [
    | inl behind ↦
        let g : Latest s.expected rs v' = rw (e, behind) at h in
        record {
          above = (ground (arith, g.kept), g.above);
          kept = g.kept;
          origin = later r rs s.expected v' g.origin;
        }
    | inr ahead ↦
        let g : Latest (version_of r) rs v' = rw (e, ahead) at h in
        record {
          above = (g.kept, g.above);
          kept = ground (arith, g.kept);
          origin = taken r rs s.expected v' g.origin;
        }
  ]

  step :
      (env : Env) (s : State l) (e : Event l) (es : List (Env × Event l)) (v' : Version l)
      → Latest (expected_next l s e) (reads es) v'
      → Latest s.expected (reads ((env, e) ∷ es)) v'
  step env s shutdown es v' h = h
  step env s stop_timer es v' h = h
  step env s lease_won es v' h = h
  step env s lease_removed es v' h = h
  step env s (manifest_received r) es v' h = h
  step env s (deployment_updated version) es v' h = h
  step env s (fetch_failed text) es v' h = h
  step env s (fetch_done r) es v' h = elim (Bool-cases (is_empty l r.deployment.hash)) [
    | inl e ↦ let g : Latest s.expected (reads es) v' = rw e at h in rw e g
    | inr e ↦ rw e (Latest-read s r (reads es) v' e h)
  ]

  run-Latest :
      (s : State l) (es : List (Env × Event l))
      → Each (λ step. goes_on l step.1 ≡ true) es
      → Latest s.expected (reads es) (run l s es).after.expected
  unfolding run
  run-Latest s [] h = record { above = tt; kept = omega arith; origin = inl refl }
  run-Latest s ((env, e) ∷ es) h =
      let n = handle l env s e in
      rw (handle-Runs l env s e h.0) (
        step env s e es (run l n.after es).after.expected
          (rw (← (handle-expected l env s e).1) (run-Latest n.after es h.1)))

  -- After a history of a manager that was not stopped the height of the expected version is at
  -- least that of each read that reported a version, and the version is that of one of those
  -- reads, or still the empty one.
  pub run-latest :
      (require_host : Bool) (es : List (Env × Event l))
      → Each (λ step. goes_on l step.1 ≡ true) es
      → Latest
          (start l require_host).expected
          (reads es)
          (run l (start l require_host) es).after.expected
  run-latest require_host es h = run-Latest (start l require_host) es h
