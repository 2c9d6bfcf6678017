-- ===== src/Manifest/Service/Starts.antt =====
-- What the calls of the service's loop start, counted for one deployment.
use provider.Base.{
  ℕ, ◌+◌, ◌≡◌, refl, inl, inr, Bool, not, ◌&&◌, List, [], ◌∷◌, ◌++◌, arith, if◌then◌else◌,
  Bool-cases, if_intro, if_split, ◌==◌, ==_iff, ℕ-eq, Bytes-eq,
}
use provider.Base.Map.{get, get-put}
use provider.Ids.{LeaseId}
use provider.Manifest.Service.{
  try_signal, manager_manifest, manager_lease, start_watchdog, start_manager, to_manager, on_submit,
  maybe_remove_watchdog, handle_lease, go, and_then, watch, ensure_manager, present, DeploymentId,
  DeploymentId-eq, deployment_of, Config, State, Effect, Next,
}

abbrev pub count : Bool → ℕ
count b = if b then 1 else 0

-- The managers and the watchdogs started for a deployment, and those it has.
abbrev pub starts_manager : DeploymentId → Effect → ℕ
starts_manager did (start_manager d) = count (d == did)
starts_manager did _ = 0

abbrev pub starts_watchdog : DeploymentId → Effect → ℕ
starts_watchdog did (start_watchdog lid) = count (deployment_of lid == did)
starts_watchdog did _ = 0

abbrev pub total : (Effect → ℕ) → List Effect → ℕ
total f [] = 0
total f (e ∷ es) = f e + total f es

abbrev pub has_manager : DeploymentId → State → ℕ
has_manager did s = count (present (get did s.managers))

abbrev pub has_watchdog : DeploymentId → State → ℕ
has_watchdog did s = count (present (get did s.watchdogs))

pub total-append :
    (f : Effect → ℕ) (xs ys : List Effect) → total f (xs ++ ys) ≡ total f xs + total f ys
total-append f [] ys = omega arith
total-append f (x ∷ xs) ys = omega (arith, total-append f xs ys)

-- Calls that only start.
unfoldable pub Starts : DeploymentId → State → Next → Type 0
Starts did s n =
    (has_manager did n.after ≡ has_manager did s + total (starts_manager did) n.effects)
    × (has_watchdog did n.after ≡ has_watchdog did s + total (starts_watchdog did) n.effects)

ensure_manager-Starts :
    (did : DeploymentId) (s : State) (d : DeploymentId) → Starts did s (ensure_manager s d)
unfolding ensure_manager Starts
ensure_manager-Starts did s d =
    if_split (Starts did s) (present (get d s.managers)) _ _ (λ p. (omega arith, omega arith))
      (λ p. (
        elim (Bool-cases (d == did)) [
          | inl eq ↦
              let same : d ≡ did = (==_iff d did).0 eq in
              ground (arith, get-put d did tt s.managers, rw same at p)
          | inr ne ↦ ground (arith, get-put d did tt s.managers)
        ],
        omega arith,
      ))

watch-Starts :
    (did : DeploymentId) (c : Config) (s : State) (lid : LeaseId) (is_new : Bool)
    → Starts did s (watch c s lid is_new)
unfolding watch Starts
watch-Starts did c s lid is_new =
    let d = deployment_of lid in
    if_split (Starts did s) (is_new && c.has_timeout && not (present (get d s.watchdogs))) _ _
      (λ p. (
        omega arith,
        elim (Bool-cases (d == did)) [
          | inl eq ↦
              let same : d ≡ did = (==_iff d did).0 eq in
              ground (arith, get-put d did lid s.watchdogs, rw same at p)
          | inr ne ↦ ground (arith, get-put d did lid s.watchdogs)
        ],
      ))
      (λ p. (omega arith, omega arith))

and_then-Starts :
    (did : DeploymentId) (s : State) (n : Next) (f : State → Next)
    → Starts did s n
    → Starts did n.after (f n.after)
    → Starts did s (and_then n f)
unfolding Starts
and_then-Starts did s n f one two = (
  omega (arith, one.0, two.0, total-append (starts_manager did) n.effects (f n.after).effects),
  omega (arith, one.1, two.1, total-append (starts_watchdog did) n.effects (f n.after).effects),
)

pub quiet-Starts :
    (did : DeploymentId) (s : State) (effects : List Effect)
    → total (starts_manager did) effects ≡ 0
    → total (starts_watchdog did) effects ≡ 0
    → Starts did s (go s effects)
unfolding Starts
quiet-Starts did s effects p q = (omega (arith, p), omega (arith, q))

pub handle_lease-Starts :
    (did : DeploymentId) (c : Config) (s : State) (lid : LeaseId) (is_new : Bool)
    → Starts did s (handle_lease c s lid is_new)
unfolding handle_lease
handle_lease-Starts did c s lid is_new =
    let n = watch c s lid is_new in
    let ensure : State → Next = λ s'. ensure_manager s' (deployment_of lid) in
    and_then-Starts did s (and_then n ensure) (λ s'. go s' (manager_lease lid ∷ []))
      (and_then-Starts did s n ensure (watch-Starts did c s lid is_new)
        (ensure_manager-Starts did n.after (deployment_of lid)))
      (quiet-Starts did (ensure n.after).after (manager_lease lid ∷ []) refl refl)

pub maybe_remove_watchdog-quiet :
    (did : DeploymentId) (s : State) (d : DeploymentId)
    → (total (starts_manager did) (maybe_remove_watchdog s d) ≡ 0)
      × (total (starts_watchdog did) (maybe_remove_watchdog s d) ≡ 0)
unfolding maybe_remove_watchdog
maybe_remove_watchdog-quiet did s d = ground arith

pub on_submit-Starts :
    (did : DeploymentId) (s : State) (d : DeploymentId) (channel : ℕ)
    → Starts did s (on_submit s d channel)
unfolding on_submit
on_submit-Starts did s d channel =
    let n = go s (maybe_remove_watchdog s d) in
    let q = maybe_remove_watchdog-quiet did s d in
    let ensure : State → Next = λ s'. ensure_manager s' d in
    and_then-Starts did s (and_then n ensure)
      (λ s'. go s' (manager_manifest d channel ∷ try_signal ∷ []))
      (and_then-Starts did s n ensure (quiet-Starts did s (maybe_remove_watchdog s d) q.0 q.1)
        (ensure_manager-Starts did s d))
      (quiet-Starts did (ensure s).after (manager_manifest d channel ∷ try_signal ∷ []) refl refl)

pub to_manager-Starts :
    (did : DeploymentId) (s : State) (d : DeploymentId) (e : Effect)
    → starts_manager did e ≡ 0
    → starts_watchdog did e ≡ 0
    → Starts did s (to_manager s d e)
unfolding to_manager Starts
to_manager-Starts did s d e p q =
    if_intro (Starts did s) (present (get d s.managers)) _ _ (omega (arith, p), omega (arith, q))
      (omega arith, omega arith)
