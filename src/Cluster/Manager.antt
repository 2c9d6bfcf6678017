-- ===== src/Cluster/Manager.antt =====
-- cluster/manager.go: the manager of one deployment. `run` selects on channels; each is a Boolean
-- here, true while it will still deliver a value, and what `run` starts is an effect.
pub mod Invariant
pub mod Teardown
pub mod Updates
pub mod Lease
mod Samples
use provider.Base.{
  ◌+◌, ◌≡◌, Bool, true, false, ◌||◌, Option, none, some, List, [], ◌∷◌, ◌++◌, if◌then◌else◌, Bytes,
}
use provider.Base.Int.{pos, ℤ}

pub data DeploymentState : Type 0 where
  deploy_active deploy_pending deploy_complete : DeploymentState
  teardown_active teardown_pending teardown_complete : DeploymentState

-- An error, told apart by `errors.Is(result, ErrLeaseInactive)`.
pub data Failure : Type 0 where
  lease_inactive : Failure
  other_failure : Bytes → Failure

-- The fields of `deploymentManager` and the variables of `run`. `has_monitor` says that
-- `dm.monitor` is not nil, `reclaim_timer` that `reclaimC` will fire.
pub record State (D : Type 0) : Type 0 where
  pub state : DeploymentState
  pub deployment : D
  pub has_monitor : Bool
  pub messages : List Bytes
  pub runch : Bool
  pub retry_teardown : Bool
  pub teardown_err : Option Failure
  pub reclaim_timer : Bool
  pub reclaim_deadline : ℤ
  pub reclaiming : Bool

pub data Event (D : Type 0) : Type 0 where
  shutdown : Event D
  reclaim_request : ℤ → Event D
  reclaim_fired : Event D
  reclaim_result : Bool → ℤ → Event D
  update : D → Event D
  run_result : Option Failure → Event D
  retry_fired : Event D
  teardown_request : Event D

pub data Effect (D : Type 0) : Type 0 where
  start_deploy : D → Effect D
  start_teardown : Effect D
  remove_funds_monitor : Effect D
  start_monitor : Effect D
  stop_monitor : Effect D
  attempt_reclaim : ℤ → Effect D
  arm_reclaim : ℤ → Effect D

-- The loop goes on, ended, or panicked with "INVALID STATE".
pub data Status : Type 0 where
  running ended panicked : Status

pub record Next (D : Type 0) : Type 0 where
  pub after : State D
  pub status : Status
  pub effects : List (Effect D)

-- `tearingDown`
abbrev pub tearing_down : DeploymentState → Bool
tearing_down teardown_pending = true
tearing_down teardown_active = true
tearing_down teardown_complete = true
tearing_down _ = false

-- `dm.messages` behind a deploy.
abbrev pub error_messages : Option Failure → List Bytes
error_messages none = []
error_messages (some lease_inactive) = []
error_messages (some (other_failure text)) = text ∷ []

abbrev pub is_running : Status → Bool
is_running running = true
is_running _ = false

module _ {D : Type 0} where
  abbrev pub go : State D → List (Effect D) → Next D
  go s effects = record { after = s; status = running; effects = effects }

  -- `stopMonitor`
  stop_monitor_effects : State D → List (Effect D)
  stop_monitor_effects s = if s.has_monitor then stop_monitor ∷ [] else []

  -- `startDeploy`
  deploy : State D → Next D
  unfolding stop_monitor_effects
  deploy s =
      go (record s { state = deploy_active; runch = true })
        (stop_monitor_effects s ++ start_deploy s.deployment ∷ [])

  -- `startTeardown`
  tear_down : State D → Next D
  unfolding stop_monitor_effects
  tear_down s =
      go (record s { state = teardown_active; runch = true })
        (stop_monitor_effects s ++ remove_funds_monitor ∷ start_teardown ∷ [])

  -- `handleUpdate`
  handle_update : DeploymentState → State D → Next D
  unfolding deploy
  handle_update deploy_active s = go (record s { state = deploy_pending }) []
  handle_update deploy_complete s = deploy s
  handle_update _ s = go s []

  -- `startReclaimAttempt`
  start_reclaim_attempt : State D → Next D
  start_reclaim_attempt s =
      if s.reclaiming || tearing_down s.state
      then go s []
      else go (record s { reclaiming = true }) (attempt_reclaim s.reclaim_deadline ∷ [])

  -- `scheduleReclaim`
  schedule_reclaim : State D → Bool → ℤ → Next D
  schedule_reclaim s true wait = go (record s { reclaim_timer = false }) []
  schedule_reclaim s false wait = go (record s { reclaim_timer = true }) (arm_reclaim wait ∷ [])

  on_reclaim_result : State D → Bool → ℤ → Next D
  unfolding schedule_reclaim
  on_reclaim_result s done wait =
      let s' = record s { reclaiming = false } in
      if tearing_down s.state then go s' [] else schedule_reclaim s' done wait

  -- The result of a teardown: on an error the attempt is repeated later.
  on_teardown_result : State D → Option Failure → Next D
  on_teardown_result s none = record {
    after = record s { state = teardown_complete; teardown_err = none };
    status = ended;
    effects = [];
  }
  on_teardown_result s (some e) = go (record s { teardown_err = some e; retry_teardown = true }) []

  -- The switch of `case result := <-runch`, for a result that is not an inactive lease.
  on_result : DeploymentState → State D → Option Failure → Next D
  unfolding deploy tear_down on_teardown_result
  on_result deploy_active s r =
      go (record s { state = deploy_complete; has_monitor = true; messages = error_messages r })
        (start_monitor ∷ [])
  on_result deploy_pending s r = deploy s
  on_result deploy_complete s r = record { after = s; status = panicked; effects = [] }
  on_result teardown_active s r = on_teardown_result s r
  on_result teardown_pending s r = tear_down s
  on_result teardown_complete s r = record { after = s; status = panicked; effects = [] }

  on_run_result : State D → Option Failure → Next D
  unfolding on_result tear_down
  on_run_result s (some lease_inactive) = tear_down (record s { runch = false })
  on_run_result s (some (other_failure text)) =
      on_result s.state (record s { runch = false }) (some (other_failure text))
  on_run_result s none = on_result s.state (record s { runch = false }) none

  -- The switch of `case <-dm.teardownch`, behind its `stopMonitor`.
  on_teardown_request : DeploymentState → State D → Next D
  unfolding tear_down
  on_teardown_request deploy_active s = go (record s { state = teardown_pending }) []
  on_teardown_request deploy_pending s = go (record s { state = teardown_pending }) []
  on_teardown_request deploy_complete s = tear_down s
  on_teardown_request _ s = go s []

  abbrev pub before : List (Effect D) → Next D → Next D
  before effects n = record n { effects = effects ++ n.effects }

  -- One round of the loop of `run`.
  pub handle : State D → Event D → Next D
  unfolding handle_update start_reclaim_attempt on_reclaim_result on_run_result on_teardown_request
      tear_down stop_monitor_effects
  handle s shutdown = record { after = s; status = ended; effects = [] }
  handle s (reclaim_request deadline) =
      start_reclaim_attempt (record s { reclaim_deadline = deadline })
  handle s reclaim_fired = start_reclaim_attempt (record s { reclaim_timer = false })
  handle s (reclaim_result done wait) = on_reclaim_result s done wait
  handle s (update d) = handle_update s.state (record s { deployment = d })
  handle s (run_result r) = on_run_result s r
  handle s retry_fired = tear_down (record s { retry_teardown = false })
  handle s teardown_request = before (stop_monitor_effects s) (on_teardown_request s.state s)

  pub enabled : State D → Event D → Bool
  enabled s reclaim_fired = s.reclaim_timer
  enabled s (reclaim_result done wait) = s.reclaiming
  enabled s (run_result r) = s.runch
  enabled s retry_fired = s.retry_teardown
  enabled s _ = true

  -- `newDeploymentManager` and the first line of `run`.
  pub start : D → Next D
  unfolding deploy
  start d = deploy (record {
    state = deploy_active;
    deployment = d;
    has_monitor = false;
    messages = [];
    runch = false;
    retry_teardown = false;
    teardown_err = none;
    reclaim_timer = false;
    reclaim_deadline = pos 0;
    reclaiming = false;
  })

  pub run : State D → List (Event D) → Next D
  run s [] = go s []
  run s (e ∷ es) =
      let n = handle s e in
      let rest = run n.after es in if is_running n.status then before n.effects rest else n

  -- Each event can be received, up to the end of the loop.
  abbrev pub Fits : State D → List (Event D) → Type 0
  Fits s [] = Unit
  Fits s (e ∷ es) = (enabled s e ≡ true) × Fits (handle s e).after es
