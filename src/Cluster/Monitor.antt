-- ===== src/Cluster/Monitor.antt =====
-- cluster/monitor.go: the monitor of one deployment. The checks and the broadcast run beside the
-- loop; a channel is a Boolean here, true while it will still deliver.
pub mod Health
pub mod Retries
mod Samples
use provider.Base.{
  ℕ, suc, ◌+◌, ◌-◌, ◌%◌, ◌^◌, ◌≡◌, Bool, true, false, not, Option, none, some, List, [], ◌∷◌, ◌++◌,
  ltb, leb, nat_eq, if◌then◌else◌, ℕ-eq, Bytes, Bytes-eq,
}
use provider.Base.Map.{Map, get}
use provider.Base.Int.{ℤ, pos, negsuc}

-- A service of the manifest group with its replicas, and what the cluster reports of one; the
-- report is an `int32`.
pub record ServiceSpec : Type 0 where
  pub name : Bytes
  pub replicas : ℕ

-- `uint32(service.Available)`
pub uint32 : ℤ → ℕ
uint32 (pos n) = n % 2 ^ 32
uint32 (negsuc n) = 2 ^ 32 - 1 - n % 2 ^ 32

service_ok : ServiceSpec → Option ℤ → Bool
unfolding uint32
service_ok spec none = false
service_ok spec (some available) = not (ltb (uint32 available) spec.replicas)

bad_services : Map Bytes ℤ → List ServiceSpec → ℕ
unfolding service_ok
bad_services status [] = 0
bad_services status (spec ∷ specs) =
    let rest = bad_services status specs in
    if service_ok spec (get spec.name status) then rest else suc rest

-- `doCheck`: `none` is a failed query of the cluster, whose result is false beside the error.
pub do_check : List ServiceSpec → Option (Map Bytes ℤ) → Bool
unfolding bad_services
do_check specs none = false
do_check specs (some status) = nat_eq (bad_services status specs) 0

pub data DeploymentStatus : Type 0 where
  deployed pending unknown : DeploymentStatus

abbrev pub status_eq : DeploymentStatus → DeploymentStatus → Bool
status_eq deployed deployed = true
status_eq pending pending = true
status_eq unknown unknown = true
status_eq _ _ = false

-- `MonitorMaxRetries`, and whether `MonitorHealthcheckPeriod` is above 0.
pub record Config : Type 0 where
  pub max_retries : ℕ
  pub has_healthcheck : Bool

pub record State : Type 0 where
  pub attempts : ℕ
  pub runch : Bool
  pub closech : Bool
  pub tickch : Bool
  pub prev_status : DeploymentStatus

pub data Event : Type 0 where
  shutdown : Event
  tick : Event
  check_result : Bool → Event
  close_result : Event

pub data Effect : Type 0 where
  run_check : Effect
  schedule_retry : Effect
  schedule_healthcheck : Effect
  publish_status : DeploymentStatus → Effect
  close_lease : Effect

pub data Status : Type 0 where
  running ended : Status

pub record Next : Type 0 where
  pub after : State
  pub status : Status
  pub effects : List Effect

abbrev pub go : State → List Effect → Next
go s effects = record { after = s; status = running; effects = effects }

-- `if currStatus != prevStatus`
report : DeploymentStatus → State → List Effect
report current s = if not (status_eq current s.prev_status) then publish_status current ∷ [] else []

on_check_result : Config → State → Bool → Next
unfolding report
on_check_result c s true =
    go
      (record s { runch = false; attempts = 0; tickch = c.has_healthcheck; prev_status = deployed })
      ((if c.has_healthcheck then schedule_healthcheck ∷ [] else []) ++ report deployed s)
on_check_result c s false =
    let s' = record s { runch = false; prev_status = pending } in
    if leb s.attempts c.max_retries
    then go (record s' { tickch = true }) (report pending s ++ schedule_retry ∷ [])
    else go (record s' { closech = true }) (report pending s ++ close_lease ∷ [])

-- One round of the loop of `run`.
pub handle : Config → State → Event → Next
unfolding on_check_result
handle c s shutdown = record { after = s; status = ended; effects = [] }
handle c s tick =
    go (record s { tickch = false; runch = true; attempts = (s.attempts + 1) % 2 ^ 64 })
      (run_check ∷ [])
handle c s (check_result healthy) = on_check_result c s healthy
handle c s close_result = go (record s { closech = false }) []

pub enabled : State → Event → Bool
enabled s shutdown = true
enabled s tick = s.tickch
enabled s (check_result healthy) = s.runch
enabled s close_result = s.closech

-- `newDeploymentMonitor` and the lines of `run` before its loop.
pub start : State
start = record {
  attempts = 0;
  runch = false;
  closech = false;
  tickch = true;
  prev_status = unknown;
}

abbrev pub is_running : Status → Bool
is_running running = true
is_running ended = false

pub run : Config → State → List Event → Next
run c s [] = go s []
run c s (e ∷ es) =
    let n = handle c s e in
    let rest = run c n.after es in
    if is_running n.status then record rest { effects = n.effects ++ rest.effects } else n

abbrev pub Fits : Config → State → List Event → Type 0
Fits c s [] = Unit
Fits c s (e ∷ es) = (enabled s e ≡ true) × Fits c (handle c s e).after es
