-- ===== src/Manifest/Watchdog.antt =====
-- manifest/watchdog.go: the goroutine that closes the bid of a lease whose manifest does not arrive
-- in time. Durations are nanoseconds.
pub mod Closing
mod Samples
use provider.Base.{zero, suc, Bool, true, false, not, Option, List, [], ◌∷◌, ◌++◌, Bytes}
use provider.Ids.{LeaseId}
use provider.Base.Int.{ℤ, pos, negsuc}
use provider.Manifest.Service.{DeploymentId, deployment_of}

-- `newWatchdog`'s arguments, with the provider's address.
pub record Config : Type 0 where
  pub provider : Bytes
  pub lease : LeaseId
  pub broadcast_timeout : ℤ

-- In front of the first `select`, in the loop behind it, with whether a shutdown can still be
-- received, and behind it.
pub data State : Type 0 where
  waiting : State
  broadcasting : Bool → State
  ended : State

-- The timer, a shutdown (the parent's or `stop`), and the result of the broadcast.
pub data Event : Type 0 where
  timeout : Event
  shutdown : Event
  broadcast_done : Option Bytes → Event

-- A `MsgCloseBid` is sent within a time, and `done` names the deployment.
pub data Effect : Type 0 where
  close_bid : LeaseId → ℤ → Effect
  done : DeploymentId → Effect

pub record Next : Type 0 where
  pub after : State
  pub effects : List Effect

abbrev pub go : State → List Effect → Next
go s effects = record { after = s; effects = effects }

-- `DefaultBroadcastTimeout`, 30 seconds
abbrev pub default_broadcast_timeout : ℤ
default_broadcast_timeout = pos 30000000000

pub timeout_of : ℤ → ℤ
timeout_of (pos zero) = default_broadcast_timeout
timeout_of (pos (suc n)) = pos (suc n)
timeout_of (negsuc n) = default_broadcast_timeout

-- `MakeBidID(leaseID.OrderID(), provider)`
abbrev pub bid_of : Config → LeaseId
bid_of c = record c.lease { provider = c.provider }

-- The end of `run`, which the goroutine of `newWatchdog` waits for.
abbrev pub finish : Config → Next
finish c = go ended (done (deployment_of c.lease) ∷ [])

pub handle : Config → State → Event → Next
unfolding timeout_of
handle c waiting timeout =
    go (broadcasting true) (close_bid (bid_of c) (timeout_of c.broadcast_timeout) ∷ [])
handle c waiting shutdown = finish c
handle c (broadcasting hears) shutdown = go (broadcasting false) []
handle c (broadcasting hears) (broadcast_done error) = finish c
handle c s _ = go s []

pub enabled : State → Event → Bool
enabled waiting timeout = true
enabled waiting shutdown = true
enabled (broadcasting hears) shutdown = hears
enabled (broadcasting hears) (broadcast_done error) = true
enabled s _ = false

pub run : Config → State → List Event → Next
unfolding handle
run c s [] = go s []
run c s (e ∷ es) =
    let n = handle c s e in
    let rest = run c n.after es in
    record { after = rest.after; effects = n.effects ++ rest.effects }
