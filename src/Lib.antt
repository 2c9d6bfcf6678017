-- ===== src/Lib.antt =====
-- Models of the Akash provider's control logic, with the theorems that make it correct.
--
-- A provider bids on open orders of the chain, reserves cluster resources and host names for
-- them, receives the manifests of the leases it wins, deploys and watches their workloads, and
-- withdraws them when a lease closes. Most of these parts are goroutines that own their state and
-- receive requests and events on channels. A model of such a loop is a function `handle` from the
-- state and one event to the next state and the effects (what the loop sends, starts or
-- publishes), `enabled` says which events can be received, and a history is a list of events,
-- which `run` carries out in order. Each order in which the channels can be ready is a history.
--
-- The parts, their files here and the code they are about:
--   Hostname, Hostname/Service: cluster/hostname.go, the store of host names with its four
--     operations (`reserve` is reserveHostnamesImpl, and so on), the run loop by requests, and
--     the methods of its clients. The deployment manager reserves names there, the manifest
--     manager asks whether it could.
--   BidEngine/Order: bidengine/order.go, the life of one bid: the query of an earlier bid, the
--     checks, the reservation, the price, the bid, and the end, which gives the reservation back
--     or announces the won lease.
--   BidEngine/Fetcher, BidEngine/Service: bidengine/service.go, the goroutine that reads the open
--     orders page by page, and the service that keeps one order of BidEngine/Order for each,
--     catches up on the pages, persists the key to resume from, and drains.
--   BidEngine/Auditors: bidengine/provider_attributes.go, the cache of the attributes that auditors
--     signed for the provider, with the requests that wait for a query of the chain.
--   BidEngine/Fulfilment: bidengine/order.go, shouldBid, the checks of BidEngine/Order.
--   BidEngine/Pricing: bidengine/pricing.go, the price by scales that the order asks for.
--   Cluster/Resources, Cluster/Inventory: cluster/inventory.go, cluster/reservation.go and
--     cluster/util/endpoint_quantity.go, the reservations that orders make, the external ports
--     and the leased addresses.
--   Cluster/Manager, Cluster/Manager/Lease: cluster/manager.go, the states of one deployment, and
--     the checks of its lease on the chain.
--   Cluster/Reservations, Cluster/Service: cluster/service.go, the service that keeps a deployment
--     manager for each lease. It uses the inventory through an interface, which the theorems of
--     Cluster/Inventory fill.
--   Cluster/Reconcile: cluster/service.go, a pass that removes what leases that closed while the
--     provider was down left in the cluster.
--   Cluster/Monitor: cluster/monitor.go, the health checks that report a deployment to the
--     inventory or close its lease.
--   Manifest/Checks, Manifest/Limits, Manifest/Manager: manifest/manager.go,
--     manifest/proxy_limits.go and manifest/parse.go, the requests with manifests of one
--     deployment. Manifest/Service: manifest/service.go, the managers and the watchdogs, with
--     the end of the service (Draining).
--   Manifest/Fetch: manifest/manager.go, a read of the chain for one deployment (doFetchData), whose
--     result Manifest/Manager receives. Manifest/Watchdog: manifest/watchdog.go, the goroutine that
--     Manifest/Service starts for a lease, which closes its bid where no manifest comes in time.
--   Balance, Balance/Escrow: balance_checker.go, the checks of the leases' funds and the queue of
--     withdrawals. The states of the leases are shared by pointer: here a store by address.
--   Operator/IgnoreList: operator/common/ignore_list.go, the leases whose events fail.
-- Modules below one of these hold its proofs and are named for what they prove; Samples modules
-- hold concrete inputs. Base and Ids are shared: tests, equality, lists, maps, `int64`, and the
-- identifiers of orders and leases. Base/Trace is the specification of a map of goroutines: things
-- that begin and end under a key.
--
-- Conventions. Go strings and addresses are lists of bytes, `uint` counters are numbers with the
-- wrap-around written out where the code can reach it, `int64` is Base.Int, Go maps are
-- association lists with one entry for a key (Base.Map) whose order stands for the order of a
-- `range` loop. A channel that a loop selects on is a Boolean that is true while it will deliver,
-- and so is a timer. An error is a constructor. Every function is structurally recursive, so no
-- fuel is used: a loop that queries the chain until it has an answer takes the list of the rounds
-- that it makes, and a theorem says how many are enough. Packages of the chain and of Kubernetes
-- are parameters: the cluster's inventory (Cluster.Inventory.Interface), the manifest package
-- (Manifest.Checks.Library), the tests of groups and attributes (BidEngine.Fulfilment.Library), the
-- blocks that a balance lasts (Balance.Escrow.Rates), and decimal numbers
-- (BidEngine.Pricing.Decimals).
--
-- Not modelled: logs, metrics and status queries, the bodies of the goroutines that a loop starts
-- where they only call the chain or Kubernetes (their results are events), the Kubernetes
-- builders and clients, the gateway, the command line, migrations and generated code.
pub mod Base
pub mod Ids
pub mod Hostname
pub mod BidEngine
pub mod Cluster
pub mod Manifest
pub mod Operator
pub mod Balance
