-- ===== src/BidEngine/Auditors.antt =====
-- bidengine/provider_attributes.go: the cache of the attributes that auditors signed for this
-- provider, with the requests that wait for a query of the chain. Times are seconds.
pub mod Answers
pub mod Queries
mod Samples
use provider.Base.{
  ℕ, ◌+◌, ◌-◌, ◌/◌, Bool, true, not, Option, none, some, List, [], ◌∷◌, ◌++◌, map, ltb, leb,
  if◌then◌else◌, ◌==◌, ℕ-eq, Bytes, Bytes-eq, length, contains,
}
use provider.Base.Map.{Map, get, put, delete}
use provider.Ids.{OrderId-eq, LeaseId-eq}

-- An entry of `AuditedProviders`.
pub record AuditedProvider : Type 0 where
  pub owner : Bytes
  pub auditor : Bytes
  pub attributes : List (Bytes × Bytes)

-- `providerAttrEntry`
pub record Entry : Type 0 where
  pub provider_attr : List AuditedProvider
  pub at : ℕ

-- `auditedAttrRequest`; the channel names the caller.
pub record Request : Type 0 where
  pub auditor : Bytes
  pub channel : ℕ

pub record Config : Type 0 where
  pub provider_address : Bytes
  pub ttl : ℕ

-- `fetching` are the queries under way, of which an auditor can have several: nothing ever writes
-- to `inProgress`.
pub record State : Type 0 where
  pub cached : Map Bytes Entry
  pub pending : Map Bytes (List Request)
  pub fetching : List Bytes

pub data Event : Type 0 where
  auditor_event : Bytes → Bytes → Event
  other_event : Event
  request : Request → ℕ → Event
  fetched : Bytes → Option (List AuditedProvider) → ℕ → Event

pub data Effect : Type 0 where
  succeed : Request → List AuditedProvider → Effect
  fail : Request → Effect
  start_fetch : Bytes → Effect

pub record Next : Type 0 where
  pub after : State
  pub effects : List Effect

abbrev pub go : State → List Effect → Next
go s effects = record { after = s; effects = effects }

abbrev pub requests_of : Option (List Request) → List Request
requests_of none = []
requests_of (some rs) = rs

-- `handleEvent` for the events of trusted auditors.
pub on_auditor_event : Config → State → Bytes → Bytes → Next
on_auditor_event c s owner auditor =
    if owner == c.provider_address
    then go (record s { cached = delete auditor s.cached }) []
    else go s []

-- The end of `addRequest`, and `maybeStart`: the list is not empty, and nothing is in progress.
pub enqueue : State → Request → Next
enqueue s r =
    go
      (record s {
        pending = put r.auditor (requests_of (get r.auditor s.pending) ++ r ∷ []) s.pending;
        fetching = r.auditor ∷ s.fetching;
      })
      (start_fetch r.auditor ∷ [])

from_entry : Config → State → Request → ℕ → Option Entry → Next
unfolding enqueue
from_entry c s r now none = enqueue s r
from_entry c s r now (some entry) =
    if ltb (now - entry.at) c.ttl then go s (succeed r entry.provider_attr ∷ []) else enqueue s r

-- `addRequest`
pub on_request : Config → State → Request → ℕ → Next
unfolding from_entry
on_request c s r now = from_entry c s r now (get r.auditor s.cached)

-- `providerAttrSize`
pub provider_attr_size : List AuditedProvider → ℕ
provider_attr_size [] = 0
provider_attr_size (x ∷ xs) = length x.attributes + provider_attr_size xs

abbrev pub max_entries : ℕ
max_entries = 50000

-- The first loop of `trimCache`: the entries that are not too old.
pub fresh_entries : Config → ℕ → Map Bytes Entry → Map Bytes Entry
fresh_entries c now [] = []
fresh_entries c now ((auditor, entry) ∷ cached) =
    let rest = fresh_entries c now cached in
    if ltb c.ttl (now - entry.at) then rest else (auditor, entry) ∷ rest

pub cache_size : Map Bytes Entry → ℕ
unfolding provider_attr_size
cache_size [] = 0
cache_size ((auditor, entry) ∷ cached) = provider_attr_size entry.provider_attr + cache_size cached

-- The second loop: entries are dropped, in the order of the map, until half is gone.
pub drop_half : ℕ → Map Bytes Entry → Map Bytes Entry
unfolding provider_attr_size
drop_half size [] = []
drop_half size ((auditor, entry) ∷ cached) =
    let size' = size + provider_attr_size entry.provider_attr in
    let rest = drop_half size' cached in if leb (max_entries / 2) size' then cached else rest

-- `trimCache`
pub trim_cache : Config → ℕ → Map Bytes Entry → Map Bytes Entry
unfolding fresh_entries cache_size drop_half
trim_cache c now cached =
    let kept = fresh_entries c now cached in
    if ltb max_entries (cache_size kept) then drop_half 0 kept else kept

abbrev pub succeed_all : List Request → List AuditedProvider → List Effect
succeed_all [] result = []
succeed_all (r ∷ rs) result = succeed r result ∷ succeed_all rs result

abbrev pub fail_all : List Request → List Effect
fail_all [] = []
fail_all (r ∷ rs) = fail r ∷ fail_all rs

-- One query of the auditor less.
pub remove_one : Bytes → List Bytes → List Bytes
remove_one a [] = []
remove_one a (b ∷ bs) = let rest = remove_one a bs in if b == a then bs else b ∷ rest

-- `failAllPending` and `completeAllPending`, for a query without and with a result.
on_result : Config → State → Bytes → ℕ → Option (List AuditedProvider) → Next
unfolding trim_cache
on_result c s auditor now none =
    go (record s { pending = delete auditor s.pending })
      (fail_all (requests_of (get auditor s.pending)))
on_result c s auditor now (some result) =
    go
      (record s {
        pending = delete auditor s.pending;
        cached =
            trim_cache c now (put auditor (record { provider_attr = result; at = now }) s.cached);
      })
      (succeed_all (requests_of (get auditor s.pending)) result)

-- `case result := <-pass.fetchCh`
pub on_fetched : Config → State → Bytes → ℕ → Option (List AuditedProvider) → Next
unfolding on_result remove_one
on_fetched c s auditor now result =
    on_result c (record s { fetching = remove_one auditor s.fetching }) auditor now result

-- The cases of `run` for the auditors' attributes.
pub handle : Config → State → Event → Next
unfolding on_auditor_event on_request on_fetched
handle c s (auditor_event owner auditor) = on_auditor_event c s owner auditor
handle c s other_event = go s []
handle c s (request r now) = on_request c s r now
handle c s (fetched auditor result now) = on_fetched c s auditor now result

-- A result arrives for a query under way.
pub enabled : State → Event → Bool
enabled s (fetched auditor result now) = contains s.fetching auditor
enabled s _ = true

pub start : State
start = record { cached = []; pending = []; fetching = [] }

pub run : Config → State → List Event → Next
unfolding handle
run c s [] = go s []
run c s (e ∷ es) =
    let n = handle c s e in
    let rest = run c n.after es in
    record { after = rest.after; effects = n.effects ++ rest.effects }
