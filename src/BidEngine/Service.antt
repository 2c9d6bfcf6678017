-- ===== src/BidEngine/Service.antt =====
-- bidengine/service.go: the service that keeps one monitor for each order, catches up on the
-- open orders that the fetcher queues, and drains its monitors behind a shutdown. Monitors are
-- kept under `OrderPath`, an injective text of the order's id: here under the id.
pub mod Monitors
pub mod Kept
pub mod Draining
pub mod Pages
pub mod Rounds
pub mod Received
pub mod Catchup
mod Samples
use provider.Base.{
  ℕ, ◌%◌, ◌^◌, ◌≡◌, Bool, true, false, not, ◌&&◌, Option, none, some, List, [], ◌∷◌, ◌++◌, ltb,
  nat_eq, if◌then◌else◌, ℕ-eq, Bytes, Bytes-eq, length,
}
use provider.Base.Map.{Map, get, put, delete}
use provider.Ids.{OrderId, OrderId-eq, LeaseId-eq}
use provider.BidEngine.Fetcher.{
  Turn, canceled, failing, repeated, stopped, finished, last_page, next_page, again, page_next_key,
  start_fetcher, fetch_round, Page, Round, Ending, fetching,
}

-- The loop of `run`, the draining behind it with the wait for the provider attributes service,
-- and the end.
pub data Phase : Type 0 where
  running draining ended : Phase

-- The service with its queue of pages (`ordersch`), its fetcher and the persisted key.
pub record State : Type 0 where
  pub orders : Map OrderId (Unit {0})
  pub queue : List Page
  pub fetcher : Ending
  pub catchup_incomplete : Bool
  pub stored : Bytes
  pub phase : Phase

-- `fetched` is a round of the fetcher. A page is received with the orders for which `newOrder`
-- fails and whether the key can be persisted; an order is detected with whether it fails.
-- `attributes_done` is the end of the provider attributes service, `<-s.pass.lc.Done()`.
pub data Event : Type 0 where
  shutdown : Event
  fetched : Round → Event
  page_received : (OrderId → Bool) → Bool → Event
  order_created : OrderId → Bool → Event
  other_event : Event
  status_query : Event
  order_done : OrderId → Event
  attributes_done : Event
  signal : Event

-- `start_order` has the flag `checkForExistingBid`.
pub data Effect : Type 0 where
  start_order : OrderId → Bool → Effect
  persist : Bytes → Effect
  try_signal : Effect
  answer_status : ℕ → Effect
  publish_status : ℕ → Effect
  stop_fetcher : Effect
  stop_attributes : Effect

pub record Next : Type 0 where
  pub after : State
  pub effects : List Effect

abbrev pub go : State → List Effect → Next
go s effects = record { after = s; effects = effects }

abbrev pub and_then : Next → (State → Next) → Next
and_then n f = let m = f n.after in record { after = m.after; effects = n.effects ++ m.effects }

abbrev pub present {ℓ} : {A : Type ℓ} → Option A → Bool
present none = false
present (some a) = true

-- The body of the loop of `processOrdersPage`.
pub catch_up : (OrderId → Bool) → State → OrderId → Next
catch_up fails s o =
    if present (get o s.orders)
    then go s []
    else if fails o
    then go (record s { catchup_incomplete = true }) []
    else go (record s { orders = put o tt s.orders }) (start_order o true ∷ [])

pub catch_up_all : (OrderId → Bool) → List OrderId → State → Next
unfolding catch_up
catch_up_all fails [] s = go s []
catch_up_all fails (o ∷ os) s = and_then (catch_up fails s o) (λ s'. catch_up_all fails os s')

-- What `processOrdersPage` does behind its loop.
pub end_page : Bool → Page → State → Next
end_page can_persist page s =
    if not page.last
    then go s []
    else if s.catchup_incomplete
    then go s []
    else if can_persist
    then go (record s { stored = page.key }) (persist page.key ∷ [])
    else go s []

pub process_orders_page : (OrderId → Bool) → Bool → Page → State → Next
unfolding catch_up_all end_page
process_orders_page fails can_persist page s =
    and_then (catch_up_all fails page.orders s) (λ s'. end_page can_persist page s')

-- `case page := <-s.ordersch`
pub on_page : (OrderId → Bool) → Bool → State → List Page → Next
unfolding process_orders_page
on_page fails can_persist s [] = go s []
on_page fails can_persist s (page ∷ pages) =
    process_orders_page fails can_persist page (record s { queue = pages })

-- A round of the fetcher; a page that it sends is queued.
pub on_turn : State → Turn → State
on_turn s (again f) = record s { fetcher = fetching f }
on_turn s (next_page page f) = record s { fetcher = fetching f; queue = s.queue ++ page ∷ [] }
on_turn s (last_page page) = record s { fetcher = finished; queue = s.queue ++ page ∷ [] }
on_turn s canceled = record s { fetcher = stopped }
on_turn s (repeated key) = record s { fetcher = failing key }

pub on_fetched : State → Round → Ending → State
unfolding on_turn
on_fetched s r (fetching f) = on_turn s (fetch_round f r)
on_fetched s r _ = s

-- `case *mtypes.EventOrderCreated`
pub on_order_created : State → OrderId → Bool → Next
on_order_created s o fails =
    if present (get o s.orders)
    then go s []
    else if fails
    then go s []
    else go (record s { orders = put o tt s.orders }) (start_order o false ∷ try_signal ∷ [])

-- Behind the loop: `for len(s.orders) > 0`.
pub drained : State → State
drained s = record s { phase = draining }

-- The wait for the provider attributes service, once no order is left.
pub on_attributes_done : State → State
on_attributes_done s = if nat_eq (length s.orders) 0 then record s { phase = ended } else s

-- `uint32(len(s.orders))`
pub order_count : State → ℕ
order_count s = length s.orders % 2 ^ 32

-- One round of the loop of `run`.
pub handle_running : State → Event → Next
unfolding on_page on_fetched on_order_created order_count drained
handle_running s shutdown = go (drained s) (stop_fetcher ∷ stop_attributes ∷ [])
handle_running s (fetched r) = go (on_fetched s r s.fetcher) []
handle_running s (page_received fails can_persist) = on_page fails can_persist s s.queue
handle_running s (order_created o fails) = on_order_created s o fails
handle_running s other_event = go s []
handle_running s status_query = go s (answer_status (order_count s) ∷ [])
handle_running s (order_done o) = go (record s { orders = delete o s.orders }) (try_signal ∷ [])
handle_running s attributes_done = go s []
handle_running s signal = go s (publish_status (order_count s) ∷ [])

-- One round of the loop that drains, which receives only from `drainch`, or the wait behind it.
pub handle_draining : State → Event → Next
unfolding on_fetched on_attributes_done
handle_draining s (order_done o) = go (record s { orders = delete o s.orders }) []
handle_draining s attributes_done = go (on_attributes_done s) []
handle_draining s (fetched r) = go (on_fetched s r s.fetcher) []
handle_draining s _ = go s []

pub handle_in : Phase → State → Event → Next
unfolding handle_running handle_draining
handle_in running s e = handle_running s e
handle_in draining s e = handle_draining s e
handle_in ended s e = go s []

pub handle : State → Event → Next
unfolding handle_in
handle s e = handle_in s.phase s e

-- The queue has room for 1000 pages, a monitor is done once, the end of the attributes service is
-- waited for once no order is left, and nothing is received behind the end.
abbrev pub is_on : Phase → Bool
is_on ended = false
is_on _ = true

abbrev pub is_draining : Phase → Bool
is_draining draining = true
is_draining _ = false

pub received : State → Event → Bool
received s (fetched r) = ltb (length s.queue) 1000
received s (order_done o) = present (get o s.orders)
received s attributes_done = is_draining s.phase && nat_eq (length s.orders) 0
received s _ = true

pub enabled : State → Event → Bool
unfolding received
enabled s e = is_on s.phase && received s e

-- `NewService` and the wait for the operators; the key loaded is missing where it cannot be read.
pub start : Option Bytes → Bool → State
start key operators_ready = record {
  orders = [];
  queue = [];
  fetcher = fetching (start_fetcher key);
  catchup_incomplete = false;
  stored = page_next_key key;
  phase = if operators_ready then running else ended;
}

pub run : State → List Event → Next
unfolding handle
run s [] = go s []
run s (e ∷ es) = and_then (handle s e) (λ s'. run s' es)

abbrev pub Fits : State → List Event → Type 0
Fits s [] = Unit
Fits s (e ∷ es) = (enabled s e ≡ true) × Fits (handle s e).after es
