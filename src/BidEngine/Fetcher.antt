-- ===== src/BidEngine/Fetcher.antt =====
-- bidengine/service.go: the goroutine that reads the open orders from the chain, page by page,
-- and queues them for the service. A pagination key is a list of bytes, `nil` is the empty one.
pub mod Traversal
use provider.Base.{
  Bool, true, false, not, ◌&&◌, Option, none, some, List, [], ◌∷◌, if◌then◌else◌, ◌==◌, ℕ-eq, Bytes,
  Bytes-eq,
}
use provider.Ids.{OrderId, OrderId-eq, LeaseId-eq}

-- `ordersPage`
pub record Page : Type 0 where
  pub orders : List OrderId
  pub key : Bytes
  pub last : Bool

-- The answer to a query: an error, which may be `InvalidArgument`, or the orders and the next
-- key, which is missing where the answer has no pagination.
pub data Reply : Type 0 where
  failed : Bool → Reply
  answered : List OrderId → Option Bytes → Reply

-- What one round of the loop meets: the node, as it would answer the query for each key, and
-- whether the context is canceled before the query, behind it, and at the wait that follows.
pub record Round : Type 0 where
  pub canceled_before : Bool
  pub node : Bytes → Reply
  pub canceled_after : Bool
  pub canceled_waiting : Bool

-- The variables of the loop.
pub record Fetcher : Type 0 where
  pub next_key : Bytes
  pub resuming : Bool

-- How a round ends.
pub data Turn : Type 0 where
  again : Fetcher → Turn
  next_page : Page → Fetcher → Turn
  last_page : Page → Turn
  canceled : Turn
  repeated : Bytes → Turn

abbrev pub is_empty : Bytes → Bool
is_empty [] = true
is_empty (b ∷ bs) = false

-- The key loaded when the fetcher starts; an error leaves it empty.
unfoldable pub start_fetcher : Option Bytes → Fetcher
start_fetcher none = record { next_key = []; resuming = false }
start_fetcher (some key) = record { next_key = key; resuming = not (is_empty key) }

-- `resp.Pagination.NextKey` behind the test for nil.
unfoldable pub page_next_key : Option Bytes → Bytes
page_next_key none = []
page_next_key (some key) = key

on_failure : Fetcher → Round → Bool → Turn
on_failure f r invalid_argument =
    if r.canceled_after
    then canceled
    else if f.resuming && invalid_argument
    then again (record { next_key = []; resuming = false })
    else if r.canceled_waiting
    then canceled
    else again f

on_answer : Fetcher → Round → List OrderId → Bytes → Turn
on_answer f r orders next =
    let page : Page = record { orders = orders; key = f.next_key; last = is_empty next } in
    if r.canceled_after
    then canceled
    else if not (is_empty next) && next == f.next_key
    then repeated next
    else if r.canceled_waiting
    then canceled
    else if is_empty next
    then last_page page
    else next_page page (record { next_key = next; resuming = false })

on_reply : Fetcher → Round → Reply → Turn
unfolding on_failure on_answer page_next_key
on_reply f r (failed invalid_argument) = on_failure f r invalid_argument
on_reply f r (answered orders pagination) = on_answer f r orders (page_next_key pagination)

-- One round of the loop of `ordersFetcher`.
unfoldable pub fetch_round : Fetcher → Round → Turn
unfolding on_reply
fetch_round f r = if r.canceled_before then canceled else on_reply f r (r.node f.next_key)

-- How the goroutine stands behind some rounds: it goes on, it was canceled, the node repeated a
-- key, or it has sent the last page.
pub data Ending : Type 0 where
  fetching : Fetcher → Ending
  stopped : Ending
  failing : Bytes → Ending
  finished : Ending

pub record Fetched : Type 0 where
  pub pages : List Page
  pub ending : Ending

-- What follows a round, where the loop goes on.
unfoldable pub carry_on : Turn → (Fetcher → Fetched) → Fetched
carry_on (again f) loop = loop f
carry_on (next_page page f) loop =
    let rest = loop f in record { pages = page ∷ rest.pages; ending = rest.ending }
carry_on (last_page page) loop = record { pages = page ∷ []; ending = finished }
carry_on canceled loop = record { pages = []; ending = stopped }
carry_on (repeated key) loop = record { pages = []; ending = failing key }

-- The loop of `ordersFetcher` over the rounds it makes.
unfoldable pub fetch : Fetcher → List Round → Fetched
unfolding fetch_round carry_on
fetch f [] = record { pages = []; ending = fetching f }
fetch f (r ∷ rs) = carry_on (fetch_round f r) (λ g. fetch g rs)
