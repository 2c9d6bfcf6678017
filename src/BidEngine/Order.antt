-- ===== src/BidEngine/Order.antt =====
-- bidengine/order.go: the life of one order, from its group query to its bid and its end.
-- Each channel that `run` selects on is a Boolean, true while the channel is not nil; an event is
-- one value that `run` receives. What `run` starts or publishes is an effect.
pub mod Pipeline
pub mod Bids
pub mod Price
pub mod Cleanup
pub mod Stale
mod Samples
use provider.Base.{
  ℕ, ◌+◌, ◌≡◌, Bool, true, false, not, ◌&&◌, ◌||◌, Option, none, some, List, [], ◌∷◌, ◌++◌, ltb,
  if◌then◌else◌, ◌==◌, ℕ-eq, Bytes, Bytes-eq, codes, length, contains,
}
use provider.Base.Int.{ℤ, pos, ltb_ℤ, sub_int64, scale_int64}
use provider.Ids.{OrderId, LeaseId, order_of, same_group, OrderId-eq}

-- `sdk.DecCoin`, its amount in units of the last decimal.
pub record DecCoin : Type 0 where
  pub denom : Bytes
  pub amount : ℕ

-- What `run` reads of a deployment group: its maximal price.
pub record Group : Type 0 where
  pub max_price : DecCoin

pub data BidState : Type 0 where
  bid_open bid_active bid_lost bid_closed_state : BidState

pub record Bid : Type 0 where
  pub state : BidState
  pub created_at : ℤ

-- The configuration and session of an order. `provider_text` is `session.Provider().String()`
-- and `provider_address` is `session.Provider().Address().String()`.
pub record Order : Type 0 where
  pub order_id : OrderId
  pub bid_timeout_config : ℤ
  pub provider_address : Bytes
  pub provider_text : Bytes
  pub created_at_height : ℤ

-- The local variables of `run`. `group` and `reservation` are nil at first.
pub record State : Type 0 where
  pub groupch : Bool
  pub stored_groupch : Bool
  pub clusterch : Bool
  pub bidch : Bool
  pub pricech : Bool
  pub query_bidch : Bool
  pub should_bidch : Bool
  pub bid_timeout : Bool
  pub group : Option Group
  pub reservation : Option OrderId
  pub won : Bool
  pub bid_placed : Bool

pub data Query : Type 0 where
  query_failed : Bytes → Query
  query_found : Bid → Query

-- A result of a runner is `none` if it carries an error.
pub data Event : Type 0 where
  shutdown : Event
  query_bid : Query → Event
  lease_created : LeaseId → DecCoin → Event
  order_closed : OrderId → Event
  bid_closed : LeaseId → Event
  other_event : Event
  group_result : Option Group → Event
  should_bid_result : Option Bool → Event
  cluster_result : Option OrderId → Event
  price_result : Option DecCoin → Event
  bid_result : Bool → Event
  timeout : Event

pub data Effect : Type 0 where
  publish_lease_won : LeaseId → Option Group → DecCoin → Effect
  check_should_bid : Effect
  reserve : OrderId → Effect
  calculate_price : Effect
  create_bid : DecCoin → Effect
  unreserve : OrderId → Effect
  close_bid : Effect
  nil_group_panic : Effect

-- The state after an event, whether the loop goes on, and the effects.
pub record Next : Type 0 where
  pub state : State
  pub running : Bool
  pub effects : List Effect

abbrev pub go : State → List Effect → Next
go s effects = record { state = s; running = true; effects = effects }

abbrev pub stop : State → List Effect → Next
stop s effects = record { state = s; running = false; effects = effects }

-- `matchBidNotFound`, the expression "^.+bid not found.+$". A dot matches all but a newline.
abbrev pub has_prefix : Bytes → Bytes → Bool
has_prefix s [] = true
has_prefix [] (c ∷ p) = false
has_prefix (d ∷ s) (c ∷ p) = d == c && has_prefix s p

-- The phrase stands somewhere in `s` with at least one byte behind it.
abbrev pub phrase_then_more : Bytes → Bytes → Bool
phrase_then_more phrase [] = false
phrase_then_more phrase (c ∷ s) =
    (has_prefix (c ∷ s) phrase && ltb (length phrase) (length (c ∷ s))) || phrase_then_more phrase s

abbrev pub newline : ℕ
newline = 10

pub match_bid_not_found : Bytes → Bool
match_bid_not_found [] = false
match_bid_not_found (c ∷ s) =
    not (contains (c ∷ s) newline) && phrase_then_more (codes "bid not found") s

pub bid_timeout_enabled : Order → Bool
bid_timeout_enabled o = ltb_ℤ (pos 0) o.bid_timeout_config

-- 5 * time.Second, in nanoseconds.
abbrev pub min_time_per_block : ℕ
min_time_per_block = 5_000_000_000

pub is_stale_bid : Order → Bid → Bool
unfolding bid_timeout_enabled
is_stale_bid o bid =
    if not (bid_timeout_enabled o)
    then false
    else let block_age = sub_int64 bid.created_at o.created_at_height in
      let at_least_this_old = scale_int64 min_time_per_block block_age in
      ltb_ℤ o.bid_timeout_config at_least_this_old

-- The state before the loop.
pub start : Bool → State
start check_for_existing_bid = record {
  groupch = not check_for_existing_bid;
  stored_groupch = check_for_existing_bid;
  clusterch = false;
  bidch = false;
  pricech = false;
  query_bidch = check_for_existing_bid;
  should_bidch = false;
  bid_timeout = false;
  group = none;
  reservation = none;
  won = false;
  bid_placed = false;
}

-- The query channel is not set to nil; its runner sends one result and closes no channel.
on_bid_found : Order → State → Bid → Next
unfolding is_stale_bid bid_timeout_enabled
on_bid_found o s bid = elim bid.state [
  | bid_open ↦
      if is_stale_bid o bid
      then stop (record s { bid_placed = true; query_bidch = false }) []
      else go
          (record s {
            bid_placed = true;
            bid_timeout = bid_timeout_enabled o;
            groupch = s.stored_groupch;
            stored_groupch = false;
            query_bidch = false;
          })
          []
  | _ ↦ stop (record s { query_bidch = false }) []
]

on_query_bid : Order → State → Query → Next
unfolding on_bid_found match_bid_not_found
on_query_bid o s (query_found bid) = on_bid_found o s bid
on_query_bid o s (query_failed text) =
    if match_bid_not_found text
    then go (record s { groupch = s.stored_groupch; stored_groupch = false; query_bidch = false })
        []
    else stop (record s { query_bidch = false }) []

on_lease_created : Order → State → LeaseId → DecCoin → Next
on_lease_created o s lid price =
    if not (same_group o.order_id (order_of lid))
    then go s []
    else if not (lid.provider == o.provider_address)
    then stop (record s { bid_placed = s.bid_placed || s.bidch }) []
    else stop (record s { won = true }) (publish_lease_won lid s.group price ∷ [])

on_order_closed : Order → State → OrderId → Next
on_order_closed o s oid = if not (oid == o.order_id) then go s [] else stop s []

on_bid_closed : Order → State → LeaseId → Next
on_bid_closed o s bid =
    if s.won
    then go s []
    else if not (same_group o.order_id (order_of bid))
    then go s []
    else if not (bid.provider == o.provider_text)
    then go s []
    else stop (record s { bid_placed = false }) []

on_group : State → Option Group → Next
on_group s none = stop (record s { groupch = false }) []
on_group s (some g) =
    go (record s { groupch = false; group = some g; should_bidch = true }) (check_should_bid ∷ [])

on_should_bid : Order → State → Option Bool → Next
on_should_bid o s none = stop (record s { should_bidch = false }) []
on_should_bid o s (some false) = stop (record s { should_bidch = false }) []
on_should_bid o s (some true) =
    go (record s { should_bidch = false; clusterch = true }) (reserve o.order_id ∷ [])

-- The pricing runner reads the group through its pointer.
on_cluster : State → Option Group → Option OrderId → Next
on_cluster s g none = stop (record s { clusterch = false }) []
on_cluster s g (some r) =
    let s' = record s { clusterch = false; reservation = some r } in
    if s.bid_placed then go s' [] else (elim g [
      | none ↦ stop s' (nil_group_panic ∷ [])
      | some _ ↦ go (record s' { pricech = true }) (calculate_price ∷ [])
    ])

on_price : State → Option Group → Option DecCoin → Next
on_price s g none = stop (record s { pricech = false }) []
on_price s none (some price) = stop (record s { pricech = false }) (nil_group_panic ∷ [])
on_price s (some g) (some price) =
    if not (g.max_price.denom == price.denom)
    then stop (record s { pricech = false }) []
    else if ltb g.max_price.amount price.amount
    then stop (record s { pricech = false }) []
    else go (record s { pricech = false; bidch = true }) (create_bid price ∷ [])

on_bid_result : Order → State → Bool → Next
unfolding bid_timeout_enabled
on_bid_result o s false = stop (record s { bidch = false }) []
on_bid_result o s true =
    go (record s { bidch = false; bid_placed = true; bid_timeout = bid_timeout_enabled o }) []

-- One round of the loop of `run`.
pub handle : Order → State → Event → Next
unfolding on_query_bid on_lease_created on_order_closed on_bid_closed on_group on_should_bid
    on_cluster on_price on_bid_result
handle o s shutdown = stop s []
handle o s (query_bid q) = on_query_bid o s q
handle o s (lease_created lid price) = on_lease_created o s lid price
handle o s (order_closed oid) = on_order_closed o s oid
handle o s (bid_closed bid) = on_bid_closed o s bid
handle o s other_event = go s []
handle o s (group_result r) = on_group s r
handle o s (should_bid_result r) = on_should_bid o s r
handle o s (cluster_result r) = on_cluster s s.group r
handle o s (price_result r) = on_price s s.group r
handle o s (bid_result r) = on_bid_result o s r
handle o s timeout = stop s []

-- A nil channel is never received from.
pub enabled : State → Event → Bool
enabled s (query_bid q) = s.query_bidch
enabled s (group_result r) = s.groupch
enabled s (should_bid_result r) = s.should_bidch
enabled s (cluster_result r) = s.clusterch
enabled s (price_result r) = s.pricech
enabled s (bid_result r) = s.bidch
enabled s timeout = s.bid_timeout
enabled s _ = true

-- The effects of a round come before those of the rounds behind it.
abbrev pub extend : Next → Next → Next
extend n rest = record rest { effects = n.effects ++ rest.effects }

-- The loop over a sequence of events.
pub run : Order → State → List Event → Next
run o s [] = go s []
run o s (e ∷ es) =
    let n = handle o s e in let rest = run o n.state es in if n.running then extend n rest else n

-- Each event of the sequence can be received, and none follows the end of the loop.
abbrev pub Fits : Order → State → List Event → Type 0
Fits o s [] = Unit
Fits o s (e ∷ es) =
    (enabled s e ≡ true)
    × (elim es [ [] ↦ Unit {0} | _ ∷ _ ↦ (handle o s e).running ≡ true ])
    × Fits o (handle o s e).state es

-- The reservation that the end of `run` knows of: it waits for a pending one.
final_reservation : State → Option OrderId → Option OrderId
final_reservation s pending =
    if s.clusterch then (elim pending [ some r ↦ some r | none ↦ s.reservation ]) else s.reservation

-- What `run` does behind its loop. `pending` is the result of a pending reservation.
pub finish : State → Option OrderId → List Effect
unfolding final_reservation
finish s pending =
    if s.won
    then []
    else (elim (final_reservation s pending) [ some r ↦ unreserve r ∷ [] | none ↦ [] ])
      ++ (if s.bid_placed then close_bid ∷ [] else [])
