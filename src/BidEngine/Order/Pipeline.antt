-- ===== src/BidEngine/Order/Pipeline.antt =====
-- The stages of an order: what each open channel implies about the other variables of `run`.
use provider.Base.{ℕ, ◌+◌, ◌≤◌, ◌≡◌, Bool, true, false, ◌||◌, none, some, arith, ℕ-eq, Bytes-eq}
use provider.BidEngine.Order.{
  Order, State, Event, shutdown, query_bid, query_found, query_failed, lease_created, order_closed,
  bid_closed, other_event, group_result, should_bid_result, cluster_result, price_result,
  bid_result, timeout, start, handle, enabled,
}

abbrev pub count : Bool → ℕ
count true = 1
count false = 0

-- How many runners of the pipeline have yet to send their result.
abbrev pub open_runners : State → ℕ
open_runners s =
    count s.query_bidch
    + count s.groupch
    + count s.should_bidch
    + count s.clusterch
    + count s.pricech
    + count s.bidch

-- The stages before the bid is sent.
abbrev pub before_bid : State → ℕ
before_bid s =
    count s.query_bidch
    + count s.groupch
    + count s.should_bidch
    + count s.clusterch
    + count s.pricech

abbrev pub has_group : State → Bool
has_group s = elim s.group [ none ↦ false | some g ↦ true ]

abbrev pub has_reservation : State → Bool
has_reservation s = elim s.reservation [ none ↦ false | some g ↦ true ]

-- What holds whenever the loop waits.
pub record Inv (s : State) : Type 0 where
  pub one_runner : open_runners s ≤ 1
  pub group_hidden : s.stored_groupch ≡ s.query_bidch
  pub group_known :
      s.should_bidch || s.clusterch || s.pricech || s.bidch ≡ true → has_group s ≡ true
  pub reserved : s.pricech || s.bidch ≡ true → has_reservation s ≡ true
  pub not_reserved :
      s.query_bidch || s.groupch || s.should_bidch || s.clusterch ≡ true → has_reservation s ≡ false
  pub bid_pending : s.pricech || s.bidch ≡ true → s.bid_placed ≡ false
  pub timeout_placed : s.bid_timeout ≡ true → s.bid_placed ≡ true
  pub not_won : s.won ≡ false

pub start-Inv : (check : Bool) → Inv (start check)
unfolding start
start-Inv true = ground arith
start-Inv false = ground arith

pub handle-Inv :
    (o : Order) (s : State) (e : Event)
    → Inv s
    → enabled s e ≡ true
    → (handle o s e).running ≡ true
    → Inv (handle o s e).state
unfolding handle enabled
handle-Inv o s shutdown v en r = absurd (cc r)
handle-Inv o s (query_bid (query_found b)) v en r = ground arith
handle-Inv o s (query_bid (query_failed b)) v en r = ground arith
handle-Inv o s (lease_created l p) v en r = ground arith
handle-Inv o s (order_closed oid) v en r = ground arith
handle-Inv o s (bid_closed l) v en r = ground arith
handle-Inv o s (group_result g) v en r = ground arith
handle-Inv o s (should_bid_result b) v en r = ground arith
handle-Inv o s (cluster_result c) v en r = ground arith
handle-Inv o s (price_result p) v en r = ground arith
handle-Inv o s (bid_result b) v en r = ground arith
handle-Inv o s timeout v en r = absurd (cc r)
handle-Inv o s other_event v en r = v
