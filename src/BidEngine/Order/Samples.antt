-- ===== src/BidEngine/Order/Samples.antt =====
-- An order that is won, one that is lost while the bid is being sent, and the theorems at them.
use provider.Base.{
  ℕ, ◌≤◌, ◌≡◌, refl, true, false, none, some, List, [], ◌∷◌, ◌++◌, arith, if◌then◌else◌, ℕ-eq,
  Bytes, Bytes-eq, codes, Each,
}
use provider.Ids.{OrderId, LeaseId, OrderId-eq, LeaseId-eq}
use provider.Base.Int.{pos, sub_int64, scale_int64}
use provider.BidEngine.Order.{
  publish_lease_won, create_bid, price_result, calculate_price, cluster_result, query_found,
  reserve, should_bid_result, bid_open, query_bid, finish, lease_created, check_should_bid, Fits,
  bid_result, group_result, enabled, handle, match_bid_not_found, run, start, Event, Group, DecCoin,
  Order, State,
}
use provider.BidEngine.Order.Pipeline.{start-Inv, count, Inv}
use provider.BidEngine.Order.Bids.{one_bid, panics, bids}
use provider.BidEngine.Order.Price.{run-IsAffordable, IsAffordable}
use provider.BidEngine.Order.Cleanup.{
  ends_balanced, obtained_all, with_pending, to_list, released, announcements,
}

abbrev oid : OrderId
oid = record { owner = codes "tenant"; dseq = 100; gseq = 1; oseq = 1 }

abbrev lease_to : Bytes → LeaseId
lease_to provider = record {
  owner = codes "tenant";
  dseq = 100;
  gseq = 1;
  oseq = 1;
  provider = provider;
}

abbrev order : Order
order = record {
  order_id = oid;
  bid_timeout_config = pos 300_000_000_000;
  provider_address = codes "me";
  provider_text = codes "owner: me";
  created_at_height = pos 5000;
}

abbrev coin : ℕ → DecCoin
coin n = record { denom = codes "uakt"; amount = n }

abbrev group : Group
group = record { max_price = coin 10 }

abbrev sent : List Event
sent =
    group_result (some group)
    ∷ should_bid_result (some true)
    ∷ cluster_result (some oid)
    ∷ price_result (some (coin 7))
    ∷ []

abbrev won : List Event
won = sent ++ bid_result true ∷ lease_created (lease_to (codes "me")) (coin 7) ∷ []

sent-Fits : Fits order (start false) sent
unfolding start handle enabled
sent-Fits = (refl, refl, (refl, refl, (refl, refl, (refl, tt, tt))))

won_effects :
    (run order (start false) won).effects
    ≡ check_should_bid
      ∷ reserve oid
      ∷ calculate_price
      ∷ create_bid (coin 7)
      ∷ publish_lease_won (lease_to (codes "me")) (some group) (coin 7)
      ∷ []
unfolding run start handle
won_effects = refl

expression_matches :
    (match_bid_not_found (codes "rpc error: bid not found: x") ≡ true)
    × (match_bid_not_found (codes "bid not found") ≡ false)
unfolding match_bid_not_found
expression_matches = (refl, refl)

one_bid_example :
    (bids (run order (start false) sent).effects ≤ 1)
    × (panics (run order (start false) sent).effects ≡ 0)
one_bid_example = one_bid order false sent sent-Fits

run-IsAffordable_example :
    Each
      (IsAffordable (run order (start false) sent).state.group)
      (run order (start false) sent).effects
run-IsAffordable_example = run-IsAffordable order (start false) sent (start-Inv false) sent-Fits

ends_balanced_example :
    let n = run order (start false) sent in
    let all = n.effects ++ finish n.state none in
    (announcements all ≡ count n.state.won)
    × (released all ≡ (
        if n.state.won
        then []
        else to_list (with_pending n.state.clusterch none (obtained_all none sent))))
ends_balanced_example = ends_balanced order false sent none sent-Fits

-- The bid is being sent.
abbrev sending : State
sending = record {
  groupch = false;
  stored_groupch = false;
  clusterch = false;
  bidch = true;
  pricech = false;
  query_bidch = false;
  should_bidch = false;
  bid_timeout = false;
  group = some group;
  reservation = some oid;
  won = false;
  bid_placed = false;
}

sending_reached : (run order (start false) sent).state ≡ sending
unfolding run start handle
sending_reached = refl

sending-Inv : Inv sending
sending-Inv = ground arith

-- An open bid was found on the chain.
abbrev found : State
found = record sending {
  bidch = false;
  bid_placed = true;
  bid_timeout = true;
  groupch = true;
  group = none;
  reservation = none;
}

found-Inv : Inv found
found-Inv = ground arith

found_reached :
    (run order
      (start true)
      (query_bid (query_found (record { state = bid_open; created_at = pos 10 })) ∷ [])).state
    ≡ found
unfolding run start handle sub_int64 scale_int64
found_reached = refl
