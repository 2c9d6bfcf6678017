-- ===== src/BidEngine/Order/Bids.antt =====
-- Which bids a run of an order sends.
use provider.Base.{
  ℕ, ◌+◌, ◌≤◌, ◌≡◌, refl, ap, inl, inr, Bool, true, false, List, [], ◌∷◌, ◌++◌, arith,
  if◌then◌else◌, Bool-cases, ℕ-eq, Bytes-eq,
}
use provider.BidEngine.Order.{
  Order, State, Next, Effect, create_bid, nil_group_panic, Event, shutdown, query_bid, query_found,
  query_failed, lease_created, order_closed, bid_closed, other_event, group_result,
  should_bid_result, cluster_result, price_result, bid_result, timeout, start, handle, enabled, run,
  Fits,
}
use provider.BidEngine.Order.Pipeline.{count, before_bid, Inv, start-Inv, handle-Inv}

abbrev pub is_bid : Effect → Bool
is_bid (create_bid p) = true
is_bid _ = false

abbrev pub is_panic : Effect → Bool
is_panic nil_group_panic = true
is_panic _ = false

abbrev pub bids : List Effect → ℕ
bids [] = 0
bids (e ∷ es) = count (is_bid e) + bids es

abbrev pub panics : List Effect → ℕ
panics [] = 0
panics (e ∷ es) = count (is_panic e) + panics es

bids-append : (xs ys : List Effect) → bids (xs ++ ys) ≡ bids xs + bids ys
bids-append [] ys = omega arith
bids-append (x ∷ xs) ys = omega (arith, bids-append xs ys)

panics-append : (xs ys : List Effect) → panics (xs ++ ys) ≡ panics xs + panics ys
panics-append [] ys = omega arith
panics-append (x ∷ xs) ys = omega (arith, panics-append xs ys)

-- What is left of the stages before the bid, 0 behind the end of the loop.
abbrev left : Next → ℕ
left n = if n.running then before_bid n.state else 0

handle-bids :
    (o : Order) (s : State) (e : Event)
    → Inv s
    → enabled s e ≡ true
    → (bids (handle o s e).effects + left (handle o s e) ≤ before_bid s)
      × (panics (handle o s e).effects ≡ 0)
unfolding handle enabled
handle-bids o s shutdown v en = ground arith
handle-bids o s (query_bid (query_found b)) v en = ground arith
handle-bids o s (query_bid (query_failed b)) v en = ground arith
handle-bids o s (lease_created l p) v en = ground arith
handle-bids o s (order_closed oid) v en = ground arith
handle-bids o s (bid_closed l) v en = ground arith
handle-bids o s (group_result g) v en = ground arith
handle-bids o s (should_bid_result b) v en = ground arith
handle-bids o s (cluster_result c) v en = ground arith
handle-bids o s (price_result p) v en = ground arith
handle-bids o s (bid_result b) v en = ground arith
handle-bids o s timeout v en = ground arith
handle-bids o s other_event v en = ground arith

run-bids :
    (o : Order) (s : State) (es : List Event)
    → Inv s
    → Fits o s es
    → (bids (run o s es).effects ≤ before_bid s) × (panics (run o s es).effects ≡ 0)
unfolding run
run-bids o s [] v f = ground arith
run-bids o s (e ∷ es) v f = elim (Bool-cases (handle o s e).running) [
  | inl goes ↦
      let ih = run-bids o (handle o s e).state es (handle-Inv o s e v f.0 goes) f.2 in
      let one = handle-bids o s e v f.0 in
      rw goes (
        omega (
          arith,
          ih.0,
          one.0,
          ap (λ b. if b then before_bid (handle o s e).state else 0) goes,
          bids-append (handle o s e).effects (run o (handle o s e).state es).effects,
        ),
        omega (
          arith,
          ih.1,
          one.1,
          panics-append (handle o s e).effects (run o (handle o s e).state es).effects,
        ),
      )
  | inr ends ↦ let one = handle-bids o s e v f.0 in rw ends (omega (arith, one.0), one.1)
]

start_left : (check : Bool) → before_bid (start check) ≤ 1
unfolding start
start_left true = omega arith
start_left false = omega arith

-- Over any sequence of events that the channels allow, from the start of an order, it sends at
-- most one bid and never reads a nil group.
pub one_bid :
    (o : Order) (check : Bool) (es : List Event)
    → Fits o (start check) es
    → (bids (run o (start check) es).effects ≤ 1) × (panics (run o (start check) es).effects ≡ 0)
one_bid o check es f =
    let all = run-bids o (start check) es (start-Inv check) f in
    (omega (arith, all.0, start_left check), all.1)

-- An order whose bid is on the chain already.
handle-placed :
    (o : Order) (s : State) (e : Event)
    → Inv s
    → enabled s e ≡ true
    → s.bid_placed ≡ true
    → (bids (handle o s e).effects ≡ 0)
      × ((handle o s e).running ≡ true → (handle o s e).state.bid_placed ≡ true)
unfolding handle enabled
handle-placed o s shutdown v en b = ground arith
handle-placed o s (query_bid (query_found x)) v en b = ground arith
handle-placed o s (query_bid (query_failed x)) v en b = ground arith
handle-placed o s (lease_created l p) v en b = ground arith
handle-placed o s (order_closed oid) v en b = ground arith
handle-placed o s (bid_closed l) v en b = ground arith
handle-placed o s (group_result g) v en b = ground arith
handle-placed o s (should_bid_result x) v en b = ground arith
handle-placed o s (cluster_result c) v en b = ground arith
handle-placed o s (price_result p) v en b = ground arith
handle-placed o s (bid_result x) v en b = ground arith
handle-placed o s timeout v en b = ground arith
handle-placed o s other_event v en b = ground arith

-- From a state that keeps the order's invariant and whose bid is placed, by this run or found on
-- the chain, no other bid is sent.
pub placed-no_bid :
    (o : Order) (s : State) (es : List Event)
    → Inv s
    → Fits o s es
    → s.bid_placed ≡ true
    → bids (run o s es).effects ≡ 0
unfolding run
placed-no_bid o s [] v f b = refl
placed-no_bid o s (e ∷ es) v f b =
    let one = handle-placed o s e v f.0 b in
    elim (Bool-cases (handle o s e).running) [
      | inl goes ↦ rw goes (
          omega (
            arith,
            one.0,
            placed-no_bid o (handle o s e).state es (handle-Inv o s e v f.0 goes) f.2 (one.1 goes),
            bids-append (handle o s e).effects (run o (handle o s e).state es).effects,
          ))
      | inr ends ↦ rw ends one.0
    ]
