-- ===== src/BidEngine/Order/Price.antt =====
-- The price of the bids that a run of an order sends.
use provider.Base.{
  ◌≤◌, ◌≡◌, refl, sym, ap, ◌∙◌, ◌⊎◌, inl, inr, Bool, true, false, not, ◌||◌, Option, none, some,
  List, [], ◌∷◌, arith, ltb, if◌then◌else◌, Bool-cases, ℕ-eq, bytes_eq, bytes_eq_iff, Bytes-eq,
  Each, Each-append,
}
use mathlib.Core.Path.{subst}
use provider.BidEngine.Order.{
  Order, State, DecCoin, Group, Next, Effect, publish_lease_won, check_should_bid, reserve,
  calculate_price, create_bid, unreserve, close_bid, nil_group_panic, Event, shutdown, query_bid,
  query_found, query_failed, lease_created, order_closed, bid_closed, other_event, group_result,
  should_bid_result, cluster_result, price_result, bid_result, timeout, handle, enabled, run, Fits,
  on_price, extend,
}
use provider.BidEngine.Order.Pipeline.{Inv, handle-Inv}
use provider.BidEngine.Order.Bids.{bids}

-- Against the group that was fetched: a bid has the denomination of its maximal price and does
-- not exceed it.
abbrev pub IsAffordable : Option Group → Effect → Type 0
IsAffordable none (create_bid p) = ⊥
IsAffordable (some g) (create_bid p) =
    (g.max_price.denom ≡ p.denom) × (p.amount ≤ g.max_price.amount)
IsAffordable g (publish_lease_won l h p) = Unit
IsAffordable g check_should_bid = Unit
IsAffordable g (reserve r) = Unit
IsAffordable g calculate_price = Unit
IsAffordable g (unreserve r) = Unit
IsAffordable g close_bid = Unit
IsAffordable g nil_group_panic = Unit

-- Past the group query the group does not change.
abbrev settled : State → Bool
settled s = not (s.query_bidch || s.groupch)

handle-settled :
    (o : Order) (s : State) (e : Event)
    → Inv s
    → enabled s e ≡ true
    → settled s ≡ true
    → ((handle o s e).state.group ≡ s.group)
      × ((handle o s e).running ≡ true → settled (handle o s e).state ≡ true)
unfolding handle enabled
handle-settled o s shutdown v en b = ground arith
handle-settled o s (query_bid x) v en b = ground arith
handle-settled o s (lease_created l p) v en b = ground arith
handle-settled o s (order_closed oid) v en b = ground arith
handle-settled o s (bid_closed l) v en b = ground arith
handle-settled o s (group_result g) v en b = ground arith
handle-settled o s (should_bid_result x) v en b = ground arith
handle-settled o s (cluster_result c) v en b = ground arith
handle-settled o s (price_result p) v en b = ground arith
handle-settled o s (bid_result x) v en b = ground arith
handle-settled o s timeout v en b = ground arith
handle-settled o s other_event v en b = ground arith

run-settled :
    (o : Order) (s : State) (es : List Event)
    → Inv s
    → Fits o s es
    → settled s ≡ true
    → (run o s es).state.group ≡ s.group
unfolding run
run-settled o s [] v f b = refl
run-settled o s (e ∷ es) v f b =
    let one = handle-settled o s e v f.0 b in
    elim (Bool-cases (handle o s e).running) [
      | inl goes ↦ rw goes (
          run-settled o (handle o s e).state es (handle-Inv o s e v f.0 goes) f.2 (one.1 goes)
          ∙ one.0)
      | inr ends ↦ rw ends one.0
    ]

no_bid-IsAffordable : (g : Option Group) (xs : List Effect) → bids xs ≡ 0 → Each (IsAffordable g) xs
no_bid-IsAffordable g [] h = tt
no_bid-IsAffordable g (create_bid p ∷ xs) h = absurd (omega arith)
no_bid-IsAffordable g (publish_lease_won l w p ∷ xs) h =
    (tt, no_bid-IsAffordable g xs (omega arith))
no_bid-IsAffordable g (check_should_bid ∷ xs) h = (tt, no_bid-IsAffordable g xs (omega arith))
no_bid-IsAffordable g (reserve r ∷ xs) h = (tt, no_bid-IsAffordable g xs (omega arith))
no_bid-IsAffordable g (calculate_price ∷ xs) h = (tt, no_bid-IsAffordable g xs (omega arith))
no_bid-IsAffordable g (unreserve r ∷ xs) h = (tt, no_bid-IsAffordable g xs (omega arith))
no_bid-IsAffordable g (close_bid ∷ xs) h = (tt, no_bid-IsAffordable g xs (omega arith))
no_bid-IsAffordable g (nil_group_panic ∷ xs) h = (tt, no_bid-IsAffordable g xs (omega arith))

-- A round either sends no bid, or is past the group query and its bid is affordable.
abbrev BidsWell : State → Next → Type 0
BidsWell s n =
    (bids n.effects ≡ 0)
    ⊎ ((settled s ≡ true) × (n.running ≡ true) × Each (IsAffordable s.group) n.effects)

on_price-BidsWell :
    (s : State) (g : Option Group) (price : DecCoin)
    → s.group ≡ g
    → settled s ≡ true
    → BidsWell s (on_price s g (some price))
unfolding on_price
on_price-BidsWell s none price e b = inl refl
on_price-BidsWell s (some g) price e b =
    elim (Bool-cases (bytes_eq g.max_price.denom price.denom)) [
      | inr ne ↦ rw ne (inl refl)
      | inl same ↦ elim (Bool-cases (ltb g.max_price.amount price.amount)) [
        | inl less ↦ rw (same, less) (inl refl)
        | inr fits ↦
            rw (same, fits, e)
              (inr (
                b,
                refl,
                (((bytes_eq_iff g.max_price.denom price.denom).0 same, ground arith), tt),
              ))
      ]
    ]

handle-BidsWell :
    (o : Order) (s : State) (e : Event) → Inv s → enabled s e ≡ true → BidsWell s (handle o s e)
unfolding handle enabled
handle-BidsWell o s (price_result none) v en = inl refl
handle-BidsWell o s (price_result (some price)) v en =
    on_price-BidsWell s s.group price refl (ground arith)
handle-BidsWell o s shutdown v en = inl refl
handle-BidsWell o s (query_bid (query_found b)) v en = inl (ground arith)
handle-BidsWell o s (query_bid (query_failed b)) v en = inl (ground arith)
handle-BidsWell o s (lease_created l p) v en = inl (ground arith)
handle-BidsWell o s (order_closed oid) v en = inl (ground arith)
handle-BidsWell o s (bid_closed l) v en = inl (ground arith)
handle-BidsWell o s (group_result g) v en = inl (ground arith)
handle-BidsWell o s (should_bid_result b) v en = inl (ground arith)
handle-BidsWell o s (cluster_result c) v en = inl (ground arith)
handle-BidsWell o s (bid_result b) v en = inl (ground arith)
handle-BidsWell o s timeout v en = inl refl
handle-BidsWell o s other_event v en = inl refl

-- A round of the loop.
module _ (o : Order) (s : State) (e : Event) (es : List Event) where
  rounds : Bool → Next
  rounds b = if b then extend (handle o s e) (run o (handle o s e).state es) else handle o s e

  run-rounds : run o s (e ∷ es) ≡ rounds (handle o s e).running
  unfolding run rounds
  run-rounds = refl

  run_goes :
      (handle o s e).running ≡ true
      → run o s (e ∷ es) ≡ extend (handle o s e) (run o (handle o s e).state es)
  unfolding rounds
  run_goes h = run-rounds ∙ ap rounds h

  run_ends : (handle o s e).running ≡ false → run o s (e ∷ es) ≡ handle o s e
  unfolding rounds
  run_ends h = run-rounds ∙ ap rounds h

-- From a state that keeps the order's invariant, every bid sent has the denomination of the
-- fetched group's maximal price and does not exceed it.
pub run-IsAffordable :
    (o : Order) (s : State) (es : List Event)
    → Inv s
    → Fits o s es
    → Each (IsAffordable (run o s es).state.group) (run o s es).effects
run-IsAffordable o s [] v f = unfold run in tt
run-IsAffordable o s (e ∷ es) v f = elim (Bool-cases (handle o s e).running) [
  | inl goes ↦
      let next = handle-Inv o s e v f.0 goes in
      let rest = run o (handle o s e).state es in
      subst (λ (n : Next). Each (IsAffordable n.state.group) n.effects)
        (sym (run_goes o s e es goes))
        (Each-append (IsAffordable rest.state.group) (handle o s e).effects rest.effects
          (elim (handle-BidsWell o s e v f.0) [
            | inl quiet ↦ no_bid-IsAffordable rest.state.group (handle o s e).effects quiet
            | inr (past, _, well) ↦
                let one = handle-settled o s e v f.0 past in
                subst (λ g. Each (IsAffordable g) (handle o s e).effects)
                  (sym (run-settled o (handle o s e).state es next f.2 (one.1 goes) ∙ one.0)) well
          ])
          (run-IsAffordable o (handle o s e).state es next f.2))
  | inr ends ↦
      subst (λ (n : Next). Each (IsAffordable n.state.group) n.effects)
        (sym (run_ends o s e es ends))
        (elim (handle-BidsWell o s e v f.0) [
          | inl quiet ↦ no_bid-IsAffordable _ (handle o s e).effects quiet
          | inr (past, on, well) ↦ absurd (cc (sym on ∙ ends))
        ])
]
