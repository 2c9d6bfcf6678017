-- ===== src/BidEngine/Order/Cleanup.antt =====
-- The end of an order: what is released and closed behind the loop.
use provider.Base.{
  ℕ, suc, ◌+◌, ◌≡◌, refl, ap, ◌∙◌, ◌≢◌, ◌⊎◌, inl, inr, Bool, true, false, ◌||◌, Option, none, some,
  List, [], ◌∷◌, ◌++◌, arith, if◌then◌else◌, if_intro, Bool-cases, ℕ-eq, bytes_eq_iff, Bytes-eq,
}
use provider.Ids.{OrderId, LeaseId, order_of, same_group, order_eq_iff}
use provider.BidEngine.Order.{
  Order, State, DecCoin, Effect, publish_lease_won, unreserve, close_bid, Event, shutdown,
  query_bid, query_found, query_failed, lease_created, order_closed, bid_closed, other_event,
  group_result, should_bid_result, cluster_result, price_result, bid_result, timeout, start, handle,
  run, Fits, finish, Next, extend, check_should_bid, reserve, calculate_price, create_bid,
  nil_group_panic,
}
use provider.BidEngine.Order.Pipeline.{count, Inv, start-Inv, handle-Inv}

-- The reservation that the events of a run have brought.
abbrev pub obtained : Option OrderId → Event → Option OrderId
obtained r (cluster_result (some x)) = some x
obtained r _ = r

abbrev pub obtained_all : Option OrderId → List Event → Option OrderId
obtained_all r [] = r
obtained_all r (e ∷ es) = obtained_all (obtained r e) es

handle-reservation :
    (o : Order) (s : State) (e : Event)
    → (handle o s e).state.reservation ≡ obtained s.reservation e
unfolding handle
handle-reservation o s shutdown = refl
handle-reservation o s (query_bid (query_found x)) = ground arith
handle-reservation o s (query_bid (query_failed x)) = ground arith
handle-reservation o s (lease_created l p) = ground arith
handle-reservation o s (order_closed oid) = ground arith
handle-reservation o s (bid_closed l) = ground arith
handle-reservation o s (group_result g) = ground arith
handle-reservation o s (should_bid_result x) = ground arith
handle-reservation o s (cluster_result none) = refl
handle-reservation o s (cluster_result (some x)) = ground arith
handle-reservation o s (price_result p) = ground arith
handle-reservation o s (bid_result x) = ground arith
handle-reservation o s timeout = refl
handle-reservation o s other_event = refl

run-reservation :
    (o : Order) (s : State) (es : List Event)
    → Fits o s es
    → (run o s es).state.reservation ≡ obtained_all s.reservation es
unfolding run
run-reservation o s [] f = refl
run-reservation o s (e ∷ []) f = ground (arith, handle-reservation o s e)
run-reservation o s (e ∷ d ∷ es) f = rw f.1 (
    run-reservation o (handle o s e).state (d ∷ es) f.2
    ∙ ap (λ r. obtained_all r (d ∷ es)) (handle-reservation o s e))

-- Winning and its announcement.
abbrev pub is_announcement : Effect → Bool
is_announcement (publish_lease_won l g p) = true
is_announcement _ = false

abbrev pub announcements : List Effect → ℕ
announcements [] = 0
announcements (e ∷ es) = count (is_announcement e) + announcements es

announcements-append :
    (xs ys : List Effect) → announcements (xs ++ ys) ≡ announcements xs + announcements ys
announcements-append [] ys = omega arith
announcements-append (x ∷ xs) ys = omega (arith, announcements-append xs ys)

handle-won :
    (o : Order) (s : State) (e : Event)
    → s.won ≡ false
    → announcements (handle o s e).effects ≡ count (handle o s e).state.won
unfolding handle
handle-won o s shutdown w = ground arith
handle-won o s (query_bid (query_found x)) w = ground arith
handle-won o s (query_bid (query_failed x)) w = ground arith
handle-won o s (lease_created l p) w = ground arith
handle-won o s (order_closed oid) w = ground arith
handle-won o s (bid_closed l) w = ground arith
handle-won o s (group_result g) w = ground arith
handle-won o s (should_bid_result x) w = ground arith
handle-won o s (cluster_result c) w = ground arith
handle-won o s (price_result p) w = ground arith
handle-won o s (bid_result x) w = ground arith
handle-won o s timeout w = ground arith
handle-won o s other_event w = ground arith

run-won :
    (o : Order) (s : State) (es : List Event)
    → Inv s
    → Fits o s es
    → announcements (run o s es).effects ≡ count (run o s es).state.won
unfolding run
run-won o s [] v f = ground arith
run-won o s (e ∷ es) v f = elim (Bool-cases (handle o s e).running) [
  | inl goes ↦
      let next = handle-Inv o s e v f.0 goes in
      rw goes (
        omega (
          arith,
          run-won o (handle o s e).state es next f.2,
          handle-won o s e v.not_won,
          ap count next.not_won,
          announcements-append (handle o s e).effects (run o (handle o s e).state es).effects,
        ))
  | inr ends ↦ rw ends (handle-won o s e v.not_won)
]

-- The reservations that a list of effects gives back.
abbrev pub released : List Effect → List OrderId
released [] = []
released (unreserve r ∷ es) = r ∷ released es
released (_ ∷ es) = released es

abbrev pub closes : List Effect → ℕ
closes [] = 0
closes (close_bid ∷ es) = suc (closes es)
closes (_ ∷ es) = closes es

abbrev pub to_list : Option OrderId → List OrderId
to_list none = []
to_list (some r) = r ∷ []

-- What the last reservation of an order is, with the result of one that is still pending.
abbrev pub with_pending : Bool → Option OrderId → Option OrderId → Option OrderId
with_pending waits (some r) known = if waits then some r else known
with_pending waits none known = known

finish_parts :
    (s : State) (pending : Option OrderId)
    → (released (finish s pending)
        ≡ (if s.won then [] else to_list (with_pending s.clusterch pending s.reservation)))
      × (closes (finish s pending) ≡ (if s.won then 0 else count s.bid_placed))
unfolding finish
finish_parts s none = ground arith
finish_parts s (some r) = ground arith

released-append : (xs ys : List Effect) → released (xs ++ ys) ≡ released xs ++ released ys
released-append [] ys = refl
released-append (unreserve r ∷ xs) ys = ap (λ rs. r ∷ rs) (released-append xs ys)
released-append (publish_lease_won l g p ∷ xs) ys = released-append xs ys
released-append (check_should_bid ∷ xs) ys = released-append xs ys
released-append (reserve r ∷ xs) ys = released-append xs ys
released-append (calculate_price ∷ xs) ys = released-append xs ys
released-append (create_bid p ∷ xs) ys = released-append xs ys
released-append (close_bid ∷ xs) ys = released-append xs ys
released-append (nil_group_panic ∷ xs) ys = released-append xs ys

-- The loop itself gives nothing back.
handle-released : (o : Order) (s : State) (e : Event) → released (handle o s e).effects ≡ []
unfolding handle
handle-released o s shutdown = refl
handle-released o s (query_bid (query_found x)) = ground arith
handle-released o s (query_bid (query_failed x)) = ground arith
handle-released o s (lease_created l p) = ground arith
handle-released o s (order_closed oid) = ground arith
handle-released o s (bid_closed l) = ground arith
handle-released o s (group_result g) = ground arith
handle-released o s (should_bid_result x) = ground arith
handle-released o s (cluster_result c) = ground arith
handle-released o s (price_result p) = ground arith
handle-released o s (bid_result x) = ground arith
handle-released o s timeout = refl
handle-released o s other_event = refl

run-released : (o : Order) (s : State) (es : List Event) → released (run o s es).effects ≡ []
unfolding run
run-released o s [] = refl
run-released o s (e ∷ es) =
    let n = handle o s e in
    let rest = run o n.state es in
    if_intro (λ (m : Next). released m.effects ≡ []) n.running (extend n rest) n
      (released-append n.effects rest.effects
        ∙ rw (handle-released o s e) (run-released o n.state es))
      (handle-released o s e)

finish-quiet : (s : State) (pending : Option OrderId) → announcements (finish s pending) ≡ 0
unfolding finish
finish-quiet s none = ground arith
finish-quiet s (some r) = ground arith

-- However the loop of an order ends, the reservation that it obtained, in the loop or while it
-- waits at the end, is given back exactly once in the loop and the end together, and no other,
-- unless the lease was won; then it is kept, and the lease has been announced exactly once, and
-- otherwise never.
pub ends_balanced :
    (o : Order) (check : Bool) (es : List Event) (pending : Option OrderId)
    → Fits o (start check) es
    → let n = run o (start check) es in
      let all = n.effects ++ finish n.state pending in
      (announcements all ≡ count n.state.won)
      × (released all ≡ (
          if n.state.won
          then []
          else to_list (with_pending n.state.clusterch pending (obtained_all none es))))
unfolding start
ends_balanced o check es pending f =
    let n = run o (start check) es in
    let s = n.state in
    (
      omega (
        arith,
        announcements-append n.effects (finish s pending),
        run-won o (start check) es (start-Inv check) f,
        finish-quiet s pending,
      ),
      released-append n.effects (finish s pending)
          ∙ ap (λ rs. rs ++ released (finish s pending)) (run-released o (start check) es)
          ∙ (finish_parts s pending).0
          ∙ ap (λ r. if s.won then [] else to_list (with_pending s.clusterch pending r))
              (run-reservation o (start check) es f),
    )

-- When another provider wins the order, in a state that keeps its invariant, the loop ends and
-- the end closes the bid exactly once if it was placed or is still being sent, and closes nothing
-- otherwise.
pub lost-closes :
    (o : Order) (s : State) (lid : LeaseId) (price : DecCoin) (pending : Option OrderId)
    → Inv s
    → same_group o.order_id (order_of lid) ≡ true
    → lid.provider ≢ o.provider_address
    → ((handle o s (lease_created lid price)).running ≡ false)
      × (closes (finish (handle o s (lease_created lid price)).state pending)
          ≡ count (s.bid_placed || s.bidch))
unfolding handle
lost-closes o s lid price pending v same ne =
    let n = handle o s (lease_created lid price) in
    let parts = (finish_parts n.state pending).1 in
    ground (arith, v.not_won, parts, bytes_eq_iff lid.provider o.provider_address)

-- A shutdown or the closing of the order while the bid is being sent, in a state that keeps the
-- order's invariant, leads to an end that closes no bid.
pub stopped-open_bid :
    (o : Order) (s : State) (e : Event) (pending : Option OrderId)
    → Inv s
    → s.bidch ≡ true
    → (e ≡ shutdown) ⊎ (e ≡ order_closed o.order_id)
    → closes (finish (handle o s e).state pending) ≡ 0
unfolding handle
stopped-open_bid o s e pending v b (inl h) = rw h (ground (arith, (finish_parts s pending).1))
stopped-open_bid o s e pending v b (inr h) =
    rw h (ground (arith, (finish_parts s pending).1, order_eq_iff o.order_id o.order_id))
