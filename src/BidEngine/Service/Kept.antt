-- ===== src/BidEngine/Service/Kept.antt =====
-- bidengine/service.go: the orders that the service keeps are a map, and drain one by one.
use provider.Base.{
  ℕ, suc, ◌+◌, ◌≡◌, refl, Bool, true, Option, none, some, List, [], ◌∷◌, arith, if_intro, ℕ-eq,
  Bytes-eq, length,
}
use provider.Base.Map.{get, IsMap, IsMap-put, IsMap-delete, length-delete}
use provider.Ids.{OrderId, OrderId-eq, LeaseId-eq}
use provider.BidEngine.Fetcher.{Turn, finished, stopped}
use provider.BidEngine.Service.{
  attributes_done, enabled, running, Fits, Phase, on_turn, handle_in, handle, ended, run, draining,
  signal, status_query, other_event, failing, shutdown, order_created, fetch_round, page_received,
  fetching, fetched, Ending, received, drained, Round, process_orders_page, Page, catch_up,
  order_done, handle_draining, handle_running, on_order_created, on_fetched, on_page, end_page,
  catch_up_all, present, State, Event, Next,
}
use provider.BidEngine.Service.Monitors.{on_attributes_done-orders, drained-orders, on_turn-orders}

-- The monitors that are done.
abbrev pub dones : List Event → ℕ
dones [] = 0
dones (order_done o ∷ es) = suc (dones es)
dones (e ∷ es) = dones es

unfoldable pub IsKept : State → Type 0
IsKept s = IsMap s.orders

catch_up_all-IsKept :
    (fails : OrderId → Bool) (os : List OrderId) (s : State)
    → IsKept s
    → IsKept (catch_up_all fails os s).after
unfolding IsKept catch_up_all catch_up
catch_up_all-IsKept fails [] s h = h
catch_up_all-IsKept fails (o ∷ os) s h = catch_up_all-IsKept fails os (catch_up fails s o).after (
    if_intro (λ (n : Next). IsKept n.after) (present (get o s.orders)) _ _ h
      (if_intro (λ (n : Next). IsKept n.after) (fails o) _ _ h (IsMap-put o tt s.orders h)))

end_page-IsKept :
    (can : Bool) (page : Page) (s : State) → IsKept s → IsKept (end_page can page s).after
unfolding IsKept end_page
end_page-IsKept can page s h = ground (arith, h)

on_page-IsKept :
    (fails : OrderId → Bool) (can : Bool) (s : State) (pages : List Page)
    → IsKept s
    → IsKept (on_page fails can s pages).after
unfolding on_page process_orders_page IsKept
on_page-IsKept fails can s [] h = h
on_page-IsKept fails can s (page ∷ pages) h =
    end_page-IsKept can page (catch_up_all fails page.orders (record s { queue = pages })).after
      (catch_up_all-IsKept fails page.orders (record s { queue = pages }) h)

pub on_fetched-orders : (s : State) (r : Round) (e : Ending) → (on_fetched s r e).orders ≡ s.orders
unfolding on_fetched
on_fetched-orders s r (fetching f) = on_turn-orders s (fetch_round f r)
on_fetched-orders s r stopped = refl
on_fetched-orders s r finished = refl
on_fetched-orders s r (failing key) = refl

kept : (s t : State) → t.orders ≡ s.orders → IsKept s → IsKept t
unfolding IsKept
kept s t e h = rw e h

on_order_created-IsKept :
    (s : State) (o : OrderId) (fails : Bool) → IsKept s → IsKept (on_order_created s o fails).after
unfolding IsKept on_order_created
on_order_created-IsKept s o fails h = ground (arith, h, IsMap-put o tt s.orders h)

running-IsKept : (s : State) (e : Event) → IsKept s → IsKept (handle_running s e).after
unfolding handle_running IsKept
running-IsKept s shutdown h = kept s (drained s) (drained-orders s) h
running-IsKept s (fetched r) h =
    kept s (on_fetched s r s.fetcher) (on_fetched-orders s r s.fetcher) h
running-IsKept s (page_received fails can) h = on_page-IsKept fails can s s.queue h
running-IsKept s (order_created o fails) h = on_order_created-IsKept s o fails h
running-IsKept s (order_done o) h = IsMap-delete o s.orders h
running-IsKept s other_event h = h
running-IsKept s status_query h = h
running-IsKept s attributes_done h = h
running-IsKept s signal h = h

-- While the service drains it keeps its orders but for those done, one less for each.
unfoldable pub Drains : State → Event → State → Type 0
Drains s e t = IsKept t × (length t.orders + dones (e ∷ []) ≡ length s.orders)

some_of_present : (u : Option (Unit {0})) → present u ≡ true → (v : Unit {0}) × (u ≡ some v)
some_of_present none h = absurd (ground (arith, h))
some_of_present (some v) h = (v, refl)

pub draining-Drains :
    (s : State) (e : Event)
    → IsKept s
    → received s e ≡ true
    → Drains s e (handle_draining s e).after
unfolding handle_draining received IsKept Drains
draining-Drains s (order_done o) h en =
    let found : (u : Unit {0}) × (get o s.orders ≡ some u) = some_of_present (get o s.orders) en in
    (IsMap-delete o s.orders h, length-delete o found.0 s.orders h found.1)
draining-Drains s attributes_done h en = rw (on_attributes_done-orders s) (h, omega arith)
draining-Drains s (fetched r) h en = rw (on_fetched-orders s r s.fetcher) (h, omega arith)
draining-Drains s shutdown h en = (h, omega arith)
draining-Drains s (page_received fails can) h en = (h, omega arith)
draining-Drains s (order_created o fails) h en = (h, omega arith)
draining-Drains s other_event h en = (h, omega arith)
draining-Drains s status_query h en = (h, omega arith)
draining-Drains s signal h en = (h, omega arith)

on_turn-phase : (s : State) (t : Turn) → (on_turn s t).phase ≡ s.phase
unfolding on_turn
on_turn-phase s t = ground arith

pub on_fetched-phase : (s : State) (r : Round) (e : Ending) → (on_fetched s r e).phase ≡ s.phase
unfolding on_fetched
on_fetched-phase s r (fetching f) = on_turn-phase s (fetch_round f r)
on_fetched-phase s r stopped = refl
on_fetched-phase s r finished = refl
on_fetched-phase s r (failing key) = refl

handle_in-IsKept :
    (phase : Phase) (s : State) (e : Event)
    → IsKept s
    → received s e ≡ true
    → IsKept (handle_in phase s e).after
unfolding handle_in Drains
handle_in-IsKept running s e k en = running-IsKept s e k
handle_in-IsKept draining s e k en = (draining-Drains s e k en).0
handle_in-IsKept ended s e k en = k

pub run-IsKept : (s : State) (es : List Event) → Fits s es → IsKept s → IsKept (run s es).after
unfolding run handle enabled
run-IsKept s [] fits k = k
run-IsKept s (e ∷ es) fits k =
    run-IsKept (handle s e).after es fits.1
      (handle_in-IsKept s.phase s e k (ground (arith, fits.0)))
