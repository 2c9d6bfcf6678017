-- ===== src/BidEngine/Service/Catchup.antt =====
-- bidengine/service.go: what is known of the open orders once their key is persisted.
use provider.Base.{
  ◌≡◌, refl, sym, Bool, true, false, Option, List, [], ◌∷◌, ◌++◌, arith, nat_eq, if_intro, ℕ-eq,
  Bytes, Bytes-eq, length, Each,
}
use provider.Base.Map.{Map, get, delete, get-delete}
use provider.Ids.{OrderId, OrderId-eq, LeaseId-eq}
use provider.Base.Trace.{began_in}
use provider.BidEngine.Fetcher.{start_fetcher, fetch}
use provider.BidEngine.Service.{
  stop_attributes, attributes_done, on_attributes_done, ended, signal, draining, status_query,
  running, other_event, shutdown, enabled, is_on, try_signal, order_done, Fits, handle, Phase,
  order_created, start, run, handle_in, handle_draining, fetched, stop_fetcher, Event,
  on_order_created, drained, go, handle_running, on_page, page_received, Round, Page, present,
  Effect, State,
}
use provider.BidEngine.Service.Monitors.{
  on_attributes_done-orders, begun, on_order_created-Follows, drained-orders,
}
use provider.BidEngine.Service.Rounds.{fetched-Step}
use provider.BidEngine.Service.Pages.{
  round_of, Gains, Follows-Gains, Calm-Step, Calm, Complete, Tidy, Step, persists,
}
use provider.BidEngine.Service.Received.{page-Step, Tidy-same}

empty-Calm : (s : State) → Calm s (go s [])
unfolding Calm
empty-Calm s = (refl, refl, refl, refl)

still-Gains : (s : State) (effects : List Effect) → Gains s (go s effects)
still-Gains s effects o here = ground (arith, here)

drained-Gains : (s : State) (effects : List Effect) → Gains s (go (drained s) effects)
drained-Gains s effects o = rw (drained-orders s) (λ here. ground (arith, here))

done-Gains :
    (s : State) (o : OrderId) (effects : List Effect)
    → Gains s (go (record s { orders = delete o s.orders }) effects)
done-Gains s o effects p here = ground (arith, here, get-delete o p s.orders)

drained-Calm :
    (s : State) (effects : List Effect) → persists effects ≡ false → Calm s (go (drained s) effects)
unfolding Calm drained
drained-Calm s effects h = (refl, refl, refl, h)

on_order_created-Calm :
    (s : State) (o : OrderId) (fails : Bool) → Calm s (on_order_created s o fails)
unfolding Calm on_order_created
on_order_created-Calm s o fails =
    if_intro (Calm s) (present (get o s.orders)) _ _ (refl, refl, refl, refl)
      (if_intro (Calm s) fails _ _ (refl, refl, refl, refl) (refl, refl, refl, refl))

on_page-Step :
    (fails : OrderId → Bool) (can : Bool) (s : State) (pages : List Page)
    → pages ≡ s.queue
    → Tidy pages s.fetcher
    → Step s (page_received fails can) (on_page fails can s pages)
unfolding on_page
on_page-Step fails can s [] same tidy =
    Calm-Step s (page_received fails can) (go s []) (Tidy-same (sym same) refl tidy) refl
      (still-Gains s []) (empty-Calm s)
on_page-Step fails can s (page ∷ pages) same tidy = page-Step fails can s page pages same tidy

unlisted-Calm :
    (s : State) (orders : Map OrderId (Unit {0})) (effects : List Effect)
    → persists effects ≡ false
    → Calm s (go (record s { orders = orders }) effects)
unfolding Calm
unlisted-Calm s orders effects h = (refl, refl, refl, h)

on_attributes_done-Gains : (s : State) → Gains s (go (on_attributes_done s) [])
on_attributes_done-Gains s o = rw (on_attributes_done-orders s) (λ here. ground (arith, here))

on_attributes_done-Calm : (s : State) → Calm s (go (on_attributes_done s) [])
unfolding Calm on_attributes_done
on_attributes_done-Calm s =
    if_intro (λ (t : State). Calm s (go t [])) (nat_eq (length s.orders) 0) _ _
      (refl, refl, refl, refl) (refl, refl, refl, refl)

still-Step :
    (s : State) (e : Event) (effects : List Effect)
    → Tidy s.queue s.fetcher
    → round_of e ≡ []
    → persists effects ≡ false
    → Step s e (go s effects)
unfolding Calm
still-Step s e effects tidy none_fetched h =
    Calm-Step s e (go s effects) tidy none_fetched (still-Gains s effects) (refl, refl, refl, h)

running-Step : (s : State) (e : Event) → Tidy s.queue s.fetcher → Step s e (handle_running s e)
unfolding handle_running
running-Step s shutdown tidy =
    Calm-Step s shutdown _ tidy refl (drained-Gains s (stop_fetcher ∷ stop_attributes ∷ []))
      (drained-Calm s (stop_fetcher ∷ stop_attributes ∷ []) refl)
running-Step s (fetched r) tidy = fetched-Step s r s.fetcher refl tidy
running-Step s (page_received fails can) tidy = on_page-Step fails can s s.queue refl tidy
running-Step s (order_created o fails) tidy =
    Calm-Step s (order_created o fails) _ tidy refl
      (Follows-Gains s _ (on_order_created-Follows s o fails)) (on_order_created-Calm s o fails)
running-Step s (order_done o) tidy =
    Calm-Step s (order_done o) _ tidy refl (done-Gains s o (try_signal ∷ []))
      (unlisted-Calm s (delete o s.orders) (try_signal ∷ []) refl)
running-Step s other_event tidy = still-Step s other_event [] tidy refl refl
running-Step s status_query tidy = still-Step s status_query _ tidy refl refl
running-Step s attributes_done tidy = still-Step s attributes_done [] tidy refl refl
running-Step s signal tidy = still-Step s signal _ tidy refl refl

draining-Step : (s : State) (e : Event) → Tidy s.queue s.fetcher → Step s e (handle_draining s e)
unfolding handle_draining
draining-Step s (order_done o) tidy =
    Calm-Step s (order_done o) _ tidy refl (done-Gains s o [])
      (unlisted-Calm s (delete o s.orders) [] refl)
draining-Step s attributes_done tidy =
    Calm-Step s attributes_done _ tidy refl (on_attributes_done-Gains s) (on_attributes_done-Calm s)
draining-Step s (fetched r) tidy = fetched-Step s r s.fetcher refl tidy
draining-Step s shutdown tidy = still-Step s shutdown [] tidy refl refl
draining-Step s (page_received fails can) tidy =
    still-Step s (page_received fails can) [] tidy refl refl
draining-Step s (order_created o fails) tidy =
    still-Step s (order_created o fails) [] tidy refl refl
draining-Step s other_event tidy = still-Step s other_event [] tidy refl refl
draining-Step s status_query tidy = still-Step s status_query [] tidy refl refl
draining-Step s signal tidy = still-Step s signal [] tidy refl refl

handle_in-Step :
    (phase : Phase) (s : State) (e : Event)
    → is_on phase ≡ true
    → Tidy s.queue s.fetcher
    → Step s e (handle_in phase s e)
unfolding handle_in
handle_in-Step running s e on tidy = running-Step s e tidy
handle_in-Step draining s e on tidy = draining-Step s e tidy
handle_in-Step ended s e on tidy = absurd (ground (arith, on))

-- The rounds of the fetcher in a history.
pub rounds : List Event → List Round
rounds [] = []
rounds (e ∷ es) = round_of e ++ rounds es

run-Complete :
    (s : State) (es : List Event)
    → Fits s es
    → Tidy s.queue s.fetcher
    → Complete s (run s es).effects (rounds es)
unfolding run handle rounds enabled Step
run-Complete s [] fits tidy = λ h. absurd (ground (arith, h))
run-Complete s (e ∷ es) fits tidy =
    let step = handle_in-Step s.phase s e (ground (arith, fits.0)) tidy in
    step.1 (run (handle s e).after es).effects (rounds es)
      (run-Complete (handle s e).after es fits.1 step.0)

-- In a history of the bid engine that its channels allow, a pagination key is persisted only if
-- each order of each page that the fetcher has sent got a monitor in that history: none is
-- skipped by the restart that resumes from the key.
pub catch_up_lem :
    (key : Option Bytes) (ready : Bool) (es : List Event)
    → Fits (start key ready) es
    → persists (run (start key ready) es).effects ≡ true
    → Each
        (λ (page : Page).
          Each (λ o. began_in o (begun (run (start key ready) es).effects) ≡ true) page.orders)
        (fetch (start_fetcher key) (rounds es)).pages
unfolding start get
catch_up_lem key ready es fits h = (run-Complete (start key ready) es fits tt h).1
