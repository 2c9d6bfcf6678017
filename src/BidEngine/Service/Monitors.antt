-- ===== src/BidEngine/Service/Monitors.antt =====
-- bidengine/service.go: the monitors that start and end, against the specification of things
-- that begin and end under a key.
use provider.Base.{
  ◌≡◌, refl, sym, ap, Bool, true, false, not, List, [], ◌∷◌, ◌++◌, arith, if_intro, if_split, ℕ-eq,
  Bytes-eq, append_nil,
}
use provider.Base.Map.{get, put, delete, get-put, get-delete}
use provider.Ids.{OrderId, OrderId-eq, LeaseId-eq, order_eq_iff}
use provider.Base.Trace.{Label, began, over, Trace, quiet, begins, ends, Trace-append, unchanged}
use provider.BidEngine.Fetcher.{finished, stopped}
use mathlib.Core.Path.{fun_ext}
use provider.BidEngine.Service.{
  stop_attributes, attributes_done, on_attributes_done, signal, status_query, Fits, run, handle,
  is_on, received, ended, draining, running, other_event, shutdown, order_created, page_received,
  failing, fetched, fetch_round, fetching, stop_fetcher, enabled, try_signal, Phase, go,
  publish_status, handle_draining, Ending, answer_status, handle_running, Round, Turn,
  process_orders_page, Page, persist, handle_in, drained, on_order_created, on_fetched, on_turn,
  on_page, end_page, catch_up_all, catch_up, and_then, order_done, start_order, present, State,
  Event, Next, Effect,
}

-- The orders that a state of the service monitors.
abbrev pub monitored : State → OrderId → Bool
monitored s o = present (get o s.orders)

-- The monitors that effects start.
abbrev pub begun : List Effect → List (Label OrderId)
begun [] = []
begun (start_order o existing ∷ effects) = began o ∷ begun effects
begun (e ∷ effects) = begun effects

abbrev pub finished_by : Event → List (Label OrderId)
finished_by (order_done o) = over o ∷ []
finished_by _ = []

pub begun-append : (xs ys : List Effect) → begun (xs ++ ys) ≡ begun xs ++ begun ys
begun-append [] ys = refl
begun-append (start_order o existing ∷ xs) ys = ap (λ ls. began o ∷ ls) (begun-append xs ys)
begun-append (persist key ∷ xs) ys = begun-append xs ys
begun-append (try_signal ∷ xs) ys = begun-append xs ys
begun-append (answer_status n ∷ xs) ys = begun-append xs ys
begun-append (publish_status n ∷ xs) ys = begun-append xs ys
begun-append (stop_fetcher ∷ xs) ys = begun-append xs ys
begun-append (stop_attributes ∷ xs) ys = begun-append xs ys

-- Calls whose effects show each monitor that they start.
unfoldable pub Follows : State → Next → Type 0
Follows s n = Trace (monitored s) (begun n.effects) (monitored n.after)

begins-Trace :
    (s : State) (o : OrderId)
    → present (get o s.orders) ≡ false
    → Trace (monitored s) (began o ∷ []) (monitored (record s { orders = put o tt s.orders }))
begins-Trace s o h =
    begins h (unchanged (fun_ext λ p. ground (arith, get-put o p tt s.orders, order_eq_iff o p)))

ends-Trace :
    (s : State) (o : OrderId)
    → present (get o s.orders) ≡ true
    → Trace (monitored s) (over o ∷ []) (monitored (record s { orders = delete o s.orders }))
ends-Trace s o h =
    ends h (unchanged (fun_ext λ p. ground (arith, get-delete o p s.orders, order_eq_iff o p)))

and_then-Follows :
    (s : State) (n : Next) (f : State → Next)
    → Follows s n
    → Follows n.after (f n.after)
    → Follows s (and_then n f)
unfolding Follows
and_then-Follows s n f one two =
    rw (begun-append n.effects (f n.after).effects) (Trace-append one two)

pub catch_up-Follows :
    (fails : OrderId → Bool) (s : State) (o : OrderId) → Follows s (catch_up fails s o)
unfolding Follows catch_up
catch_up-Follows fails s o =
    if_split (Follows s) (present (get o s.orders)) _ _ (λ p. quiet)
      (λ p. if_intro (Follows s) (fails o) _ _ quiet (begins-Trace s o p))

pub catch_up_all-Follows :
    (fails : OrderId → Bool) (os : List OrderId) (s : State) → Follows s (catch_up_all fails os s)
unfolding Follows catch_up_all
catch_up_all-Follows fails [] s = quiet
catch_up_all-Follows fails (o ∷ os) s =
    and_then-Follows s (catch_up fails s o) (catch_up_all fails os) (catch_up-Follows fails s o)
      (catch_up_all-Follows fails os (catch_up fails s o).after)

pub end_page-Follows : (can : Bool) (page : Page) (s : State) → Follows s (end_page can page s)
unfolding Follows end_page
end_page-Follows can page s =
    if_intro (Follows s) (not page.last) _ _ quiet (
      if_intro (Follows s) s.catchup_incomplete _ _ quiet
        (if_intro (Follows s) can _ _ quiet quiet))

pub on_page-Follows :
    (fails : OrderId → Bool) (can : Bool) (s : State) (pages : List Page)
    → Follows s (on_page fails can s pages)
unfolding Follows on_page process_orders_page
on_page-Follows fails can s [] = quiet
on_page-Follows fails can s (page ∷ pages) =
    let taken : State = record s { queue = pages } in
    let n = catch_up_all fails page.orders taken in
    and_then-Follows s n (end_page can page) (catch_up_all-Follows fails page.orders taken)
      (end_page-Follows can page n.after)

pub on_turn-orders : (s : State) (t : Turn) → (on_turn s t).orders ≡ s.orders
unfolding on_turn
on_turn-orders s t = ground arith

pub on_fetched-Follows : (s : State) (r : Round) (e : Ending) → Follows s (go (on_fetched s r e) [])
unfolding Follows on_fetched
on_fetched-Follows s r (fetching f) =
    unchanged (ap (λ orders o. present (get o orders)) (sym (on_turn-orders s (fetch_round f r))))
on_fetched-Follows s r stopped = quiet
on_fetched-Follows s r finished = quiet
on_fetched-Follows s r (failing key) = quiet

pub on_order_created-Follows :
    (s : State) (o : OrderId) (fails : Bool) → Follows s (on_order_created s o fails)
unfolding Follows on_order_created
on_order_created-Follows s o fails =
    if_split (Follows s) (present (get o s.orders)) _ _ (λ p. quiet)
      (λ p. if_intro (Follows s) fails _ _ quiet (begins-Trace s o p))

pub drained-orders : (s : State) → (drained s).orders ≡ s.orders
unfolding drained
drained-orders s = ground arith

drained-monitored : (s : State) → monitored s ≡ monitored (drained s)
drained-monitored s = ap (λ orders o. present (get o orders)) (sym (drained-orders s))

pub on_attributes_done-orders : (s : State) → (on_attributes_done s).orders ≡ s.orders
unfolding on_attributes_done
on_attributes_done-orders s = ground arith

on_attributes_done-monitored : (s : State) → monitored s ≡ monitored (on_attributes_done s)
on_attributes_done-monitored s =
    ap (λ orders o. present (get o orders)) (sym (on_attributes_done-orders s))

-- One event: what it starts, and what it is the end of.
unfoldable pub Visible : State → Event → Next → Type 0
Visible s e n = Trace (monitored s) (begun n.effects ++ finished_by e) (monitored n.after)

Follows-Visible :
    (s : State) (e : Event) (n : Next) → finished_by e ≡ [] → Follows s n → Visible s e n
unfolding Follows Visible
Follows-Visible s e n h t = rw (h, append_nil (begun n.effects)) t

pub drained-Follows :
    (s : State) (effects : List Effect) → begun effects ≡ [] → Follows s (go (drained s) effects)
unfolding Follows
drained-Follows s effects h = rw h (unchanged (drained-monitored s))

running-Visible : (s : State) (e : Event) → received s e ≡ true → Visible s e (handle_running s e)
unfolding handle_running received Visible
running-Visible s shutdown en =
    Follows-Visible s shutdown _ refl (drained-Follows s (stop_fetcher ∷ stop_attributes ∷ []) refl)
running-Visible s (fetched r) en =
    Follows-Visible s (fetched r) _ refl (on_fetched-Follows s r s.fetcher)
running-Visible s (page_received fails can) en =
    Follows-Visible s (page_received fails can) _ refl (on_page-Follows fails can s s.queue)
running-Visible s (order_created o fails) en =
    Follows-Visible s (order_created o fails) _ refl (on_order_created-Follows s o fails)
running-Visible s (order_done o) en = ends-Trace s o en
running-Visible s other_event en = quiet
running-Visible s status_query en = quiet
running-Visible s attributes_done en = quiet
running-Visible s signal en = quiet

draining-Visible : (s : State) (e : Event) → received s e ≡ true → Visible s e (handle_draining s e)
unfolding handle_draining received Visible
draining-Visible s (order_done o) en = ends-Trace s o en
draining-Visible s attributes_done en = unchanged (on_attributes_done-monitored s)
draining-Visible s (fetched r) en =
    Follows-Visible s (fetched r) _ refl (on_fetched-Follows s r s.fetcher)
draining-Visible s shutdown en = quiet
draining-Visible s (page_received fails can) en = quiet
draining-Visible s (order_created o fails) en = quiet
draining-Visible s other_event en = quiet
draining-Visible s status_query en = quiet
draining-Visible s signal en = quiet

pub handle_in-Visible :
    (phase : Phase) (s : State) (e : Event)
    → is_on phase ≡ true
    → received s e ≡ true
    → Visible s e (handle_in phase s e)
unfolding handle_in
handle_in-Visible running s e on en = running-Visible s e en
handle_in-Visible draining s e on en = draining-Visible s e en
handle_in-Visible ended s e on en = absurd (ground (arith, on))

-- The monitors that a history starts and ends, in order.
pub trace : State → List Event → List (Label OrderId)
trace s [] = []
trace s (e ∷ es) = (begun (handle s e).effects ++ finished_by e) ++ trace (handle s e).after es

-- However orders are detected, caught up on and done, the monitors that the bid engine starts and
-- ends over a history that its channels allow are a trace of the specification in Base/Trace: no
-- order is given a monitor while it has one, and the orders kept at the end are those whose
-- monitor began and is not over.
pub monitors-refine :
    (s : State) (es : List Event)
    → Fits s es
    → Trace (monitored s) (trace s es) (monitored (run s es).after)
unfolding run trace handle enabled Visible
monitors-refine s [] fits = quiet
monitors-refine s (e ∷ es) fits =
    let both : (is_on s.phase ≡ true) × (received s e ≡ true) = ground (arith, fits.0) in
    Trace-append (handle_in-Visible s.phase s e both.0 both.1)
      (monitors-refine (handle s e).after es fits.1)
