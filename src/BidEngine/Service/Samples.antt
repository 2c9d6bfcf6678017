-- ===== src/BidEngine/Service/Samples.antt =====
-- Two pages of open orders, the second order also detected while they are read, and a shutdown.
use provider.Base.{
  ℕ, ◌≡◌, refl, Bool, true, false, Option, none, List, [], ◌∷◌, arith, ℕ-eq, Bytes, Bytes-eq, codes,
  Each,
}
use provider.Base.Map.{get, put}
use provider.Ids.{OrderId, OrderId-eq, LeaseId-eq}
use provider.Base.Trace.{Trace, began_in}
use provider.BidEngine.Fetcher.{start_fetcher, fetch_round, finished, Round, fetch, Page}
use provider.BidEngine.Fetcher.Traversal.{
  reaches, fails, rejects, fetch_lem, final_page, attempt, attempts, middle_page, Pages, Listing,
}
use provider.BidEngine.Service.{
  Fits, received, enabled, order_created, handle, page_received, run, start, fetched, Event,
}
use provider.BidEngine.Service.Monitors.{begun, trace, monitored, monitors-refine}
use provider.BidEngine.Service.Pages.{persists}
use provider.BidEngine.Service.Catchup.{rounds, catch_up_lem}

abbrev order : ℕ → OrderId
order oseq = record { owner = codes "tenant"; dseq = 5; gseq = 1; oseq = oseq }

abbrev listing : Listing
listing [] = (order 1 ∷ [], 7 ∷ [])
listing (b ∷ bs) = (order 2 ∷ [], [])

abbrev first_page : Page
first_page = record { orders = order 1 ∷ []; key = []; last = false }

abbrev second_page : Page
second_page = record { orders = order 2 ∷ []; key = 7 ∷ []; last = true }

abbrev listing_pages : Pages listing [] (first_page ∷ second_page ∷ [])
listing_pages = middle_page refl refl (final_page refl)

-- The first query fails, and one between the pages is rejected.
fetch_lem_example :
    fetch
      (record { next_key = []; resuming = false })
      (attempts listing (fails ∷ reaches ∷ rejects ∷ reaches ∷ []))
    ≡ record { pages = first_page ∷ second_page ∷ []; ending = finished }
fetch_lem_example =
    fetch_lem listing (record { next_key = []; resuming = false }) (first_page ∷ second_page ∷ [])
      (fails ∷ reaches ∷ rejects ∷ reaches ∷ []) listing_pages tt (omega arith)

abbrev never : OrderId → Bool
never o = false

abbrev query : Round
query = attempt listing reaches

abbrev history : List Event
history =
    fetched query
    ∷ page_received never true
    ∷ order_created (order 2) false
    ∷ fetched query
    ∷ page_received never true
    ∷ []

abbrev key : Option Bytes
key = none

history-Fits : Fits (start key true) history
unfolding start handle enabled received get put fetch_round start_fetcher
history-Fits = (refl, (refl, (refl, (refl, (refl, tt)))))

history-persists : persists (run (start key true) history).effects ≡ true
unfolding run start handle get put fetch_round start_fetcher
history-persists = refl

catch_up_lem_example :
    Each
      (λ (page : Page).
        Each (λ o. began_in o (begun (run (start key true) history).effects) ≡ true) page.orders)
      (fetch (start_fetcher key) (rounds history)).pages
catch_up_lem_example = catch_up_lem key true history history-Fits history-persists

monitors-refine_example :
    Trace
      (monitored (start key true))
      (trace (start key true) history)
      (monitored (run (start key true) history).after)
monitors-refine_example = monitors-refine (start key true) history history-Fits

abbrev two_monitors : List Event
two_monitors =
    order_created (order 1) false
    ∷ order_created (order 2) true
    ∷ order_created (order 3) false
    ∷ []
