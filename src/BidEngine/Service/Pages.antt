-- ===== src/BidEngine/Service/Pages.antt =====
-- bidengine/service.go: the pages that wait and those to come, and the orders they name.
use provider.Base.{
  ◌≡◌, refl, sym, ◌∙◌, inl, inr, Bool, true, false, ◌||◌, List, [], ◌∷◌, ◌++◌, arith, Bool-cases,
  ℕ-eq, Bytes-eq, Each, Each-map,
}
use provider.Base.Map.{get}
use provider.Ids.{OrderId, OrderId-eq, LeaseId-eq}
use provider.Base.Trace.{began_in, began_in-append, Trace-began}
use mathlib.Core.Path.{subst}
use provider.BidEngine.Fetcher.{fetch}
use provider.BidEngine.Service.{
  stop_attributes, fetched, fetching, Round, Ending, stop_fetcher, try_signal, publish_status,
  answer_status, start_order, persist, Page, present, Effect, State, Event, Next,
}
use provider.BidEngine.Service.Monitors.{begun-append, begun, Follows}

abbrev pub persists : List Effect → Bool
persists [] = false
persists (persist key ∷ effects) = true
persists (e ∷ effects) = persists effects

pub persists-append : (xs ys : List Effect) → persists (xs ++ ys) ≡ (persists xs || persists ys)
persists-append [] ys = refl
persists-append (persist key ∷ xs) ys = refl
persists-append (start_order o existing ∷ xs) ys = persists-append xs ys
persists-append (try_signal ∷ xs) ys = persists-append xs ys
persists-append (answer_status n ∷ xs) ys = persists-append xs ys
persists-append (publish_status n ∷ xs) ys = persists-append xs ys
persists-append (stop_fetcher ∷ xs) ys = persists-append xs ys
persists-append (stop_attributes ∷ xs) ys = persists-append xs ys

-- An order has a monitor now, or the effects start one.
abbrev pub covered : State → List Effect → OrderId → Bool
covered s effects o = present (get o s.orders) || began_in o (begun effects)

abbrev pub Known : State → List Effect → List Page → Type 0
Known s effects pages =
    Each (λ (page : Page). Each (λ o. covered s effects o ≡ true) page.orders) pages

-- Each monitor behind a call was there before it, or its effects start it.
abbrev pub Gains : State → Next → Type 0
Gains s n = (o : OrderId) → present (get o n.after.orders) ≡ true → covered s n.effects o ≡ true

pub Follows-Gains : (s : State) (n : Next) → Follows s n → Gains s n
unfolding Follows
Follows-Gains s n t o here = Trace-began o t here

pub covered-more :
    (s : State) (effects more : List Effect) (o : OrderId)
    → covered s effects o ≡ true
    → covered s (effects ++ more) o ≡ true
covered-more s effects more o h =
    rw (begun-append effects more)
      (ground (arith, h, began_in-append o (begun effects) (begun more)))

pub covered-before :
    (s : State) (n : Next) (effects : List Effect) (o : OrderId)
    → Gains s n
    → covered n.after effects o ≡ true
    → covered s (n.effects ++ effects) o ≡ true
covered-before s n effects o t h =
    rw (begun-append n.effects effects, begun_in_two)
      (elim (Bool-cases (present (get o n.after.orders))) [
        | inl here ↦ ground (arith, t o here)
        | inr gone ↦ ground (arith, h, gone)
      ])
  where
    begun_in_two :
        began_in o (begun n.effects ++ begun effects)
        ≡ (began_in o (begun n.effects) || began_in o (begun effects))
    begun_in_two = began_in-append o (begun n.effects) (begun effects)

pub Known-before :
    (s : State) (n : Next) (effects : List Effect) (pages : List Page)
    → Gains s n
    → Known n.after effects pages
    → Known s (n.effects ++ effects) pages
Known-before s n effects pages t =
    Each-map _ _ pages λ page. Each-map _ _ page.orders λ o. covered-before s n effects o t

abbrev pub is_fetching : Ending → Bool
is_fetching (fetching f) = true
is_fetching _ = false

-- A page marked as the last one has none behind it, and the fetcher has ended.
abbrev pub Tidy : List Page → Ending → Type 0
Tidy [] fetcher = Unit
Tidy (page ∷ pages) fetcher =
    (page.last ≡ true → (pages ≡ []) × (is_fetching fetcher ≡ false)) × Tidy pages fetcher

-- The pages that the fetcher still sends over some rounds.
abbrev pub to_come : Ending → List Round → List Page
to_come (fetching f) rounds = (fetch f rounds).pages
to_come _ rounds = []

-- What holds behind a step, if its key is persisted later.
abbrev pub Complete : State → List Effect → List Round → Type 0
Complete s effects rounds =
    persists effects ≡ true
    → (s.catchup_incomplete ≡ false) × Known s effects (s.queue ++ to_come s.fetcher rounds)

abbrev pub round_of : Event → List Round
round_of (fetched r) = r ∷ []
round_of _ = []

-- A step that carries completeness over from what follows it.
unfoldable pub Step : State → Event → Next → Type 0
Step s e n =
    Tidy n.after.queue n.after.fetcher
    × ((effects : List Effect) (rounds : List Round)
        → Complete n.after effects rounds
        → Complete s (n.effects ++ effects) (round_of e ++ rounds))

-- An event that leaves the pages alone.
unfoldable pub Calm : State → Next → Type 0
Calm s n =
    (n.after.queue ≡ s.queue)
    × (n.after.fetcher ≡ s.fetcher)
    × (n.after.catchup_incomplete ≡ s.catchup_incomplete)
    × (persists n.effects ≡ false)

pub Calm-Step :
    (s : State) (e : Event) (n : Next)
    → Tidy s.queue s.fetcher
    → round_of e ≡ []
    → Gains s n
    → Calm s n
    → Step s e n
unfolding Calm Step
Calm-Step s e n tidy none_fetched t calm = (
  rw (calm.0, calm.1) tidy,
  λ effects rounds later h.
      let p : persists effects ≡ true =
        ground (arith, h, persists-append n.effects effects, calm.3) in
      let c = later p in
      (
        sym calm.2 ∙ c.0,
        subst (λ pages. Known s (n.effects ++ effects) pages) (same rounds)
            (Known-before s n effects _ t c.1),
      ),
)
  where
    same :
        (rounds : List Round)
        → n.after.queue ++ to_come n.after.fetcher rounds
          ≡ s.queue ++ to_come s.fetcher (round_of e ++ rounds)
    same rounds = rw (calm.0, calm.1, none_fetched) refl
