-- ===== src/BidEngine/Service/Received.antt =====
-- bidengine/service.go: a page that the service receives.
use provider.Base.{
  ◌≡◌, refl, sym, ap, ◌∙◌, inl, inr, Bool, true, false, not, ◌||◌, List, [], ◌∷◌, ◌++◌, arith,
  Bool-cases, if_intro, if_split, ℕ-eq, Bytes-eq, Each, Each-map,
}
use provider.Base.Map.{get}
use provider.Ids.{OrderId, OrderId-eq, LeaseId-eq, order_eq_iff}
use mathlib.Core.Path.{subst}
use provider.BidEngine.Fetcher.{stopped, finished, failing}
use provider.BidEngine.Service.{
  and_then, on_page, page_received, process_orders_page, end_page, catch_up_all, catch_up, fetching,
  Round, Ending, Page, present, Effect, State, Next,
}
use provider.BidEngine.Service.Monitors.{on_page-Follows, catch_up-Follows}
use provider.BidEngine.Service.Pages.{
  Follows-Gains, Known-before, Complete, Tidy, to_come, Step, is_fetching, covered-before,
  covered-more, persists-append, covered, persists, Known,
}

-- The loop over the orders of a page leaves the pages alone, and misses no order unless the
-- catch-up is incomplete.
Catches : List OrderId → State → Next → Type 0
Catches os s n =
    (n.after.queue ≡ s.queue)
    × (n.after.fetcher ≡ s.fetcher)
    × (persists n.effects ≡ false)
    × (n.after.catchup_incomplete ≡ false
        → (s.catchup_incomplete ≡ false) × Each (λ o. covered s n.effects o ≡ true) os)

catch_up-Catches :
    (fails : OrderId → Bool) (s : State) (o : OrderId) → Catches (o ∷ []) s (catch_up fails s o)
unfolding Catches catch_up
catch_up-Catches fails s o =
    if_split (Catches (o ∷ []) s) (present (get o s.orders)) _ _
      (λ here. (refl, refl, refl, λ h. (h, (ground (arith, here), tt))))
      (λ p.
        if_intro (Catches (o ∷ []) s) (fails o) _ _
          (refl, refl, refl, λ h. absurd (ground (arith, h)))
          (refl, refl, refl, λ h. (h, (ground (arith, order_eq_iff o o), tt))))

catch_up_all-Catches :
    (fails : OrderId → Bool) (os : List OrderId) (s : State)
    → Catches os s (catch_up_all fails os s)
unfolding Catches catch_up_all
catch_up_all-Catches fails [] s = (refl, refl, refl, λ h. (h, tt))
catch_up_all-Catches fails (o ∷ os) s =
    let n = catch_up fails s o in
    let one = catch_up-Catches fails s o in
    let m = catch_up_all fails os n.after in
    let rest = catch_up_all-Catches fails os n.after in
    (
      rest.0 ∙ one.0,
      rest.1 ∙ one.1,
      persists-append n.effects m.effects ∙ rw (one.2, rest.2) refl,
      λ h.
          let r = rest.3 h in
          let f = one.3 r.0 in
          (
            f.0,
            (
              covered-more s n.effects m.effects o f.1.0,
              Each-map _ _ os
                  (λ p.
                    covered-before s n m.effects p (Follows-Gains s n (catch_up-Follows fails s o)))
                  r.1,
            ),
          ),
    )

-- What follows the loop persists a key only for the last page of a complete catch-up.
EndsPage : Page → State → Next → Type 0
EndsPage page s n =
    (n.after.orders ≡ s.orders)
    × (n.after.queue ≡ s.queue)
    × (n.after.fetcher ≡ s.fetcher)
    × (n.after.catchup_incomplete ≡ s.catchup_incomplete)
    × (persists n.effects ≡ true → (page.last ≡ true) × (s.catchup_incomplete ≡ false))

end_page-EndsPage : (can : Bool) (page : Page) (s : State) → EndsPage page s (end_page can page s)
unfolding EndsPage end_page
end_page-EndsPage can page s =
    if_split (EndsPage page s) (not page.last) _ _
      (λ p. (refl, refl, refl, refl, λ h. absurd (ground (arith, h))))
      (λ p.
        if_split (EndsPage page s) s.catchup_incomplete _ _
          (λ i. (refl, refl, refl, refl, λ h. absurd (ground (arith, h))))
          (λ i.
            if_intro (EndsPage page s) can _ _ (refl, refl, refl, refl, λ h. (ground (arith, p), i))
              (refl, refl, refl, refl, λ h. absurd (ground (arith, h)))))

to_come-over :
    (fetcher : Ending) (rounds : List Round)
    → is_fetching fetcher ≡ false
    → to_come fetcher rounds ≡ []
to_come-over (fetching f) rounds h = absurd (ground (arith, h))
to_come-over stopped rounds h = refl
to_come-over finished rounds h = refl
to_come-over (failing key) rounds h = refl

-- Whether the key is persisted now or later, the page was complete and those behind it are.
behind :
    (page : Page) (pages : List Page) (s : State) (m : Next) (effects : List Effect)
    (rounds : List Round)
    → EndsPage page s m
    → Tidy (page ∷ pages) s.fetcher
    → s.queue ≡ pages
    → Complete m.after effects rounds
    → (persists m.effects || persists effects) ≡ true
    → (s.catchup_incomplete ≡ false) × Known m.after effects (pages ++ to_come s.fetcher rounds)
unfolding EndsPage
behind page pages s m effects rounds e tidy queue later h = elim (Bool-cases (persists m.effects)) [
  | inl now ↦
      let l = e.4 now in let t = tidy.0 l.0 in (l.1, rw (t.0, to_come-over s.fetcher rounds t.1) tt)
  | inr not_now ↦
      let c = later (ground (arith, h, not_now)) in
      (sym e.3 ∙ c.0, subst (λ ps. Known m.after effects ps) (rw (e.1, e.2, queue) refl) c.1)
]

pub Tidy-same :
    {pages pages' : List Page} {fetcher fetcher' : Ending}
    → pages' ≡ pages
    → fetcher' ≡ fetcher
    → Tidy pages fetcher
    → Tidy pages' fetcher'
Tidy-same p q tidy = rw (p, q) tidy

pub page-Step :
    (fails : OrderId → Bool) (can : Bool) (s : State) (page : Page) (pages : List Page)
    → page ∷ pages ≡ s.queue
    → Tidy (page ∷ pages) s.fetcher
    → Step s (page_received fails can) (on_page fails can s (page ∷ pages))
unfolding Step on_page process_orders_page Catches EndsPage
page-Step fails can s page pages same tidy =
    let taken : State = record s { queue = pages } in
    let n = catch_up_all fails page.orders taken in
    let m = end_page can page n.after in
    let c = catch_up_all-Catches fails page.orders taken in
    let e = end_page-EndsPage can page n.after in
    (
      Tidy-same (e.1 ∙ c.0) (e.2 ∙ c.1) tidy.1,
      λ effects rounds later h.
          let persisted : (persists m.effects || persists effects) ≡ true = ground (
            arith,
            h,
            persists-append n.effects m.effects,
            persists-append (n.effects ++ m.effects) effects,
            c.2,
          ) in
          let b =
            behind page pages n.after m effects rounds e
              (Tidy-same {pages = page ∷ pages} refl c.1 tidy) c.0 later persisted in
          let r = c.3 b.0 in
          let here : Each (λ o. covered s ((n.effects ++ m.effects) ++ effects) o ≡ true)
              page.orders =
            Each-map _ _ page.orders
              (λ o k.
                covered-more s (n.effects ++ m.effects) effects o
                  (covered-more s n.effects m.effects o k))
              r.1 in
          let rest =
            Known-before s (and_then n (end_page can page)) effects _
              (Follows-Gains s _ (on_page-Follows fails can s (page ∷ pages))) b.1 in
          (
            r.0,
            subst (λ ps. Known s ((n.effects ++ m.effects) ++ effects) ps)
                (ap (λ f. page ∷ (pages ++ to_come f rounds)) c.1
                  ∙ ap (λ q. q ++ to_come s.fetcher rounds) same)
                (here, rest),
          ),
    )
