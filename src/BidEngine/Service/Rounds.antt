-- ===== src/BidEngine/Service/Rounds.antt =====
-- bidengine/service.go: a round of the fetcher beside the loop of the service.
use provider.Base.{
  ◌≡◌, refl, sym, ap, ◌∙◌, true, false, List, [], ◌∷◌, ◌++◌, arith, ℕ-eq, Bytes-eq, append_nil,
  append_assoc,
}
use provider.Ids.{OrderId-eq, LeaseId-eq}
use mathlib.Core.Path.{subst}
use provider.BidEngine.Fetcher.{
  canceled, repeated, stopped, finished, failing, last_page, next_page, again, fetch_round, Turn,
  carry_on, Fetcher, fetch,
}
use provider.BidEngine.Fetcher.Traversal.{IsMarked, fetch_round-IsMarked}
use provider.BidEngine.Service.{
  go, on_fetched, on_turn, fetched, fetching, Round, Ending, Page, Effect, State,
}
use provider.BidEngine.Service.Monitors.{on_fetched-Follows}
use provider.BidEngine.Service.Pages.{
  Follows-Gains, Known-before, Complete, Step, to_come, Tidy, is_fetching, Known,
}

-- A round of the fetcher.
Tidy-push :
    (pages : List Page) (page : Page) (before after : Ending)
    → is_fetching before ≡ true
    → (page.last ≡ true → is_fetching after ≡ false)
    → Tidy pages before
    → Tidy (pages ++ page ∷ []) after
Tidy-push [] page before after on h tidy = (λ l. (refl, h l), tt)
Tidy-push (p ∷ pages) page before after on h tidy =
    (λ l. absurd (ground (arith, (tidy.0 l).1, on)), Tidy-push pages page before after on h tidy.1)

Tidy-goes_on :
    (pages : List Page) (before after : Ending)
    → is_fetching before ≡ true
    → Tidy pages before
    → Tidy pages after
Tidy-goes_on [] before after on tidy = tt
Tidy-goes_on (p ∷ pages) before after on tidy =
    (λ l. absurd (ground (arith, (tidy.0 l).1, on)), Tidy-goes_on pages before after on tidy.1)

on_turn-Tidy :
    (s : State) (f : Fetcher) (t : Turn)
    → IsMarked t
    → Tidy s.queue (fetching f)
    → let u = on_turn s t in Tidy u.queue u.fetcher
unfolding on_turn
on_turn-Tidy s f (again g) m tidy = Tidy-goes_on s.queue (fetching f) (fetching g) refl tidy
on_turn-Tidy s f (next_page page g) m tidy =
    Tidy-push s.queue page (fetching f) (fetching g) refl (λ l. absurd (ground (arith, l, m))) tidy
on_turn-Tidy s f (last_page page) m tidy =
    Tidy-push s.queue page (fetching f) finished refl (λ l. refl) tidy
on_turn-Tidy s f canceled m tidy = Tidy-goes_on s.queue (fetching f) stopped refl tidy
on_turn-Tidy s f (repeated key) m tidy = Tidy-goes_on s.queue (fetching f) (failing key) refl tidy

-- The pages queued and to come are the same on both sides of the round.
on_turn-pages :
    (s : State) (t : Turn) (rounds : List Round)
    → let u = on_turn s t in
      u.queue ++ to_come u.fetcher rounds ≡ s.queue ++ (carry_on t (λ g. fetch g rounds)).pages
unfolding on_turn carry_on
on_turn-pages s (again g) rounds = refl
on_turn-pages s (next_page page g) rounds = append_assoc s.queue (page ∷ []) (fetch g rounds).pages
on_turn-pages s (last_page page) rounds = append_nil (s.queue ++ page ∷ [])
on_turn-pages s canceled rounds = refl
on_turn-pages s (repeated key) rounds = refl

on_turn-incomplete :
    (s : State) (t : Turn) → (on_turn s t).catchup_incomplete ≡ s.catchup_incomplete
unfolding on_turn
on_turn-incomplete s t = ground arith

to_come-idle :
    (fetcher : Ending) (r : Round) (rounds : List Round)
    → is_fetching fetcher ≡ false
    → to_come fetcher rounds ≡ to_come fetcher (r ∷ rounds)
to_come-idle (fetching f) r rounds h = absurd (ground (arith, h))
to_come-idle stopped r rounds h = refl
to_come-idle finished r rounds h = refl
to_come-idle (failing key) r rounds h = refl

idle-Complete :
    (s : State) (r : Round)
    → is_fetching s.fetcher ≡ false
    → (effects : List Effect) (rounds : List Round) → Complete s effects rounds
    → Complete s effects (r ∷ rounds)
idle-Complete s r idle effects rounds later h =
    let c = later h in
    (
      c.0,
      subst (λ pages. Known s effects (s.queue ++ pages)) (to_come-idle s.fetcher r rounds idle)
          c.1,
    )

pub fetched-Step :
    (s : State) (r : Round) (fetcher : Ending)
    → fetcher ≡ s.fetcher
    → Tidy s.queue s.fetcher
    → Step s (fetched r) (go (on_fetched s r fetcher) [])
unfolding Step on_fetched fetch
fetched-Step s r (fetching f) same tidy = (
  on_turn-Tidy s f (fetch_round f r) (fetch_round-IsMarked f r) (rw same tidy),
  λ effects rounds later h.
      let t = fetch_round f r in
      let c = later h in
      (
        sym (on_turn-incomplete s t) ∙ c.0,
        subst (λ pages. Known s effects pages)
            (on_turn-pages s t rounds
              ∙ ap (λ fetcher. s.queue ++ to_come fetcher (r ∷ rounds)) same)
            (Known-before s (go (on_turn s t) []) effects _
              (Follows-Gains s (go (on_turn s t) []) (on_fetched-Follows s r (fetching f))) c.1),
      ),
)
fetched-Step s r stopped same tidy = (tidy, idle-Complete s r (rw (sym same) refl))
fetched-Step s r finished same tidy = (tidy, idle-Complete s r (rw (sym same) refl))
fetched-Step s r (failing key) same tidy = (tidy, idle-Complete s r (rw (sym same) refl))
