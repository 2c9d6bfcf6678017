-- ===== src/Manifest/Watchdog/Closing.antt =====
-- manifest/watchdog.go: the bid is closed once the timer has run out, and the end waits for that.
use provider.Base.{
  ℕ, ◌+◌, ◌≤◌, ◌≡◌, refl, true, List, [], ◌∷◌, ◌++◌, arith, ℕ-eq, Bytes-eq, Each, Each-append,
}
use provider.Ids.{OrderId-eq, LeaseId-eq}
use provider.Manifest.Service.{deployment_of}
use provider.Manifest.Watchdog.{
  Config, State, waiting, broadcasting, ended, Event, timeout, shutdown, broadcast_done, Effect,
  close_bid, done, timeout_of, bid_of, handle, enabled, run,
}

-- Each event can be received when it comes.
abbrev pub Allowed : Config → State → List Event → Type 0
Allowed c s [] = Unit
Allowed c s (e ∷ es) = (enabled s e ≡ true) × Allowed c (handle c s e).after es

abbrev pub is_timeout : Event → ℕ
is_timeout timeout = 1
is_timeout _ = 0

abbrev pub is_result : Event → ℕ
is_result (broadcast_done error) = 1
is_result _ = 0

abbrev pub is_close : Effect → ℕ
is_close (close_bid bid within) = 1
is_close _ = 0

abbrev pub is_done : Effect → ℕ
is_done (done d) = 1
is_done _ = 0

abbrev pub count {ℓ} : {A : Type ℓ} → (A → ℕ) → List A → ℕ
count f [] = 0
count f (x ∷ xs) = f x + count f xs

pub count-append {ℓ} :
    {A : Type ℓ} (f : A → ℕ) (xs ys : List A) → count f (xs ++ ys) ≡ count f xs + count f ys
count-append f [] ys = omega arith
count-append f (x ∷ xs) ys = omega (arith, count-append f xs ys)

-- What is still to come in a state.
abbrev pub unfired : State → ℕ
unfired waiting = 1
unfired _ = 0

abbrev pub under_way : State → ℕ
under_way (broadcasting hears) = 1
under_way _ = 0

abbrev pub unfinished : State → ℕ
unfinished ended = 0
unfinished _ = 1

-- A message names the bid of the lease, in time above 0, or the lease's deployment.
abbrev pub IsOwn : Config → Effect → Type 0
IsOwn c (close_bid bid within) = (bid ≡ bid_of c) × (within ≡ timeout_of c.broadcast_timeout)
IsOwn c (done d) = d ≡ deployment_of c.lease

abbrev Closed : Config → State → List Event → Type 0
Closed c s es =
    let n = run c s es in
    (count is_close n.effects ≡ count is_timeout es)
    × (under_way s + count is_timeout es ≡ under_way n.after + count is_result es)
    × (count is_timeout es ≤ unfired s)
    × (unfinished s ≡ unfinished n.after + count is_done n.effects)
    × Each (IsOwn c) n.effects

-- One event.
abbrev Step : Config → State → Event → Type 0
Step c s e =
    let n = handle c s e in
    (count is_close n.effects ≡ is_timeout e)
    × (under_way s + is_timeout e ≡ under_way n.after + is_result e)
    × (is_timeout e + unfired n.after ≤ unfired s)
    × (unfinished s ≡ unfinished n.after + count is_done n.effects)
    × Each (IsOwn c) n.effects

handle-Step : (c : Config) (s : State) (e : Event) → enabled s e ≡ true → Step c s e
unfolding handle enabled timeout_of
handle-Step c waiting timeout h =
    (omega arith, omega arith, omega arith, omega arith, ((refl, refl), tt))
handle-Step c waiting shutdown h = (omega arith, omega arith, omega arith, omega arith, (refl, tt))
handle-Step c waiting (broadcast_done error) h = absurd (ground (arith, h))
handle-Step c (broadcasting hears) timeout h = absurd (ground (arith, h))
handle-Step c (broadcasting hears) shutdown h =
    (omega arith, omega arith, omega arith, omega arith, tt)
handle-Step c (broadcasting hears) (broadcast_done error) h =
    (omega arith, omega arith, omega arith, omega arith, (refl, tt))
handle-Step c ended timeout h = absurd (ground (arith, h))
handle-Step c ended shutdown h = absurd (ground (arith, h))
handle-Step c ended (broadcast_done error) h = absurd (ground (arith, h))

run-Closed : (c : Config) (s : State) (es : List Event) → Allowed c s es → Closed c s es
unfolding run
run-Closed c s [] a = (omega arith, omega arith, omega arith, omega arith, tt)
run-Closed c s (e ∷ es) a =
    let n = handle c s e in
    let one = handle-Step c s e a.0 in
    let rest = run-Closed c n.after es a.1 in
    let later = (run c n.after es).effects in
    (
      omega (arith, one.0, rest.0, count-append is_close n.effects later),
      omega (arith, one.1, rest.1),
      omega (arith, one.2, rest.2),
      omega (arith, one.3, rest.3, count-append is_done n.effects later),
      Each-append (IsOwn c) n.effects later one.4 rest.4,
    )

-- However a watchdog's timer, its shutdown and its broadcast come, it sends one message to close
-- the bid if the timer ran out before a shutdown and none otherwise, it has ended only if the
-- broadcast of that message has returned, it reports its end exactly once, and it names this
-- provider's bid and the lease's deployment.
pub closed_once :
    (c : Config) (es : List Event)
    → Allowed c waiting es
    → let n = run c waiting es in
      (count is_close n.effects ≡ count is_timeout es)
      × (count is_timeout es ≤ 1)
      × (count is_timeout es ≡ under_way n.after + count is_result es)
      × (unfinished n.after + count is_done n.effects ≡ 1)
      × Each (IsOwn c) n.effects
closed_once c es a =
    let r = run-Closed c waiting es a in (r.0, r.2, omega (arith, r.1), omega (arith, r.3), r.4)
