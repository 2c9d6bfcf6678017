-- ===== src/BidEngine/Auditors/Queries.antt =====
-- bidengine/provider_attributes.go: the queries behind the requests that wait.
use provider.Base.{
  ℕ, ◌+◌, ◌-◌, ◌<◌, ◌≡◌, refl, ap, ◌∙◌, inl, inr, Bool, true, false, ◌||◌, Option, none, some, List,
  [], ◌∷◌, ◌++◌, arith, ltb, Bool-cases, if_intro, if_split, ◌==◌, ==_iff, ℕ-eq, Bytes, Bytes-eq,
  Each, Each-append, contains,
}
use provider.Base.Map.{Map, get, put, delete, get-put, get-delete}
use provider.Ids.{OrderId-eq, LeaseId-eq}
use mathlib.Core.Path.{subst}
use provider.BidEngine.Auditors.{
  trim_cache, other_event, fetched, request, go, auditor_event, on_auditor_event, AuditedProvider,
  on_request, on_result, start, run, handle, on_fetched, Entry, from_entry, enqueue, remove_one,
  requests_of, State, Event, Next, Config, Request,
}
use provider.BidEngine.Auditors.Answers.{
  answered-append, handle-Balanced, answered, waiting, Balanced, occurs, asks, ForAuditor,
}

abbrev pub is_nil : List Request → Bool
is_nil [] = true
is_nil (r ∷ rs) = false

-- A query is under way for each auditor whose requests wait, and they are its own.
abbrev pub IsFetching : State → Type 0
IsFetching s =
    (a : Bytes) → is_nil (requests_of (get a s.pending)) ≡ false → contains s.fetching a ≡ true

abbrev pub IsValid : State → Type 0
IsValid s = ForAuditor s × IsFetching s

requests-put :
    (P : List Request → Type 0) (a b : Bytes) (rs : List Request) (m : Map Bytes (List Request))
    → (a ≡ b → P rs)
    → ((a == b) ≡ false → P (requests_of (get b m)))
    → P (requests_of (get b (put a rs m)))
requests-put P a b rs m here there = rw (get-put a b rs m) (
    if_split (λ o. P (requests_of o)) (a == b) (some rs) (get b m) (λ e. here ((==_iff a b).0 e))
      there)

requests-delete :
    (P : List Request → Type 0) (a b : Bytes) (m : Map Bytes (List Request))
    → P []
    → ((a == b) ≡ false → P (requests_of (get b m)))
    → P (requests_of (get b (delete a m)))
requests-delete P a b m here there =
    rw (get-delete a b m)
      (if_split (λ o. P (requests_of o)) (a == b) none (get b m) (λ e. here) there)

contains-remove_one :
    (a b : Bytes) (bs : List Bytes)
    → (a == b) ≡ false
    → contains (remove_one a bs) b ≡ contains bs b
unfolding remove_one
contains-remove_one a b [] ne = refl
contains-remove_one a b (x ∷ bs) ne = elim (Bool-cases (x == a)) [
  | inl e ↦
      let same : (x == b) ≡ (a == b) = ap (λ y. y == b) ((==_iff x a).0 e) in rw (e, same, ne) refl
  | inr other ↦ rw other (ap (λ found. x == b || found) (contains-remove_one a b bs ne))
]

enqueue-IsValid : (s : State) (q : Request) → IsValid s → IsValid (enqueue s q).after
unfolding enqueue
enqueue-IsValid s q h =
    let rs = requests_of (get q.auditor s.pending) in
    (
      λ a.
          requests-put (Each (λ (r : Request). (r.auditor == a) ≡ true)) q.auditor a (rs ++ q ∷ [])
            s.pending
            (λ same.
              Each-append _ rs (q ∷ [])
                (subst (λ b. Each (λ (r : Request). (r.auditor == b) ≡ true) rs) same
                  (h.0 q.auditor))
                ((==_iff q.auditor a).1 same, tt))
            (λ ne. h.0 a),
      λ a.
          requests-put (λ l. is_nil l ≡ false → (q.auditor == a || contains s.fetching a) ≡ true)
            q.auditor a (rs ++ q ∷ []) s.pending
            (λ same w. ground (arith, (==_iff q.auditor a).1 same))
            (λ ne w. ground (arith, h.1 a w)),
    )

from_entry-IsValid :
    (c : Config) (s : State) (q : Request) (now : ℕ) (o : Option Entry)
    → IsValid s
    → IsValid (from_entry c s q now o).after
unfolding from_entry
from_entry-IsValid c s q now none h = enqueue-IsValid s q h
from_entry-IsValid c s q now (some entry) h =
    if_intro (λ (n : Next). IsValid n.after) (ltb (now - entry.at) c.ttl) _ _ h
      (enqueue-IsValid s q h)

-- The state without the requests of an auditor and with one query of it less, whatever is cached.
settled-IsValid :
    (s : State) (a : Bytes) (cached : Map Bytes Entry)
    → IsValid s
    → IsValid (record s {
      cached = cached;
      pending = delete a s.pending;
      fetching = remove_one a s.fetching;
    })
settled-IsValid s a cached h = (
  λ b.
      requests-delete (Each (λ (r : Request). (r.auditor == b) ≡ true)) a b s.pending tt
        (λ ne. h.0 b),
  λ b.
      requests-delete (λ l. is_nil l ≡ false → contains (remove_one a s.fetching) b ≡ true) a b
        s.pending (λ w. absurd (ground (arith, w)))
        (λ ne w. contains-remove_one a b s.fetching ne ∙ h.1 b w),
)

on_fetched-IsValid :
    (c : Config) (s : State) (a : Bytes) (now : ℕ) (result : Option (List AuditedProvider))
    → IsValid s
    → IsValid (on_fetched c s a now result).after
unfolding on_fetched on_result
on_fetched-IsValid c s a now none h = settled-IsValid s a s.cached h
on_fetched-IsValid c s a now (some result) h =
    settled-IsValid s a
      (trim_cache c now (put a (record { provider_attr = result; at = now }) s.cached)) h

handle-IsValid : (c : Config) (s : State) (e : Event) → IsValid s → IsValid (handle c s e).after
unfolding handle on_request on_auditor_event
handle-IsValid c s (auditor_event owner auditor) h =
    if_intro (λ (n : Next). IsValid n.after) (owner == c.provider_address) _ (go s []) h h
handle-IsValid c s other_event h = h
handle-IsValid c s (request q now) h = from_entry-IsValid c s q now (get q.auditor s.cached) h
handle-IsValid c s (fetched a result now) h = on_fetched-IsValid c s a now result h

-- What a history asks.
abbrev pub asked : Request → List Event → ℕ
asked r [] = 0
asked r (e ∷ es) = asks r e + asked r es

run-IsValid :
    (r : Request) (c : Config) (s : State) (es : List Event)
    → IsValid s
    → let n = run c s es in
      (waiting r n.after + answered r n.effects ≡ waiting r s + asked r es) × IsValid n.after
unfolding run Balanced
run-IsValid r c s [] h = (omega arith, h)
run-IsValid r c s (e ∷ es) h =
    let n = handle c s e in
    let one = handle-Balanced r c s e h.0 in
    let rest = run-IsValid r c n.after es (handle-IsValid c s e h) in
    (omega (arith, one, rest.0, answered-append r n.effects (run c n.after es).effects), rest.1)

waiting-nonempty : (r : Request) (rs : List Request) → 0 < occurs r rs → is_nil rs ≡ false
waiting-nonempty r [] h = absurd (omega (arith, h))
waiting-nonempty r (q ∷ rs) h = refl

-- Over any history, each request for an auditor's attributes has been answered once or waits, and
-- while one waits a query of its auditor is under way.
pub requests_answered :
    (r : Request) (c : Config) (es : List Event)
    → let n = run c start es in
      (waiting r n.after + answered r n.effects ≡ asked r es)
      × (0 < waiting r n.after → contains n.after.fetching r.auditor ≡ true)
unfolding start get
requests_answered r c es =
    let v = run-IsValid r c start es ((λ a. tt), (λ a w. absurd (ground (arith, w)))) in
    (omega (arith, v.0), λ w. v.1.1 r.auditor (waiting-nonempty r _ w))
