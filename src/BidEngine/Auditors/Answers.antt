-- ===== src/BidEngine/Auditors/Answers.antt =====
-- bidengine/provider_attributes.go: the answers to the requests for an auditor's attributes.
use provider.Base.{
  ℕ, ◌+◌, ◌-◌, ◌≡◌, refl, ap, ◌∙◌, inl, inr, Bool, true, false, ◌&&◌, Option, none, some, List, [],
  ◌∷◌, ◌++◌, arith, ltb, nat_eq, if◌then◌else◌, Bool-cases, if_intro, ◌==◌, ==_iff, ℕ-eq, Bytes,
  Bytes-eq, Each,
}
use provider.Base.Map.{get, put, delete, get-put, get-delete}
use provider.Ids.{OrderId-eq, LeaseId-eq}
use provider.BidEngine.Auditors.{
  other_event, fetched, on_request, auditor_event, on_result, Entry, handle, on_auditor_event,
  on_fetched, from_entry, start_fetch, fail, succeed_all, request, succeed, enqueue, fail_all,
  AuditedProvider, requests_of, State, Event, Next, Config, Effect, Request,
}

abbrev pub request_eq : Request → Request → Bool
request_eq a b = a.auditor == b.auditor && nat_eq a.channel b.channel

abbrev pub count : Bool → ℕ
count b = if b then 1 else 0

-- The requests of a caller for an auditor in a list.
abbrev pub occurs : Request → List Request → ℕ
occurs r [] = 0
occurs r (q ∷ qs) = count (request_eq q r) + occurs r qs

-- Those that wait, that effects answer, and that an event is.
abbrev pub waiting : Request → State → ℕ
waiting r s = occurs r (requests_of (get r.auditor s.pending))

abbrev pub answered : Request → List Effect → ℕ
answered r [] = 0
answered r (succeed q result ∷ effects) = count (request_eq q r) + answered r effects
answered r (fail q ∷ effects) = count (request_eq q r) + answered r effects
answered r (start_fetch auditor ∷ effects) = answered r effects

abbrev pub asks : Request → Event → ℕ
asks r (request q now) = count (request_eq q r)
asks r _ = 0

pub occurs-append :
    (r : Request) (xs ys : List Request) → occurs r (xs ++ ys) ≡ occurs r xs + occurs r ys
occurs-append r [] ys = omega arith
occurs-append r (x ∷ xs) ys = omega (arith, occurs-append r xs ys)

pub answered-append :
    (r : Request) (xs ys : List Effect) → answered r (xs ++ ys) ≡ answered r xs + answered r ys
answered-append r [] ys = omega arith
answered-append r (succeed q result ∷ xs) ys = omega (arith, answered-append r xs ys)
answered-append r (fail q ∷ xs) ys = omega (arith, answered-append r xs ys)
answered-append r (start_fetch auditor ∷ xs) ys = answered-append r xs ys

answered-succeed_all :
    (r : Request) (rs : List Request) (result : List AuditedProvider)
    → answered r (succeed_all rs result) ≡ occurs r rs
answered-succeed_all r [] result = refl
answered-succeed_all r (q ∷ rs) result = omega (arith, answered-succeed_all r rs result)

answered-fail_all : (r : Request) (rs : List Request) → answered r (fail_all rs) ≡ occurs r rs
answered-fail_all r [] = refl
answered-fail_all r (q ∷ rs) = omega (arith, answered-fail_all r rs)

-- The pending requests of an auditor are for it.
abbrev pub ForAuditor : State → Type 0
ForAuditor s =
    (a : Bytes) → Each (λ (r : Request). (r.auditor == a) ≡ true) (requests_of (get a s.pending))

-- An event answers what was asked, or leaves it waiting.
unfoldable pub Balanced : Request → State → Event → Next → Type 0
Balanced r s e n = waiting r n.after + answered r n.effects ≡ waiting r s + asks r e

waiting-put :
    (r : Request) (s : State) (a : Bytes) (rs : List Request)
    → occurs r (requests_of (get r.auditor (put a rs s.pending)))
      ≡ (if a == r.auditor then occurs r rs else waiting r s)
waiting-put r s a rs = rw (get-put a r.auditor rs s.pending) (split (a == r.auditor))
  where
    split :
        (b : Bool)
        → occurs r (requests_of (if b then some rs else get r.auditor s.pending))
          ≡ (if b then occurs r rs else waiting r s)
    split true = refl
    split false = refl

waiting-delete :
    (r : Request) (s : State) (a : Bytes)
    → occurs r (requests_of (get r.auditor (delete a s.pending)))
      ≡ (if a == r.auditor then 0 else waiting r s)
waiting-delete r s a = rw (get-delete a r.auditor s.pending) (split (a == r.auditor))
  where
    split :
        (b : Bool)
        → occurs r (requests_of (if b then none else get r.auditor s.pending))
          ≡ (if b then 0 else waiting r s)
    split true = refl
    split false = refl

enqueue-Balanced :
    (r : Request) (s : State) (q : Request) (now : ℕ) → Balanced r s (request q now) (enqueue s q)
unfolding enqueue Balanced
enqueue-Balanced r s q now =
    let rs = requests_of (get q.auditor s.pending) in
    let grown = waiting-put r s q.auditor (rs ++ q ∷ []) in
    elim (Bool-cases (q.auditor == r.auditor)) [
      | inl e ↦
          let same : q.auditor ≡ r.auditor = (==_iff q.auditor r.auditor).0 e in
          let here : occurs r rs ≡ waiting r s =
            ap (λ a. occurs r (requests_of (get a s.pending))) same in
          omega (arith, rw e at grown, occurs-append r rs (q ∷ []), here)
      | inr ne ↦
          let other : request_eq q r ≡ false = ground (arith, ne) in
          rw other (omega (arith, rw ne at grown))
    ]

from_entry-Balanced :
    (r : Request) (c : Config) (s : State) (q : Request) (now : ℕ) (o : Option Entry)
    → Balanced r s (request q now) (from_entry c s q now o)
unfolding from_entry Balanced
from_entry-Balanced r c s q now none = enqueue-Balanced r s q now
from_entry-Balanced r c s q now (some entry) =
    if_intro (Balanced r s (request q now)) (ltb (now - entry.at) c.ttl) _ _ (omega arith)
      (enqueue-Balanced r s q now)

occurs-other :
    (r : Request) (a : Bytes) (rs : List Request)
    → (a == r.auditor) ≡ false
    → Each (λ (q : Request). (q.auditor == a) ≡ true) rs
    → occurs r rs ≡ 0
occurs-other r a [] ne h = refl
occurs-other r a (q ∷ rs) ne h =
    let same : q.auditor ≡ a = (==_iff q.auditor a).0 h.0 in
    let other : (q.auditor == r.auditor) ≡ false = ap (λ b. b == r.auditor) same ∙ ne in
    ground (arith, other, occurs-other r a rs ne h.1)

on_fetched-Balanced :
    (r : Request) (c : Config) (s : State) (a : Bytes) (now : ℕ)
    (result : Option (List AuditedProvider))
    → ForAuditor s
    → Balanced r s (fetched a result now) (on_fetched c s a now result)
unfolding on_fetched on_result Balanced
on_fetched-Balanced r c s a now result h = on_result-balance result
  where
    rs : List Request
    rs = requests_of (get a s.pending)

    gone :
        occurs r (requests_of (get r.auditor (delete a s.pending)))
        ≡ (if a == r.auditor then 0 else waiting r s)
    gone = waiting-delete r s a

    settled :
        occurs r (requests_of (get r.auditor (delete a s.pending))) + occurs r rs ≡ waiting r s + 0
    settled = elim (Bool-cases (a == r.auditor)) [
      | inl e ↦
          let same : a ≡ r.auditor = (==_iff a r.auditor).0 e in
          let here : occurs r rs ≡ waiting r s =
            ap (λ b. occurs r (requests_of (get b s.pending))) same in
          omega (arith, rw e at gone, here)
      | inr ne ↦ omega (arith, rw ne at gone, occurs-other r a rs ne (h a))
    ]

    on_result-balance :
        (o : Option (List AuditedProvider))
        → Balanced r s (fetched a o now) (on_fetched c s a now o)
    on_result-balance none = omega (arith, settled, answered-fail_all r rs)
    on_result-balance (some result) = omega (arith, settled, answered-succeed_all r rs result)

on_auditor_event-Balanced :
    (r : Request) (c : Config) (s : State) (owner auditor : Bytes)
    → Balanced r s (auditor_event owner auditor) (on_auditor_event c s owner auditor)
unfolding on_auditor_event Balanced
on_auditor_event-Balanced r c s owner auditor =
    if_intro (Balanced r s (auditor_event owner auditor)) (owner == c.provider_address) _ _
      (omega arith) (omega arith)

pub handle-Balanced :
    (r : Request) (c : Config) (s : State) (e : Event)
    → ForAuditor s
    → Balanced r s e (handle c s e)
unfolding handle on_request Balanced
handle-Balanced r c s (auditor_event owner auditor) h =
    on_auditor_event-Balanced r c s owner auditor
handle-Balanced r c s other_event h = omega arith
handle-Balanced r c s (request q now) h = from_entry-Balanced r c s q now (get q.auditor s.cached)
handle-Balanced r c s (fetched a result now) h = on_fetched-Balanced r c s a now result h
