-- ===== src/Balance/Single.antt =====
-- balance_checker.go: one withdrawal of a monitor at a time, over a history.
use provider.Base.{
  ℕ, ◌+◌, ◌≤◌, ◌≡◌, refl, ◌∙◌, ◌⊎◌, inl, inr, Bool, false, not, ◌||◌, Option, none, some, List, [],
  ◌∷◌, arith, nat_eq, if◌then◌else◌, nat_eq_iff, Bool-cases, if_intro, ℕ-eq, Bytes-eq,
}
use provider.Base.Map.{get}
use provider.Ids.{OrderId-eq, LeaseId-eq}
use provider.Balance.{
  other_event, end_context, shutdown, withdrawn, checked, remove_monitor, add_monitor, Event, start,
  run, handle, on_withdrawn, on_result, is_escrow_closed, Failure, withdraw_failed, Item,
  clear_withdrawing, is_address, set, with_state, State, LeaseState, Next, Config,
}
use provider.Balance.Checks.{
  on_response-IsSingle, on_remove-IsSingle, send_withdrawals-IsSingle, on_add-IsSingle,
}
use provider.Balance.Outstanding.{of_state, flag, of_state-append, outstanding, IsSingle}

-- A result clears the flags of its withdrawals only.
set-other :
    (a b : ℕ) (l : LeaseState) (states : ℕ → LeaseState)
    → nat_eq a b ≡ false
    → set a l states b ≡ states b
set-other a b l states ne = rw ne refl

clear_withdrawing-other :
    (b : ℕ) (items : List Item) (states : ℕ → LeaseState)
    → of_state b items ≡ 0
    → clear_withdrawing items states b ≡ states b
unfolding clear_withdrawing
clear_withdrawing-other b [] states h = refl
clear_withdrawing-other b (item ∷ items) states h =
    let l : LeaseState = record (states item.state) { withdrawing = false } in
    let ne : nat_eq item.state b ≡ false = ground (arith, h) in
    clear_withdrawing-other b items (set item.state l states) (ground (arith, h))
    ∙ set-other item.state b l states ne

-- The state without the transaction that was in flight.
abbrev received : State → State
received s = record s { in_flight = none }

-- Behind a result no withdrawal is new, and a state that changed has none left.
abbrev Settled : ℕ → State → List Item → State → Type 0
Settled b s items t =
    (outstanding b t ≤ outstanding b (received s) + of_state b items)
    × (t.leases ≡ s.leases)
    × (t.next_state ≡ s.next_state)
    × (outstanding b t ≡ 0 ⊎ (t.states b ≡ s.states b))

Settled-IsSingle :
    (b : ℕ) (s : State) (items : List Item) (t : State)
    → s.in_flight ≡ some items
    → Settled b s items t
    → IsSingle b s
    → IsSingle b t
Settled-IsSingle b s items t sent m h =
    let whole : outstanding b s ≡ outstanding b (received s) + of_state b items =
      rw sent (omega arith) in
    (
      elim (m.3) [
        | inl zero_left ↦ omega (arith, zero_left)
        | inr same ↦ rw same (omega (arith, m.0, whole, h.0))
      ],
      rw (m.2) (λ old. omega (arith, m.0, whole, h.1 old)),
      rw (m.1, m.2) h.2,
    )

-- A monitor has at most one withdrawal, those of the result included.
abbrev AtMostOne : ℕ → State → List Item → Type 0
AtMostOne b s items = outstanding b (received s) + of_state b items ≤ 1

written-Settled :
    (b : ℕ) (s : State) (item : Item) (l : LeaseState)
    → AtMostOne b s (item ∷ [])
    → Settled b s (item ∷ []) (with_state (received s) item.state l)
written-Settled b s item l le = (
  omega arith,
  refl,
  refl,
  elim (Bool-cases (nat_eq item.state b)) [
    | inl e ↦ inl (ground (arith, le, e))
    | inr ne ↦ inr (set-other item.state b l s.states ne)
  ],
)

withdraw_failed-Settled :
    (b : ℕ) (s : State) (item : Item) (failure : Failure) (can_publish : Bool)
    → AtMostOne b s (item ∷ [])
    → Settled b s (item ∷ []) (withdraw_failed (received s) item failure can_publish).after
unfolding withdraw_failed
withdraw_failed-Settled b s item failure can_publish le =
    let P : Next → Type 0 = λ n. Settled b s (item ∷ []) n.after in
    if_intro P (not (is_address item.state (get item.lid s.leases)) || (s.states item.state).closed)
      _ _ (written-Settled b s item _ le)
      (if_intro P (not (is_escrow_closed failure)) _ _ (written-Settled b s item _ le)
        (written-Settled b s item _ le))

on_result-Settled :
    (b : ℕ) (s : State) (items : List Item) (failure : Option Failure) (can_publish : Bool)
    → AtMostOne b s items
    → Settled b s items (on_result (received s) items failure can_publish).after
unfolding on_result
on_result-Settled b s items none can_publish le = (
  omega arith,
  refl,
  refl,
  elim (Bool-cases (nat_eq (of_state b items) 0)) [
    | inl e ↦ inr (clear_withdrawing-other b items s.states ((nat_eq_iff (of_state b items) 0).0 e))
    | inr ne ↦ inl (ground (arith, le, ne))
  ],
)
on_result-Settled b s [] (some failure) can_publish le = (omega arith, refl, refl, inr refl)
on_result-Settled b s (item ∷ []) (some failure) can_publish le =
    withdraw_failed-Settled b s item failure can_publish le
on_result-Settled b s (item ∷ other ∷ items) (some failure) can_publish le =
    (omega (arith, of_state-append b s.alone (item ∷ other ∷ items)), refl, refl, inr refl)

on_withdrawn-IsSingle :
    (b : ℕ) (s : State) (sent : Option (List Item)) (failure : Option Failure) (can_publish : Bool)
    → s.in_flight ≡ sent
    → IsSingle b s
    → IsSingle b (on_withdrawn s sent failure can_publish).after
unfolding on_withdrawn
on_withdrawn-IsSingle b s none failure can_publish e h = h
on_withdrawn-IsSingle b s (some items) failure can_publish e h =
    let t = (on_result (received s) items failure can_publish).after in
    send_withdrawals-IsSingle b t (
      Settled-IsSingle b s items t e
        (on_result-Settled b s items failure can_publish (at_most_one b s items e h.0)) h)
  where
    at_most_one :
        (b : ℕ) (s : State) (items : List Item)
        → s.in_flight ≡ some items
        → outstanding b s ≤ flag b s
        → AtMostOne b s items
    at_most_one b s items e le =
        let whole : outstanding b s ≡ outstanding b (received s) + of_state b items =
          rw e (omega arith) in
        ground (arith, whole, le)

handle-IsSingle :
    (b : ℕ) (c : Config) (s : State) (e : Event)
    → ((a : ℕ) → IsSingle a s)
    → IsSingle b (handle c s e).after
unfolding handle
handle-IsSingle b c s shutdown all = all b
handle-IsSingle b c s end_context all = all b
handle-IsSingle b c s (add_monitor lid is_new now first_in check_in) all =
    on_add-IsSingle b c s lid is_new now first_in check_in (all b)
handle-IsSingle b c s (remove_monitor lid) all = on_remove-IsSingle b s lid (all b)
handle-IsSingle b c s other_event all = all b
handle-IsSingle b c s (checked res now can_publish) all =
    on_response-IsSingle b c s res now can_publish (get res.lid s.leases) refl all
handle-IsSingle b c s (withdrawn failure can_publish) all =
    on_withdrawn-IsSingle b s s.in_flight failure can_publish refl (all b)

run-all :
    (c : Config) (s : State) (es : List Event)
    → ((a : ℕ) → IsSingle a s)
    → (b : ℕ) → IsSingle b (run c s es).after
unfolding run
run-all c s [] all b = all b
run-all c s (shutdown ∷ es) all b = all b
run-all c s (end_context ∷ es) all b =
    run-all c (handle c s end_context).after es (λ a. handle-IsSingle a c s end_context all) b
run-all c s (add_monitor lid is_new now first_in check_in ∷ es) all b =
    run-all c (handle c s (add_monitor lid is_new now first_in check_in)).after es
      (λ a. handle-IsSingle a c s (add_monitor lid is_new now first_in check_in) all) b
run-all c s (remove_monitor lid ∷ es) all b =
    run-all c (handle c s (remove_monitor lid)).after es
      (λ a. handle-IsSingle a c s (remove_monitor lid) all) b
run-all c s (other_event ∷ es) all b =
    run-all c (handle c s other_event).after es (λ a. handle-IsSingle a c s other_event all) b
run-all c s (checked res now can_publish ∷ es) all b =
    run-all c (handle c s (checked res now can_publish)).after es
      (λ a. handle-IsSingle a c s (checked res now can_publish) all) b
run-all c s (withdrawn failure can_publish ∷ es) all b =
    run-all c (handle c s (withdrawn failure can_publish)).after es
      (λ a. handle-IsSingle a c s (withdrawn failure can_publish) all) b

-- After any history of the balance checker, a monitor has at most one withdrawal that waits or is
-- in flight, and none while its flag is clear.
pub run-single :
    (c : Config) (es : List Event) (b : ℕ)
    → let s = (run c start es).after in
      (outstanding b s ≤ (if (s.states b).withdrawing then 1 else 0))
unfolding start get
run-single c es b =
    (run-all c start es
      (λ a. (omega arith, λ old. omega arith, λ lid h. absurd (ground (arith, h)))) b).0
