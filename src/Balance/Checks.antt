-- ===== src/Balance/Checks.antt =====
-- balance_checker.go: what the monitors and the checks of a lease do to its withdrawals.
use provider.Base.{
  ℕ, ◌+◌, ◌≤◌, ◌<◌, ◌≡◌, refl, sym, ◌∙◌, inl, inr, Bool, true, false, ◌&&◌, ◌||◌, Option, none,
  some, [], ◌∷◌, ◌++◌, arith, ltb, nat_eq, if◌then◌else◌, nat_eq_iff, Bool-cases, if_intro,
  if_split, ◌==◌, ℕ-eq, Bytes-eq,
}
use provider.Base.Map.{get, put, delete, get-put, get-delete}
use provider.Ids.{LeaseId, OrderId-eq, LeaseId-eq}
use provider.Balance.{
  check_failed, next_check, out_of_funds, check_closed, Response, Outcome, on_response, on_outcome,
  on_funds, present, go, is_address, queue_withdrawal, set, send_withdrawals, on_remove, on_add,
  with_state, State, LeaseState, Next, Config,
}
use provider.Balance.Outstanding.{
  send_withdrawals-Drops, flag, of_state-append, Drops-IsSingle, outstanding, IsSingle,
}

-- A write that clears no flag.
pub with_state-IsSingle :
    (b : ℕ) (s : State) (a : ℕ) (l : LeaseState)
    → ((s.states a).withdrawing ≡ true → l.withdrawing ≡ true)
    → IsSingle b s
    → IsSingle b (with_state s a l)
with_state-IsSingle b s a l keeps h = (
  elim (Bool-cases (nat_eq a b)) [
    | inl e ↦
        let same : a ≡ b = (nat_eq_iff a b).0 e in
        rw e
          (grown (s.states b).withdrawing l.withdrawing (outstanding b s) (rw (sym same) keeps) h.0)
    | inr ne ↦ rw ne h.0
  ],
  h.1,
  h.2,
)
  where
    grown :
        (old new : Bool) (n : ℕ)
        → (old ≡ true → new ≡ true)
        → n ≤ (if old then 1 else 0)
        → n ≤ (if new then 1 else 0)
    grown old new n imp le = ground (arith, imp, le)

pub on_add-IsSingle :
    (b : ℕ) (c : Config) (s : State) (lid : LeaseId) (is_new : Bool) (now first_in check_in : ℕ)
    → IsSingle b s
    → IsSingle b (on_add c s lid is_new now first_in check_in).after
unfolding on_add
on_add-IsSingle b c s lid is_new now first_in check_in h = (
  elim (Bool-cases (nat_eq s.next_state b)) [
    | inl e ↦ rw e (omega (arith, h.1 (ground (arith, e))))
    | inr ne ↦ rw ne h.0
  ],
  λ old. h.1 (omega (arith, old)),
  λ other. put_address other (lid == other) (get-put lid other s.next_state s.leases) (h.2 other),
)
  where
    put_address :
        (other : LeaseId) (is_this : Bool)
        → get other (put lid s.next_state s.leases)
          ≡ (if is_this then some s.next_state else get other s.leases)
        → (is_address b (get other s.leases) ≡ true → b < s.next_state)
        → is_address b (get other (put lid s.next_state s.leases)) ≡ true
        → b < s.next_state + 1
    put_address other true e before here = ground (arith, rw e at here)
    put_address other false e before here = omega (arith, before (rw e at here))

pub on_remove-IsSingle :
    (b : ℕ) (s : State) (lid : LeaseId) → IsSingle b s → IsSingle b (on_remove s lid).after
unfolding on_remove
on_remove-IsSingle b s lid h =
    if_intro (λ (n : Next). IsSingle b n.after) (present (get lid s.leases)) _ (go s [])
      (
        h.0,
        h.1,
        λ other. delete_address other (lid == other) (get-delete lid other s.leases) (h.2 other),
      )
      h
  where
    delete_address :
        (other : LeaseId) (is_this : Bool)
        → get other (delete lid s.leases) ≡ (if is_this then none else get other s.leases)
        → (is_address b (get other s.leases) ≡ true → b < s.next_state)
        → is_address b (get other (delete lid s.leases)) ≡ true
        → b < s.next_state
    delete_address other true e before here = absurd (ground (arith, rw e at here))
    delete_address other false e before here = before (rw e at here)

pub send_withdrawals-IsSingle :
    (b : ℕ) (s : State) → IsSingle b s → IsSingle b (send_withdrawals s).after
send_withdrawals-IsSingle b s =
    Drops-IsSingle b s (send_withdrawals s).after (send_withdrawals-Drops b s)

-- The state with one more withdrawal queued.
abbrev queued : State → LeaseId → ℕ → LeaseState → State
queued s lid a l = record s {
  states = set a (record l { withdrawing = true; retry_withdraw = false }) s.states;
  due = s.due ++ record { lid = lid; state = a } ∷ [];
}

outstanding-queued :
    (b : ℕ) (s : State) (lid : LeaseId) (a : ℕ) (l : LeaseState)
    → outstanding b (queued s lid a l) ≡ (if nat_eq a b then 1 else 0) + outstanding b s
outstanding-queued b s lid a l =
    omega (arith, of_state-append b s.due (record { lid = lid; state = a } ∷ []))

queued-IsSingle :
    (b : ℕ) (s : State) (lid : LeaseId) (a : ℕ) (l : LeaseState)
    → a < s.next_state
    → (s.states a).withdrawing ≡ false
    → IsSingle b s
    → IsSingle b (queued s lid a l)
queued-IsSingle b s lid a l old w h = elim (Bool-cases (nat_eq a b)) [
  | inl e ↦
      let same : a ≡ b = (nat_eq_iff a b).0 e in
      let before : outstanding b s ≡ 0 = no_flag b s (rw same at w) h.0 in
      (
        rw (outstanding-queued b s lid a l, e) (omega (arith, before)),
        λ fresh_b. absurd (omega (arith, fresh_b, old, same)),
        h.2,
      )
  | inr ne ↦ (
    rw (outstanding-queued b s lid a l, ne) (omega (arith, h.0)),
    rw (outstanding-queued b s lid a l, ne) (λ fresh_b. omega (arith, h.1 fresh_b)),
    h.2,
  )
]
  where
    no_flag :
        (b : ℕ) (s : State)
        → (s.states b).withdrawing ≡ false
        → outstanding b s ≤ flag b s
        → outstanding b s ≡ 0
    no_flag b s w le = ground (arith, w, le)

queue_withdrawal-IsSingle :
    (b : ℕ) (s : State) (lid : LeaseId) (a : ℕ) (l : LeaseState)
    → a < s.next_state
    → l.withdrawing ≡ (s.states a).withdrawing
    → IsSingle b s
    → IsSingle b (queue_withdrawal s lid a l).after
unfolding queue_withdrawal
queue_withdrawal-IsSingle b s lid a l old same h =
    if_split (λ (n : Next). IsSingle b n.after) l.withdrawing (go s [])
      (send_withdrawals (queued s lid a l)) (λ w. h)
      (λ w.
        send_withdrawals-IsSingle b (queued s lid a l)
          (queued-IsSingle b s lid a l old (sym same ∙ w) h))

on_funds-IsSingle :
    (b : ℕ) (c : Config) (s : State) (lid : LeaseId) (a now after : ℕ) (wanted : Bool)
    → a < s.next_state
    → IsSingle b s
    → IsSingle b (on_funds c s lid a (s.states a) now after wanted).after
unfolding on_funds
on_funds-IsSingle b c s lid a now after wanted old h =
    let l : LeaseState = record (s.states a) { scheduled_at = some (now + c.withdrawal_period) } in
    let t = with_state s a l in
    let written : (t.states a).withdrawing ≡ l.withdrawing = rw ((nat_eq_iff a a).1 refl) refl in
    if_intro (λ (n : Next). IsSingle b n.after) (wanted && ltb 0 c.withdrawal_period) _ _
      (queue_withdrawal-IsSingle b t lid a l old (sym written)
        (with_state-IsSingle b s a l (λ w. w) h))
      h

on_outcome-IsSingle :
    (b : ℕ) (c : Config) (s : State) (lid : LeaseId) (a : ℕ) (scheduled : Bool) (now : ℕ)
    (can_publish : Bool) (outcome : Outcome)
    → a < s.next_state
    → IsSingle b s
    → IsSingle b (on_outcome c s lid a (s.states a) scheduled now can_publish outcome).after
unfolding on_outcome
on_outcome-IsSingle b c s lid a scheduled now can_publish check_failed old h = h
on_outcome-IsSingle b c s lid a scheduled now can_publish (check_closed reason) old h =
    if_intro (λ (n : Next). IsSingle b n.after) can_publish _ _
      (with_state-IsSingle b s a (record (s.states a) { closed = true }) (λ w. w) h) h
on_outcome-IsSingle b c s lid a scheduled now can_publish (out_of_funds after) old h =
    on_funds-IsSingle b c s lid a now after true old h
on_outcome-IsSingle b c s lid a scheduled now can_publish (next_check after) old h =
    on_funds-IsSingle b c s lid a now after (scheduled || (s.states a).retry_withdraw) old h

pub on_response-IsSingle :
    (b : ℕ) (c : Config) (s : State) (res : Response) (now : ℕ) (can_publish : Bool) (o : Option ℕ)
    → o ≡ get res.lid s.leases
    → ((a : ℕ) → IsSingle a s)
    → IsSingle b (on_response c s res now can_publish o).after
unfolding on_response
on_response-IsSingle b c s res now can_publish none e all = all b
on_response-IsSingle b c s res now can_publish (some a) e all =
    let here : is_address a (get res.lid s.leases) ≡ true = rw (sym e) ((nat_eq_iff a a).1 refl) in
    if_intro (λ (n : Next). IsSingle b n.after) (s.states a).closed (go s []) _ (all b)
      (on_outcome-IsSingle b c s res.lid a res.scheduled now can_publish res.outcome
        ((all a).2 res.lid here) (all b))
