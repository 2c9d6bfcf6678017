-- ===== src/Balance/Batches.antt =====
-- balance_checker.go: the transactions that the checker sends.
use provider.Base.{
  ℕ, zero, suc, ◌+◌, ◌≤◌, ◌<◌, ◌≡◌, refl, Bool, true, false, not, ◌&&◌, ◌||◌, Option, none, some,
  List, [], ◌∷◌, ◌++◌, arith, ltb, if_intro, if_split, ℕ-eq, Bytes-eq, length, Each, Each-append,
  Each-map,
}
use provider.Base.Map.{get}
use provider.Ids.{LeaseId, OrderId-eq, LeaseId-eq}
use provider.Balance.{
  set, other_event, end_context, shutdown, withdrawn, checked, present, remove_monitor,
  check_failed, next_check, run_check, add_monitor, out_of_funds, is_escrow_closed, check_closed,
  on_remove, is_address, arm_timer, is_sending, send, on_add, Failure, Response, Outcome,
  with_state, go, and_then, next_batch, keep, max_withdraw_batch, handle, on_withdrawn, on_result,
  withdraw_failed, on_response, on_outcome, on_funds, queue_withdrawal, send_withdrawals,
  send_batch, batch_of, next_alone, next_due, Effect, State, Item, LeaseState, Next, Event, Config,
}

-- A transaction of 1 to 20 withdrawals, each for the current monitor of its lease, which has not
-- been reported closed; it is the one in flight.
abbrev pub IsGood : State → Effect → Type 0
IsGood s (send items) =
    (0 < length items)
    × (length items ≤ 20)
    × Each (λ item. keep s item ≡ true) items
    × (s.in_flight ≡ some items)
IsGood s _ = Unit

abbrev pub AllGood : Next → Type 0
AllGood n = Each (IsGood n.after) n.effects

abbrev pub AllKept : (Item → Bool) → List Item → Type 0
AllKept test = Each (λ item. test item ≡ true)

next_due-kept :
    (test : Item → Bool) (items : List Item) (room : ℕ)
    → let n = next_due test items room in AllKept test n.0 × (length n.0 ≤ room)
unfolding next_due
next_due-kept test [] room = (tt, omega arith)
next_due-kept test (item ∷ items) zero = (tt, omega arith)
next_due-kept test (item ∷ items) (suc room) =
    let taken = next_due-kept test items room in
    if_split (λ (n : List Item × List Item). AllKept test n.0 × (length n.0 ≤ suc room)) (test item)
      (item ∷ (next_due test items room).0, (next_due test items room).1)
      (next_due test items (suc room)) (λ t. ((t, taken.0), omega (arith, taken.1)))
      (λ t. next_due-kept test items (suc room))

abbrev pub OptionKept : (Item → Bool) → Option Item → Type 0
OptionKept test none = Unit
OptionKept test (some item) = test item ≡ true

next_alone-kept :
    (test : Item → Bool) (items : List Item) → OptionKept test (next_alone test items).0
unfolding next_alone
next_alone-kept test [] = tt
next_alone-kept test (item ∷ items) =
    if_split (λ (n : Option Item × List Item). OptionKept test n.0) (test item) (some item, items)
      (next_alone test items) (λ t. t) (λ t. next_alone-kept test items)

batch_of-kept :
    (test : Item → Bool) (due : List Item) (n : Option Item × List Item)
    → OptionKept test n.0
    → let b = batch_of test due n in AllKept test b.0 × (length b.0 ≤ 20)
unfolding batch_of
batch_of-kept test due (some item, alone) k = ((k, tt), omega arith)
batch_of-kept test due (none, alone) k = next_due-kept test due max_withdraw_batch

send_batch-AllGood :
    (s : State) (batch due alone : List Item)
    → AllKept (keep s) batch
    → length batch ≤ 20
    → AllGood (send_batch s batch due alone)
unfolding send_batch
send_batch-AllGood s [] due alone k le = tt
send_batch-AllGood s (item ∷ batch) due alone k le = ((omega arith, le, k, refl), tt)

send_withdrawals-AllGood : (s : State) → AllGood (send_withdrawals s)
unfolding send_withdrawals next_batch
send_withdrawals-AllGood s =
    let n = next_alone (keep s) s.alone in
    let k = batch_of-kept (keep s) s.due n (next_alone-kept (keep s) s.alone) in
    let b = batch_of (keep s) s.due n in
    if_intro AllGood (is_sending s.in_flight || s.context_ended) (go s [])
      (send_batch s b.0 b.1 b.2) tt (send_batch-AllGood s b.0 b.1 b.2 k.0 k.1)

-- Effects that send nothing.
abbrev pub SendsNothing : List Effect → Type 0
SendsNothing = Each (λ e. (s : State) → IsGood s e)

and_then-AllGood :
    (s : State) (effects : List Effect) (f : State → Next)
    → SendsNothing effects
    → AllGood (f s)
    → AllGood (and_then (go s effects) f)
and_then-AllGood s effects f q g =
    Each-append _ effects (f s).effects (Each-map _ _ effects (λ e k. k (f s).after) q) g

queue_withdrawal-AllGood :
    (s : State) (lid : LeaseId) (a : ℕ) (l : LeaseState) → AllGood (queue_withdrawal s lid a l)
unfolding queue_withdrawal
queue_withdrawal-AllGood s lid a l =
    let t : State = record s {
      states = set a (record l { withdrawing = true; retry_withdraw = false }) s.states;
      due = s.due ++ record { lid = lid; state = a } ∷ [];
    } in
    if_intro AllGood l.withdrawing (go s []) (send_withdrawals t) tt (send_withdrawals-AllGood t)

on_funds-AllGood :
    (c : Config) (s : State) (lid : LeaseId) (a : ℕ) (l : LeaseState) (now after : ℕ)
    (wanted : Bool)
    → AllGood (on_funds c s lid a l now after wanted)
unfolding on_funds
on_funds-AllGood c s lid a l now after wanted =
    let l' : LeaseState = record l { scheduled_at = some (now + c.withdrawal_period) } in
    if_intro AllGood (wanted && ltb 0 c.withdrawal_period) _ _
      (and_then-AllGood (with_state s a l') (arm_timer lid after false ∷ [])
        (λ s'. queue_withdrawal s' lid a l') ((λ t. tt), tt)
        (queue_withdrawal-AllGood (with_state s a l') lid a l'))
      (tt, tt)

on_outcome-AllGood :
    (c : Config) (s : State) (lid : LeaseId) (a : ℕ) (l : LeaseState) (scheduled : Bool) (now : ℕ)
    (can_publish : Bool) (outcome : Outcome)
    → AllGood (on_outcome c s lid a l scheduled now can_publish outcome)
unfolding on_outcome
on_outcome-AllGood c s lid a l scheduled now can_publish check_failed = (tt, tt)
on_outcome-AllGood c s lid a l scheduled now can_publish (check_closed reason) =
    if_intro AllGood can_publish _ _ (tt, tt) (tt, (tt, tt))
on_outcome-AllGood c s lid a l scheduled now can_publish (out_of_funds after) =
    on_funds-AllGood c s lid a l now after true
on_outcome-AllGood c s lid a l scheduled now can_publish (next_check after) =
    on_funds-AllGood c s lid a l now after (scheduled || l.retry_withdraw)

on_response-AllGood :
    (c : Config) (s : State) (res : Response) (now : ℕ) (can_publish : Bool) (o : Option ℕ)
    → AllGood (on_response c s res now can_publish o)
unfolding on_response
on_response-AllGood c s res now can_publish none = tt
on_response-AllGood c s res now can_publish (some a) =
    if_intro AllGood (s.states a).closed (go s []) _ tt
      (on_outcome-AllGood c s res.lid a (s.states a) res.scheduled now can_publish res.outcome)

withdraw_failed-quiet :
    (s : State) (item : Item) (failure : Failure) (can_publish : Bool)
    → SendsNothing (withdraw_failed s item failure can_publish).effects
unfolding withdraw_failed
withdraw_failed-quiet s item failure can_publish =
    let P : Next → Type 0 = λ n. SendsNothing n.effects in
    if_intro P (not (is_address item.state (get item.lid s.leases)) || (s.states item.state).closed)
      _ _ tt (if_intro P (not (is_escrow_closed failure)) _ _ tt ((λ t. tt), tt))

on_result-quiet :
    (s : State) (items : List Item) (failure : Option Failure) (can_publish : Bool)
    → SendsNothing (on_result s items failure can_publish).effects
unfolding on_result
on_result-quiet s items none can_publish = tt
on_result-quiet s [] (some failure) can_publish = tt
on_result-quiet s (item ∷ []) (some failure) can_publish =
    withdraw_failed-quiet s item failure can_publish
on_result-quiet s (item ∷ other ∷ items) (some failure) can_publish = tt

on_withdrawn-AllGood :
    (s : State) (sent : Option (List Item)) (failure : Option Failure) (can_publish : Bool)
    → AllGood (on_withdrawn s sent failure can_publish)
unfolding on_withdrawn
on_withdrawn-AllGood s none failure can_publish = tt
on_withdrawn-AllGood s (some items) failure can_publish =
    let n = on_result (record s { in_flight = none }) items failure can_publish in
    and_then-AllGood n.after n.effects send_withdrawals
      (on_result-quiet (record s { in_flight = none }) items failure can_publish)
      (send_withdrawals-AllGood n.after)

-- Whatever the balance checker receives, each transaction that it then sends withdraws for 1 to
-- 20 monitors, all of them current and none reported closed, and is the one in flight.
pub handle-AllGood : (c : Config) (s : State) (e : Event) → AllGood (handle c s e)
unfolding handle on_add on_remove
handle-AllGood c s shutdown = tt
handle-AllGood c s end_context = tt
handle-AllGood c s (add_monitor lid is_new now first_in check_in) =
    if_intro (λ effects. Each (IsGood (on_add c s lid is_new now first_in check_in).after) effects)
      is_new (run_check lid ∷ []) (arm_timer lid check_in false ∷ []) (tt, tt) (tt, tt)
handle-AllGood c s (remove_monitor lid) =
    if_intro AllGood (present (get lid s.leases)) _ (go s []) (tt, tt) tt
handle-AllGood c s other_event = tt
handle-AllGood c s (checked res now can_publish) =
    on_response-AllGood c s res now can_publish (get res.lid s.leases)
handle-AllGood c s (withdrawn failure can_publish) =
    on_withdrawn-AllGood s s.in_flight failure can_publish
