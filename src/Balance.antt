-- ===== src/Balance.antt =====
-- balance_checker.go: the checker that watches the funds of each lease and withdraws from it.
-- Times and durations are numbers of seconds. The states of the leases are shared objects
-- (`*leaseState`): here a store by address, in which a monitor keeps its address.
pub mod Escrow
pub mod Outstanding
pub mod Checks
pub mod Single
pub mod Batches
mod Samples
use provider.Base.{
  ℕ, zero, suc, ◌+◌, ◌-◌, Bool, true, false, not, ◌&&◌, ◌||◌, Option, none, some, List, [], ◌∷◌,
  ◌++◌, ltb, leb, nat_eq, if◌then◌else◌, ◌==◌, ℕ-eq, Bytes-eq,
}
use provider.Base.Map.{Map, get, put, delete}
use provider.Ids.{LeaseId, OrderId-eq, LeaseId-eq}

pub record LeaseState : Type 0 where
  pub scheduled_at : Option ℕ
  pub closed : Bool
  pub withdrawing : Bool
  pub retry_withdraw : Bool

-- `withdrawItem`: the lease and the address of its monitor's state.
pub record Item : Type 0 where
  pub lid : LeaseId
  pub state : ℕ

pub data Reason : Type 0 where
  unspecified insufficient_funds closed_by_owner other_reason : Reason

-- What a check of a lease found, with the time to the next check.
pub data Outcome : Type 0 where
  check_failed : Outcome
  check_closed : Reason → Outcome
  out_of_funds : ℕ → Outcome
  next_check : ℕ → Outcome

-- `leaseCheckResponse`; `scheduled` is whether the check was made for a scheduled withdrawal.
pub record Response : Type 0 where
  pub lid : LeaseId
  pub scheduled : Bool
  pub outcome : Outcome

-- Why a withdrawal failed.
pub data Failure : Type 0 where
  payment_closed account_closed other_failure : Failure

-- `WithdrawalPeriod`; 0 turns withdrawals off.
pub record Config : Type 0 where
  pub withdrawal_period : ℕ

-- The leases, the store, the address of the next state, `withdrawQueue` with the transaction in
-- flight (`sending`), and whether the context has ended.
pub record State : Type 0 where
  pub leases : Map LeaseId ℕ
  pub states : ℕ → LeaseState
  pub next_state : ℕ
  pub due : List Item
  pub alone : List Item
  pub in_flight : Option (List Item)
  pub context_ended : Bool

-- A monitor is added with the random times of its first withdrawal and check; a response and a
-- result come with the time and with whether an event can be published.
pub data Event : Type 0 where
  shutdown : Event
  end_context : Event
  add_monitor : LeaseId → Bool → ℕ → ℕ → ℕ → Event
  remove_monitor : LeaseId → Event
  other_event : Event
  checked : Response → ℕ → Bool → Event
  withdrawn : Option Failure → Bool → Event

pub data Effect : Type 0 where
  run_check : LeaseId → Effect
  arm_timer : LeaseId → ℕ → Bool → Effect
  stop_timer : LeaseId → Effect
  publish_closed : LeaseId → Reason → Effect
  send : List Item → Effect

pub record Next : Type 0 where
  pub after : State
  pub effects : List Effect

abbrev pub go : State → List Effect → Next
go s effects = record { after = s; effects = effects }

abbrev pub and_then : Next → (State → Next) → Next
and_then n f = let m = f n.after in record { after = m.after; effects = n.effects ++ m.effects }

-- A write to the store.
abbrev pub set : ℕ → LeaseState → (ℕ → LeaseState) → ℕ → LeaseState
set a l states b = if nat_eq a b then l else states b

abbrev pub with_state : State → ℕ → LeaseState → State
with_state s a l = record s { states = set a l s.states }

abbrev pub is_address : ℕ → Option ℕ → Bool
is_address a none = false
is_address a (some b) = nat_eq b a

-- `bc.leases[item.lid] == item.state && !item.state.closed`
abbrev pub keep : State → Item → Bool
keep s item = is_address item.state (get item.lid s.leases) && not (s.states item.state).closed

abbrev pub max_withdraw_batch : ℕ
max_withdraw_batch = 20

-- The first loop of `next`.
pub next_alone : (Item → Bool) → List Item → Option Item × List Item
next_alone test [] = (none, [])
next_alone test (item ∷ items) =
    let rest = next_alone test items in if test item then (some item, items) else rest

-- The second loop of `next`, with the room left in the batch.
pub next_due : (Item → Bool) → List Item → ℕ → List Item × List Item
next_due test [] room = ([], [])
next_due test (item ∷ items) zero = ([], item ∷ items)
next_due test (item ∷ items) (suc room) =
    let taken = next_due test items room in
    let passed = next_due test items (suc room) in
    if test item then (item ∷ taken.0, taken.1) else passed

-- `withdrawQueue.next`: the batch, and what is left of `due` and `alone`.
pub batch_of :
    (Item → Bool) → List Item → Option Item × List Item → List Item × List Item × List Item
unfolding next_due
batch_of test due (some item, alone) = (item ∷ [], due, alone)
batch_of test due (none, alone) =
    let batch = next_due test due max_withdraw_batch in (batch.0, batch.1, alone)

pub next_batch : (Item → Bool) → List Item → List Item → List Item × List Item × List Item
unfolding next_alone batch_of
next_batch test due alone = batch_of test due (next_alone test alone)

-- The end of `sendWithdrawals`.
pub send_batch : State → List Item → List Item → List Item → Next
send_batch s [] due alone = go (record s { due = due; alone = alone }) []
send_batch s (item ∷ batch) due alone =
    go (record s { due = due; alone = alone; in_flight = some (item ∷ batch) })
      (send (item ∷ batch) ∷ [])

abbrev pub is_sending : Option (List Item) → Bool
is_sending none = false
is_sending (some items) = true

-- `sendWithdrawals`
pub send_withdrawals : State → Next
unfolding send_batch next_batch
send_withdrawals s =
    let b = next_batch (keep s) s.due s.alone in
    if is_sending s.in_flight || s.context_ended then go s [] else send_batch s b.0 b.1 b.2

-- `case event.LeaseAddFundsMonitor`; `first_in` and `check_in` are random below the period and a
-- minute.
pub on_add : Config → State → LeaseId → Bool → ℕ → ℕ → ℕ → Next
on_add c s lid is_new now first_in check_in =
    let first = if is_new then c.withdrawal_period else first_in in
    let monitor : LeaseState = record {
      scheduled_at = if ltb 0 c.withdrawal_period then some (now + first) else none;
      closed = false;
      withdrawing = false;
      retry_withdraw = false;
    } in
    go
      (record s {
        leases = put lid s.next_state s.leases;
        states = set s.next_state monitor s.states;
        next_state = s.next_state + 1;
      })
      (if is_new then run_check lid ∷ [] else arm_timer lid check_in false ∷ [])

abbrev pub present {ℓ} : {A : Type ℓ} → Option A → Bool
present none = false
present (some a) = true

-- `case event.LeaseRemoveFundsMonitor`
pub on_remove : State → LeaseId → Next
on_remove s lid =
    if present (get lid s.leases)
    then go (record s { leases = delete lid s.leases }) (stop_timer lid ∷ [])
    else go s []

-- The timer of the next check: `time.Until` may be negative, which fires at once.
abbrev pub next_timer : Option ℕ → ℕ → ℕ → ℕ × Bool
next_timer none now after = (after, false)
next_timer (some at) now after = if leb (at - now) after then (at - now, true) else (after, false)

abbrev pub arm : LeaseId → ℕ × Bool → Effect
arm lid timer = arm_timer lid timer.0 timer.1

-- A check whose state is the next check, or else one for a withdrawal; `after` is `checkAfter`.
pub queue_withdrawal : State → LeaseId → ℕ → LeaseState → Next
unfolding send_withdrawals
queue_withdrawal s lid a l =
    if l.withdrawing
    then go s []
    else send_withdrawals (record s {
      states = set a (record l { withdrawing = true; retry_withdraw = false }) s.states;
      due = s.due ++ record { lid = lid; state = a } ∷ [];
    })

pub on_funds : Config → State → LeaseId → ℕ → LeaseState → ℕ → ℕ → Bool → Next
unfolding queue_withdrawal
on_funds c s lid a l now after wanted =
    let l' = record l { scheduled_at = some (now + c.withdrawal_period) } in
    if wanted && ltb 0 c.withdrawal_period
    then and_then (go (with_state s a l') (arm_timer lid after false ∷ []))
        (λ s'. queue_withdrawal s' lid a l')
    else go s (arm lid (next_timer l.scheduled_at now after) ∷ [])

-- `case res := <-leaseCheckCh`, for a lease that is monitored and not reported closed.
pub on_outcome : Config → State → LeaseId → ℕ → LeaseState → Bool → ℕ → Bool → Outcome → Next
unfolding on_funds
on_outcome c s lid a l scheduled now can_publish check_failed =
    go s (arm_timer lid 60 scheduled ∷ [])
on_outcome c s lid a l scheduled now can_publish (check_closed reason) =
    if can_publish
    then go (with_state s a (record l { closed = true })) (publish_closed lid reason ∷ [])
    else go s (publish_closed lid reason ∷ arm_timer lid 60 scheduled ∷ [])
on_outcome c s lid a l scheduled now can_publish (out_of_funds after) =
    on_funds c s lid a l now after true
on_outcome c s lid a l scheduled now can_publish (next_check after) =
    on_funds c s lid a l now after (scheduled || l.retry_withdraw)

pub on_response : Config → State → Response → ℕ → Bool → Option ℕ → Next
unfolding on_outcome
on_response c s res now can_publish none = go s []
on_response c s res now can_publish (some a) =
    let l = s.states a in
    if l.closed
    then go s []
    else on_outcome c s res.lid a l res.scheduled now can_publish res.outcome

-- `for _, item := range res.items { item.state.withdrawing = false }`
pub clear_withdrawing : List Item → (ℕ → LeaseState) → ℕ → LeaseState
clear_withdrawing [] states = states
clear_withdrawing (item ∷ items) states =
    clear_withdrawing items
      (set item.state (record (states item.state) { withdrawing = false }) states)

abbrev pub is_escrow_closed : Failure → Bool
is_escrow_closed other_failure = false
is_escrow_closed _ = true

abbrev pub reason_of : Failure → Reason
reason_of account_closed = closed_by_owner
reason_of _ = unspecified

-- `withdrawFailed`
pub withdraw_failed : State → Item → Failure → Bool → Next
withdraw_failed s item failure can_publish =
    let l = record (s.states item.state) { withdrawing = false } in
    let current = is_address item.state (get item.lid s.leases) in
    if not current || l.closed
    then go (with_state s item.state l) []
    else if not (is_escrow_closed failure)
    then go (with_state s item.state (record l { retry_withdraw = true })) []
    else go (with_state s item.state (record l { closed = can_publish }))
        (publish_closed item.lid (reason_of failure) ∷ [])

-- The cases of a result, before `sendWithdrawals`.
pub on_result : State → List Item → Option Failure → Bool → Next
unfolding withdraw_failed clear_withdrawing
on_result s items none can_publish = go (record s { states = clear_withdrawing items s.states }) []
on_result s [] (some failure) can_publish = go s []
on_result s (item ∷ []) (some failure) can_publish = withdraw_failed s item failure can_publish
on_result s (item ∷ other ∷ items) (some failure) can_publish =
    go (record s { alone = s.alone ++ item ∷ other ∷ items }) []

-- `case res := <-withdrawResults`
pub on_withdrawn : State → Option (List Item) → Option Failure → Bool → Next
unfolding on_result send_withdrawals
on_withdrawn s none failure can_publish = go s []
on_withdrawn s (some items) failure can_publish =
    and_then (on_result (record s { in_flight = none }) items failure can_publish) send_withdrawals

-- One round of the loop of `run`.
pub handle : Config → State → Event → Next
unfolding on_add on_remove on_response on_withdrawn
handle c s shutdown = go s []
handle c s end_context = go (record s { context_ended = true }) []
handle c s (add_monitor lid is_new now first_in check_in) =
    on_add c s lid is_new now first_in check_in
handle c s (remove_monitor lid) = on_remove s lid
handle c s other_event = go s []
handle c s (checked res now can_publish) =
    on_response c s res now can_publish (get res.lid s.leases)
handle c s (withdrawn failure can_publish) = on_withdrawn s s.in_flight failure can_publish

abbrev pub fresh : LeaseState
fresh = record { scheduled_at = none; closed = false; withdrawing = false; retry_withdraw = false }

-- `newBalanceChecker`
pub start : State
start = record {
  leases = [];
  states = λ a. fresh;
  next_state = 0;
  due = [];
  alone = [];
  in_flight = none;
  context_ended = false;
}

-- The loop, to its shutdown.
pub run : Config → State → List Event → Next
unfolding handle
run c s [] = go s []
run c s (shutdown ∷ es) = go s []
run c s (e ∷ es) = and_then (handle c s e) (λ s'. run c s' es)
