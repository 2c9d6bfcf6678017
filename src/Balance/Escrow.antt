-- ===== src/Balance/Escrow.antt =====
-- balance_checker.go: the check of one lease's escrow. The packages of the chain compute the
-- blocks that a balance lasts: here a parameter, 0 where it lasts for none.
pub mod Reports
use provider.Base.{
  ℕ, ◌+◌, ◌*◌, ◌/◌, Bool, not, Option, none, some, List, [], ◌∷◌, ltb, nat_eq, if◌then◌else◌, ◌==◌,
  ℕ-eq, Bytes, Bytes-eq, codes,
}
use provider.Ids.{LeaseId, OrderId-eq, LeaseId-eq}
use provider.Balance.{
  insufficient_funds, unspecified, closed_by_owner, next_check, check_closed, check_failed,
  out_of_funds, Outcome, Reason, Response,
}

pub data LeaseStatus : Type 0 where
  lease_active lease_reclaiming lease_closed lease_insufficient lease_other : LeaseStatus

-- The state of an escrow payment or account.
pub data EscrowState : Type 0 where
  escrow_open escrow_closed escrow_overdrawn : EscrowState

-- The answer to the query of the lease: its id, state and reason, and its payment.
pub record LeaseAnswer : Type 0 where
  pub id : LeaseId
  pub status : LeaseStatus
  pub reason : Reason
  pub payment : EscrowState

-- The answer to the query of the deployment: the state of the account, the height it was settled
-- at, and its funds by denomination.
pub record Account : Type 0 where
  pub state : EscrowState
  pub settled_at : ℕ
  pub funds : List (Bytes × ℕ)

-- The answers of the node: whether it can be asked and has caught up, with its height; an answer
-- that is missing is an error. `prices` are those of the active and of the reclaiming leases.
pub record Node : Type 0 where
  pub sync : Option (Bool × ℕ)
  pub lease : Option LeaseAnswer
  pub account : Option Account
  pub active_prices : Option (List ℕ)
  pub reclaiming_prices : Option (List ℕ)

abbrev pub uact : Bytes
uact = codes "uact"

-- The amount of the first entry in `uact`; the balance stays nil without one.
pub balance_of : List (Bytes × ℕ) → Option ℕ
balance_of [] = none
balance_of ((denom, amount) ∷ funds) =
    let rest = balance_of funds in if denom == uact then some amount else rest

abbrev pub sum : List ℕ → ℕ
sum [] = 0
sum (p ∷ prices) = p + sum prices

-- The interval of the funds checks, the time of a block, and what the chain's package computes
-- from the balance, the height, the height it was settled at, and the price of all leases.
pub record Rates : Type 0 where
  pub check_interval : ℕ
  pub block_time : ℕ
  pub blocks_remain : Option ℕ → ℕ → ℕ → ℕ → ℕ

abbrev pub min : ℕ → ℕ → ℕ
min a b = if ltb a b then a else b

abbrev pub plus_prices : Option (List ℕ) → Option (List ℕ) → Option ℕ
plus_prices (some xs) (some ys) = some (sum xs + sum ys)
plus_prices _ _ = none

-- The end of the check, behind the last query.
of_blocks : Rates → ℕ → Outcome
of_blocks r blocks =
    if nat_eq blocks 0
    then out_of_funds r.check_interval
    else next_check (min (r.check_interval / r.block_time) blocks * r.block_time)

of_prices : Rates → ℕ → Account → Option ℕ → Outcome
unfolding of_blocks balance_of
of_prices r height account none = check_failed
of_prices r height account (some total) =
    of_blocks r (r.blocks_remain (balance_of account.funds) height account.settled_at total)

of_account : Rates → ℕ → Node → Account → EscrowState → Outcome
unfolding of_prices
of_account r height n account escrow_closed = check_closed closed_by_owner
of_account r height n account escrow_overdrawn = check_closed insufficient_funds
of_account r height n account escrow_open =
    of_prices r height account (plus_prices n.active_prices n.reclaiming_prices)

with_account : Rates → ℕ → Node → Option Account → Outcome
unfolding of_account
with_account r height n none = check_failed
with_account r height n (some account) = of_account r height n account account.state

of_payment : Rates → ℕ → Node → EscrowState → Outcome
unfolding with_account
of_payment r height n escrow_closed = check_closed unspecified
of_payment r height n escrow_overdrawn = check_closed insufficient_funds
of_payment r height n escrow_open = with_account r height n n.account

of_status : Rates → ℕ → Node → LeaseAnswer → LeaseStatus → Outcome
unfolding of_payment
of_status r height n answer lease_closed = check_closed answer.reason
of_status r height n answer lease_insufficient = check_closed answer.reason
of_status r height n answer lease_active = of_payment r height n answer.payment
of_status r height n answer lease_reclaiming = of_payment r height n answer.payment
of_status r height n answer lease_other = check_failed

of_lease : Rates → ℕ → Node → LeaseId → Option LeaseAnswer → Outcome
unfolding of_status
of_lease r height n lid none = check_failed
of_lease r height n lid (some answer) =
    if not (answer.id == lid) then check_failed else of_status r height n answer answer.status

of_sync : Rates → Node → LeaseId → Option (Bool × ℕ) → Outcome
unfolding of_lease
of_sync r n lid none = check_failed
of_sync r n lid (some (catching_up, height)) =
    if catching_up then check_failed else of_lease r height n lid n.lease

-- `doEscrowCheck`
pub do_escrow_check : Rates → Node → LeaseId → Bool → Response
unfolding of_sync
do_escrow_check r n lid scheduled_withdraw = record {
  lid = lid;
  scheduled = scheduled_withdraw;
  outcome = of_sync r n lid n.sync;
}
