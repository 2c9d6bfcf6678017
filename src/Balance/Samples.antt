-- ===== src/Balance/Samples.antt =====
-- Two leases out of funds: their withdrawals wait for one another, fail together and go out alone.
use provider.Base.{
  ℕ, ◌/◌, ◌≤◌, ◌≡◌, refl, true, false, Option, none, some, List, [], ◌∷◌, ◌++◌, if◌then◌else◌, ℕ-eq,
  Bytes-eq, codes,
}
use provider.Base.Map.{get, put}
use provider.Ids.{LeaseId, OrderId-eq, LeaseId-eq}
use provider.Balance.{
  closed_by_owner, publish_closed, send, arm_timer, run_check, account_closed, unspecified, handle,
  start, other_failure, checked, out_of_funds, run, withdrawn, add_monitor, Response, State, Item,
  Event, Config,
}
use provider.Balance.Escrow.{
  escrow_overdrawn, do_escrow_check, lease_active, Node, Rates, LeaseAnswer,
}
use provider.Balance.Escrow.Reports.{LastsFor, do_escrow_check_lem, ReportedOver, Says}
use provider.Balance.Outstanding.{outstanding}
use provider.Balance.Single.{run-single}
use provider.Balance.Batches.{AllGood, handle-AllGood}

abbrev config : Config
config = record { withdrawal_period = 3600 }

abbrev lease : ℕ → LeaseId
lease dseq = record {
  owner = codes "tenant";
  dseq = dseq;
  gseq = 1;
  oseq = 1;
  provider = codes "me";
}

abbrev poor : ℕ → Response
poor dseq = record { lid = lease dseq; scheduled = false; outcome = out_of_funds 60 }

abbrev queue_both : List Event
queue_both =
    add_monitor (lease 1) true 0 0 0
    ∷ add_monitor (lease 2) true 0 0 0
    ∷ add_monitor (lease 3) true 0 0 0
    ∷ checked (poor 1) 10 true
    ∷ checked (poor 2) 20 true
    ∷ checked (poor 3) 20 true
    ∷ checked (poor 3) 21 true
    ∷ []

abbrev history : List Event
history =
    queue_both
    ++ withdrawn none true
      ∷ withdrawn (some other_failure) true
      ∷ withdrawn (some account_closed) true
      ∷ []

abbrev item : ℕ → ℕ → Item
item dseq a = record { lid = lease dseq; state = a }

-- The batch of the second and third lease fails, and the second lease's account is closed.
history_effects :
    (run config start history).effects
    ≡ run_check (lease 1)
      ∷ run_check (lease 2)
      ∷ run_check (lease 3)
      ∷ arm_timer (lease 1) 60 false
      ∷ send (item 1 0 ∷ [])
      ∷ arm_timer (lease 2) 60 false
      ∷ arm_timer (lease 3) 60 false
      ∷ arm_timer (lease 3) 60 false
      ∷ send (item 2 1 ∷ item 3 2 ∷ [])
      ∷ send (item 2 1 ∷ [])
      ∷ publish_closed (lease 2) closed_by_owner
      ∷ send (item 3 2 ∷ [])
      ∷ []
unfolding run start get put
history_effects = refl

run-single_example :
    let s = (run config start history).after in
    (outstanding 2 s ≤ (if (s.states 2).withdrawing then 1 else 0))
run-single_example = run-single config history 2

abbrev waiting : State
waiting = (run config start queue_both).after

handle-AllGood_example : AllGood (handle config waiting (withdrawn none true))
handle-AllGood_example = handle-AllGood config waiting (withdrawn none true)

abbrev lasts : Option ℕ → ℕ → ℕ → ℕ → ℕ
lasts none height settled total = 0
lasts (some balance) height settled total = balance / total

abbrev rates : Rates
rates = record { check_interval = 600; block_time = 6; blocks_remain = lasts }

abbrev answer : LeaseAnswer
answer = record {
  id = lease 1;
  status = lease_active;
  reason = unspecified;
  payment = escrow_overdrawn;
}

abbrev node : Node
node = record {
  sync = some (false, 100);
  lease = some answer;
  account = none;
  active_prices = none;
  reclaiming_prices = none;
}

do_escrow_check_lem_example :
    Says rates
      (ReportedOver node (lease 1))
      (LastsFor rates node)
      (do_escrow_check rates node (lease 1) true).outcome
do_escrow_check_lem_example = do_escrow_check_lem rates node (lease 1) true
