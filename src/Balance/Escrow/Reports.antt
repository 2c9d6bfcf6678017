-- ===== src/Balance/Escrow/Reports.antt =====
-- balance_checker.go: what the check of an escrow says of the lease.
use provider.Base.{
  ℕ, ◌*◌, ◌/◌, ◌≤◌, ◌<◌, ◌≡◌, refl, sym, ◌≢◌, ◌⊎◌, inl, inr, Bool, true, false, not, Option, none,
  some, arith, nat_eq, nat_eq_iff, if_split, ◌==◌, ℕ-eq, Bytes-eq,
}
use provider.Ids.{LeaseId, OrderId-eq, LeaseId-eq, lease_eq_iff}
use native.Mathlib.Nat.{mul-le-mul_right, div-mul-le_self}
use mathlib.Core.Path.{subst}
use provider.Balance.{next_check, check_closed, check_failed, out_of_funds, Outcome}
use provider.Balance.Escrow.{
  lease_other, lease_reclaiming, escrow_overdrawn, lease_active, escrow_closed, escrow_open,
  lease_insufficient, do_escrow_check, of_sync, of_lease, of_status, of_payment, with_account,
  of_account, of_prices, of_blocks, min, plus_prices, balance_of, lease_closed, Node, Rates,
  LeaseAnswer, Account, LeaseStatus, EscrowState,
}

-- The reasons to close a lease locally, as the chain would: the lease is closed or short of
-- funds, or its escrow payment or account is.
abbrev pub IsOver : Node → LeaseAnswer → Type 0
IsOver n a =
    (a.status ≡ lease_closed)
    ⊎ (a.status ≡ lease_insufficient)
    ⊎ (a.payment ≢ escrow_open)
    ⊎ ((account : Account) × (n.account ≡ some account) × (account.state ≢ escrow_open))

-- What an outcome says: of a close, the claim; of funds, how many blocks they last for, and when
-- the next check is.
abbrev pub Says : Rates → Type 0 → (ℕ → Type 0) → Outcome → Type 0
Says r Close Lasts check_failed = Unit
Says r Close Lasts (check_closed reason) = Close
Says r Close Lasts (out_of_funds after) = Lasts 0 × (after ≡ r.check_interval)
Says r Close Lasts (next_check after) =
    (blocks : ℕ) × Lasts blocks
    × (0 < blocks)
    × (after ≤ r.check_interval)
    × (after ≤ blocks * r.block_time)

-- The funds of the deployment's account last for these blocks from a height, at the prices of the
-- active and the reclaiming leases.
abbrev pub LastsFrom : Rates → Node → ℕ → ℕ → Type 0
LastsFrom r n height blocks =
    (account : Account) × (n.account ≡ some account)
    × ((total : ℕ) × (plus_prices n.active_prices n.reclaiming_prices ≡ some total)
        × (r.blocks_remain (balance_of account.funds) height account.settled_at total ≡ blocks))

min-le : (a b : ℕ) → min a b ≤ a
min-le a b = ground arith

interval-bound : (q d i : ℕ) → q ≤ i / d → q * d ≤ i
interval-bound q d i h = omega (arith, mul-le-mul_right d h, div-mul-le_self i d)

min-le_right : (a b : ℕ) → min a b ≤ b
min-le_right a b = ground arith

of_blocks-Says :
    (r : Rates) (X : Type 0) (L : ℕ → Type 0) (blocks : ℕ)
    → L blocks
    → Says r X L (of_blocks r blocks)
unfolding of_blocks
of_blocks-Says r X L blocks lasts =
    let per = min (r.check_interval / r.block_time) blocks in
    if_split (Says r X L) (nat_eq blocks 0) _ _
      (λ p. (subst L ((nat_eq_iff blocks 0).0 p) lasts, refl))
      (λ p. (
        blocks,
        lasts,
        ground (arith, p),
        interval-bound per r.block_time r.check_interval
            (min-le (r.check_interval / r.block_time) blocks),
        mul-le-mul_right r.block_time (min-le_right (r.check_interval / r.block_time) blocks),
      ))

of_prices-Says :
    (r : Rates) (X : Type 0) (height : ℕ) (n : Node) (account : Account) (o : Option ℕ)
    → n.account ≡ some account
    → plus_prices n.active_prices n.reclaiming_prices ≡ o
    → Says r X (LastsFrom r n height) (of_prices r height account o)
unfolding of_prices
of_prices-Says r X height n account none known priced = tt
of_prices-Says r X height n account (some total) known priced =
    of_blocks-Says r X (LastsFrom r n height)
      (r.blocks_remain (balance_of account.funds) height account.settled_at total)
      (account, known, (total, priced, refl))

of_account-Says :
    (r : Rates) (X : Type 0) (height : ℕ) (n : Node) (account : Account) (state : EscrowState)
    → n.account ≡ some account
    → (state ≢ escrow_open → X)
    → Says r X (LastsFrom r n height) (of_account r height n account state)
unfolding of_account
of_account-Says r X height n account escrow_closed known x = x (λ e. ground (arith, e))
of_account-Says r X height n account escrow_overdrawn known x = x (λ e. ground (arith, e))
of_account-Says r X height n account escrow_open known x =
    of_prices-Says r X height n account _ known refl

with_account-Says :
    (r : Rates) (X : Type 0) (height : ℕ) (n : Node) (o : Option Account)
    → n.account ≡ o
    → ((account : Account) → n.account ≡ some account → account.state ≢ escrow_open → X)
    → Says r X (LastsFrom r n height) (with_account r height n o)
unfolding with_account
with_account-Says r X height n none known x = tt
with_account-Says r X height n (some account) known x =
    of_account-Says r X height n account account.state known (x account known)

of_payment-Says :
    (r : Rates) (X : Type 0) (height : ℕ) (n : Node) (payment : EscrowState)
    → (payment ≢ escrow_open → X)
    → ((account : Account) → n.account ≡ some account → account.state ≢ escrow_open → X)
    → Says r X (LastsFrom r n height) (of_payment r height n payment)
unfolding of_payment
of_payment-Says r X height n escrow_closed p x = p (λ e. ground (arith, e))
of_payment-Says r X height n escrow_overdrawn p x = p (λ e. ground (arith, e))
of_payment-Says r X height n escrow_open p x = with_account-Says r X height n n.account refl x

of_status-Says :
    (r : Rates) (height : ℕ) (n : Node) (a : LeaseAnswer) (status : LeaseStatus)
    → status ≡ a.status
    → Says r (IsOver n a) (LastsFrom r n height) (of_status r height n a status)
unfolding of_status
of_status-Says r height n a lease_closed e = inl (sym e)
of_status-Says r height n a lease_insufficient e = inr (inl (sym e))
of_status-Says r height n a lease_active e =
    of_payment-Says r (IsOver n a) height n a.payment (λ p. inr (inr (inl p)))
      (λ account known over. inr (inr (inr (account, known, over))))
of_status-Says r height n a lease_reclaiming e =
    of_payment-Says r (IsOver n a) height n a.payment (λ p. inr (inr (inl p)))
      (λ account known over. inr (inr (inr (account, known, over))))
of_status-Says r height n a lease_other e = tt

-- The node answered for this very lease, and it is over.
abbrev pub ReportedOver : Node → LeaseId → Type 0
ReportedOver n lid = (a : LeaseAnswer) × (n.lease ≡ some a) × (a.id ≡ lid) × IsOver n a

Says-map :
    (r : Rates) (X Y : Type 0) (L M : ℕ → Type 0) (o : Outcome)
    → (X → Y)
    → ((blocks : ℕ) → L blocks → M blocks)
    → Says r X L o
    → Says r Y M o
Says-map r X Y L M check_failed f g s = tt
Says-map r X Y L M (check_closed reason) f g s = f s
Says-map r X Y L M (out_of_funds after) f g s = (g 0 s.0, s.1)
Says-map r X Y L M (next_check after) f g s = (s.0, g s.0 s.1, s.2, s.3, s.4)

of_lease-Says :
    (r : Rates) (height : ℕ) (n : Node) (lid : LeaseId) (o : Option LeaseAnswer)
    → o ≡ n.lease
    → Says r (ReportedOver n lid) (LastsFrom r n height) (of_lease r height n lid o)
unfolding of_lease
of_lease-Says r height n lid none e = tt
of_lease-Says r height n lid (some a) e =
    if_split (Says r (ReportedOver n lid) (LastsFrom r n height)) (not (a.id == lid)) check_failed _
      (λ p. tt)
      (λ p.
        Says-map r (IsOver n a) (ReportedOver n lid) (LastsFrom r n height) (LastsFrom r n height)
          (of_status r height n a a.status)
          (λ over. (a, sym e, (lease_eq_iff a.id lid).0 (ground (arith, p)), over))
          (λ blocks lasts. lasts) (of_status-Says r height n a a.status refl))

-- The funds last for these blocks from the height that the node has caught up to.
abbrev pub LastsFor : Rates → Node → ℕ → Type 0
LastsFor r n blocks = (height : ℕ) × (n.sync ≡ some (false, height)) × LastsFrom r n height blocks

of_sync-Says :
    (r : Rates) (n : Node) (lid : LeaseId) (o : Option (Bool × ℕ))
    → n.sync ≡ o
    → Says r (ReportedOver n lid) (LastsFor r n) (of_sync r n lid o)
unfolding of_sync
of_sync-Says r n lid none e = tt
of_sync-Says r n lid (some (true, height)) e = tt
of_sync-Says r n lid (some (false, height)) e =
    Says-map r (ReportedOver n lid) (ReportedOver n lid) (LastsFrom r n height) (LastsFor r n)
      (of_lease r height n lid n.lease) (λ over. over) (λ blocks lasts. (height, e, lasts))
      (of_lease-Says r height n lid n.lease refl)

-- A check of an escrow reports a lease closed only where the node answered for this very lease
-- and the lease, its payment or its deployment's account is closed or short of funds. It plans a
-- next check only where the account's funds last for some blocks from the node's height, within
-- the check interval and the time of those blocks, and reports a lease out of funds only where
-- they last for none, to be checked after the check interval.
pub do_escrow_check_lem :
    (r : Rates) (n : Node) (lid : LeaseId) (scheduled : Bool)
    → Says r (ReportedOver n lid) (LastsFor r n) (do_escrow_check r n lid scheduled).outcome
unfolding do_escrow_check
do_escrow_check_lem r n lid scheduled = of_sync-Says r n lid n.sync refl
