-- ===== src/Balance/Outstanding.antt =====
-- balance_checker.go: the withdrawals of a monitor that wait or are in flight, and what sending
-- does to them.
use provider.Base.{
  ℕ, zero, suc, ◌+◌, ◌≤◌, ◌<◌, ◌≡◌, refl, Bool, true, false, ◌||◌, Option, none, some, List, [],
  ◌∷◌, ◌++◌, arith, nat_eq, if◌then◌else◌, if_intro, if_split, ℕ-eq, Bytes-eq,
}
use provider.Base.Map.{get}
use provider.Ids.{LeaseId, OrderId-eq, LeaseId-eq}
use provider.Balance.{
  go, keep, next_batch, max_withdraw_batch, send_withdrawals, is_sending, send_batch, batch_of,
  next_due, next_alone, is_address, State, Item, Next,
}

-- The withdrawals queued for the monitor at an address.
abbrev pub of_state : ℕ → List Item → ℕ
of_state a [] = 0
of_state a (item ∷ items) = (if nat_eq item.state a then 1 else 0) + of_state a items

abbrev pub in_flight_of : ℕ → Option (List Item) → ℕ
in_flight_of a none = 0
in_flight_of a (some items) = of_state a items

abbrev pub outstanding : ℕ → State → ℕ
outstanding a s = of_state a s.due + of_state a s.alone + in_flight_of a s.in_flight

abbrev pub flag : ℕ → State → ℕ
flag a s = if (s.states a).withdrawing then 1 else 0

-- A monitor has at most one withdrawal, and has its flag set meanwhile; one that is not there yet
-- has none.
abbrev pub IsSingle : ℕ → State → Type 0
IsSingle a s =
    (outstanding a s ≤ flag a s)
    × (s.next_state ≤ a → outstanding a s ≡ 0)
    × ((lid : LeaseId) → is_address a (get lid s.leases) ≡ true → a < s.next_state)

pub of_state-append :
    (a : ℕ) (xs ys : List Item) → of_state a (xs ++ ys) ≡ of_state a xs + of_state a ys
of_state-append a [] ys = omega arith
of_state-append a (x ∷ xs) ys = omega (arith, of_state-append a xs ys)

abbrev pub picked : ℕ → Option Item → ℕ
picked a none = 0
picked a (some item) = of_state a (item ∷ [])

next_alone-of_state :
    (a : ℕ) (test : Item → Bool) (items : List Item)
    → let n = next_alone test items in picked a n.0 + of_state a n.1 ≤ of_state a items
unfolding next_alone
next_alone-of_state a test [] = omega arith
next_alone-of_state a test (item ∷ items) =
    if_intro
      (λ (n : Option Item × List Item). picked a n.0 + of_state a n.1 ≤ of_state a (item ∷ items))
      (test item) (some item, items) (next_alone test items) (omega arith)
      (omega (arith, next_alone-of_state a test items))

next_due-of_state :
    (a : ℕ) (test : Item → Bool) (items : List Item) (room : ℕ)
    → let n = next_due test items room in of_state a n.0 + of_state a n.1 ≤ of_state a items
unfolding next_due
next_due-of_state a test [] room = omega arith
next_due-of_state a test (item ∷ items) zero = omega arith
next_due-of_state a test (item ∷ items) (suc room) =
    let taken = next_due test items room in
    if_intro
      (λ (n : List Item × List Item). of_state a n.0 + of_state a n.1 ≤ of_state a (item ∷ items))
      (test item) (item ∷ taken.0, taken.1) (next_due test items (suc room))
      (omega (arith, next_due-of_state a test items room))
      (omega (arith, next_due-of_state a test items (suc room)))

batch_of-of_state :
    (a : ℕ) (test : Item → Bool) (due : List Item) (n : Option Item × List Item)
    → let b = batch_of test due n in
      of_state a b.0 + of_state a b.1 + of_state a b.2
      ≤ of_state a due + (picked a n.0 + of_state a n.1)
unfolding batch_of
batch_of-of_state a test due (some item, alone) = omega arith
batch_of-of_state a test due (none, alone) =
    omega (arith, next_due-of_state a test due max_withdraw_batch)

-- Calls that may drop withdrawals, and add none.
pub Drops : ℕ → State → State → Type 0
Drops a s t =
    (outstanding a t ≤ outstanding a s)
    × (t.states ≡ s.states)
    × (t.leases ≡ s.leases)
    × (t.next_state ≡ s.next_state)

send_batch-Drops :
    (a : ℕ) (s : State) (batch due alone : List Item)
    → in_flight_of a s.in_flight ≡ 0
    → of_state a batch + of_state a due + of_state a alone ≤ of_state a s.due + of_state a s.alone
    → Drops a s (send_batch s batch due alone).after
unfolding send_batch Drops
send_batch-Drops a s [] due alone none_sent h = (omega (arith, h, none_sent), refl, refl, refl)
send_batch-Drops a s (item ∷ batch) due alone none_sent h = (omega (arith, h), refl, refl, refl)

pub in_flight-none : (a : ℕ) (f : Option (List Item)) → is_sending f ≡ false → in_flight_of a f ≡ 0
in_flight-none a none h = refl
in_flight-none a (some items) h = absurd (ground (arith, h))

pub send_withdrawals-Drops : (a : ℕ) (s : State) → Drops a s (send_withdrawals s).after
unfolding send_withdrawals next_batch Drops
send_withdrawals-Drops a s =
    let n = next_alone (keep s) s.alone in
    let b = batch_of (keep s) s.due n in
    if_split (λ (m : Next). Drops a s m.after) (is_sending s.in_flight || s.context_ended) (go s [])
      (send_batch s b.0 b.1 b.2) (λ p. (omega arith, refl, refl, refl))
      (λ p. send_batch-Drops a s b.0 b.1 b.2 (in_flight-none a s.in_flight (ground (arith, p))) (
        omega
          (arith, batch_of-of_state a (keep s) s.due n, next_alone-of_state a (keep s) s.alone)))

-- What is single stays so when withdrawals are dropped.
pub Drops-IsSingle : (a : ℕ) (s t : State) → Drops a s t → IsSingle a s → IsSingle a t
unfolding Drops
Drops-IsSingle a s t d h = (
  rw (d.1) (omega (arith, d.0, h.0)),
  rw (d.3) (λ old. omega (arith, d.0, h.1 old)),
  rw (d.2, d.3) h.2,
)
