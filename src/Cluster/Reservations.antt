-- ===== src/Cluster/Reservations.antt =====
-- cluster/inventory.go as cluster/service.go uses it: the calls of the running inventory service
-- that look a reservation up and give one back, with what the cluster service relies on.
use provider.Base.{
  ℕ, suc, ◌-◌, ◌<◌, ◌≡◌, refl, ap, inl, inr, Bool, true, false, List, [], ◌∷◌, arith, if◌then◌else◌,
  Bool-cases, ◌==◌, ℕ-eq, Bytes, Bytes-eq, length, select,
}
use provider.Ids.{OrderId, OrderId-eq, LeaseId-eq, order_eq_iff}
use provider.Cluster.Resources.{Reservation}
use provider.Cluster.Inventory.{
  unreserve, on_unreserve, lookup, handle, answer, remove_reservation, find_reservation, Effect,
  Interface, Config, State,
}

pub record Reservations : Type 1 where
  pub Store : Type 0
  -- The reservations of an order.
  pub count : Store → OrderId → ℕ
  -- `lookup` of an order and a group's name, and `unreserve`: whether there is one.
  pub lookup : Store → OrderId → Bytes → Bool
  pub unreserve : Store → OrderId → Store × Bool
  pub lookup_counts :
      (s : Store) (order : OrderId) (name : Bytes) → lookup s order name ≡ true → 0 < count s order
  pub unreserve_counts :
      (s : Store) (order p : OrderId)
      → count (unreserve s order).0 p ≡ (if order == p then count s p - 1 else count s p)

module _ (i : Interface) where
  open i use {Adjusted}

  abbrev pub of_order : OrderId → List (Reservation Adjusted) → List (Reservation Adjusted)
  of_order order = select (λ r. r.order == order)

  abbrev pub is_answer : List (Effect i) → Bool
  is_answer (answer r ∷ []) = true
  is_answer _ = false

  find_reservation-counts :
      (order : OrderId) (name : Bytes) (rs : List (Reservation Adjusted))
      → is_answer (find_reservation i order name rs ∷ []) ≡ true
      → 0 < length (of_order order rs)
  unfolding find_reservation
  find_reservation-counts order name [] h = absurd (ground (arith, h))
  find_reservation-counts order name (r ∷ rs) h = elim (Bool-cases (r.order == order)) [
    | inl eq ↦ rw eq (omega arith)
    | inr ne ↦ rw ne (find_reservation-counts order name rs (rw ne at h))
  ]

  apart : (a b p : OrderId) → (a == b) ≡ false → (a == p) ≡ true → (b == p) ≡ false
  apart a b p ne e = ground (arith, ne, e, order_eq_iff a b, order_eq_iff a p, order_eq_iff b p)

  remove_reservation-counts :
      (order p : OrderId) (rs : List (Reservation Adjusted)) (ports : ℕ)
      → length (of_order p (remove_reservation i order rs ports).0)
        ≡ (if order == p then length (of_order p rs) - 1 else length (of_order p rs))
  unfolding remove_reservation
  remove_reservation-counts order p [] ports = ground (arith)
  remove_reservation-counts order p (r ∷ rs) ports = elim (Bool-cases (r.order == order)) [
    | inl eq ↦
        let same : (r.order == p) ≡ (order == p) =
          ap (λ q. q == p) ((order_eq_iff r.order order).0 eq) in
        elim (Bool-cases (order == p)) [
          | inl o ↦ rw (eq, same, o) (omega arith)
          | inr o ↦ rw (eq, same, o) refl
        ]
    | inr ne ↦
        let rest = remove_reservation-counts order p rs ports in
        elim (Bool-cases (r.order == p)) [
          | inl e ↦
              let other : (order == p) ≡ false = apart r.order order p ne e in
              rw (ne, e, other) (ap suc (rw other at rest))
          | inr e ↦ rw (ne, e) rest
        ]
  ]

  pub lookup-counts :
      (c : Config) (s : State i) (order : OrderId) (name : Bytes)
      → is_answer (handle i c s (lookup order name)).effects ≡ true
      → 0 < length (of_order order s.reservations)
  unfolding handle
  lookup-counts c s order name h = find_reservation-counts order name s.reservations h

  pub unreserve-counts :
      (c : Config) (s : State i) (order p : OrderId)
      → length (of_order p (handle i c s (unreserve order)).after.reservations) ≡ (
          if order == p
          then length (of_order p s.reservations) - 1
          else length (of_order p s.reservations))
  unfolding handle on_unreserve
  unreserve-counts c s order p =
      remove_reservation-counts order p s.reservations s.available_external_ports

  -- The inventory service is such a store.
  abbrev pub inventory_service : Config → Reservations
  inventory_service c = record {
    Store = State i;
    count = λ s order. length (of_order order s.reservations);
    lookup = λ s order name. is_answer (handle i c s (lookup order name)).effects;
    unreserve = λ s order. let n = handle i c s (unreserve order) in (n.after, is_answer n.effects);
    lookup_counts = λ s order name h. lookup-counts c s order name h;
    unreserve_counts = λ s order p. unreserve-counts c s order p;
  }
