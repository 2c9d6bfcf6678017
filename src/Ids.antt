-- ===== src/Ids.antt =====
-- Identifiers of the chain's packages (`mtypes`, `dtypes`): an order of a deployment group, and
-- a bid or lease of a provider on it. Addresses are byte strings.
use provider.Base.{
  ℕ, ◌≡◌, ◌↔◌, Bool, true, ◌&&◌, arith, Comparable, ◌==◌, ℕ-eq, Bytes, bytes_eq_iff, Bytes-eq,
}

pub record OrderId : Type 0 where
  pub owner : Bytes
  pub dseq : ℕ
  pub gseq : ℕ
  pub oseq : ℕ

pub record LeaseId : Type 0 where
  pub owner : Bytes
  pub dseq : ℕ
  pub gseq : ℕ
  pub oseq : ℕ
  pub provider : Bytes

-- `LeaseID.OrderID()`
abbrev pub order_of : LeaseId → OrderId
order_of l = record { owner = l.owner; dseq = l.dseq; gseq = l.gseq; oseq = l.oseq }

-- `a.GroupID().Equals(b.GroupID())`
abbrev pub same_group : OrderId → OrderId → Bool
same_group a b = a.owner == b.owner && a.dseq == b.dseq && a.gseq == b.gseq

-- `OrderID.Equals`
abbrev pub order_eq : OrderId → OrderId → Bool
order_eq a b = same_group a b && a.oseq == b.oseq

pub order_eq_iff : (a b : OrderId) → (order_eq a b ≡ true) ↔ (a ≡ b)
order_eq_iff a b = ground (arith, bytes_eq_iff a.owner b.owner)

instance abbrev pub OrderId-eq : Comparable OrderId
OrderId-eq = record { same = order_eq; same_iff = order_eq_iff }

abbrev pub lease_eq : LeaseId → LeaseId → Bool
lease_eq a b = order_eq (order_of a) (order_of b) && a.provider == b.provider

pub lease_eq_iff : (a b : LeaseId) → (lease_eq a b ≡ true) ↔ (a ≡ b)
lease_eq_iff a b = ground (arith, bytes_eq_iff a.owner b.owner, bytes_eq_iff a.provider b.provider)

instance abbrev pub LeaseId-eq : Comparable LeaseId
LeaseId-eq = record { same = lease_eq; same_iff = lease_eq_iff }
