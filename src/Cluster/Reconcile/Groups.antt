-- ===== src/Cluster/Reconcile/Groups.antt =====
-- cluster/service.go: the counts of leases by group in a reconciliation pass.
use provider.Base.{
  ℕ, ◌+◌, ◌≤◌, ◌≡◌, refl, ap, ◌∙◌, inl, inr, Bool, true, false, some, List, [], ◌∷◌, ◌++◌, arith,
  if◌then◌else◌, Bool-cases, ◌==◌, ℕ-eq, Bytes-eq, length, select, contains,
}
use provider.Base.Map.{Map, get, put, get-put, keys_where}
use provider.Ids.{LeaseId, OrderId-eq, LeaseId-eq, lease_eq_iff}
use provider.Cluster.Reconcile.{
  group_eq_iff, GroupId-eq, any_lease, inactive, Leases, value_of, group_of, group_leases,
  count_groups, GroupId,
}

-- The leases of a group in a list.
abbrev pub members : GroupId → List LeaseId → ℕ
members g ls = length (select (λ l. group_of l == g) ls)

members-append :
    (g : GroupId) (xs ys : List LeaseId) → members g (xs ++ ys) ≡ members g xs + members g ys
members-append g [] ys = omega arith
members-append g (x ∷ xs) ys = elim (Bool-cases (group_of x == g)) [
  | inl e ↦ rw e (omega (arith, members-append g xs ys))
  | inr e ↦ rw e (members-append g xs ys)
]

-- The counts of `groupLeases`.
value_of-put :
    (g k : GroupId) (n : ℕ) (m : Map GroupId ℕ)
    → value_of (get g (put k n m)) ≡ (if k == g then n else value_of (get g m))
value_of-put g k n m = rw (get-put k g n m) (if_swap (k == g))
  where
    if_swap :
        (b : Bool)
        → value_of (if b then some n else get g m) ≡ (if b then n else value_of (get g m))
    if_swap true = refl
    if_swap false = refl

count_groups-members :
    (g : GroupId) (ls : List LeaseId) (m : Map GroupId ℕ)
    → value_of (get g (count_groups ls m)) ≡ members g ls + value_of (get g m)
unfolding count_groups
count_groups-members g [] m = omega arith
count_groups-members g (l ∷ ls) m =
    let rest = count_groups-members g ls (put (group_of l) (value_of (get (group_of l) m) + 1) m) in
    let here : value_of (get g (put (group_of l) (value_of (get (group_of l) m) + 1) m))
        ≡ (if group_of l == g then value_of (get (group_of l) m) + 1 else value_of (get g m)) =
      value_of-put g (group_of l) (value_of (get (group_of l) m) + 1) m in
    elim (Bool-cases (group_of l == g)) [
      | inl e ↦
          let same : group_of l ≡ g = (group_eq_iff (group_of l) g).0 e in
          let old : value_of (get (group_of l) m) ≡ value_of (get g m) =
            ap (λ k. value_of (get k m)) same in
          rw e (omega (arith, rest, rw e at here, old))
      | inr e ↦ rw e (omega (arith, rest, rw e at here))
    ]

pub group_leases-members :
    (g : GroupId) (leases : Leases) (own : List LeaseId)
    → value_of (get g (group_leases leases own))
      ≡ members g (inactive leases own ++ keys_where any_lease leases)
unfolding group_leases get
group_leases-members g leases own = omega (
  arith,
  count_groups-members g (inactive leases own) (count_groups (keys_where any_lease leases) []),
  count_groups-members g (keys_where any_lease leases) [],
  members-append g (inactive leases own) (keys_where any_lease leases),
)

-- Two leases of a group count as two.
members-step :
    (g : GroupId) (l : LeaseId) (ls : List LeaseId)
    → members g (l ∷ ls) ≡ (if group_of l == g then 1 else 0) + members g ls
members-step g l ls = elim (Bool-cases (group_of l == g)) [
  | inl e ↦ rw e (omega arith)
  | inr e ↦ rw e (omega arith)
]

same_member :
    (g : GroupId) (l a : LeaseId) (ls : List LeaseId)
    → (l == a) ≡ true
    → (group_of a == g) ≡ true
    → members g (l ∷ ls) ≡ 1 + members g ls
same_member g l a ls e q =
    let same : l ≡ a = (lease_eq_iff l a).0 e in members-step g l ls ∙ rw (same, q) refl

members-grow : (g : GroupId) (l : LeaseId) (ls : List LeaseId) → members g ls ≤ members g (l ∷ ls)
members-grow g l ls = omega (arith, members-step g l ls)

members-one :
    (g : GroupId) (ls : List LeaseId) (a : LeaseId)
    → contains ls a ≡ true
    → (group_of a == g) ≡ true
    → 1 ≤ members g ls
members-one g [] a h q = absurd (ground (arith, h))
members-one g (l ∷ ls) a h q = elim (Bool-cases (l == a)) [
  | inl e ↦ omega (arith, same_member g l a ls e q)
  | inr e ↦ omega (arith, members-one g ls a (rw e at h) q, members-grow g l ls)
]

pub members-two :
    (g : GroupId) (ls : List LeaseId) (a b : LeaseId)
    → contains ls a ≡ true
    → contains ls b ≡ true
    → (a == b) ≡ false
    → (group_of a == g) ≡ true
    → (group_of b == g) ≡ true
    → 2 ≤ members g ls
members-two g [] a b ha hb ne ga gb = absurd (ground (arith, ha))
members-two g (l ∷ ls) a b ha hb ne ga gb = elim (Bool-cases (l == a)) [
  | inl e ↦
      let same : (l == b) ≡ (a == b) = ap (λ k. k == b) ((lease_eq_iff l a).0 e) in
      omega (arith, same_member g l a ls e ga, members-one g ls b (rw (same, ne) at hb) gb)
  | inr e ↦ elim (Bool-cases (l == b)) [
    | inl f ↦ omega (arith, same_member g l b ls f gb, members-one g ls a (rw e at ha) ga)
    | inr f ↦
        omega (arith, members-two g ls a b (rw e at ha) (rw f at hb) ne ga gb, members-grow g l ls)
  ]
]
