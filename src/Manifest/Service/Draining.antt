-- ===== src/Manifest/Service/Draining.antt =====
-- manifest/service.go: the two loops behind the shutdown, which wait for the managers and then for
-- the watchdogs.
use provider.Base.{
  ℕ, suc, ◌+◌, ◌-◌, ◌≡◌, ◌↔◌, inl, inr, Bool, true, ◌&&◌, List, [], ◌∷◌, arith, ltb, nat_eq,
  Option-cases, ℕ-eq, Bytes-eq, length,
}
use provider.Base.Map.{Map, get, delete, IsMap, IsMap-delete, length-delete}
use provider.Ids.{OrderId-eq, LeaseId-eq}
use provider.Manifest.Service.{DeploymentId, DeploymentId-eq, State, present}

-- The managers that are left, and how often the second loop has still to receive.
pub record Draining : Type 0 where
  pub managers : Map DeploymentId (Unit {0})
  pub watchdogs : ℕ

pub data Ended : Type 0 where
  manager_ended : DeploymentId → Ended
  watchdog_ended : DeploymentId → Ended

pub start_draining : State → Draining
start_draining s = record { managers = s.managers; watchdogs = length s.watchdogs }

-- A manager that is done leaves the map; a watchdog is only counted.
pub drain : Draining → Ended → Draining
drain d (manager_ended did) = record d { managers = delete did d.managers }
drain d (watchdog_ended did) = record d { watchdogs = d.watchdogs - 1 }

-- The watchdogs' channel is not received from while managers are left.
pub can_receive : Draining → Ended → Bool
can_receive d (manager_ended did) = present (get did d.managers)
can_receive d (watchdog_ended did) = nat_eq (length d.managers) 0 && ltb 0 d.watchdogs

pub drain_all : Draining → List Ended → Draining
unfolding drain
drain_all d [] = d
drain_all d (e ∷ es) = drain_all (drain d e) es

pub is_drained : Draining → Bool
is_drained d = nat_eq (length d.managers) 0 && nat_eq d.watchdogs 0

abbrev pub Received : Draining → List Ended → Type 0
Received d [] = Unit
Received d (e ∷ es) = (can_receive d e ≡ true) × Received (drain d e) es

abbrev pub left : Draining → ℕ
left d = length d.managers + d.watchdogs

drain-left :
    (d : Draining) (e : Ended)
    → IsMap d.managers
    → can_receive d e ≡ true
    → (suc (left (drain d e)) ≡ left d) × IsMap (drain d e).managers
unfolding drain can_receive
drain-left d (manager_ended did) m h = elim (Option-cases (get did d.managers)) [
  | inl missing ↦ absurd (ground (arith, rw missing at h))
  | inr found ↦
      let shorter = length-delete did found.0 d.managers m found.1 in
      (omega (arith, shorter), IsMap-delete did d.managers m)
]
drain-left d (watchdog_ended did) m h = (ground (arith, h), m)

drain_all-left :
    (d : Draining) (es : List Ended)
    → IsMap d.managers
    → Received d es
    → left (drain_all d es) + length es ≡ left d
unfolding drain_all
drain_all-left d [] m r = omega arith
drain_all-left d (e ∷ es) m r =
    let one = drain-left d e m r.0 in omega (arith, one.0, drain_all-left (drain d e) es one.1 r.1)

-- A shutdown of the manifest service ends, in whatever order its managers and then its watchdogs
-- are done, with the last of them and not before.
pub drained_lem :
    (s : State) (es : List Ended)
    → IsMap s.managers
    → Received (start_draining s) es
    → (is_drained (drain_all (start_draining s) es) ≡ true)
      ↔ (length es ≡ length s.managers + length s.watchdogs)
unfolding start_draining is_drained
drained_lem s es m r = let l = drain_all-left (start_draining s) es m r in ground (arith, l)
