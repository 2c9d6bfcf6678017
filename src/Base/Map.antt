-- ===== src/Base/Map.antt =====
-- A Go map as an association list with at most one entry for a key. The order of its entries
-- stands for the order in which a `range` loop meets them.
use Prim.Native.Nat.{◌+◌}
use mathlib.Core.Path.{◌≡◌, refl}
use mathlib.Core.Logic.{inl, inr}
use mathlib.Core.Bool.{Bool, false}
use mathlib.Core.Option.{Option, none, some}
use mathlib.Core.List.{List, [], ◌∷◌}
use native.Mathlib.Omega.{arith}
use provider.Base.Tests.{if◌then◌else◌, Bool-cases}
use provider.Base.Equality.{Comparable, ◌==◌}
use provider.Base.Lists.{contains, length}

abbrev pub Map {ℓ κ} : Type ℓ → Type κ → Type (ℓ ⊔ κ)
Map K V = List (K × V)

-- A test of the entry at a key; a missing entry fails it.
abbrev pub passes {κ} : {V : Type κ} → (V → Bool) → Option V → Bool
passes p none = false
passes p (some v) = p v

module _ {ℓ κ} {K : Type ℓ} {V : Type κ} ⦃e : Comparable K⦄ where
  -- `v, ok := m[k]`
  unfoldable pub get : K → Map K V → Option V
  get key [] = none
  get key ((k, v) ∷ rest) = let found = get key rest in if k == key then some v else found

  -- `m[k] = v`
  unfoldable pub put : K → V → Map K V → Map K V
  put key new [] = (key, new) ∷ []
  put key new ((k, old) ∷ rest) =
      let others = put key new rest in if k == key then (key, new) ∷ rest else (k, old) ∷ others

  -- `delete(m, k)`
  unfoldable pub delete : K → Map K V → Map K V
  delete k [] = []
  delete k ((j, w) ∷ m) = let rest = delete k m in if j == k then rest else (j, w) ∷ rest

  pub get-put :
      (key k : K) (new : V) (m : Map K V)
      → get k (put key new m) ≡ (if key == k then some new else get k m)
  unfolding get put
  get-put key k new [] = refl
  get-put key k new ((h, old) ∷ rest) =
      let induct = get-put key k new rest in
      ground (arith, induct, e.same_iff key k, e.same_iff h key, e.same_iff h k)

  pub get-delete : (k j : K) (m : Map K V) → get j (delete k m) ≡ (if k == j then none else get j m)
  unfolding get delete
  get-delete k j [] = ground (arith)
  get-delete k j ((i, w) ∷ m) =
      ground (arith, e.same_iff k j, e.same_iff i k, e.same_iff i j, get-delete k j m)

  -- `for _, k := range ks { delete(m, k) }`
  unfoldable pub delete_all : List K → Map K V → Map K V
  delete_all [] m = m
  delete_all (k ∷ ks) m = delete_all ks (delete k m)

  -- `for _, k := range ks { m[k] = v }`
  unfoldable pub put_all : List K → V → Map K V → Map K V
  put_all [] v m = m
  put_all (k ∷ ks) v m = put_all ks v (put k v m)

  pub get-delete_all :
      (ks : List K) (j : K) (m : Map K V)
      → get j (delete_all ks m) ≡ (if contains ks j then none else get j m)
  unfolding delete_all
  get-delete_all [] j m = refl
  get-delete_all (k ∷ ks) j m = ground (arith, get-delete_all ks j (delete k m), get-delete k j m)

  pub get-put_all :
      (ks : List K) (j : K) (v : V) (m : Map K V)
      → get j (put_all ks v m) ≡ (if contains ks j then some v else get j m)
  unfolding put_all
  get-put_all [] j v m = refl
  get-put_all (k ∷ ks) j v m = ground (arith, get-put_all ks j v (put k v m), get-put k j v m)

  -- The keys of the entries that pass a test, in the order of the loop.
  unfoldable pub keys_where : (K → V → Bool) → Map K V → List K
  keys_where p [] = []
  keys_where p ((k, v) ∷ m) = let rest = keys_where p m in if p k v then k ∷ rest else rest

  -- No key has two entries.
  abbrev pub IsMap : Map K V → Type κ
  IsMap [] = Unit
  IsMap ((k, v) ∷ m) = (get k m ≡ none) × IsMap m

  pub IsMap-put : (k : K) (v : V) (m : Map K V) → IsMap m → IsMap (put k v m)
  unfolding put get
  IsMap-put k v [] h = (refl, tt)
  IsMap-put k v ((j, w) ∷ m) h =
      ground (arith, e.same_iff j k, e.same_iff k j, IsMap-put k v m h.1, get-put k j v m)

  pub IsMap-delete : (k : K) (m : Map K V) → IsMap m → IsMap (delete k m)
  unfolding delete
  IsMap-delete k [] h = tt
  IsMap-delete k ((j, w) ∷ m) h = ground (arith, IsMap-delete k m h.1, get-delete k j m)

  pub delete-absent : (k : K) (m : Map K V) → get k m ≡ none → delete k m ≡ m
  unfolding get delete
  delete-absent k [] h = refl
  delete-absent k ((j, w) ∷ m) h = ground (arith, delete-absent k m)

  pub length-delete :
      (k : K) (v : V) (m : Map K V)
      → IsMap m
      → get k m ≡ some v
      → length (delete k m) + 1 ≡ length m
  unfolding get delete
  length-delete k v [] h p = absurd (ground arith)
  length-delete k v ((j, w) ∷ m) h p = elim (Bool-cases (j == k)) [
    | inl eq ↦
        let same : j ≡ k = (e.same_iff j k).0 eq in
        let rest : delete k m ≡ m = delete-absent k m (rw same at h.0) in
        rw (eq, rest) (omega arith)
    | inr ne ↦ ground (arith, length-delete k v m h.1)
  ]

  pub IsMap-put_all : (ks : List K) (v : V) (m : Map K V) → IsMap m → IsMap (put_all ks v m)
  unfolding put_all
  IsMap-put_all [] v m h = h
  IsMap-put_all (k ∷ ks) v m h = IsMap-put_all ks v (put k v m) (IsMap-put k v m h)

  pub IsMap-delete_all : (ks : List K) (m : Map K V) → IsMap m → IsMap (delete_all ks m)
  unfolding delete_all
  IsMap-delete_all [] m h = h
  IsMap-delete_all (k ∷ ks) m h = IsMap-delete_all ks (delete k m) (IsMap-delete k m h)

  contains-keys_absent :
      (p : K → V → Bool) (k : K) (m : Map K V)
      → get k m ≡ none
      → contains (keys_where p m) k ≡ false
  unfolding keys_where get
  contains-keys_absent p k [] h = refl
  contains-keys_absent p k ((j, w) ∷ m) h = ground (arith, contains-keys_absent p k m)

  pub contains-keys_where :
      (p : K → V → Bool) (k : K) (m : Map K V)
      → IsMap m
      → contains (keys_where p m) k ≡ passes (p k) (get k m)
  unfolding keys_where get
  contains-keys_where p k [] h = refl
  contains-keys_where p k ((j, w) ∷ m) h = elim (Bool-cases (j == k)) [
    | inl eq ↦
        let same : j ≡ k = (e.same_iff j k).0 eq in
        let absent : contains (keys_where p m) k ≡ false =
          contains-keys_absent p k m (rw same at h.0) in
        rw (← same, same) (ground (arith, absent, e.same_iff k k))
    | inr ne ↦ ground (arith, contains-keys_where p k m h.1)
  ]
