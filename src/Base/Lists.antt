-- ===== src/Base/Lists.antt =====
-- Lists measured by native numbers, and predicates on lists by recursion.
use Prim.Native.Nat.{ℕ, suc, ◌+◌}
use mathlib.Core.Path.{◌≡◌, refl, ap}
use mathlib.Core.Logic.{inl, inr}
use mathlib.Core.Bool.{Bool, false, ◌||◌, ◌&&◌}
use mathlib.Core.List.{List, [], ◌∷◌, ◌++◌}
use native.Mathlib.Omega.{arith}
use provider.Base.Tests.{if◌then◌else◌, Bool-cases}
use provider.Base.Equality.{Comparable, ◌==◌}

module _ {ℓ} {A : Type ℓ} where
  abbrev pub length : List A → ℕ
  length [] = 0
  length (x ∷ xs) = suc (length xs)

  pub length-append : (xs ys : List A) → length (xs ++ ys) ≡ length xs + length ys
  length-append [] ys = omega arith
  length-append (x ∷ xs) ys = omega (arith, length-append xs ys)

  pub append_nil : (xs : List A) → xs ++ [] ≡ xs
  append_nil [] = refl
  append_nil (x ∷ xs) = ap (λ ys. x ∷ ys) (append_nil xs)

  -- The entries that pass a test, in order.
  abbrev pub select : (A → Bool) → List A → List A
  select p [] = []
  select p (x ∷ xs) = let rest = select p xs in if p x then x ∷ rest else rest

  -- A predicate at each entry.
  abbrev pub Each {κ} : (A → Type κ) → List A → Type κ
  Each Q [] = Unit
  Each Q (a ∷ rest) = Q a × Each Q rest

  pub Each-append {κ} :
      (Q : A → Type κ) (front back : List A) → Each Q front → Each Q back → Each Q (front ++ back)
  Each-append Q [] back l r = r
  Each-append Q (a ∷ rest) back l r = (l.0, Each-append Q rest back l.1 r)

  pub Each-map {κ μ} :
      (P : A → Type κ) (Q : A → Type μ) (xs : List A)
      → ((a : A) → P a → Q a)
      → Each P xs
      → Each Q xs
  Each-map P Q [] f h = tt
  Each-map P Q (a ∷ rest) f h = (f a h.0, Each-map P Q rest f h.1)

  pub append_assoc : (xs ys zs : List A) → (xs ++ ys) ++ zs ≡ xs ++ (ys ++ zs)
  append_assoc [] ys zs = refl
  append_assoc (x ∷ xs) ys zs = ap (λ l. x ∷ l) (append_assoc xs ys zs)

-- Go's `slices.Contains`.
module _ {ℓ} {A : Type ℓ} ⦃e : Comparable A⦄ where
  abbrev pub contains : List A → A → Bool
  contains [] a = false
  contains (x ∷ xs) a = x == a || contains xs a

  pub contains-select :
      (p : A → Bool) (xs : List A) (a : A) → contains (select p xs) a ≡ (contains xs a && p a)
  contains-select p [] a = refl
  contains-select p (x ∷ xs) a = elim (Bool-cases (x == a)) [
    | inl eq ↦
        let same : x ≡ a = (e.same_iff x a).0 eq in
        let test : p x ≡ p a = ap p same in ground (arith, test, contains-select p xs a)
    | inr ne ↦ ground (arith, contains-select p xs a)
  ]
