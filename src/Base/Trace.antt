-- ===== src/Base/Trace.antt =====
-- Things that begin and end under a key, as a specification of maps of goroutines: one is begun
-- only for a key that has none, and is over only for a key that has one.
use mathlib.Core.Path.{◌≡◌, refl, subst}
use mathlib.Core.Bool.{Bool, true, false, ◌||◌}
use mathlib.Core.List.{List, [], ◌∷◌, ◌++◌}
use native.Mathlib.Omega.{arith}
use provider.Base.Tests.{if◌then◌else◌}
use provider.Base.Equality.{Comparable, ◌==◌}

-- What an observer sees.
pub data Label {ℓ} (K : Type ℓ) : Type ℓ where
  began over : K → Label K

module _ {ℓ} {K : Type ℓ} ⦃c : Comparable K⦄ where
  -- A set of keys, changed at one key.
  abbrev pub change : (K → Bool) → K → Bool → K → Bool
  change m k now p = if k == p then now else m p

  pub data Trace : (K → Bool) → List (Label K) → (K → Bool) → Type ℓ where
    quiet : {m : K → Bool} → Trace m [] m
    begins :
        {m after : K → Bool} {k : K} {labels : List (Label K)}
        → m k ≡ false
        → Trace (change m k true) labels after
        → Trace m (began k ∷ labels) after
    ends :
        {m after : K → Bool} {k : K} {labels : List (Label K)}
        → m k ≡ true
        → Trace (change m k false) labels after
        → Trace m (over k ∷ labels) after

  pub Trace-append :
      {m n after : K → Bool} {front back : List (Label K)}
      → Trace m front n
      → Trace n back after
      → Trace m (front ++ back) after
  Trace-append quiet t = t
  Trace-append (begins h rest) t = begins h (Trace-append rest t)
  Trace-append (ends h rest) t = ends h (Trace-append rest t)

  pub unchanged : {m after : K → Bool} → m ≡ after → Trace m [] after
  unchanged {m = m} e = subst (λ after. Trace m [] after) e quiet

  abbrev pub began_in : K → List (Label K) → Bool
  began_in k [] = false
  began_in k (began p ∷ labels) = p == k || began_in k labels
  began_in k (over p ∷ labels) = began_in k labels

  pub began_in-append :
      (k : K) (xs ys : List (Label K)) → began_in k (xs ++ ys) ≡ (began_in k xs || began_in k ys)
  began_in-append k [] ys = refl
  began_in-append k (began p ∷ xs) ys = ground (arith, began_in-append k xs ys)
  began_in-append k (over p ∷ xs) ys = began_in-append k xs ys

  -- What is there at the end of a trace was there, or began.
  pub Trace-began :
      {m after : K → Bool} {labels : List (Label K)} (k : K)
      → Trace m labels after
      → after k ≡ true
      → (m k || began_in k labels) ≡ true
  Trace-began k quiet h = ground (arith, h)
  Trace-began {labels = began p ∷ labels} k (begins absent rest) h =
      ground (arith, Trace-began k rest h)
  Trace-began {labels = over p ∷ labels} k (ends here rest) h =
      ground (arith, Trace-began k rest h, c.same_iff p k)
