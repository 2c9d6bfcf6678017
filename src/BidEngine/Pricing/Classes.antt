-- ===== src/BidEngine/Pricing/Classes.antt =====
-- bidengine/pricing.go: the loops over the resources of a group, against a sum for each quantity
-- and for each class of storage by itself.
use provider.Base.{
  ℕ, ◌≡◌, refl, sym, ap, ◌∙◌, ◌≢◌, ◌⊎◌, inl, inr, Option, none, some, List, [], ◌∷◌, arith,
  if◌then◌else◌, Bool-cases, Comparable, ◌==◌, ==_iff, ℕ-eq, Bytes, Bytes-eq, length,
}
use provider.Base.Map.{Map, get, put, IsMap}
use provider.Ids.{OrderId-eq, LeaseId-eq}
use provider.Base.Int.{pos}
use provider.BidEngine.Pricing.{
  and_units, Totals, and_volumes, no_price_for_storage_class, Decimals, Volume, PricedUnit,
  GroupSpec, PriceError, Scales, class_of, scaled, add_volumes, add_units, zero_dec, zero_totals,
  price_of, and_price, calculate_price,
}

abbrev pub value_at {κ μ} : {V : Type κ} → {W : Type μ} → W → Option V → Option W
value_at w none = none
value_at w (some v) = some w

-- A change at one key.
abbrev pub changed {ℓ μ} :
    {K : Type ℓ} → {W : Type μ} → ⦃e : Comparable K⦄ → K → (W → W) → (K → W) → K → W
changed key g f k = if k == key then g (f k) else f k

-- The map with the same keys and the values of a function.
module _ {ℓ κ μ} {K : Type ℓ} {V : Type κ} {W : Type μ} ⦃e : Comparable K⦄ where
  abbrev pub tabulate : (K → W) → Map K V → Map K W
  tabulate f [] = []
  tabulate f ((k, v) ∷ m) = (k, f k) ∷ tabulate f m

  pub get-tabulate :
      (f : K → W) (k : K) (m : Map K V) → get k (tabulate f m) ≡ value_at (f k) (get k m)
  unfolding get
  get-tabulate f k [] = refl
  get-tabulate f k ((j, v) ∷ m) = elim (Bool-cases (j == k)) [
    | inl same ↦ rw (same, (==_iff j k).0 same) refl
    | inr other ↦ rw other (get-tabulate f k m)
  ]

  tabulate-absent :
      (key : K) (g : W → W) (f : K → W) (m : Map K V)
      → get key m ≡ none
      → tabulate f m ≡ tabulate (changed key g f) m
  unfolding get
  tabulate-absent key g f [] h = refl
  tabulate-absent key g f ((j, v) ∷ m) h = elim (Bool-cases (j == key)) [
    | inl same ↦ absurd (ground (arith, rw same at h))
    | inr other ↦
        rw other (ap (λ rest. (j, f j) ∷ rest) (tabulate-absent key g f m (rw other at h)))
  ]

  pub put-tabulate :
      (key : K) (g : W → W) (f : K → W) (m : Map K V)
      → IsMap m
      → get key m ≢ none
      → put key (g (f key)) (tabulate f m) ≡ tabulate (changed key g f) m
  unfolding get put
  put-tabulate key g f [] u h = absurd (h refl)
  put-tabulate key g f ((j, v) ∷ m) u h = elim (Bool-cases (j == key)) [
    | inl same ↦
        let p : j ≡ key = (==_iff j key).0 same in
        rw (same, p)
          (ap (λ rest. (key, g (f key)) ∷ rest) (tabulate-absent key g f m (rw p at u.0)))
    | inr other ↦
        rw other (ap (λ rest. (j, f j) ∷ rest) (put-tabulate key g f m u.1 (rw other at h)))
  ]

module _ (l : Decimals) where
  open l use {Decimal, add, from_int}

  -- What a class has of some volumes, on top of an amount.
  abbrev pub volumes_total : Bytes → ℕ → List Volume → Decimal → Decimal
  volumes_total class count [] total = total
  volumes_total class count (v ∷ vs) total =
      volumes_total class count vs
        (if class == class_of l v then add total (scaled l v.quantity count) else total)

  abbrev pub or_missing : Bytes → Option Decimal → Option Bytes → Option Bytes
  or_missing class none rest = some class
  or_missing class (some scale) rest = rest

  -- The class of the first volume whose class has no price.
  abbrev pub unpriced : Map Bytes Decimal → List Volume → Option Bytes
  unpriced scales [] = none
  unpriced scales (v ∷ vs) =
      or_missing (class_of l v) (get (class_of l v) scales) (unpriced scales vs)

  abbrev pub unless {ℓ} : {A : Type ℓ} → Option Bytes → A → PriceError ⊎ A
  unless none a = inr a
  unless (some class) a = inl (no_price_for_storage_class class)

  -- The volumes of a class on top of what each class has so far.
  abbrev AddsUp : Map Bytes Decimal → ℕ → List Volume → Type 0
  AddsUp scales count vs =
      (f : Bytes → Decimal)
      → add_volumes l count vs (tabulate f scales)
        ≡ unless (unpriced scales vs) (tabulate (λ k. volumes_total k count vs (f k)) scales)

  add_volume_lem :
      (scales : Map Bytes Decimal) (count : ℕ) (v : Volume) (vs : List Volume) (f : Bytes → Decimal)
      (o : Option Decimal)
      → IsMap scales
      → get (class_of l v) scales ≡ o
      → AddsUp scales count vs
      → and_volumes l
          (class_of l v)
          (scaled l v.quantity count)
          (value_at (f (class_of l v)) o)
          (tabulate f scales)
          (add_volumes l count vs)
        ≡ unless
            (or_missing (class_of l v) o (unpriced scales vs))
            (tabulate (λ k. volumes_total k count (v ∷ vs) (f k)) scales)
  add_volume_lem scales count v vs f none u e h = refl
  add_volume_lem scales count v vs f (some scale) u e h =
      let class = class_of l v in
      let more : Decimal → Decimal = λ d. add d (scaled l v.quantity count) in
      let known : get class scales ≢ none = λ e'. absurd (ground (arith, sym e ∙ e')) in
      rw (put-tabulate class more f scales u known) (h (changed class more f))

  add_volumes_lem :
      (scales : Map Bytes Decimal) (count : ℕ) (vs : List Volume)
      → IsMap scales
      → AddsUp scales count vs
  unfolding add_volumes
  add_volumes_lem scales count [] u f = refl
  add_volumes_lem scales count (v ∷ vs) u f =
      let class = class_of l v in
      ap
        (λ o.
          and_volumes l class (scaled l v.quantity count) o (tabulate f scales)
            (add_volumes l count vs))
        (get-tabulate f class scales)
      ∙ add_volume_lem scales count v vs f (get class scales) u refl
          (add_volumes_lem scales count vs u)

  -- The same for the resources of a group.
  abbrev pub cpu_total : List PricedUnit → Decimal → Decimal
  cpu_total [] d = d
  cpu_total (u ∷ us) d = cpu_total us (add d (scaled l u.cpu u.count))

  abbrev pub memory_total : List PricedUnit → Decimal → Decimal
  memory_total [] d = d
  memory_total (u ∷ us) d = memory_total us (add d (scaled l u.memory u.count))

  abbrev pub endpoint_total : List PricedUnit → Decimal → Decimal
  endpoint_total [] d = d
  endpoint_total (u ∷ us) d = endpoint_total us (add d (from_int (pos (length u.endpoints))))

  abbrev pub class_total : Bytes → List PricedUnit → Decimal → Decimal
  class_total class [] d = d
  class_total class (u ∷ us) d = class_total class us (volumes_total class u.count u.storage d)

  abbrev pub or_later : Option Bytes → Option Bytes → Option Bytes
  or_later none rest = rest
  or_later (some class) rest = some class

  abbrev pub first_unpriced : Map Bytes Decimal → List PricedUnit → Option Bytes
  first_unpriced scales [] = none
  first_unpriced scales (u ∷ us) = or_later (unpriced scales u.storage) (first_unpriced scales us)

  and_units-unless :
      (o later : Option Bytes) (storage : Map Bytes Decimal)
      (more : Map Bytes Decimal → PriceError ⊎ Totals l) (t : Totals l)
      → more storage ≡ unless later t
      → and_units l (unless o storage) more ≡ unless (or_later o later) t
  and_units-unless none later storage more t e = e
  and_units-unless (some class) later storage more t e = refl

  abbrev UnitsAddUp : Map Bytes Decimal → List PricedUnit → Type 0
  UnitsAddUp scales us =
      (f : Bytes → Decimal) (cpu memory endpoints : Decimal)
      → add_units l us (record {
        cpu = cpu;
        memory = memory;
        storage = tabulate f scales;
        endpoints = endpoints;
      })
        ≡ unless (first_unpriced scales us) (record {
          cpu = cpu_total us cpu;
          memory = memory_total us memory;
          storage = tabulate (λ k. class_total k us (f k)) scales;
          endpoints = endpoint_total us endpoints;
        })

  add_units_lem :
      (scales : Map Bytes Decimal) (us : List PricedUnit) → IsMap scales → UnitsAddUp scales us
  unfolding add_units
  add_units_lem scales [] u f cpu memory endpoints = refl
  add_units_lem scales (x ∷ us) u f cpu memory endpoints =
      let stored : Map Bytes Decimal =
        tabulate (λ k. volumes_total k x.count x.storage (f k)) scales in
      let more : Map Bytes Decimal → PriceError ⊎ Totals l = λ storage. add_units l us (record {
        cpu = add cpu (scaled l x.cpu x.count);
        memory = add memory (scaled l x.memory x.count);
        storage = storage;
        endpoints = add endpoints (from_int (pos (length x.endpoints)));
      }) in
      ap (λ storage. and_units l storage more) (add_volumes_lem scales x.count x.storage u f)
      ∙ and_units-unless (unpriced scales x.storage) (first_unpriced scales us) stored more _ (
          add_units_lem scales us u (λ k. volumes_total k x.count x.storage (f k))
            (add cpu (scaled l x.cpu x.count)) (add memory (scaled l x.memory x.count))
            (add endpoints (from_int (pos (length x.endpoints)))))

  zero_totals-tabulate :
      (scales : Map Bytes Decimal) → zero_totals l scales ≡ tabulate (λ k. zero_dec l) scales
  unfolding zero_totals
  zero_totals-tabulate [] = refl
  zero_totals-tabulate ((k, v) ∷ m) = ap (λ rest. (k, zero_dec l) ∷ rest) (zero_totals-tabulate m)

  -- The price of a group whose totals are summed one quantity and one class at a time.
  abbrev pub priced_alone : Scales l → GroupSpec → PriceError ⊎ Bytes × l.LegacyDec
  priced_alone s spec =
      let z = zero_dec l in
      and_price l
        (unless (first_unpriced s.storage spec.units) (record {
          cpu = cpu_total spec.units z;
          memory = memory_total spec.units z;
          storage = tabulate (λ class. class_total class spec.units z) s.storage;
          endpoints = endpoint_total spec.units z;
        }))
        (price_of l s spec)

  -- Where no class of storage has two scales, CalculatePrice, which sums all quantities of a
  -- group in one pass over a map of the classes of storage, prices exactly the sums that are
  -- taken for each quantity and each class by itself, and fails for the first volume whose class
  -- has no price before any other check.
  pub calculate_price_lem :
      (s : Scales l) (spec : GroupSpec)
      → IsMap s.storage
      → calculate_price l s spec ≡ priced_alone s spec
  unfolding calculate_price
  calculate_price_lem s spec u =
      let z = zero_dec l in
      rw (zero_totals-tabulate s.storage, add_units_lem s.storage spec.units u (λ k. z) z z z) refl
