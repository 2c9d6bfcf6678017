-- ===== src/BidEngine/Pricing.antt =====
-- bidengine/pricing.go: the pricing by scales. Decimal numbers are of other packages: an interface.
pub mod Classes
mod Samples
use provider.Base.{
  ℕ, ◌^◌, ◌⊎◌, inl, inr, Bool, true, false, not, ◌&&◌, ◌||◌, Option, none, some, List, [], ◌∷◌, map,
  if◌then◌else◌, ℕ-eq, Bytes, Bytes-eq, length,
}
use provider.Base.Map.{Map, get, put}
use provider.Ids.{OrderId-eq, LeaseId-eq}
use provider.Base.Trace.{over}
use provider.Base.Int.{ℤ, pos}
use provider.Cluster.Resources.{leased_ip, Endpoint, ResourceUnit, endpoint_quantity}

-- `decimal.Decimal`, with `from_int` for both constructors that the code uses, and the chain's
-- decimals: `to_dec` reads the text of a decimal, and `is_sortable` compares with the largest one
-- that sorts. `ephemeral` is the class of the volumes that are not persistent.
pub record Decimals : Type 1 where
  pub Decimal : Type 0
  pub from_int : ℤ → Decimal
  pub add : Decimal → Decimal → Decimal
  pub mul : Decimal → Decimal → Decimal
  pub div : Decimal → Decimal → Decimal
  pub is_zero : Decimal → Bool
  pub is_negative : Decimal → Bool
  pub LegacyDec : Type 0
  pub to_dec : Decimal → Option LegacyDec
  pub is_sortable : LegacyDec → Bool
  pub ephemeral : Bytes

-- A volume, with its attributes `persistent` and `class`.
pub record Volume : Type 0 where
  pub quantity : ℤ
  pub persistent : Bool
  pub class : Option Bytes

-- An entry of `Resources`.
pub record PricedUnit : Type 0 where
  pub cpu : ℤ
  pub memory : ℤ
  pub storage : List Volume
  pub endpoints : List Endpoint
  pub count : ℕ

pub record GroupSpec : Type 0 where
  pub denom : Bytes
  pub units : List PricedUnit

pub data ScaleError : Type 0 where
  all_scales_zero scale_negative : ScaleError

pub data PriceError : Type 0 where
  no_price_for_storage_class : Bytes → PriceError
  bid_quantity_invalid bid_zero bad_decimal : PriceError

-- The endpoints, all that `GetEndpointQuantityOfResourceGroup` reads.
abbrev pub as_unit : PricedUnit → ResourceUnit
as_unit u = record {
  cpu = none;
  gpu = none;
  memory = none;
  storage = [];
  endpoints = u.endpoints;
  count = u.count;
}

pub leased_ips : GroupSpec → ℕ
leased_ips spec =
    endpoint_quantity leased_ip
      (record { name = []; attributes = []; units = map as_unit spec.units })

abbrev pub or_class : Bytes → Option Bytes → Bytes
or_class class none = class
or_class class (some set) = set

module _ (l : Decimals) where
  open l use {
    Decimal, from_int, add, mul, div, is_zero, is_negative, LegacyDec, to_dec, is_sortable,
    ephemeral,
  }

  -- `scalePricing`
  pub record Scales : Type 0 where
    pub cpu : Decimal
    pub memory : Decimal
    pub storage : Map Bytes Decimal
    pub endpoint : Decimal
    pub ip : Decimal

  abbrev pub zero_dec : Decimal
  zero_dec = from_int (pos 0)

  exists_zero : Map Bytes Decimal → Bool
  exists_zero [] = false
  exists_zero ((class, value) ∷ m) = is_zero value || exists_zero m

  -- `IsAnyZero`
  pub is_any_zero : Map Bytes Decimal → Bool
  unfolding exists_zero
  is_any_zero [] = true
  is_any_zero ((class, value) ∷ m) = exists_zero ((class, value) ∷ m)

  -- `IsAnyNegative`
  pub is_any_negative : Map Bytes Decimal → Bool
  is_any_negative [] = false
  is_any_negative ((class, value) ∷ m) = is_negative value || is_any_negative m

  -- `MakeScalePricing`
  unfoldable pub make_scale_pricing : Scales → ScaleError ⊎ Scales
  unfolding is_any_zero is_any_negative
  make_scale_pricing s =
      if is_zero s.cpu
        && is_zero s.memory
        && is_any_zero s.storage
        && is_zero s.endpoint
        && is_zero s.ip
      then inl all_scales_zero
      else if is_negative s.cpu
          || is_negative s.memory
          || is_any_negative s.storage
          || is_negative s.endpoint
          || is_negative s.ip
      then inl scale_negative
      else inr s

  pub record Totals : Type 0 where
    pub cpu : Decimal
    pub memory : Decimal
    pub storage : Map Bytes Decimal
    pub endpoints : Decimal

  pub zero_totals : Map Bytes Decimal → Map Bytes Decimal
  zero_totals [] = []
  zero_totals ((class, scale) ∷ m) = (class, zero_dec) ∷ zero_totals m

  pub class_of : Volume → Bytes
  class_of v = if v.persistent then or_class ephemeral v.class else ephemeral

  abbrev pub scaled : ℤ → ℕ → Decimal
  scaled quantity count = mul (from_int quantity) (from_int (pos count))

  abbrev pub and_volumes :
      Bytes
      → Decimal
      → Option Decimal
      → Map Bytes Decimal
      → (Map Bytes Decimal → PriceError ⊎ Map Bytes Decimal)
      → PriceError ⊎ Map Bytes Decimal
  and_volumes class quantity none totals rest = inl (no_price_for_storage_class class)
  and_volumes class quantity (some total) totals rest = rest (put class (add total quantity) totals)

  -- The loop over the volumes of a resource.
  pub add_volumes : ℕ → List Volume → Map Bytes Decimal → PriceError ⊎ Map Bytes Decimal
  unfolding class_of
  add_volumes count [] totals = inr totals
  add_volumes count (v ∷ vs) totals =
      and_volumes (class_of v) (scaled v.quantity count) (get (class_of v) totals) totals
        (add_volumes count vs)

  abbrev pub and_units :
      PriceError ⊎ Map Bytes Decimal
      → (Map Bytes Decimal → PriceError ⊎ Totals)
      → PriceError ⊎ Totals
  and_units (inl e) rest = inl e
  and_units (inr storage) rest = rest storage

  -- The loop over the resources.
  pub add_units : List PricedUnit → Totals → PriceError ⊎ Totals
  unfolding add_volumes
  add_units [] t = inr t
  add_units (u ∷ us) t = and_units (add_volumes u.count u.storage t.storage) (λ storage.
      add_units us (record {
        cpu = add t.cpu (scaled u.cpu u.count);
        memory = add t.memory (scaled u.memory u.count);
        storage = storage;
        endpoints = add t.endpoints (from_int (pos (length u.endpoints)));
      }))

  abbrev pub mebibytes : Decimal
  mebibytes = from_int (pos (2 ^ 20))

  abbrev pub scale_or_zero : Option Decimal → Decimal
  scale_or_zero none = zero_dec
  scale_or_zero (some scale) = scale

  -- The loop that scales the storage.
  pub scale_storage : Map Bytes Decimal → Map Bytes Decimal → Map Bytes Decimal
  scale_storage scales [] = []
  scale_storage scales ((class, total) ∷ m) =
      (class, mul (div total mebibytes) (scale_or_zero (get class scales))) ∷ scale_storage scales m

  pub sum : Decimal → Map Bytes Decimal → Decimal
  sum cost [] = cost
  sum cost ((class, total) ∷ m) = sum (add cost total) m

  pub priced : Bytes → Option LegacyDec → PriceError ⊎ Bytes × LegacyDec
  priced denom none = inl bad_decimal
  priced denom (some cost) =
      if is_sortable cost then inr (denom, cost) else inl bid_quantity_invalid

  -- Behind the loops: the scales, the checks and the sum.
  pub price_of : Scales → GroupSpec → Totals → PriceError ⊎ Bytes × LegacyDec
  unfolding scale_storage sum priced is_any_negative leased_ips
  price_of s spec t =
      let ips = mul (add zero_dec s.ip) (from_int (pos (leased_ips spec))) in
      let cpu = mul t.cpu s.cpu in
      let memory = mul (div t.memory mebibytes) s.memory in
      let storage = scale_storage s.storage t.storage in
      let endpoints = mul t.endpoints s.endpoint in
      let cost = add (add (sum (add cpu memory) storage) endpoints) ips in
      if is_negative cpu
        || is_negative memory
        || is_any_negative storage
        || is_negative endpoints
        || is_negative ips
      then inl bid_quantity_invalid
      else if is_negative cost
      then inl bid_quantity_invalid
      else if is_zero cost
      then inl bid_zero
      else priced spec.denom (to_dec cost)

  abbrev pub and_price :
      PriceError ⊎ Totals
      → (Totals → PriceError ⊎ Bytes × LegacyDec)
      → PriceError ⊎ Bytes × LegacyDec
  and_price (inl e) rest = inl e
  and_price (inr t) rest = rest t

  abbrev pub start_totals : Scales → Totals
  start_totals s = record {
    cpu = zero_dec;
    memory = zero_dec;
    storage = zero_totals s.storage;
    endpoints = zero_dec;
  }

  -- `scalePricing.CalculatePrice`
  unfoldable pub calculate_price : Scales → GroupSpec → PriceError ⊎ Bytes × LegacyDec
  unfolding add_units price_of zero_totals
  calculate_price s spec = and_price (add_units spec.units (start_totals s)) (price_of s spec)
