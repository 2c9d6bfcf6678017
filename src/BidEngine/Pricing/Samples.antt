-- ===== src/BidEngine/Pricing/Samples.antt =====
-- A group with two volumes of one class and one that is not persistent. Decimals are numbers.
use provider.Base.{
  ℕ, ◌+◌, ◌*◌, ◌/◌, ◌^◌, ◌≡◌, refl, inl, inr, Bool, true, false, some, [], ◌∷◌, ltb, nat_eq, ℕ-eq,
  Bytes-eq, codes,
}
use provider.Base.Map.{get, put, IsMap}
use provider.Ids.{OrderId-eq, LeaseId-eq}
use provider.Base.Int.{ℤ, pos, negsuc}
use provider.Cluster.Resources.{endpoint_quantity}
use provider.BidEngine.Pricing.{
  all_scales_zero, Decimals, Volume, GroupSpec, Scales, make_scale_pricing, calculate_price,
}
use provider.BidEngine.Pricing.Classes.{priced_alone, calculate_price_lem}

abbrev from_ℤ : ℤ → ℕ
from_ℤ (pos n) = n
from_ℤ (negsuc n) = 0

abbrev numbers : Decimals
numbers = record {
  Decimal = ℕ;
  from_int = from_ℤ;
  add = λ a b. a + b;
  mul = λ a b. a * b;
  div = λ a b. a / b;
  is_zero = λ a. nat_eq a 0;
  is_negative = λ a. false;
  LegacyDec = ℕ;
  to_dec = λ a. some a;
  is_sortable = λ a. ltb a 1000000;
  ephemeral = codes "ephemeral";
}

abbrev volume : Bool → ℕ → Volume
volume persistent mebibytes = record {
  quantity = pos (mebibytes * 2 ^ 20);
  persistent = persistent;
  class = some (codes "beta");
}

abbrev scales : Scales numbers
scales = record {
  cpu = 3;
  memory = 2;
  storage = (codes "ephemeral", 1) ∷ (codes "beta", 10) ∷ [];
  endpoint = 1;
  ip = 5;
}

scales-IsMap : IsMap scales.storage
unfolding get
scales-IsMap = (refl, (refl, tt))

abbrev spec : GroupSpec
spec = record {
  denom = codes "uakt";
  units =
      (record {
        cpu = pos 4;
        memory = pos (2 ^ 21);
        storage = volume true 2 ∷ volume false 5 ∷ volume true 1 ∷ [];
        endpoints = [];
        count = 2;
      })
      ∷ [];
}

-- 24 for 8 cores, 8 for 4 MiB, 60 for 6 MiB of beta and 10 for 10 MiB of the other class.
spec_price : calculate_price numbers scales spec ≡ inr (codes "uakt", 102)
unfolding calculate_price get put endpoint_quantity
spec_price = refl

-- A scale above 0 for one class does not make up for a 0 for another: `IsAnyZero` is asked.
abbrev one_class : Scales numbers
one_class = record scales {
  cpu = 0;
  memory = 0;
  storage = (codes "ephemeral", 0) ∷ (codes "beta", 10) ∷ [];
  endpoint = 0;
  ip = 0;
}

one_class_refused : make_scale_pricing numbers one_class ≡ inl all_scales_zero
unfolding make_scale_pricing
one_class_refused = refl

calculate_price_lem_example : calculate_price numbers scales spec ≡ priced_alone numbers scales spec
calculate_price_lem_example = calculate_price_lem numbers scales spec scales-IsMap
