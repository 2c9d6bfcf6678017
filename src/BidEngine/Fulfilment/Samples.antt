-- ===== src/BidEngine/Fulfilment/Samples.antt =====
-- A group that asks for one of two auditors, each named once among those of all and of any.
use provider.Base.{
  ℕ, ◌≡◌, refl, ◌↔◌, Bool, true, false, not, ◌&&◌, ◌||◌, Option, some, List, [], ◌∷◌, ◌++◌, ℕ-eq,
  Bytes, Bytes-eq, codes, length, contains,
}
use provider.Ids.{OrderId-eq, LeaseId-eq}
use provider.BidEngine.Fulfilment.{accepted, should_bid, Library, Session}
use provider.BidEngine.Fulfilment.Decision.{Fulfils, should_bid_lem}

-- Attributes are a list of names, and a group is its volumes with the auditors it asks for.
abbrev Names : Type 0
Names = List Bytes

abbrev within : Names → Names → Bool
within [] have = true
within (n ∷ ns) have = contains have n && within ns have

abbrev Wanted : Type 0
Wanted = List ℕ × Names × Names

abbrev any_signed : Wanted → List Bytes → Bool
any_signed g [] = false
any_signed g (owner ∷ signed) = not (within signed []) || within (g.1 ++ g.2) []

abbrev anything : Wanted → Names → Bool
anything g names = true

abbrev small : Library
small = record {
  Group = Wanted;
  Attributes = Names;
  Audited = Bytes;
  match_attributes = anything;
  subset_of = within;
  required_attributes = λ g. codes "eu" ∷ [];
  match_resources = anything;
  storage_counts = λ g. g.0;
  signed_by_size = λ g. length (g.1 ++ g.2);
  all_of = λ g. g.1;
  any_of = λ g. g.2;
  audited = λ owner auditor names. owner;
  match_requirements = any_signed;
  validate_basic = λ g. true;
}

abbrev signed_by : Bytes → Option (List Bytes)
signed_by auditor = some (auditor ∷ [])

abbrev session : Session small
session = record {
  owner = codes "me";
  attributes = codes "eu" ∷ [];
  config_attributes = codes "eu" ∷ [];
  max_group_volumes = 2;
  own = some (codes "eu" ∷ []);
  signed = signed_by;
}

abbrev group : Wanted
group = (1 ∷ 2 ∷ [], codes "a" ∷ [], codes "a" ∷ codes "b" ∷ [])

group-accepted : should_bid small session group ≡ accepted
unfolding should_bid
group-accepted = refl

should_bid_lem_example : (should_bid small session group ≡ accepted) ↔ Fulfils small session group
should_bid_lem_example = should_bid_lem small session group
