-- ===== src/BidEngine/Fulfilment.antt =====
-- bidengine/order.go: whether the provider should bid on a group (`shouldBid`). The groups and the
-- attributes, with their tests, are of the chain's packages: here an interface.
pub mod Gathering
pub mod Decision
mod Samples
use provider.Base.{
  ℕ, Bool, true, false, not, Option, none, some, List, [], ◌∷◌, ◌++◌, ltb, nat_eq, if◌then◌else◌,
  ℕ-eq, Bytes, Bytes-eq, contains,
}
use provider.Ids.{OrderId-eq, LeaseId-eq}
use provider.Base.Trace.{over}

pub record Library : Type 1 where
  pub Group : Type 0
  pub Attributes : Type 0
  pub Audited : Type 0
  pub match_attributes : Group → Attributes → Bool
  pub subset_of : Attributes → Attributes → Bool
  pub required_attributes : Group → Attributes
  pub match_resources : Group → Attributes → Bool
  pub storage_counts : Group → List ℕ
  pub signed_by_size : Group → ℕ
  pub all_of : Group → List Bytes
  pub any_of : Group → List Bytes
  pub audited : Bytes → Bytes → Attributes → Audited
  pub match_requirements : Group → List Audited → Bool
  pub validate_basic : Group → Bool

pub data Verdict : Type 0 where
  errored declined accepted : Verdict

module _ (l : Library) where
  open l use {
    Group, Attributes, Audited, match_attributes, subset_of, required_attributes, match_resources,
    storage_counts, signed_by_size, all_of, any_of, audited, match_requirements, validate_basic,
  }

  -- The provider, its configuration, and the answers of the service of attributes: its own
  -- attributes, and those that an auditor signed; a missing one is an error.
  pub record Session : Type 0 where
    pub owner : Bytes
    pub attributes : Attributes
    pub config_attributes : Attributes
    pub max_group_volumes : ℕ
    pub own : Option Attributes
    pub signed : Bytes → Option (List Audited)

  -- The loop over the resources.
  pub few_volumes : ℕ → List ℕ → Bool
  few_volumes max [] = true
  few_volumes max (n ∷ ns) = if ltb max n then false else few_volumes max ns

  -- The loop over the auditors, with those done: what they signed, unless one fails, and whom
  -- it asks.
  abbrev pub and_signed : Option (List Audited) → Option (List Audited) → Option (List Audited)
  and_signed (some xs) (some ys) = some (xs ++ ys)
  and_signed _ _ = none

  abbrev pub asked_more : Option (List Audited) → List Bytes → List Bytes
  asked_more none rest = []
  asked_more (some xs) rest = rest

  pub gather :
      (Bytes → Option (List Audited)) → List Bytes → List Bytes → Option (List Audited) × List Bytes
  gather signed done [] = (some [], [])
  gather signed done (a ∷ auditors) =
      let passed = gather signed done auditors in
      let rest = gather signed (a ∷ done) auditors in
      if contains done a
      then passed
      else (and_signed (signed a) rest.0, a ∷ asked_more (signed a) rest.1)

  pub auditors_of : Group → List Bytes
  auditors_of g = all_of g ++ any_of g

  abbrev pub own_entry : Session → Audited
  own_entry s = audited s.owner [] s.attributes

  with_signed : Session → Group → Option (List Audited) → Verdict
  with_signed s g none = errored
  with_signed s g (some signed) =
      if not (match_requirements g (own_entry s ∷ signed))
      then declined
      else if validate_basic g
      then accepted
      else declined

  of_signatures : Session → Group → Verdict
  unfolding with_signed gather auditors_of
  of_signatures s g =
      if nat_eq (signed_by_size g) 0
      then if validate_basic g then accepted else declined
      else with_signed s g (gather s.signed [] (auditors_of g)).0

  with_attributes : Session → Group → Option Attributes → Verdict
  unfolding of_signatures few_volumes
  with_attributes s g none = errored
  with_attributes s g (some attributes) =
      if not (match_resources g attributes)
      then declined
      else if few_volumes s.max_group_volumes (storage_counts g)
      then of_signatures s g
      else declined

  -- `shouldBid`
  unfoldable pub should_bid : Session → Group → Verdict
  unfolding with_attributes
  should_bid s g =
      if not (match_attributes g s.attributes)
      then declined
      else if not (subset_of s.config_attributes (required_attributes g))
      then declined
      else with_attributes s g s.own
