-- ===== src/Manifest/Fetch.antt =====
-- manifest/manager.go: the read of a deployment and its active leases (`doFetchData`), and the
-- height it was answered at (`readHeight`), with the part of Go's strconv.ParseInt it uses.
pub mod Heights
pub mod Groups
mod Samples
use provider.Base.{
  ℕ, zero, suc, ◌+◌, ◌-◌, ◌*◌, ◌^◌, ◌⊎◌, inl, inr, Bool, true, false, ◌&&◌, Option, none, some,
  List, [], ◌∷◌, ltb, leb, if◌then◌else◌, ◌==◌, ℕ-eq, Bytes, Bytes-eq,
}
use provider.Base.Map.{Map, get, put}
use provider.Ids.{LeaseId, OrderId-eq, LeaseId-eq}
use provider.Base.Trace.{over}
use provider.Base.Int.{ℤ, pos, negsuc}
use provider.Manifest.Checks.{Library}
use provider.Manifest.Manager.{Deployment, FetchResult, Lease}
use provider.Manifest.Service.{DeploymentId}

pub parse_digits : ℕ → Bytes → Option ℕ
parse_digits n [] = some n
parse_digits n (c ∷ cs) =
    let rest = parse_digits (n * 10 + (c - 48)) cs in if leb 48 c && leb c 57 then rest else none

pub parse_uint : Bytes → Option ℕ
unfolding parse_digits
parse_uint [] = none
parse_uint (c ∷ cs) = parse_digits 0 (c ∷ cs)

negative : ℕ → ℤ
negative zero = pos 0
negative (suc n) = negsuc n

-- The sign, and the range of `int64`.
pub signed : Bool → Option ℕ → Option ℤ
unfolding negative
signed minus none = none
signed minus (some n) =
    if minus
    then if leb n (2 ^ 63) then some (negative n) else none
    else if ltb n (2 ^ 63)
    then some (pos n)
    else none

-- `strconv.ParseInt(s, 10, 64)`, `none` for an error; 43 and 45 are the signs.
pub parse_int : Bytes → Option ℤ
unfolding parse_uint signed
parse_int [] = none
parse_int (c ∷ cs) =
    if c == 43
    then signed false (parse_uint cs)
    else if c == 45
    then signed true (parse_uint cs)
    else signed false (parse_uint (c ∷ cs))

pub height_of : Option ℤ → ℕ
height_of none = 0
height_of (some (pos n)) = n
height_of (some (negsuc n)) = 0

-- `readHeight`, from the values of the header.
pub read_height : List Bytes → ℕ
unfolding parse_int height_of
read_height [] = 0
read_height (value ∷ values) = height_of (parse_int value)

-- `LeaseFilters` for active leases of any group and order.
pub record Filters : Type 0 where
  pub owner : Bytes
  pub dseq : ℕ
  pub provider : Bytes

pub data Error : Type 0 where
  query_error : Bytes → Error
  no_group_for_lease : LeaseId → Error

-- A group of a deployment's response: its GSeq and its name.
abbrev pub NamedGroup : Type 0
NamedGroup = ℕ × Bytes

module _ (l : Library) where
  -- The answer to a deployment query, with its groups and the header of its response.
  pub record Response : Type 0 where
    pub deployment : Deployment l
    pub groups : List NamedGroup
    pub header : List Bytes

  -- The chain's node; an error is a text.
  pub record Node : Type 0 where
    pub deployment : DeploymentId → Bytes ⊎ Response
    pub leases : Filters → Bytes ⊎ List LeaseId

  -- `groups[g.ID.GSeq] = g` for each group
  pub index_groups : List NamedGroup → Map ℕ Bytes → Map ℕ Bytes
  index_groups [] m = m
  index_groups ((gseq, name) ∷ groups) m = index_groups groups (put gseq name m)

  and_lease : LeaseId → Option Bytes → Error ⊎ List Lease → Error ⊎ List Lease
  and_lease id none rest = inl (no_group_for_lease id)
  and_lease id (some name) (inl e) = inl e
  and_lease id (some name) (inr leases) = inr (record { id = id; group_name = name } ∷ leases)

  -- The loop over the leases.
  pub pair_leases : Map ℕ Bytes → List LeaseId → Error ⊎ List Lease
  unfolding and_lease
  pair_leases groups [] = inr []
  pair_leases groups (id ∷ ids) = and_lease id (get id.gseq groups) (pair_leases groups ids)

  fetched : Response → Error ⊎ List Lease → Error ⊎ FetchResult l
  unfolding read_height
  fetched d (inl e) = inl e
  fetched d (inr leases) =
      inr (record { deployment = d.deployment; leases = leases; height = read_height d.header })

  with_leases : Response → Bytes ⊎ List LeaseId → Error ⊎ FetchResult l
  unfolding fetched pair_leases index_groups
  with_leases d (inl text) = inl (query_error text)
  with_leases d (inr ids) = fetched d (pair_leases (index_groups d.groups []) ids)

  with_deployment : Node → Filters → Bytes ⊎ Response → Error ⊎ FetchResult l
  unfolding with_leases
  with_deployment n f (inl text) = inl (query_error text)
  with_deployment n f (inr d) = with_leases d (n.leases f)

  -- `doFetchData`
  unfoldable pub do_fetch_data : Node → DeploymentId → Bytes → Error ⊎ FetchResult l
  unfolding with_deployment
  do_fetch_data n daddr provider =
      with_deployment n (record { owner = daddr.owner; dseq = daddr.dseq; provider = provider })
        (n.deployment daddr)
