-- ===== src/Manifest/Fetch/Samples.antt =====
-- A deployment with two groups and one lease, read at height 1207.
use provider.Base.{
  ◌≡◌, refl, ◌⊎◌, inr, true, none, some, List, [], ◌∷◌, arith, if◌then◌else◌, ◌==◌, ℕ-eq, Bytes,
  Bytes-eq, codes,
}
use provider.Ids.{LeaseId, OrderId-eq, LeaseId-eq}
use provider.Manifest.Checks.{Group, Library}
use provider.Manifest.Service.{DeploymentId}
use provider.Manifest.Fetch.{Filters, Response, Node, do_fetch_data, read_height}
use provider.Manifest.Fetch.Heights.{value, text, read_height-text}
use provider.Manifest.Fetch.Groups.{IsRead, do_fetch_data-IsRead}

abbrev no_manifest_groups : Bytes → List Group
no_manifest_groups m = []

abbrev small : Library
small = record {
  Manifest = Bytes;
  Groups = Bytes;
  no_groups = [];
  groups_of = no_manifest_groups;
  validate = λ m. none;
  version = λ m. some m;
  check_against = λ m g. true;
}

abbrev daddr : DeploymentId
daddr = record { owner = codes "you"; dseq = 7 }

abbrev lease : LeaseId
lease = record { owner = codes "you"; dseq = 7; gseq = 2; oseq = 1; provider = codes "me" }

abbrev response : Response small
response = record {
  deployment = record { groups = codes "g"; hash = codes "v"; owner = some (codes "you") };
  groups = (1, codes "db") ∷ (2, codes "web") ∷ [];
  header = codes "1207" ∷ [];
}

abbrev answer_leases : Filters → Bytes ⊎ List LeaseId
answer_leases f = if f.provider == codes "me" then inr (lease ∷ []) else inr []

abbrev node : Node small
node = record { deployment = λ d. inr response; leases = answer_leases }

height_1207 : read_height (codes "1207" ∷ []) ≡ 1207
unfolding read_height
height_1207 = refl

read_height-text_example : read_height (text (1 ∷ 2 ∷ 0 ∷ 7 ∷ []) ∷ []) ≡ value (1 ∷ 2 ∷ 0 ∷ 7 ∷ [])
read_height-text_example =
    read_height-text 1 (2 ∷ 0 ∷ 7 ∷ []) []
      (omega arith, (omega arith, (omega arith, (omega arith, tt)))) (omega arith)

do_fetch_data-IsRead_example :
    IsRead small (inr response) (inr (lease ∷ [])) (do_fetch_data small node daddr (codes "me"))
do_fetch_data-IsRead_example = do_fetch_data-IsRead small node daddr (codes "me")
