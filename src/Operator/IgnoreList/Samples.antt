-- ===== src/Operator/IgnoreList/Samples.antt =====
-- A list that holds one entry at most.
use provider.Base.{
  ℕ, arith, ◌≤◌, ◌≡◌, refl, ◌⊎◌, true, false, none, some, List, [], ◌∷◌, ℕ-eq, Bytes, Bytes-eq,
  codes, length,
}
use provider.Base.Int.{int64}
use provider.Base.Map.{Map, get, delete, delete_all, keys_where, IsMap}
use provider.Ids.{LeaseId, LeaseId-eq}
use provider.Operator.IgnoreList.{int_limit, is_empty, oversize, expired, Entry, Config, prune}
use provider.Operator.IgnoreList.Prune.{prune_lem}

abbrev config : Config
config = record { failure_limit = 2; entry_limit = 1; age_limit = 10 }

abbrev lease : ℕ → LeaseId
lease dseq = record {
  owner = codes "tenant";
  dseq = dseq;
  gseq = 1;
  oseq = 1;
  provider = codes "me";
}

abbrev failed : ℕ → Entry Bytes
failed at = record {
  failure_count = 1;
  failed_at = at;
  last_error = some (codes "timeout");
  extra = [];
}

abbrev three : Map LeaseId (Entry Bytes)
three = (lease 1, failed 5) ∷ (lease 2, failed 100) ∷ (lease 3, failed 101) ∷ []

three-IsMap : IsMap three
unfolding get
three-IsMap = (refl, (refl, (refl, tt)))

-- The old entry goes by its age and another to keep the limit.
pruned : prune config 102 three ≡ ((lease 3, failed 101) ∷ [], true)
unfolding prune int_limit int64 expired oversize is_empty keys_where delete delete_all
pruned = refl

prune_lem_example :
    (length (prune config 102 three).0 ≤ 1)
    × (length three ≤ 1 → prune config 102 three ≡ (three, false))
    × ((k : LeaseId)
        → (get k (prune config 102 three).0 ≡ none)
          ⊎ (get k (prune config 102 three).0 ≡ get k three))
prune_lem_example = prune_lem config 102 three three-IsMap (omega arith)

abbrev once : ℕ × Bytes × List Bytes
once = (7, codes "timeout", [])

fresh : get (lease 4) three ≡ none
unfolding get
fresh = refl
