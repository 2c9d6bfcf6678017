-- ===== src/Operator/IgnoreList/Prune.antt =====
-- operator/common/ignore_list.go: the pruning of the list.
use provider.Base.{
  ℕ, suc, ◌-◌, ◌≤◌, ◌<◌, ◌^◌, ◌≡◌, refl, ap, ◌⊎◌, inl, inr, Bool, false, none, List, [], ◌∷◌, arith,
  Bool-cases, if_split, ◌==◌, ==_refl, ℕ-eq, Bytes-eq, length,
}
use provider.Base.Int.{pos, ltb_ℤ, int64}
use provider.Base.Map.{
  Map, get, delete, delete_all, get-delete_all, keys_where, IsMap, IsMap-delete_all,
}
use provider.Ids.{LeaseId, LeaseId-eq}
use provider.Operator.IgnoreList.{expired, oversize, int_limit, Entry, Config, prune}

suc_sub : (n : ℕ) → suc n - 1 ≡ n
suc_sub n = omega arith

int_limit-small : (cfg : Config) → cfg.entry_limit < 2 ^ 63 → int_limit cfg ≡ pos cfg.entry_limit
unfolding int_limit int64
int_limit-small cfg small = ground (arith, small)

module _ {E : Type 0} where
  delete-absent : (k : LeaseId) (m : Map LeaseId (Entry E)) → get k m ≡ none → delete k m ≡ m
  unfolding get delete
  delete-absent k [] h = refl
  delete-absent k ((j, entry) ∷ m) h = elim (Bool-cases (j == k)) [
    | inl eq ↦ ground (arith, h, eq)
    | inr ne ↦ rw ne (ap (λ rest. (j, entry) ∷ rest) (delete-absent k m (rw ne at h)))
  ]

  delete-first :
      (k : LeaseId) (entry : Entry E) (m : Map LeaseId (Entry E))
      → get k m ≡ none
      → delete k ((k, entry) ∷ m) ≡ m
  unfolding delete
  delete-first k entry m h = rw (==_refl k) (delete-absent k m h)

  oversize-bound :
      (limit : ℕ) (m : Map LeaseId (Entry E))
      → IsMap m
      → length (delete_all (oversize (pos limit) (length m) m) m) ≤ limit
  unfolding oversize delete_all
  oversize-bound limit [] h = omega arith
  oversize-bound limit ((k, entry) ∷ m) h =
      if_split (λ (ks : List LeaseId). length (delete_all ks ((k, entry) ∷ m)) ≤ limit)
        (ltb_ℤ (pos limit) (pos (suc (length m)))) _ _
        (λ p. rw (suc_sub (length m), delete-first k entry m h.0) (oversize-bound limit m h.1))
        (λ p. ground (arith, p))

  -- The list without the keys of two deletions reads as before or not at all.
  delete_all-twice :
      (ks js : List LeaseId) (m : Map LeaseId (Entry E)) (k : LeaseId)
      → (get k (delete_all ks (delete_all js m)) ≡ none)
        ⊎ (get k (delete_all ks (delete_all js m)) ≡ get k m)
  delete_all-twice ks js m k =
      ground (arith, get-delete_all ks k (delete_all js m), get-delete_all js k m)

  -- Where the limit is an `int`, below 2 ^ 63, pruning a list with one entry for a lease leaves
  -- at most the limit of entries, leaves a list within the limit as it is, and changes no entry
  -- that it keeps.
  pub prune_lem :
      (cfg : Config) (now : ℕ) (m : Map LeaseId (Entry E))
      → IsMap m
      → cfg.entry_limit < 2 ^ 63
      → (length (prune cfg now m).0 ≤ cfg.entry_limit)
        × (length m ≤ cfg.entry_limit → prune cfg now m ≡ (m, false))
        × ((k : LeaseId)
            → (get k (prune cfg now m).0 ≡ none) ⊎ (get k (prune cfg now m).0 ≡ get k m))
  unfolding prune
  prune_lem cfg now m h small =
      let limit = cfg.entry_limit in
      let old = keys_where (expired cfg now) m in
      let young = delete_all old m in
      rw (int_limit-small cfg small) (
        if_split
          (λ (r : Map LeaseId (Entry E) × Bool).
            (length r.0 ≤ limit)
            × (length m ≤ limit → r ≡ (m, false))
            × ((k : LeaseId) → (get k r.0 ≡ none) ⊎ (get k r.0 ≡ get k m)))
          (ltb_ℤ (pos limit) (pos (length m))) _ _
          (λ p. (
            oversize-bound limit young (IsMap-delete_all old m h),
            (λ le. ground (arith, p, le)),
            delete_all-twice (oversize (pos limit) (length young) young) old m,
          ))
          (λ p. (ground (arith, p), (λ le. refl), (λ k. inr refl))))
