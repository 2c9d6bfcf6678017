-- ===== src/Operator/IgnoreList/Flags.antt =====
-- operator/common/ignore_list.go: the flag of a lease with errors.
use provider.Base.{
  ℕ, ◌+◌, ◌^◌, ◌≤◌, ◌<◌, ◌≡◌, refl, ap, ◌∙◌, ◌↔◌, true, false, none, some, List, [], ◌∷◌, arith,
  leb, ==_refl, ℕ-eq, Bytes, Bytes-eq, length,
}
use provider.Base.Map.{Map, get, get-put}
use provider.Ids.{LeaseId, LeaseId-eq}
use provider.Operator.IgnoreList.{count_failure, Config, is_flagged, entry_of, Entry, add_error}

module _ {E : Type 0} where
  -- A number of errors of one lease, each with its time and error.
  abbrev pub add_errors :
      LeaseId → List (ℕ × E × List Bytes) → Map LeaseId (Entry E) → Map LeaseId (Entry E)
  add_errors k [] m = m
  add_errors k ((now, failure, extra) ∷ es) m = add_errors k es (add_error now k failure extra m)

  flagged_at :
      (cfg : Config) (k : LeaseId) (m : Map LeaseId (Entry E)) (entry : Entry E)
      → get k m ≡ some entry
      → is_flagged cfg k m ≡ leb cfg.failure_limit entry.failure_count
  unfolding is_flagged
  flagged_at cfg k m entry h =
      ap (λ o. (elim o [ none ↦ false | some x ↦ leb cfg.failure_limit x.failure_count ])) h

  get-add_error :
      (now : ℕ) (k : LeaseId) (failure : E) (extra : List Bytes) (m : Map LeaseId (Entry E))
      → get k (add_error now k failure extra m)
        ≡ some (count_failure now failure extra (entry_of (get k m)))
  unfolding add_error
  get-add_error now k failure extra m =
      get-put k k (count_failure now failure extra (entry_of (get k m))) m ∙ rw (==_refl k) refl

  counted :
      (cfg : Config) (k : LeaseId) (es : List (ℕ × E × List Bytes)) (m : Map LeaseId (Entry E))
      (entry : Entry E)
      → get k m ≡ some entry
      → entry.failure_count + length es < 2 ^ 64
      → is_flagged cfg k (add_errors k es m)
        ≡ leb cfg.failure_limit (entry.failure_count + length es)
  unfolding entry_of count_failure
  counted cfg k [] m entry h lim =
      flagged_at cfg k m entry h ∙ ap (λ n. leb cfg.failure_limit n) (omega arith)
  counted cfg k ((now, failure, extra) ∷ es) m entry h lim =
      let added = get-add_error now k failure extra m in
      let entry' = count_failure now failure extra entry in
      counted cfg k es (add_error now k failure extra m) entry'
        (added ∙ ap (λ o. some (count_failure now failure extra (entry_of o))) h)
        (omega (arith, lim))
      ∙ ap (λ n. leb cfg.failure_limit n) (omega (arith, lim))

  -- A lease without an entry is flagged behind some errors exactly when they are as many as the
  -- limit, below the width of uint.
  pub is_flagged_lem :
      (cfg : Config) (k : LeaseId) (e : ℕ × E × List Bytes) (es : List (ℕ × E × List Bytes))
      (m : Map LeaseId (Entry E))
      → get k m ≡ none
      → length (e ∷ es) < 2 ^ 64
      → (is_flagged cfg k (add_errors k (e ∷ es) m) ≡ true) ↔ (cfg.failure_limit ≤ length (e ∷ es))
  unfolding entry_of count_failure
  is_flagged_lem cfg k e es m h lim =
      let first = count_failure e.0 e.1 e.2 (entry_of none) in
      let all =
        counted cfg k es (add_error e.0 k e.1 e.2 m) first
          (get-add_error e.0 k e.1 e.2 m
            ∙ ap (λ o. some (count_failure e.0 e.1 e.2 (entry_of o))) h)
          (omega (arith, lim)) in
      rw all (ground (arith))
