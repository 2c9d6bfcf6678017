-- ===== src/Operator/IgnoreList.antt =====
-- operator/common/ignore_list.go: the leases whose events fail, with their failures, and the
-- bound on how many are kept. Times are in nanoseconds; `now` is the clock at a call.
pub mod Prune
pub mod Flags
mod Samples
use provider.Base.{
  ℕ, ◌+◌, ◌-◌, ◌%◌, ◌^◌, Bool, true, false, not, ◌||◌, Option, none, some, List, [], ◌∷◌, ltb, leb,
  if◌then◌else◌, ℕ-eq, Bytes, Bytes-eq, length,
}
use provider.Base.Int.{ℤ, pos, ltb_ℤ, int64}
use provider.Base.Map.{Map, get, put, delete_all, put_all, keys_where}
use provider.Ids.{LeaseId, LeaseId-eq}

pub record Entry (E : Type 0) : Type 0 where
  pub failure_count : ℕ
  pub failed_at : ℕ
  pub last_error : Option E
  pub extra : Map Bytes (Unit {0})

-- Both limits are `uint`s.
pub record Config : Type 0 where
  pub failure_limit : ℕ
  pub entry_limit : ℕ
  pub age_limit : ℕ

-- `int(il.cfg.EntryLimit)`, negative from 2 ^ 63 on
pub int_limit : Config → ℤ
unfolding int64
int_limit cfg = int64 (pos cfg.entry_limit)

is_empty : List LeaseId → Bool
is_empty [] = true
is_empty (k ∷ ks) = false

module _ {E : Type 0} where
  -- The entry that a missing key reads as.
  entry_of : Option (Entry E) → Entry E
  entry_of none = record { failure_count = 0; failed_at = 0; last_error = none; extra = [] }
  entry_of (some entry) = entry

  -- One more failure of an entry.
  count_failure : ℕ → E → List Bytes → Entry E → Entry E
  count_failure now failure extra entry = record {
    failure_count = (entry.failure_count + 1) % 2 ^ 64;
    failed_at = now;
    last_error = some failure;
    extra = put_all extra tt entry.extra;
  }

  -- `AddError`
  pub add_error : ℕ → LeaseId → E → List Bytes → Map LeaseId (Entry E) → Map LeaseId (Entry E)
  unfolding entry_of count_failure
  add_error now k failure extra entries =
      put k (count_failure now failure extra (entry_of (get k entries))) entries

  -- `IsFlagged`
  pub is_flagged : Config → LeaseId → Map LeaseId (Entry E) → Bool
  is_flagged cfg k entries = elim (get k entries) [
    | none ↦ false
    | some entry ↦ leb cfg.failure_limit entry.failure_count
  ]

  -- `time.Since(entry.failedAt) > il.cfg.AgeLimit`
  expired : Config → ℕ → LeaseId → Entry E → Bool
  expired cfg now k entry = ltb (entry.failed_at + cfg.age_limit) now

  -- The loop that selects entries until enough are: `size` is the length of the map less that of
  -- the selection, and the limit is an `int`.
  oversize : ℤ → ℕ → Map LeaseId (Entry E) → List LeaseId
  oversize limit size [] = []
  oversize limit size ((k, entry) ∷ rest) =
      let others = oversize limit (size - 1) rest in
      if ltb_ℤ limit (pos size) then k ∷ others else []

  pub prune : Config → ℕ → Map LeaseId (Entry E) → Map LeaseId (Entry E) × Bool
  unfolding expired oversize is_empty int_limit
  prune cfg now entries =
      let old = keys_where (expired cfg now) entries in
      let young = delete_all old entries in
      let more = oversize (int_limit cfg) (length young) young in
      if ltb_ℤ (int_limit cfg) (pos (length entries))
      then (delete_all more young, not (is_empty old) || not (is_empty more))
      else (entries, false)
