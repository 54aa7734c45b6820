-- ===== src/Lru.antt =====
-- src/plan_cache.rs and src/residency.rs: entries that are loading or ready, and the choice of the
-- entry to evict, which the two write alike.
pub mod Victim
use hrx_rs.Common.{ℕ, ◌≡◌, Bool, true, false, Option, none, some, List, [], ◌∷◌, if◌then◌else◌, leb}

-- A flight is named by its number.
pub data Entry (R : Type 0) : Type 0 where
  loading : (flight : ℕ) → Entry R
  ready : (resource : R) (used : ℕ) → Entry R

module _ {K R : Type 0} (evictable : R → Bool) where
  -- `filter_map` over the entries: those that are ready and may go, with their last use.
  unfoldable pub candidates : List (K × Entry R) → List (K × ℕ)
  candidates [] = []
  candidates ((k, loading f) ∷ m) = candidates m
  candidates ((k, ready r used) ∷ m) =
      if evictable r then (k, used) ∷ candidates m else candidates m

-- `min_by_key(|(_, used)| *used)`: the first of the least.
unfoldable pub min_by_used : {K : Type 0} → List (K × ℕ) → Option (K × ℕ)
min_by_used [] = none
min_by_used ((k, used) ∷ rest) = elim (min_by_used rest) [
  | none ↦ some (k, used)
  | some (j, other) ↦ if leb used other then some (k, used) else some (j, other)
]

unfoldable pub victim : {K R : Type 0} → (R → Bool) → List (K × Entry R) → Option (K × ℕ)
unfolding candidates min_by_used
victim evictable entries = min_by_used (candidates evictable entries)
