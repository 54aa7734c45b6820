-- ===== src/PlanCache.antt =====
-- src/plan_cache.rs: the bounded cache of prepared plans. Each critical section is one function; a
-- waiting request looks at its flight again and again. An `Arc` of a value stands as a number, and
-- `clones` counts its owners besides the cache.
pub mod Invariant
pub mod Requests
pub mod Guarantees
mod Tests
use hrx_rs.Common.{
  ℕ, suc, ◌+◌, ◌-◌, ◌^◌, ◌≡◌, Bool, true, false, ◌&&◌, Option, none, some, List, [], ◌∷◌, ◌++◌,
  if◌then◌else◌, ◌==◌, length, min, get_elem?, set,
}
use hrx_rs.Common.Errors.{Error, Result, ok, err, busy, message, execution}
use hrx_rs.Common.Table.{find, insert, remove}
use hrx_rs.Lru.{Entry, loading, ready, victim}

abbrev pub Outcome : Type 0
Outcome = Result ℕ

pub record State (K : Type 0) : Type 0 where
  pub capacity : ℕ
  pub entries : List (K × Entry ℕ)
  pub clock : ℕ
  pub hits : ℕ
  pub misses : ℕ
  pub evictions : ℕ
  pub flights : List (Option Outcome)
  pub clones : ℕ → ℕ

-- `saturating_add(1)` on `u64`
abbrev pub tick : ℕ → ℕ
tick clock = min (clock + 1) (2 ^ 64 - 1)

abbrev pub clone : (ℕ → ℕ) → ℕ → ℕ → ℕ
clone count value v = if v == value then count v + 1 else count v

abbrev pub unclone : (ℕ → ℕ) → ℕ → ℕ → ℕ
unclone count value v = if v == value then count v - 1 else count v

-- What the first critical section of `get_or_prepare` comes to.
pub data Entered : Type 0 where
  hit : (value : ℕ) → Entered
  waits : (flight : ℕ) → Entered
  elected : (flight : ℕ) → Entered
  refused : Error → Entered

-- `PlanCache::new`
unfoldable pub new : (K : Type 0) → ℕ → Result (State K)
new K capacity =
    if capacity == 0
    then err (message "plan cache capacity must be nonzero")
    else ok (record {
      capacity = capacity;
      entries = [];
      clock = 0;
      hits = 0;
      misses = 0;
      evictions = 0;
      flights = [];
      clones = λ _. 0;
    })

-- `Arc::strong_count(value) == 1 && (self.idle)(value)`; `idle` is the caller's predicate.
abbrev pub evictable : (ℕ → Bool) → (ℕ → ℕ) → ℕ → Bool
evictable idle clones value = (clones value + 1 == 1) && idle value

module _ {K : Type 0} (eq : Discrete K) where
  -- A new flight for the key.
  unfoldable pub elect : State K → K → State K × Entered
  elect s key = (
    record s {
      entries = insert eq key (loading (length s.flights)) s.entries;
      flights = s.flights ++ none ∷ [];
      misses = s.misses + 1;
    },
    elected (length s.flights),
  )

  -- The branch for a key that is not there.
  unfoldable pub admit : (ℕ → Bool) → State K → K → State K × Entered
  unfolding elect
  admit idle s key =
      if length s.entries == s.capacity
      then elim (victim (evictable idle s.clones) s.entries) [
        | none ↦ (s, refused (busy "all shape plans are pinned or preparing"))
        | some (oldest, used) ↦
            elect (record s { entries = remove eq oldest s.entries; evictions = s.evictions + 1 })
              key
      ]
      else elect s key

  -- `get_or_prepare` up to the release of the lock.
  unfoldable pub enter : (ℕ → Bool) → State K → K → State K × Entered
  unfolding admit
  enter idle before key =
      let s : State K = record before { clock = tick before.clock } in
      elim (find eq key s.entries) [
        | some (ready value used) ↦ (
          record s {
            hits = s.hits + 1;
            entries = insert eq key (ready value s.clock) s.entries;
            clones = clone s.clones value;
          },
          hit value,
        )
        | some (loading flight) ↦ (record s { hits = s.hits + 1 }, waits flight)
        | none ↦ admit idle s key
      ]

  -- The second critical section, of the elected request. A loaded value is cloned into the flight
  -- and to the caller.
  unfoldable pub publish : State K → K → ℕ → Outcome → State K
  publish s key flight (ok value) = record s {
    entries = insert eq key (ready value s.clock) s.entries;
    flights = set s.flights flight (some (ok value));
    clones = clone (clone s.clones value) value;
  }
  publish s key flight (err e) = record s {
    entries = remove eq key s.entries;
    flights = set s.flights flight (some (err e));
  }

-- What the loader comes to: `none` is a panic.
unfoldable pub outcome_of : Option (Result ℕ) → Outcome
outcome_of none = err (message "shape preparation panicked")
outcome_of (some r) = r

-- `result.map_err(|source| Error::Execution { source })`
unfoldable pub answer : Outcome → Result ℕ
answer (ok value) = ok value
answer (err e) = err (execution e)

-- A waiting request looks at its flight: `none` is another round of the wait.
unfoldable pub observe : {K : Type 0} → State K → ℕ → Option Outcome
observe s flight = elim (get_elem? s.flights flight) [ none ↦ none | some result ↦ result ]

-- A request, or a flight that nobody waits for any more, drops its `Arc`.
unfoldable pub release : {K : Type 0} → State K → ℕ → State K
release s value = record s { clones = unclone s.clones value }

-- `statistics`: entries, hits, misses and evictions.
unfoldable pub statistics : {K : Type 0} → State K → ℕ × ℕ × ℕ × ℕ
statistics s = (length s.entries, s.hits, s.misses, s.evictions)
