-- ===== src/Residency.antt =====
-- src/residency.rs: the byte budget that models and allocations share, and the cache of idle resources
-- that gives way to new reservations.
pub mod Evictions
pub mod Budget
pub mod Loads
mod Tests
use hrx_rs.Common.{
  ℕ, zero, suc, ◌+◌, ◌-◌, ◌^◌, Bool, true, false, ◌&&◌, not, Option, none, some, List, [], ◌∷◌,
  if◌then◌else◌, ◌==◌, leb, ltb, min, length,
}
use hrx_rs.Common.Errors.{Error, Result, ok, err, busy, message}
use hrx_rs.Common.Table.{find, insert, remove}
use hrx_rs.Lru.{Entry, loading, ready, victim}

-- A resource: which one it is, and the bytes that its reservation holds.
pub record Resource : Type 0 where
  pub id : ℕ
  pub bytes : ℕ

pub record Usage : Type 0 where
  pub limit : ℕ
  pub bytes : ℕ

-- The registry. `owners` counts the owners of a resource besides the registry, `pins` is its pins, and
-- `own` the bytes that the value of the resource has reserved itself, as those of `load_budgeted` do.
pub record State (K : Type 0) : Type 0 where
  pub entries : List (K × Entry Resource)
  pub clock : ℕ
  pub evictions : ℕ
  pub owners : ℕ → ℕ
  pub pins : ℕ → ℕ
  pub own : ℕ → ℕ

-- `ResidencyManager::create`
unfoldable pub create : (K : Type 0) → ℕ → Result (Usage × State K)
create K budget =
    if budget == 0
    then err (message "residency budget must be nonzero")
    else ok (
      record { limit = budget; bytes = 0 },
      record {
        entries = [];
        clock = 0;
        evictions = 0;
        owners = λ _. 0;
        pins = λ _. 0;
        own = λ _. 0;
      },
    )

-- `Usage::reserve`: `checked_add`, then the limit.
unfoldable pub reserve : Usage → ℕ → Option Usage
reserve u bytes =
    if ltb (2 ^ 64 - 1) (u.bytes + bytes)
    then none
    else if leb (u.bytes + bytes) u.limit
    then some (record u { bytes = u.bytes + bytes })
    else none

-- `MemoryReservation::shrink`: the charge of `held` bytes becomes one of `bytes`; `none` is its
-- assertion.
unfoldable pub shrink : Usage → ℕ → ℕ → Option Usage
shrink u held bytes =
    if leb bytes held then some (record u { bytes = u.bytes - (held - bytes) }) else none

-- `MemoryReservation::drop`
unfoldable pub drop_charge : Usage → ℕ → Usage
drop_charge u held = record u { bytes = u.bytes - held }

-- `Resource::is_evictable`; `idle` is the predicate of the resource.
abbrev pub is_evictable : (ℕ → Bool) → (ℕ → ℕ) → (ℕ → ℕ) → Resource → Bool
is_evictable idle owners pins r = (owners r.id + 1 == 1) && ((pins r.id == 0) && idle r.id)

-- What the drop of a resource without owners releases: its reservation, and those of its value.
abbrev pub charge_of : (ℕ → ℕ) → Resource → ℕ
charge_of own r = r.bytes + own r.id

module _ {K : Type 0} (eq : Discrete K) where
  -- `State::evict_idle`. The victim is one of the ready entries.
  unfoldable pub evict_idle : (ℕ → Bool) → State K → Option (Resource × State K)
  evict_idle idle s = elim (victim (is_evictable idle s.owners s.pins) s.entries) [
    | none ↦ none
    | some (oldest, used) ↦ elim (find eq oldest s.entries) [
      | some (ready r u) ↦
          some (r, record s { entries = remove eq oldest s.entries; evictions = s.evictions + 1 })
      | some (loading flight) ↦ none
      | none ↦ none
    ]
  ]

  -- The loop of `MemoryBudget::reserve`, with fuel: idle resources go until the bytes fit. A victim has
  -- no other owner, so that its charge is released when it is dropped. The registry is unlocked between
  -- the rounds: `others` is what other threads make of the budget and the registry there.
  unfoldable pub reserve_loop :
      ℕ
      → (ℕ → Bool)
      → (ℕ → Usage × State K → Usage × State K)
      → Usage
      → State K
      → ℕ
      → Option (Usage × State K × Result ℕ)
  unfolding evict_idle reserve drop_charge
  reserve_loop zero idle others u s bytes = none
  reserve_loop (suc fuel) idle others u s bytes = elim (reserve u bytes) [
    | some taken ↦ some (taken, s, ok bytes)
    | none ↦ elim (evict_idle idle s) [
      | none ↦ some (u, s, err (busy "residency budget is pinned or loading"))
      | some (r, left) ↦
          let after = others fuel (drop_charge u (charge_of s.own r), left) in
          reserve_loop fuel idle others after.0 after.1 bytes
    ]
  ]

  -- `MemoryBudget::reserve`, with a round for every entry and one more.
  unfoldable pub budget_reserve :
      (ℕ → Bool)
      → (ℕ → Usage × State K → Usage × State K)
      → Usage
      → State K
      → ℕ
      → Option (Usage × State K × Result ℕ)
  unfolding reserve_loop
  budget_reserve idle others u s bytes =
      if ltb u.limit bytes
      then some (u, s, err (message "allocation exceeds residency budget"))
      else reserve_loop (suc (length s.entries)) idle others u s bytes

  -- `ResidencyManager::evict`. The victim is dropped after the registry is unlocked.
  unfoldable pub evict : (ℕ → Bool) → State K → K → State K × Result Bool × Option Resource
  evict idle s key = elim (find eq key s.entries) [
    | none ↦ (s, ok false, none)
    | some (loading flight) ↦ (s, err (busy "resident resource is in use"), none)
    | some (ready r used) ↦
        if is_evictable idle s.owners s.pins r
        then (
          record s { evictions = s.evictions + 1; entries = remove eq key s.entries },
          ok true,
          some r,
        )
        else (s, err (busy "resident resource is in use"), none)
  ]

-- `ResidencyManager::statistics`: the ceiling, the reserved bytes, the entries and the evictions.
unfoldable pub statistics : {K : Type 0} → Usage → State K → ℕ × ℕ × ℕ × ℕ
statistics u s = (u.limit, u.bytes, length s.entries, s.evictions)
