-- ===== src/PlanCache/Tests.antt =====
-- src/plan_cache.rs: a cache with one place and a cache with two, on concrete requests.
use mathlib.Core.Logic.{ite}
use hrx_rs.Common.{
  ℕ, ◌+◌, ◌≡◌, ◌≢◌, refl, Bool, true, false, inl, ◌↔◌, none, some, [], ◌∷◌, arith, ℕ_discrete,
  if◌then◌else◌, ◌==◌, length,
}
use hrx_rs.Common.Errors.{Error, ok, err, busy}
use hrx_rs.Common.Table.{find, insert, remove}
use hrx_rs.Lru.{loading, ready, candidates, min_by_used, victim}
use hrx_rs.Lru.Victim.{Oldest}
use hrx_rs.PlanCache.{
  State, waits, refused, new, evictable, elect, admit, enter, outcome_of, answer, observe,
  statistics,
}
use hrx_rs.PlanCache.Requests.{System, enters, Reach, start, later, IsSound, Reach-IsSound}
use hrx_rs.PlanCache.Guarantees.{single_flight, pinned_stays, refused_iff, evicts_oldest}

abbrev always : ℕ → Bool
always value = true

abbrev fresh : State ℕ
fresh = record {
  capacity = 1;
  entries = [];
  clock = 0;
  hits = 0;
  misses = 0;
  evictions = 0;
  flights = [];
  clones = λ _. 0;
}

abbrev empty_system : System ℕ
empty_system = record { state = fresh; working = [] }

abbrev one_working : System ℕ
one_working = record {
  state = record fresh {
    entries = (5, loading 0) ∷ [];
    clock = 1;
    misses = 1;
    flights = none ∷ [];
  };
  working = (5, 0) ∷ [];
}

Reach-working : Reach ℕ_discrete 1 one_working
unfolding new enter admit elect find insert ℕ_discrete
Reach-working = later (start fresh refl) (enters always 5)

-- The loader brings the value 42.
abbrev published : System ℕ
published = record {
  state = record one_working.state {
    entries = (5, ready 42 1) ∷ [];
    flights = some (ok 42) ∷ [];
    clones =
        λ v. if v == 42 then (if v == 42 then 0 + 1 else 0) + 1 else if v == 42 then 0 + 1 else 0;
  };
  working = [];
}

Reach-IsSound_example : IsSound ℕ_discrete 1 one_working
Reach-IsSound_example = Reach-IsSound ℕ_discrete Reach-working

single_flight_example : (enter ℕ_discrete always one_working.state 5).1 ≡ waits 0
single_flight_example = single_flight ℕ_discrete always 5 0 Reach-working (inl refl)

observes_published : observe published.state 0 ≡ some (ok 42)
unfolding observe
observes_published = refl

pinned_stays_example :
    (used : ℕ) × (find ℕ_discrete 5 (enter ℕ_discrete always published.state 6).0.entries
      ≡ some (ready 42 used))
unfolding find ℕ_discrete
pinned_stays_example =
    pinned_stays ℕ_discrete always published.state 6 5 42 1 (refl, tt) refl (omega arith)

refused_iff_example :
    ((enter ℕ_discrete always published.state 6).1
      ≡ refused (busy "all shape plans are pinned or preparing"))
    ↔ ((find ℕ_discrete 6 published.state.entries ≡ none)
        × (length published.state.entries ≡ published.state.capacity)
        × ((j : ℕ) (value used : ℕ)
            → find ℕ_discrete j published.state.entries ≡ some (ready value used)
            → evictable always published.state.clones value ≡ false))
unfolding find ℕ_discrete
refused_iff_example = refused_iff ℕ_discrete always published.state 6 (refl, tt)

refuses_sixth :
    (enter ℕ_discrete always published.state 6).1
    ≡ refused (busy "all shape plans are pinned or preparing")
unfolding enter admit elect find victim candidates min_by_used ℕ_discrete
refuses_sixth = refl

-- Two ready values, the second of which was used first.
abbrev two_ready : State ℕ
two_ready = record fresh {
  capacity = 2;
  entries = (5, ready 10 3) ∷ (6, ready 11 1) ∷ [];
  clock = 3;
}

evicted : (enter ℕ_discrete always two_ready 7).0.evictions ≡ 1
unfolding enter admit elect find victim candidates min_by_used ℕ_discrete
evicted = refl

evicts_oldest_example :
    (oldest : ℕ) × (used : ℕ) × Oldest ℕ_discrete
      (evictable always two_ready.clones)
      two_ready.entries
      oldest
      used
    × ((j : ℕ)
        → j ≢ 7
        → find ℕ_discrete j (enter ℕ_discrete always two_ready 7).0.entries
          ≡ ite (ℕ_discrete oldest j) none (find ℕ_discrete j two_ready.entries))
unfolding find ℕ_discrete
evicts_oldest_example =
    evicts_oldest ℕ_discrete always two_ready 7 (refl, (refl, tt)) (ground (arith, evicted))

-- A loader that panics answers every waiter with an error, and the next request starts again.
panics :
    answer (outcome_of none) ≡ err (Error.execution (Error.message "shape preparation panicked"))
unfolding answer outcome_of
panics = refl

counts : statistics (enter ℕ_discrete always two_ready 7).0 ≡ (2, 0, 1, 1)
unfolding statistics enter admit elect find insert remove victim candidates min_by_used ℕ_discrete
counts = refl
