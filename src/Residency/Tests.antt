-- ===== src/Residency/Tests.antt =====
-- src/residency.rs: a budget of 100 bytes with two cached resources, of which one is leased.
use hrx_rs.Common.{
  ℕ, ◌+◌, ◌≤◌, ◌≡◌, refl, Bool, true, Option, none, some, [], ◌∷◌, arith, ℕ_discrete, if◌then◌else◌,
  ◌==◌,
}
use hrx_rs.Common.Errors.{Error, busy, ok, err}
use hrx_rs.Common.Table.{find, remove}
use hrx_rs.Lru.{loading, ready, candidates, min_by_used, victim}
use hrx_rs.Residency.{
  Resource, Usage, State, reserve, shrink, drop_charge, evict_idle, reserve_loop, budget_reserve,
  evict, statistics,
}
use hrx_rs.Residency.Loads.{
  waits, load_round, finish_load, observe_idle, expired_keys, remove_keys, collect_expired,
  finish_load-charge,
}
use hrx_rs.Residency.Budget.{evict_one}

abbrev always : ℕ → Bool
always id = true

abbrev held : Resource
held = record { id = 1; bytes = 40 }

abbrev cached : Resource
cached = record { id = 2; bytes = 50 }

abbrev usage : Usage
usage = record { limit = 100; bytes = 90 }

abbrev registry : State ℕ
registry = record {
  entries = (7, ready held 1) ∷ (8, ready cached 2) ∷ [];
  clock = 2;
  evictions = 0;
  owners = λ id. if id == 1 then 1 else 0;
  pins = λ id. 0;
  own = λ id. 0;
}

-- A resource of `load_budgeted`, whose value has reserved 90 bytes itself.
abbrev budgeted : State ℕ
budgeted = record registry {
  entries = (9, ready (record { id = 3; bytes = 0 }) 1) ∷ [];
  own = λ id. if id == 3 then 90 else 0;
}

-- It goes, and with it what it has reserved.
budgeted_goes :
    budget_reserve ℕ_discrete always (evict_one ℕ_discrete always) usage budgeted 100
    ≡ some (
      record { limit = 100; bytes = 100 },
      record budgeted { entries = []; evictions = 1 },
      ok 100,
    )
unfolding budget_reserve reserve_loop reserve evict_idle drop_charge victim candidates min_by_used
    find remove ℕ_discrete
budgeted_goes = refl

-- The idle resource goes, the leased one stays.
reserved :
    budget_reserve ℕ_discrete always (evict_one ℕ_discrete always) usage registry 30
    ≡ some (
      record { limit = 100; bytes = 70 },
      record registry { entries = (7, ready held 1) ∷ []; evictions = 1 },
      ok 30,
    )
unfolding budget_reserve reserve_loop reserve evict_idle drop_charge victim candidates min_by_used
    find remove ℕ_discrete
reserved = refl

refused :
    evict ℕ_discrete always registry 7 ≡ (registry, err (busy "resident resource is in use"), none)
unfolding evict find ℕ_discrete
refused = refl

shrunk : shrink usage 50 20 ≡ some (record { limit = 100; bytes = 60 })
unfolding shrink
shrunk = refl

abbrev loading_registry : State ℕ
loading_registry = record registry { entries = (7, ready held 1) ∷ (9, loading 0) ∷ [] }

-- A load of 50 bytes that turns out to need 20.
abbrev loaded : Resource
loaded = record { id = 3; bytes = 20 }

finish_load-charge_example :
    let (u, s, flights, result) =
      finish_load ℕ_discrete true usage loading_registry (none ∷ []) 9 0 50 (some (ok loaded)) in
    ((r : Resource)
      → result ≡ ok r
      → (r.bytes ≤ 50)
        × (u.bytes + 50 ≡ 90 + r.bytes)
        × (find ℕ_discrete 9 s.entries ≡ some (ready r 2)))
    × ((e : Error) → result ≡ err e → (u.bytes + 50 ≡ 90) × (find ℕ_discrete 9 s.entries ≡ none))
unfolding find ℕ_discrete
finish_load-charge_example =
    finish_load-charge ℕ_discrete true usage loading_registry (none ∷ []) 9 0 50 (some (ok loaded))
      (refl, (refl, tt)) (omega arith)

-- Both resources were seen idle at 10, and one of them is leased since.
abbrev seen : ℕ → Option ℕ
seen id = some 10

expires : expired_keys ℕ_discrete always registry 300 310 seen registry.entries ≡ 8 ∷ []
unfolding expired_keys observe_idle
expires = refl

collects :
    collect_expired ℕ_discrete (some 300) always registry 310 seen
    ≡ (record registry { entries = (7, ready held 1) ∷ []; evictions = 1 }, 8 ∷ [])
unfolding collect_expired expired_keys remove_keys observe_idle remove ℕ_discrete
collects = refl

-- A request for a key that is loading waits.
joins : (load_round ℕ_discrete always usage loading_registry (none ∷ []) 9 50).3 ≡ waits 0
unfolding load_round find ℕ_discrete
joins = refl

counts : statistics usage registry ≡ (100, 90, 2, 0)
unfolding statistics
counts = refl
