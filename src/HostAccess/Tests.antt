-- ===== src/HostAccess/Tests.antt =====
-- src/execution/buffer.rs: two allocations, a submission that writes the first, and a reader of the second.
use hrx_rs.Common.{ℕ, ◌≡◌, ◌≢◌, refl, true, false, inl, List, [], ◌∷◌, In, Bool, arith}
use hrx_rs.Common.Errors.{Error, busy, ok, err, device_lost}
use hrx_rs.Access.{Access, writes}
use hrx_rs.HostAccess.{
  Storage, ViewUse, device_conflicts, host_conflict, refuses, waits, acquire_round, put, release,
  usable, admit, poison, handoff_round,
}
use hrx_rs.HostAccess.Steps.{World, is_idle, maps, unmaps, submits, Reach, next}
use hrx_rs.HostAccess.Preservation.{host_device_exclusion}
use hrx_rs.HostAccess.Poison.{Steps, next, IsPoisoned, poisoned_for_good}

abbrev sizes : ℕ → Storage
sizes id = record { mapped = true; bytes = 64; shared = false; host = is_idle }

abbrev writes_first : ViewUse
writes_first = record {
  view = record { storage = 0; shared = false; bytes = 64; range = record { start = 8; end = 24 } };
  access = Access.write;
}

abbrev submitted : World
submitted = record { storages = sizes; pending = (writes_first ∷ []) ∷ [] }

abbrev mapped : World
mapped = record submitted { storages = put sizes 1 (record is_idle { readers = 1 }) }

mapped-Reach : Reach sizes mapped
unfolding admit host_conflict writes acquire_round device_conflicts
mapped-Reach =
    next
      (next (Reach.here (λ id. refl))
        (submits (record { storages = sizes; pending = [] }) (writes_first ∷ []) refl))
      (maps submitted false false 1 (record is_idle { readers = 1 }) refl)

host_device_exclusion_example :
    ((mapped.storages 0).host.external ≡ false)
    × ((mapped.storages 0).host.writer ≡ false)
    × (writes Access.write ≡ true → (mapped.storages 0).host.readers ≡ 0)
host_device_exclusion_example =
    host_device_exclusion {sizes = sizes} {w = mapped} mapped-Reach writes_first 10
      (writes_first ∷ [], inl refl, inl refl) (omega arith) (omega arith) (omega arith)

-- The submission is in the way of a mapping of its allocation.
refused :
    acquire_round false false mapped.pending mapped.storages 0
    ≡ refuses (busy "allocation is in device use")
unfolding acquire_round device_conflicts writes
refused = refl

waiting : acquire_round false true mapped.pending mapped.storages 0 ≡ waits
unfolding acquire_round device_conflicts writes
waiting = refl

-- The reader is in the way of a handoff.
held :
    handoff_round mapped.pending mapped.storages (1 ∷ [])
    ≡ err (busy "device binding conflicts with a live host mapping")
unfolding handoff_round host_conflict writes
held = refl

abbrev failed : World
failed = record mapped { storages = poison "lost" (writes_first ∷ []) mapped.storages }

first-IsPoisoned : IsPoisoned failed.storages 0
unfolding poison
first-IsPoisoned e = cc

-- The reader of the second allocation leaves.
abbrev after : World
after = record failed { storages = put failed.storages 1 (release false (failed.storages 1).host) }

after-Steps : Steps failed after
unfolding poison
after-Steps = Steps.next Steps.here (unmaps failed false 1 (omega arith))

poisoned_for_good_example :
    ((write wait : Bool)
      → (e : Error) × (acquire_round write wait after.pending after.storages 0 ≡ refuses e))
    × ((uses : List ViewUse) (u : ViewUse)
        → In u uses
        → u.view.storage ≡ 0
        → (usable after.storages uses ≢ ok tt) × (admit after.storages uses ≢ ok tt))
poisoned_for_good_example =
    poisoned_for_good {w = failed} {v = after} 0 first-IsPoisoned after-Steps

lost : usable failed.storages (writes_first ∷ []) ≡ err (device_lost "lost")
unfolding usable poison
lost = refl
