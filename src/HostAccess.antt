-- ===== src/HostAccess.antt =====
-- src/execution/buffer.rs and src/execution/handoff.rs: host mappings and handoffs of tracked allocations
-- against the submissions that are pending. An allocation is named by a number.
pub mod Steps
pub mod Exclusion
pub mod Updates
pub mod Preservation
pub mod Poison
mod Tests
use Prim.Native.String.{String}
use hrx_rs.Common.{
  ℕ, ◌+◌, ◌-◌, Bool, true, false, ◌&&◌, ◌||◌, not, Option, none, some, List, [], ◌∷◌, if◌then◌else◌,
  ltb, ◌==◌, any, length,
}
use hrx_rs.Common.Errors.{
  Error, busy, unsupported, device_lost, message, Result, ok, err, ◌>>=◌, ◌>>◌,
}
use hrx_rs.Access.{Access, read, read_write, writes}
use hrx_rs.Summary.{BufferView}
use hrx_rs.Contract.{overlaps}

pub record HostState : Type 0 where
  pub readers : ℕ
  pub writer : Bool
  pub external : Bool
  pub poison : Option String

-- `Storage`, as far as host access goes: whether it has a host pointer, its size, whether an NPU
-- shares it, and who uses it on the host.
pub record Storage : Type 0 where
  pub mapped : Bool
  pub bytes : ℕ
  pub shared : Bool
  pub host : HostState

abbrev pub Storages : Type 0
Storages = ℕ → Storage

-- `graph::Use`
pub record ViewUse : Type 0 where
  pub view : BufferView
  pub access : Access

-- `Buffer::view`
abbrev pub whole : Storages → ℕ → BufferView
whole storages id = record {
  storage = id;
  shared = (storages id).shared;
  bytes = (storages id).bytes;
  range = record { start = 0; end = (storages id).bytes };
}

-- `BufferView::conflicts`
unfoldable pub view_conflicts : BufferView → BufferView → Bool
view_conflicts a b = (a.storage == b.storage) && (a.shared || overlaps a b)

abbrev pub use_conflicts : BufferView → Access → ViewUse → Bool
use_conflicts view access other =
    view_conflicts view other.view && (writes access || writes other.access)

-- `Scheduler::conflicts`: the uses of each pending submission.
unfoldable pub device_conflicts : List (List ViewUse) → BufferView → Access → Bool
unfolding view_conflicts
device_conflicts pending view access = any (any (use_conflicts view access)) pending

abbrev pub is_held : Bool → HostState → Bool
is_held write host = host.external || (host.writer || (write && not (host.readers == 0)))

-- `Storage::host_conflict`
unfoldable pub host_conflict : Access → HostState → Result (Unit {0})
host_conflict access host = elim host.poison [
  | some lost ↦ err (device_lost lost)
  | none ↦
      if is_held (writes access) host
      then err (busy "device binding conflicts with a live host mapping")
      else ok tt
]

-- What one round of the loop in `Buffer::acquire_with` comes to.
pub data Round : Type 0 where
  refuses : Error → Round
  waits : Round
  leases : HostState → Round

abbrev pub host_access : Bool → Access
host_access write = if write then read_write else read

-- The lease is taken.
abbrev pub lease : Bool → HostState → HostState
lease write host =
    if write then record host { writer = true } else record host { readers = host.readers + 1 }

-- One round: `write` and `wait` are the arguments of `acquire`.
unfoldable pub acquire_round : Bool → Bool → List (List ViewUse) → Storages → ℕ → Round
acquire_round write wait pending storages id =
    let host = (storages id).host in
    if not (storages id).mapped
    then refuses (
        unsupported
          "GPU-local memory is not host mapped; use an explicit graph copy to shared storage")
    else elim host.poison [
      | some lost ↦ refuses (device_lost lost)
      | none ↦
          if is_held write host
          then refuses (busy "conflicting host mapping")
          else if device_conflicts pending (whole storages id) (host_access write)
          then if wait then waits else refuses (busy "allocation is in device use")
          else leases (lease write host)
    ]

-- The drop of a guard, and the rollback of a mapping whose cache maintenance fails.
unfoldable pub release : Bool → HostState → HostState
release write host =
    if write then record host { writer = false } else record host { readers = host.readers - 1 }

abbrev pub put : Storages → ℕ → HostState → Storages
put storages id host i = if i == id then record (storages i) { host = host } else storages i

-- The loop of `ExecutableGraph::usable`.
unfoldable pub usable : Storages → List ViewUse → Result (Unit {0})
usable storages [] = ok tt
usable storages (u ∷ uses) = elim (storages u.view.storage).host.poison [
  | some lost ↦ err (device_lost lost)
  | none ↦ usable storages uses
]

-- The loop of `ExecutableGraph::submit_after` over the uses.
unfoldable pub admit : Storages → List ViewUse → Result (Unit {0})
unfolding host_conflict
admit storages [] = ok tt
admit storages (u ∷ uses) =
    let later = admit storages uses in
    host_conflict u.access (storages u.view.storage).host >> later

-- A region of the graph fails: every allocation of the graph is poisoned.
unfoldable pub poison : String → List ViewUse → Storages → Storages
poison lost [] storages = storages
poison lost (u ∷ uses) storages =
    poison lost uses
      (put storages u.view.storage (record (storages u.view.storage).host { poison = some lost }))

-- The loop of `with_gpu_access` over the allocations.
unfoldable pub none_held : Storages → List ℕ → Result (Unit {0})
unfolding host_conflict
none_held storages [] = ok tt
none_held storages (id ∷ ids) =
    let later = none_held storages ids in host_conflict read_write (storages id).host >> later

-- One round of the loop in `with_gpu_access`; `true` goes on.
unfoldable pub handoff_round : List (List ViewUse) → Storages → List ℕ → Result Bool
unfolding none_held device_conflicts
handoff_round pending storages ids =
    none_held storages ids
    >> ok (not (any (λ id. device_conflicts pending (whole storages id) read_write) ids))

-- The reservations are taken.
unfoldable pub hand_off : List ℕ → Storages → Storages
hand_off [] storages = storages
hand_off (id ∷ ids) storages =
    hand_off ids (put storages id (record (storages id).host { external = true }))

abbrev after_handoff : Bool → HostState → HostState
after_handoff uncertain host = record host {
  poison = if uncertain then some "external GPU completion is uncertain" else host.poison;
  external = false;
}

-- `Lease::drop`
unfoldable pub hand_back : Bool → List ℕ → Storages → Storages
hand_back uncertain [] storages = storages
hand_back uncertain (id ∷ ids) storages =
    hand_back uncertain ids (put storages id (after_handoff uncertain (storages id).host))
