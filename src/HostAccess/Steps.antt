-- ===== src/HostAccess/Steps.antt =====
-- src/execution/buffer.rs: mappings, submissions, handoffs and failures, in any order.
use Prim.Native.String.{String}
use hrx_rs.Common.{
  ℕ, zero, suc, ◌<◌, ◌≡◌, Bool, true, false, ◌++◌, List, [], ◌∷◌, get_elem?, some, none, All,
}
use hrx_rs.Common.Errors.{ok}
use hrx_rs.HostAccess.{
  HostState, Storage, Storages, ViewUse, leases, acquire_round, release, put, admit, poison,
  handoff_round, hand_off, hand_back,
}

pub record World : Type 0 where
  pub storages : Storages
  pub pending : List (List ViewUse)

-- Allocations that nobody uses.
abbrev pub is_idle : HostState
is_idle = record { readers = 0; writer = false; external = false; poison = none }

abbrev pub remove_at : ℕ → List (List ViewUse) → List (List ViewUse)
remove_at i [] = []
remove_at zero (job ∷ jobs) = jobs
remove_at (suc i) (job ∷ jobs) = job ∷ remove_at i jobs

-- Who holds the mapping that is given back.
abbrev pub Holds : Bool → HostState → Type 0
Holds true host = host.writer ≡ true
Holds false host = 0 < host.readers

pub data Step : World → World → Type 0 where
  maps :
      (w : World) (write wait : Bool) (id : ℕ) (host : HostState)
      → acquire_round write wait w.pending w.storages id ≡ leases host
      → Step w (record w { storages = put w.storages id host })
  unmaps :
      (w : World) (write : Bool) (id : ℕ)
      → Holds write (w.storages id).host
      → Step w (record w { storages = put w.storages id (release write (w.storages id).host) })
  submits :
      (w : World) (uses : List ViewUse)
      → admit w.storages uses ≡ ok tt
      → Step w (record w { pending = w.pending ++ uses ∷ [] })
  completes : (w : World) (i : ℕ) → Step w (record w { pending = remove_at i w.pending })
  fails :
      (w : World) (i : ℕ) (uses : List ViewUse) (lost : String)
      → get_elem? w.pending i ≡ some uses
      → Step w (record w { storages = poison lost uses w.storages })
  hands_off :
      (w : World) (ids : List ℕ)
      → handoff_round w.pending w.storages ids ≡ ok true
      → Step w (record w { storages = hand_off ids w.storages })
  hands_back :
      (w : World) (uncertain : Bool) (ids : List ℕ)
      → All (λ id. (w.storages id).host.external ≡ true) ids
      → Step w (record w { storages = hand_back uncertain ids w.storages })

-- What happens to allocations that nobody uses yet.
pub data Reach (sizes : ℕ → Storage) : World → Type 0 where
  here :
      ((id : ℕ) → (sizes id).host ≡ is_idle)
      → Reach sizes (record { storages = sizes; pending = [] })
  next : {w v : World} → Reach sizes w → Step w v → Reach sizes v
