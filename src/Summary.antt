-- ===== src/Summary.antt =====
-- src/execution/dependencies.rs: the uses of a submission as the scheduler compares them. A use stands
-- for the region that `region` makes of its view.
pub mod Sweep
pub mod Summarize
pub mod Events
pub mod Emit
pub mod Coverage
pub mod Union
pub mod Conflicts
pub mod Gather
mod Tests
use hrx_rs.Common.{ℕ, Bool, true, false, ◌&&◌, ◌||◌, List, [], ◌∷◌, if◌then◌else◌, ltb, leb, ◌==◌}
use hrx_rs.Access.{Access, writes}
use hrx_rs.Frontier.{Range, Use}

-- What `region` reads of a view: the address of the storage, whether it is shared with the host, its
-- size, and the range.
pub record BufferView : Type 0 where
  pub storage : ℕ
  pub shared : Bool
  pub bytes : ℕ
  pub range : Range

-- `region`, with the access of the use.
unfoldable pub region : BufferView → Access → Use
region view access = record {
  allocation = view.storage;
  range = if view.shared then record { start = 0; end = view.bytes } else view.range;
  access = access;
}

-- `ai < bi || (ai == bi && ar.end <= br.start)`
abbrev pub comes_before : Use → Use → Bool
comes_before x y =
    ltb x.allocation y.allocation
    || ((x.allocation == y.allocation) && leb x.range.end y.range.start)

-- `bi < ai || br.end <= ar.start`
abbrev pub comes_after : Use → Use → Bool
comes_after x y = ltb y.allocation x.allocation || leb y.range.end x.range.start

-- The rounds of the loop in which `a[i]` stays: `next` goes on with `a[i + 1]`.
unfoldable pub stay : Use → (List Use → Bool) → List Use → Bool
stay x next [] = false
stay x next (y ∷ b) =
    let later = stay x next b in
    if comes_before x y
    then next (y ∷ b)
    else if comes_after x y
    then later
    else if writes x.access || writes y.access
    then true
    else if leb x.range.end y.range.end
    then next (y ∷ b)
    else later

-- `conflicts`
unfoldable pub conflicts : List Use → List Use → Bool
unfolding stay
conflicts [] b = false
conflicts (x ∷ a) b = stay x (conflicts a) b
