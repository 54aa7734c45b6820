-- ===== src/Summary/Summarize.antt =====
-- src/execution/dependencies.rs: `summarize`, the union of the uses of a submission into intervals that
-- are apart. The uses that go in stand for their regions, and so do those that come out. Which owners
-- the views of a summary retain is left out.
use hrx_rs.Common.{ℕ, Bool, true, false, ◌&&◌, ◌||◌, List, [], ◌∷◌, if◌then◌else◌, ltb, ◌==◌}
use hrx_rs.Common.Int.{ℤ, pos, ◌+ℤ◌, ◌-ℤ◌, nonzero}
use hrx_rs.Access.{Access, read, write, read_write, writes}
use hrx_rs.Frontier.{Use}

-- A position, how many more reads there are from it on, and how many more writes.
pub record Event : Type 0 where
  pub position : ℕ
  pub reads : ℤ
  pub writes : ℤ

-- `usage.access != Access::Write`
unfoldable pub reads_too : Access → Bool
reads_too read = true
reads_too write = false
reads_too read_write = true

-- `i64::from`
abbrev pub count : Bool → ℤ
count b = if b then pos 1 else pos 0

-- `events.entry(position).or_default()`, and the two additions.
unfoldable pub add_event : ℕ → ℤ → ℤ → List Event → List Event
add_event at r w [] = record { position = at; reads = pos 0 +ℤ r; writes = pos 0 +ℤ w } ∷ []
add_event at r w (e ∷ events) =
    if ltb at e.position
    then record { position = at; reads = pos 0 +ℤ r; writes = pos 0 +ℤ w } ∷ e ∷ events
    else if at == e.position
    then record { position = e.position; reads = e.reads +ℤ r; writes = e.writes +ℤ w } ∷ events
    else e ∷ add_event at r w events

-- The start and the end of a use.
unfoldable pub add_use : Use → List Event → List Event
unfolding add_event reads_too ◌-ℤ◌ ◌+ℤ◌
add_use u events =
    add_event u.range.end (pos 0 -ℤ count (reads_too u.access)) (pos 0 -ℤ count (writes u.access))
      (add_event u.range.start (count (reads_too u.access)) (count (writes u.access)) events)

-- `BTreeMap<usize, ...>`: the events of each allocation, by ascending allocation.
pub record Allocation : Type 0 where
  pub id : ℕ
  pub events : List Event

unfoldable pub gather : Use → List Allocation → List Allocation
unfolding add_use
gather u [] = record { id = u.allocation; events = add_use u [] } ∷ []
gather u (a ∷ rest) =
    if ltb u.allocation a.id
    then record { id = u.allocation; events = add_use u [] } ∷ a ∷ rest
    else if u.allocation == a.id
    then record { id = a.id; events = add_use u a.events } ∷ rest
    else a ∷ gather u rest

-- The first loop.
unfoldable pub gather_all : List Use → List Allocation → List Allocation
unfolding gather
gather_all [] allocations = allocations
gather_all (u ∷ uses) allocations = gather_all uses (gather u allocations)

-- `match (reads != 0, writes != 0)`
unfoldable pub access_of : Bool → Bool → Access
access_of true true = read_write
access_of false true = write
access_of true false = read
access_of false false = read

-- `last.access == access`
unfoldable pub same_access : Access → Access → Bool
same_access read read = true
same_access write write = true
same_access read_write read_write = true
same_access a b = false

abbrev pub interval : ℕ → Access → ℕ → ℕ → Use
interval id access previous position = record {
  allocation = id;
  range = record { start = previous; end = position };
  access = access;
}

-- The filter of `output.last_mut()`.
abbrev pub extends_last : Use → ℕ → Access → ℕ → Bool
extends_last last id access previous =
    (last.allocation == id) && (same_access last.access access && (last.range.end == previous))

-- The last use of the output grows to `position`, or a use is pushed.
unfoldable pub emit : ℕ → Access → ℕ → ℕ → List Use → List Use
unfolding same_access
emit id access previous position [] = interval id access previous position ∷ []
emit id access previous position (last ∷ []) =
    if extends_last last id access previous
    then interval last.allocation last.access last.range.start position ∷ []
    else last ∷ interval id access previous position ∷ []
emit id access previous position (u ∷ v ∷ output) =
    u ∷ emit id access previous position (v ∷ output)

-- The loop over the events of one allocation.
unfoldable pub sweep : ℕ → ℤ → ℤ → ℕ → List Event → List Use → List Use
unfolding emit access_of nonzero ◌+ℤ◌
sweep id reads writes previous [] output = output
sweep id reads writes previous (e ∷ events) output =
    sweep id (reads +ℤ e.reads) (writes +ℤ e.writes) e.position events (
      if ltb previous e.position && (nonzero reads || nonzero writes)
      then emit id (access_of (nonzero reads) (nonzero writes)) previous e.position output
      else output)

-- The loop over the allocations.
unfoldable pub sweep_all : List Allocation → List Use → List Use
unfolding sweep
sweep_all [] output = output
sweep_all (a ∷ rest) output = sweep_all rest (sweep a.id (pos 0) (pos 0) 0 a.events output)

-- `summarize`
unfoldable pub summarize : List Use → List Use
unfolding gather_all sweep_all
summarize uses = sweep_all (gather_all uses []) []
