-- ===== src/Frontier/Tests.antt =====
-- src/dependency_frontier.rs: its unit tests, and the theorems at those inputs.
use hrx_rs.Common.{
  ℕ, ◌≡◌, refl, true, inl, inr, some, List, [], ◌∷◌, arith, if◌then◌else◌, ◌⊎◌, ◌↔◌,
}
use hrx_rs.Common.Sets.{contains, insert, extend, extend_option, remove}
use hrx_rs.Access.{Access, writes}
use hrx_rs.Frontier.Segments.{Use, Segment, cell}
use hrx_rs.Frontier.Split.{split_at}
use hrx_rs.Frontier.Sweep.{gap, touch, harvest, sweep, while_loop, while_loop-sweep}
use hrx_rs.Frontier.Cells.{touch_cell, within, needs}
use hrx_rs.Frontier.Track.{partition_point, use_segments, use_one, use_all, dependencies}
use hrx_rs.Frontier.Refinement.{cell-use_segments, contains-use_segments}
use hrx_rs.Frontier.Hazards.{Reach, track, conflicts_ordered}
use hrx_rs.Frontier.Causes.{OrderedBy, Edge-conflicts}

abbrev usage : ℕ → ℕ → ℕ → Access → Use
usage allocation start finish access = record {
  allocation = allocation;
  range = record { start = start; end = finish };
  access = access;
}

-- The operations of `preserves_only_overlapping_hazards`, the newest first.
abbrev operations : List (List Use)
operations =
    (usage 1 0 32 Access.write ∷ [])
    ∷ (usage 0 24 32 Access.read ∷ [])
    ∷ (usage 0 16 80 Access.write ∷ [])
    ∷ (usage 0 64 96 Access.read ∷ [])
    ∷ (usage 0 0 32 Access.read ∷ [])
    ∷ (usage 0 0 64 Access.write ∷ [])
    ∷ []

preserves_only_overlapping_hazards :
    (track operations).1 ≡ [] ∷ (3 ∷ []) ∷ (0 ∷ 1 ∷ 2 ∷ []) ∷ [] ∷ (0 ∷ []) ∷ [] ∷ []
unfolding track dependencies use_all use_one use_segments split_at partition_point sweep touch
    harvest writes contains insert extend extend_option remove
preserves_only_overlapping_hazards = refl

-- `one_node_can_read_and_write_the_same_region`
abbrev read_and_write : List (List Use)
read_and_write =
    (usage 0 0 32 Access.read ∷ [])
    ∷ (usage 0 0 32 Access.read ∷ usage 0 0 32 Access.write ∷ [])
    ∷ []

one_node_can_read_and_write_the_same_region : (track read_and_write).1 ≡ (0 ∷ []) ∷ [] ∷ []
unfolding track dependencies use_all use_one use_segments split_at partition_point sweep touch
    harvest writes contains insert extend extend_option remove
one_node_can_read_and_write_the_same_region = refl

conflicts_ordered_example : Reach (track operations).1 4 0
unfolding writes
conflicts_ordered_example =
    conflicts_ordered operations 0 4 (usage 0 24 32 Access.read) (usage 0 0 64 Access.write) 30
      (inr (inl (refl, inl refl))) (inr (inr (inr (inr (inr (inl (refl, inl refl)))))))
      (omega arith) refl refl refl refl

Edge-conflicts_example : OrderedBy operations 3 4
unfolding track dependencies use_all use_one use_segments split_at partition_point sweep touch
    harvest writes contains insert extend extend_option remove
Edge-conflicts_example = Edge-conflicts operations 3 4 (inr (inl (refl, refl)))

abbrev two_segments : List Segment
two_segments =
    record { range = record { start = 0; end = 16 }; writer = some 0; readers = 1 ∷ [] }
    ∷ record { range = record { start = 32; end = 64 }; writer = some 1; readers = [] }
    ∷ []

while_loop-sweep_example :
    while_loop 9 Access.write 48 6 16 (gap 32 48 ∷ []) []
    ≡ some (sweep 9 Access.write 48 16 (gap 32 48 ∷ []) [])
while_loop-sweep_example = while_loop-sweep 9 Access.write 48 6 16 (gap 32 48 ∷ []) [] (omega arith)

cell-use_segments_example :
    cell (use_segments 9 Access.write (record { start = 8; end = 40 }) two_segments []).0 20 ≡ (
      if within 8 40 20
      then touch_cell 9 Access.write (cell two_segments 20)
      else cell two_segments 20)
cell-use_segments_example =
    cell-use_segments 9 Access.write (record { start = 8; end = 40 }) (omega arith) two_segments []
      20 (omega arith)

contains-use_segments_example :
    (contains 1 (use_segments 9 Access.write (record { start = 8; end = 40 }) two_segments []).1
      ≡ true)
    ↔ ((contains 1 [] ≡ true)
        ⊎ ((p : ℕ) × (within 8 40 p ≡ true) × (needs Access.write (cell two_segments p) 1 ≡ true)))
contains-use_segments_example =
    contains-use_segments 9 Access.write (record { start = 8; end = 40 }) (omega arith) two_segments
      [] 1 (omega arith, omega arith, (omega arith, omega arith, tt))
