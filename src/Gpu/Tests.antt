-- ===== src/Gpu/Tests.antt =====
-- src/access_graph.rs and src/runtime.rs: a write, a read of it and a join, recorded and replayed.
use hrx_rs.Common.{
  ℕ, ◌≡◌, ◌<◌, ◌≤◌, refl, true, false, inl, inr, Option, none, some, [], ◌∷◌, arith, get_elem?, map,
  Bool-cases, ◌==◌, ◌+◌,
}
use hrx_rs.Common.Sets.{contains, insert, extend, extend_option, remove}
use hrx_rs.Common.Errors.{message, Result, ok, err}
use hrx_rs.Access.{read, write, writes}
use hrx_rs.Frontier
use hrx_rs.Frontier.{
  Use, use_all, use_one, use_segments, split_at, partition_point, sweep, touch, harvest,
}
use hrx_rs.Gpu.Recording
use hrx_rs.Gpu.Recording.{
  Buffer, View, Node, Graph, prepared, join, check_nodes, validate_dependencies, record_node,
  max_index, retain_bindings, insert_binding, owns, is_barrier, order_from, finish_order,
  join_nodes,
}
use hrx_rs.Gpu.AccessGraph.{
  AccessGraph, access_graph, Operation, to_use, uses_of, record_operation, settle, perform,
  dependencies, nodes_at, view_access,
}
use hrx_rs.Gpu.History.{Built, empty, next}
use hrx_rs.Gpu.Hazards.{conflict_barrier}
use hrx_rs.Gpu.Failures.{failed_fill_hides}
use hrx_rs.Gpu.Views.{checked_span, slice, Derived, whole, sliced, Derived-range}

abbrev buffer : Buffer
buffer = record { pointer = 64; identity = 3; bytes = 4096; device = 0 }

abbrev span : ℕ → ℕ → View
span offset length = record { owner = buffer; offset = offset; length = length }

-- A write of 64 bytes, then a read of 16 of them by a kernel.
abbrev first : Operation
first = Operation.fill (span 0 64) (ok 10)

abbrev second : Operation
second = Operation.dispatch (view_access (span 16 16) read ∷ []) (ok 11)

-- The state behind a successful operation.
abbrev state : AccessGraph → Option (AccessGraph × Result Node) → AccessGraph
state g (some (g', r)) = g'
state g none = g

recorded_first : AccessGraph
unfolding perform
recorded_first = state (access_graph 0 7) (perform (access_graph 0 7) first)

recorded_both : AccessGraph
unfolding recorded_first
recorded_both = state recorded_first (perform recorded_first second)

built_both : Built 0 7 recorded_both (map to_use (uses_of second) ∷ map to_use (uses_of first) ∷ [])
unfolding recorded_both perform dependencies settle uses_of record_operation nodes_at Recording.fill
    Recording.dispatch Frontier.dependencies use_all use_one use_segments split_at partition_point
    sweep touch harvest writes contains insert extend extend_option remove check_nodes
    validate_dependencies record_node max_index retain_bindings insert_binding owns
built_both =
    next second (record { graph = 7; index = 1 })
      (next first (record { graph = 7; index = 0 }) empty refl) refl

-- The second command stands behind a barrier.
replayed : finish_order recorded_both.graph ≡ (10, false) ∷ (11, true) ∷ []
unfolding recorded_both perform dependencies settle uses_of record_operation nodes_at Recording.fill
    Recording.dispatch Frontier.dependencies use_all use_one use_segments split_at partition_point
    sweep touch harvest writes contains insert extend extend_option remove check_nodes
    validate_dependencies record_node max_index retain_bindings insert_binding owns order_from
    is_barrier finish_order
replayed = refl

conflict_barrier_example :
    (k : ℕ) × (c : ℕ) × (0 < k)
    × (k ≤ 1)
    × (get_elem? (finish_order recorded_both.graph) k ≡ some (c, true))
unfolding uses_of writes
conflict_barrier_example =
    conflict_barrier 0 1 (to_use (view_access (span 16 16) read))
      (to_use (view_access (span 0 64) write)) 20 built_both (inl (refl, inl refl))
      (inr (inl (refl, inl refl))) (omega arith) refl refl refl refl

-- A kernel, a join that waits for it, and a kernel that waits for the join.
abbrev joined : Graph
joined = record {
  device = 0;
  id = 7;
  nodes = (prepared 10, none) ∷ (join, some 0) ∷ (prepared 11, some 1) ∷ [];
  bindings = [];
}

-- A fill that the encoder refuses, after the first operation.
abbrev refused : Operation
refused = Operation.fill (span 0 64) (err (message "fill"))

recorded_refused : AccessGraph
unfolding recorded_both
recorded_refused = state recorded_first (perform recorded_first refused)

failed_fill_hides_example :
    (dependencies recorded_refused (view_access (span 16 16) read ∷ [])).1 ≡ some []
unfolding recorded_refused perform dependencies settle uses_of record_operation nodes_at
    Recording.fill Recording.dispatch Frontier.dependencies use_all use_one use_segments split_at
    partition_point sweep touch harvest writes contains insert extend extend_option remove
    check_nodes validate_dependencies record_node max_index retain_bindings insert_binding owns
failed_fill_hides_example =
    failed_fill_hides recorded_first recorded_refused (span 0 64) (span 16 16)
      (err (message "fill")) (message "fill")
      (λ a. elim (Bool-cases (a == 64)) [ inl e ↦ rw e (omega arith) | inr e ↦ rw e tt ])
      (refl, λ p w. ground arith) refl

abbrev quarter : View
quarter = record { owner = buffer; offset = 1024; length = 512 }

Derived-quarter : Derived buffer quarter
unfolding slice checked_span
Derived-quarter = sliced 1024 512 whole refl

Derived-range_example :
    (buffer ≡ buffer)
    × ((to_use (view_access quarter read)).range.start ≡ 1024)
    × ((to_use (view_access quarter read)).range.end ≡ 1024 + 512)
    × (1024 + 512 ≤ 4096)
Derived-range_example = Derived-range read Derived-quarter (omega arith)
