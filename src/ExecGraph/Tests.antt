-- ===== src/ExecGraph/Tests.antt =====
-- src/execution/graph.rs: an upload and a fill of what was uploaded.
use hrx_rs.Common.{ℕ, ◌≡◌, refl, true, false, [], ◌∷◌, ◌==◌, arith}
use hrx_rs.Common.Errors.{ok, err, message}
use hrx_rs.Access.{Access, writes}
use hrx_rs.Summary.{BufferView}
use hrx_rs.Summary.Summarize.{reads_too}
use hrx_rs.Summary.Events.{used}
use hrx_rs.Common.Sets.{remove, extend, extend_option}
use hrx_rs.Frontier.{
  dependencies, use_all, use_one, use_segments, sweep, partition_point, split_at, touch, harvest,
}
use hrx_rs.Frontier.Hazards.{Reach}
use hrx_rs.ExecGraph.{
  Allocations, Entry, Graph, Prepared, fill, copy, fill_op, copy_op, upload, compute, regions,
  flat_uses, prepare, prepared, order,
}
use hrx_rs.ExecGraph.Regions.{concat, concat-regions}
use hrx_rs.ExecGraph.Loop.{rev_onto, dependencies_of}
use hrx_rs.ExecGraph.Order.{regions_ordered, used-prepare}

-- Allocation 0 is mapped on the host, all are on the GPU.
abbrev allocations : Allocations
allocations = record { runtime = λ _. 7; on_gpu = λ _. true; mapped = λ id. id == 0 }

abbrev view : ℕ → ℕ → ℕ → BufferView
view id start finish = record {
  storage = id;
  shared = false;
  bytes = 64;
  range = record { start = start; end = finish };
}

abbrev uploads : Entry
uploads = record {
  operation = copy_op (view 1 0 16) (view 0 0 16);
  uses =
      record { view = view 1 0 16; access = Access.write }
      ∷ record { view = view 0 0 16; access = Access.read }
      ∷ [];
  lane = upload;
}

abbrev fills : Entry
fills = record {
  operation = fill_op (view 1 8 32) 0;
  uses = record { view = view 1 8 32; access = Access.write } ∷ [];
  lane = compute;
}

abbrev both : Graph
both = record { runtime = 7; entries = uploads ∷ fills ∷ [] }

copied :
    copy allocations (view 1 0 16) (view 0 0 16) (record { runtime = 7; entries = [] })
    ≡ ok (record both { entries = uploads ∷ [] }, 0)
unfolding copy
copied = refl

filled : fill allocations (view 1 8 32) 0 (record both { entries = uploads ∷ [] }) ≡ ok (both, 1)
unfolding fill
filled = refl

overlapping :
    copy allocations (view 1 0 16) (view 1 8 24) both
    ≡ err (message "copy needs equal, nonoverlapping ranges")
unfolding copy
overlapping = refl

two_regions : regions 2 false both.entries ≡ (uploads ∷ []) ∷ (fills ∷ []) ∷ []
unfolding regions
two_regions = refl

concat-regions_example : concat (regions 2 false both.entries) ≡ both.entries
concat-regions_example = concat-regions 2 false both.entries (omega arith)

abbrev plan : Prepared
plan = prepared (order 0 (λ _. []) false (regions 2 false both.entries))

is_prepared : prepare false (λ _. ok tt) both ≡ ok plan
unfolding prepare
is_prepared = refl

waits_for_upload : dependencies_of plan.operations ≡ [] ∷ (0 ∷ []) ∷ []
unfolding order regions dependencies remove use_all writes use_one use_segments sweep
    partition_point split_at touch harvest extend extend_option
waits_for_upload = refl

regions_ordered_example : Reach (rev_onto (dependencies_of plan.operations) []) 1 0
unfolding regions flat_uses writes reads_too
regions_ordered_example =
    regions_ordered false (λ _. ok tt) both plan 0 1 1 10 (uploads ∷ []) (fills ∷ []) is_prepared
      (omega arith) refl refl (omega arith) (omega arith) refl

used-prepare_example : used false 1 20 plan.uses ≡ used false 1 20 (flat_uses both.entries)
unfolding flat_uses
used-prepare_example =
    used-prepare false (λ _. ok tt) both plan false 1 20 is_prepared (omega arith)
