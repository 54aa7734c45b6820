-- ===== src/Scheduler/Settle.antt =====
-- src/execution/scheduler.rs: `perform`, the two critical sections behind the work itself.
use hrx_rs.Common.{ℕ, false, Option, List, [], ◌∷◌, set, if◌then◌else◌, ◌==◌}
use hrx_rs.Common.Errors.{Error}
use hrx_rs.Scheduler.State.{done, Pending, Scheduler, assign}
use hrx_rs.Scheduler.Next.{later_failure}

-- The node of the submission is done, and its failure is kept.
unfoldable pub settle_node : List Pending → ℕ → ℕ → Option Error → List Pending
settle_node [] sequence node failure = []
settle_node (job ∷ jobs) sequence node failure =
    (if job.sequence == sequence
      then record job {
        nodes = set job.nodes node done;
        failure = later_failure job.failure failure;
      }
      else job)
    ∷ settle_node jobs sequence node failure

-- `Action::Run`, after the region ran on its lane.
unfoldable pub settle : Scheduler → ℕ → ℕ → ℕ → Option Error → Scheduler
unfolding settle_node
settle s sequence node lane failure = record s {
  running = assign s.running lane false;
  pending = settle_node s.pending sequence node failure;
}

-- The order of the finishing submissions is never read.
unfoldable pub drop_finishing : ℕ → List ℕ → List ℕ
drop_finishing sequence [] = []
drop_finishing sequence (other ∷ rest) =
    if other == sequence then rest else other ∷ drop_finishing sequence rest

-- `Action::Finish`, when the completion is published.
unfoldable pub publish : Scheduler → ℕ → Scheduler
unfolding drop_finishing
publish s sequence = record s { finishing = drop_finishing sequence s.finishing }
