-- ===== src/Scheduler/Tests.antt =====
-- src/execution/scheduler.rs: three submissions, of which the second waits for the first.
use hrx_rs.Common.{ℕ, if◌then◌else◌, ◌==◌, ◌≡◌, refl, false, none, some, inl, [], ◌∷◌, arith}
use hrx_rs.Common.Errors.{Error, err, cancelled, context}
use hrx_rs.Access.{Access, writes}
use hrx_rs.Frontier.{Use}
use hrx_rs.Summary.{conflicts, stay}
use hrx_rs.Scheduler.{
  pending, running, done, finish, Pending, Scheduler, core, count_blockers, enqueue, Results,
  refresh, scan, poll, give_up, offer, may_start, improves, ranks_before, act, choose, start,
  start_node, next_action, run, settle, settle_node, take_out, unblock, remove,
}
use hrx_rs.Scheduler.Steps.{enqueues, acts, Reach, initial, later, Reach-blockers}
use hrx_rs.Scheduler.Starts.{Started, next_action-Started}
use hrx_rs.Scheduler.Exclusive.{running_exclusive}
use hrx_rs.Summary.Conflicts.{conflict_at}

abbrev usage : ℕ → ℕ → Access → Use
usage lo hi access = record {
  allocation = 0;
  range = record { start = lo; end = hi };
  access = access;
}

-- One region on the compute lane.
abbrev submission : ℕ → Use → Pending
submission signal use_of = record {
  sequence = 0;
  signal = signal;
  uses = use_of ∷ [];
  operations = record { lane = 1; dependencies = [] } ∷ [];
  blockers = 0;
  dependencies = [];
  cancelled = false;
  nodes = pending ∷ [];
  failure = none;
}

abbrev first : Pending
first = submission 10 (usage 0 32 Access.write)

abbrev second : Pending
second = submission 11 (usage 16 48 Access.read)

queued : Scheduler
queued = enqueue (enqueue (core 8) first) second

reach_queued : Reach 8 queued
unfolding queued
reach_queued = later (later initial (enqueues first refl)) (enqueues second refl)

Reach-blockers_example : 1 ≡ count_blockers (usage 16 48 Access.read ∷ []) (first ∷ [])
unfolding queued enqueue count_blockers conflicts stay writes
Reach-blockers_example =
    Reach-blockers (first ∷ []) (record second { sequence = 1; blockers = 1 }) [] reach_queued refl

abbrev nothing_done : Results
nothing_done completion = none

next_action-Started_example :
    Started queued (next_action queued nothing_done none).0 nothing_done 0 0
unfolding queued enqueue count_blockers conflicts stay writes next_action act scan refresh poll
    give_up offer may_start improves ranks_before choose start start_node
next_action-Started_example = next_action-Started nothing_done none 0 0 reach_queued refl

-- A submission that waits for two completions, of which one has failed and the other is not over.
abbrev one_failed : Results
one_failed completion = if completion == 8 then some (err cancelled) else none

abbrev waiting : Pending
waiting = record first { dependencies = 7 ∷ 8 ∷ [] }

abbrev lost : Error
lost = context "inference dependency failed" cancelled

gives_up :
    (next_action (record queued { pending = waiting ∷ [] }) one_failed none).1
    ≡ some (finish (record waiting { nodes = done ∷ []; failure = none }) (some lost))
unfolding queued enqueue count_blockers conflicts stay writes next_action act scan refresh poll
    give_up offer may_start improves ranks_before choose start start_node remove take_out
gives_up = refl

-- While the first one runs, nothing else starts; when it is done it is finished, and then the second starts.
abbrev one_running : Scheduler
one_running = (next_action queued nothing_done none).0

abbrev one_done : Scheduler
one_done = settle one_running 0 0 1 none

nothing_starts : (next_action one_running nothing_done none).1 ≡ none
unfolding queued enqueue count_blockers conflicts stay writes next_action act scan refresh poll
    give_up offer may_start improves ranks_before choose start start_node
nothing_starts = refl

second_starts :
    (next_action (next_action one_done nothing_done none).0 nothing_done none).1 ≡ some (run 1 0)
unfolding queued enqueue count_blockers conflicts stay writes next_action act scan refresh poll
    give_up offer may_start improves ranks_before choose start start_node settle settle_node remove
    take_out unblock
second_starts = refl

-- A write beside those of the first one, on another lane, runs at the same time.
abbrev beside : Pending
beside = record (submission 12 (usage 40 64 Access.write)) {
  operations = record { lane = 0; dependencies = [] } ∷ [];
}

abbrev both_queued : Scheduler
both_queued = enqueue (enqueue (core 8) first) beside

abbrev both_running : Scheduler
both_running = (next_action (next_action both_queued nothing_done none).0 nothing_done none).0

reach_running : Reach 8 both_running
reach_running =
    later
      (later (later (later initial (enqueues first refl)) (enqueues beside refl))
        (acts nothing_done none))
      (acts nothing_done none)

running_exclusive_example :
    conflict_at 0 20 (usage 0 32 Access.write ∷ []) (usage 40 64 Access.write ∷ []) ≡ false
unfolding enqueue count_blockers conflicts stay writes next_action act scan refresh poll give_up
    offer may_start improves ranks_before choose start start_node
running_exclusive_example =
    running_exclusive {s = both_running} (record first { nodes = running ∷ [] } ∷ [])
      (record beside { sequence = 1; nodes = running ∷ [] }) []
      (record first { nodes = running ∷ [] }) 0 20 reach_running refl refl (inl refl)
      (omega arith, tt, tt) (omega arith, tt, tt)
