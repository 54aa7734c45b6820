-- ===== src/Scheduler/Next.antt =====
-- src/execution/scheduler.rs: `next_action`, the choice of a submission to finish or a region to start.
use hrx_rs.Common.{
  ℕ, zero, suc, ◌+◌, ◌%◌, Bool, true, false, ◌&&◌, ◌||◌, not, Option, none, some, List, [], ◌∷◌,
  all, get_elem?, set, if◌then◌else◌, leb, ltb, ◌==◌,
}
use hrx_rs.Common.Errors.{Error, context, Result, ok, err}
use hrx_rs.Scheduler.State.{
  NodeState, pending, running, done, Region, Pending, Scheduler, lanes, compute, assign,
}
use hrx_rs.Scheduler.Queue.{remove}

-- `Completion::result` of each dependency: `none` while it is not done.
abbrev pub Results : Type 0
Results = ℕ → Option (Result (Unit {0}))

-- The loop over `job.dependencies`: whether one is waiting, and the failure that ends the loop.
unfoldable pub poll : Results → List ℕ → Bool × Option Error
poll results [] = (false, none)
poll results (dependency ∷ rest) =
    let later = poll results rest in
    elim (results dependency) [
      | none ↦ (true, later.1)
      | some (ok _) ↦ later
      | some (err e) ↦ (false, some (context "inference dependency failed" e))
    ]

abbrev pub is_done : NodeState → Bool
is_done pending = false
is_done running = false
is_done done = true

abbrev pub is_pending : NodeState → Bool
is_pending pending = true
is_pending running = false
is_pending done = false

abbrev pub is_some : Option Error → Bool
is_some none = false
is_some (some e) = true

-- The nodes that have not started are given up.
unfoldable pub give_up : List NodeState → List NodeState
give_up [] = []
give_up (node ∷ nodes) = (if is_pending node then done else node) ∷ give_up nodes

abbrev pub later_failure : Option Error → Option Error → Option Error
later_failure old none = old
later_failure old (some e) = some e

-- What a look at a submission makes of its slot.
unfoldable pub refresh : Results → Pending → Pending
unfolding poll give_up
refresh results job =
    let failure = later_failure job.failure (poll results job.dependencies).1 in
    record job {
      failure = failure;
      nodes = if job.cancelled || is_some failure then give_up job.nodes else job.nodes;
    }

-- `slot.nodes[index] == NodeState::..`
abbrev pub node_is : (NodeState → Bool) → List NodeState → ℕ → Bool
node_is test nodes index = elim (get_elem? nodes index) [ none ↦ false | some node ↦ test node ]

-- The native stage that waits in front came before the submission.
abbrev pub native_precedes : Scheduler → Pending → ℕ → Bool
native_precedes s job lane =
    (lane == compute) && elim s.native [ [] ↦ false | front ∷ rest ↦ ltb front job.sequence ]

unfoldable pub may_start : Scheduler → Pending → ℕ → Region → Bool
may_start s job index region =
    not (s.running region.lane)
    && (not (native_precedes s job region.lane)
        && (node_is is_pending job.nodes index
            && all (node_is is_done job.nodes) region.dependencies))

-- The order of `rank`: those behind the last one started on the lane go first.
abbrev pub taken_before : Option ℕ → ℕ → Bool
taken_before none sequence = false
taken_before (some last) sequence = leb sequence last

unfoldable pub ranks_before : Option ℕ → ℕ → ℕ → Bool
ranks_before last a b =
    (not (taken_before last a) && taken_before last b)
    || ((not (taken_before last a) && not (taken_before last b)
          || (taken_before last a && taken_before last b))
        && ltb a b)

-- For each lane the submission, its place and the region to start.
abbrev pub Candidates : Type 0
Candidates = ℕ → Option (ℕ × ℕ × Pending)

unfoldable pub improves : Scheduler → ℕ → ℕ → Option (ℕ × ℕ × Pending) → Bool
improves s lane sequence none = true
improves s lane sequence (some (place, index, earlier)) =
    ranks_before (s.last_started lane) sequence earlier.sequence

-- The loop over the operations of a submission.
unfoldable pub offer : Scheduler → ℕ → Pending → ℕ → List Region → Candidates → Candidates
unfolding may_start improves
offer s place job index [] candidates = candidates
offer s place job index (region ∷ rest) candidates = offer s place job (suc index) rest (
    if may_start s job index region && improves s region.lane job.sequence (candidates region.lane)
    then assign candidates region.lane (some (place, index, job))
    else candidates)

abbrev pub is_target : Option ℕ → Pending → Bool
is_target none job = true
is_target (some signal) job = signal == job.signal

-- What the loop over the pending submissions comes to, with the submissions as it leaves them.
pub data Scan : Type 0 where
  finishes : (place : ℕ) (failure : Option Error) (jobs : List Pending) → Scan
  offers : Candidates → (jobs : List Pending) → Scan

abbrev pub put_back : Pending → Scan → Scan
put_back job (finishes place failure jobs) = finishes place failure (job ∷ jobs)
put_back job (offers candidates jobs) = offers candidates (job ∷ jobs)

module _ (s : Scheduler) (results : Results) (target : Option ℕ) where
  unfoldable pub scan : ℕ → List Pending → Candidates → Scan
  unfolding refresh offer poll
  scan place [] candidates = offers candidates []
  scan place (before ∷ rest) candidates =
      let job = refresh results before in
      let skip = scan (suc place) rest candidates in
      let consider = scan (suc place) rest (offer s place job 0 job.operations candidates) in
      if all is_done job.nodes
      then if is_target target job
        then finishes place job.failure (record job { failure = none } ∷ rest)
        else put_back job skip
      else if not (job.blockers == 0) || (poll results job.dependencies).0
      then put_back job skip
      else put_back job consider

pub data Action : Type 0 where
  run : (sequence : ℕ) (node : ℕ) → Action
  finish : Pending → Option Error → Action

-- The node is set to run.
unfoldable pub start_node : List Pending → ℕ → ℕ → List Pending
start_node [] place node = []
start_node (job ∷ jobs) zero node = record job { nodes = set job.nodes node running } ∷ jobs
start_node (job ∷ jobs) (suc place) node = job ∷ start_node jobs place node

unfoldable pub start : Scheduler → ℕ → ℕ → ℕ → Pending → Scheduler × Option Action
unfolding start_node
start s lane place node job = (
  record s {
    pending = start_node s.pending place node;
    running = assign s.running lane true;
    last_started = assign s.last_started lane (some job.sequence);
    next_lane = (lane + 1) % lanes;
  },
  some (run job.sequence node),
)

-- The loop over the lanes, `left` of which are to come.
unfoldable pub choose : ℕ → ℕ → Scheduler → Option ℕ → Candidates → Scheduler × Option Action
unfolding start
choose zero offset s target candidates = (s, none)
choose (suc left) offset s target candidates =
    let later = choose left (suc offset) s target candidates in
    let lane = (s.next_lane + offset) % lanes in
    elim (candidates lane) [
      | none ↦ later
      | some (place, node, job) ↦
          if is_target target job then start s lane place node job else later
    ]

-- The place is that of a submission, so that its removal does not fail.
unfoldable pub act : Scheduler → Option ℕ → Scan → Scheduler × Option Action
unfolding choose
act s target (finishes place failure jobs) = elim (remove (record s { pending = jobs }) place) [
  | none ↦ (record s { pending = jobs }, none)
  | some (job, rest) ↦ (rest, some (finish job failure))
]
act s target (offers candidates jobs) =
    choose lanes 0 (record s { pending = jobs }) target candidates

-- `next_action`
unfoldable pub next_action : Scheduler → Results → Option ℕ → Scheduler × Option Action
unfolding act scan
next_action s results target = act s target (scan s results target 0 s.pending (λ _. none))
