-- ===== src/Scheduler/Queue.antt =====
-- src/execution/scheduler.rs: `enqueue` and `remove`, which keep count of the earlier submissions that
-- a submission conflicts with.
use hrx_rs.Common.{ℕ, zero, suc, ◌-◌, Option, none, some, List, [], ◌∷◌, ◌++◌, if◌then◌else◌}
use hrx_rs.Frontier.{Use}
use hrx_rs.Summary.{conflicts}
use hrx_rs.Scheduler.State.{Pending, Scheduler}

abbrev pub next_ticket : Scheduler → ℕ × Scheduler
next_ticket s = (s.sequence, record s { sequence = suc s.sequence })

-- `filter(..).count()`
unfoldable pub count_blockers : List Use → List Pending → ℕ
count_blockers uses [] = 0
count_blockers uses (earlier ∷ rest) =
    let later = count_blockers uses rest in if conflicts earlier.uses uses then suc later else later

-- The new submission's sequence number and count of blockers are set here.
unfoldable pub enqueue : Scheduler → Pending → Scheduler
unfolding count_blockers
enqueue s job =
    let ticket = next_ticket s in
    record ticket.1 {
      pending =
          s.pending
          ++ record job { sequence = ticket.0; blockers = count_blockers job.uses s.pending } ∷ [];
    }

-- The later submissions no longer count this one.
unfoldable pub unblock : List Use → List Pending → List Pending
unblock uses [] = []
unblock uses (later ∷ rest) =
    (if conflicts uses later.uses then record later { blockers = later.blockers - 1 } else later)
    ∷ unblock uses rest

-- `Vec::remove` on the pending submissions, and the loop over those behind it. `none` is a panic.
unfoldable pub take_out : ℕ → List Pending → Option (Pending × List Pending)
take_out index [] = none
take_out zero (job ∷ rest) = some (job, unblock job.uses rest)
take_out (suc index) (job ∷ rest) = elim (take_out index rest) [
  | none ↦ none
  | some (out, jobs) ↦ some (out, job ∷ jobs)
]

-- `remove`
unfoldable pub remove : Scheduler → ℕ → Option (Pending × Scheduler)
unfolding take_out
remove s index = elim (take_out index s.pending) [
  | none ↦ none
  | some (job, jobs) ↦
      some (job, record s { pending = jobs; finishing = s.finishing ++ job.sequence ∷ [] })
]
