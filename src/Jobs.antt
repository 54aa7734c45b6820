-- ===== src/Jobs.antt =====
-- src/jobs.rs: the bounded pool of host jobs. Each access to the shared counters and to the state of a
-- job is one step.
pub mod Steps
pub mod Results
mod Tests
use hrx_rs.Common.{
  ℕ, zero, suc, ◌+◌, ◌-◌, Bool, true, false, Option, none, some, List, [], ◌∷◌, ◌++◌, if◌then◌else◌,
  ltb, ◌==◌, ◌||◌, length,
}
use hrx_rs.Common.Errors.{Error, Result, ok, err, busy, message, cancelled}

-- Where the closure of a job stands: in the queue, in its work, in its callback with the result, over.
pub data Phase : Type 0 where
  queued : Phase
  working : Phase
  notifying : Result ℕ → Phase
  over : Result ℕ → Phase

-- The state behind a `JobHandle`.
pub record Job : Type 0 where
  pub is_cancelled : Bool
  pub is_finished : Bool
  pub phase : Phase

pub record JobPool : Type 0 where
  pub live : ℕ
  pub capacity : ℕ
  pub jobs : List Job

-- `JobPool::new`, less the threads.
unfoldable pub new : ℕ → ℕ → Result JobPool
new workers capacity =
    if (workers == 0) || ltb capacity workers
    then err (message "job capacity must be >= nonzero worker count")
    else ok (record { live = 0; capacity = capacity; jobs = [] })

-- `JobHandle::cancel`
unfoldable pub cancel : Job → Job × Bool
cancel j = if j.is_finished then (j, false) else (record j { is_cancelled = true }, true)

-- `JobPool::submit`. The channel takes as many jobs as the pool; whether it takes this one is an
-- argument. When it does not, the closure is dropped, and its permit with it.
unfoldable pub submit : JobPool → Bool → JobPool × Result ℕ
submit p sent =
    if ltb p.live p.capacity
    then if sent
      then (
        record p {
          live = p.live + 1;
          jobs =
              p.jobs ++ record { is_cancelled = false; is_finished = false; phase = queued } ∷ [];
        },
        ok (length p.jobs),
      )
      else (record p { live = p.live + 1 - 1 }, err (busy "job queue unavailable"))
    else (p, err (busy "job capacity is occupied"))

-- A result is discarded when the job was cancelled meanwhile.
unfoldable pub settle : Job → Result ℕ → Job
settle j result = record j {
  is_finished = true;
  phase = notifying (if j.is_cancelled then err cancelled else result);
}

-- A worker takes the job from the queue.
unfoldable pub begin_job : Job → Job
unfolding settle
begin_job j = if j.is_cancelled then settle j (err cancelled) else record j { phase = working }

-- What the work comes to; `none` is a panic.
unfoldable pub outcome_of : Option (Result ℕ) → Result ℕ
outcome_of none = err (message "job panicked")
outcome_of (some result) = result

-- The work returns.
unfoldable pub end_job : Job → Option (Result ℕ) → Job
unfolding settle outcome_of
end_job j result = settle j (outcome_of result)

-- `Permit::drop`, after the callback.
unfoldable pub drop_permit : JobPool → JobPool
drop_permit p = record p { live = p.live - 1 }
