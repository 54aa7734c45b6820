-- ===== src/Jobs/Tests.antt =====
-- src/jobs.rs: a pool of one worker and two jobs.
use hrx_rs.Common.{◌≡◌, refl, true, false, [], ◌∷◌, none, All}
use hrx_rs.Common.Errors.{busy, message, cancelled, err}
use hrx_rs.Jobs.{
  queued, notifying, Job, JobPool, new, cancel, submit, settle, begin_job, outcome_of, end_job,
}
use hrx_rs.Jobs.Steps.{submits, cancels, begins, Reach, start, later, IsBounded, Reach-outstanding}
use hrx_rs.Jobs.Results.{Settled, Reach-Settled}

abbrev fresh : JobPool
fresh = record { live = 0; capacity = 2; jobs = [] }

abbrev waiting : Job
waiting = record { is_cancelled = false; is_finished = false; phase = queued }

abbrev busy_pool : JobPool
busy_pool = record { live = 2; capacity = 2; jobs = waiting ∷ waiting ∷ [] }

reach_busy : Reach 1 2 busy_pool
unfolding new submit
reach_busy = later (later (start fresh refl) (submits true)) (submits true)

Reach-outstanding_example : IsBounded 2 busy_pool
Reach-outstanding_example = Reach-outstanding reach_busy

refused : submit busy_pool true ≡ (busy_pool, err (busy "job capacity is occupied"))
unfolding submit
refused = refl

-- A job that is cancelled in the queue never works.
never_works :
    begin_job (cancel waiting).0
    ≡ record { is_cancelled = true; is_finished = true; phase = notifying (err cancelled) }
unfolding begin_job cancel settle
never_works = refl

abbrev one_over : JobPool
one_over = record {
  live = 2;
  capacity = 2;
  jobs =
      record { is_cancelled = true; is_finished = true; phase = notifying (err cancelled) }
      ∷ waiting
      ∷ [];
}

reach_one_over : Reach 1 2 one_over
unfolding cancel begin_job settle
reach_one_over =
    later (later reach_busy (cancels 0 waiting refl))
      (begins 0 (record waiting { is_cancelled = true }) refl refl)

Reach-Settled_example : All Settled one_over.jobs
Reach-Settled_example = Reach-Settled reach_one_over

panics : (end_job (begin_job waiting) none).phase ≡ notifying (err (message "job panicked"))
unfolding begin_job end_job settle outcome_of
panics = refl
