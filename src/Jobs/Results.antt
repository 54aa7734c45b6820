-- ===== src/Jobs/Results.antt =====
-- src/jobs.rs: what the callback of a job is given.
use hrx_rs.Common.{
  ℕ, zero, suc, ◌≡◌, refl, sym, ap, Bool, true, false, some, List, [], ◌∷◌, if◌then◌else◌, ltb,
  ◌==◌, ◌||◌, get_elem?, set, arith, Bool-cases, inl, inr, subst, All, All-append,
}
use hrx_rs.Common.Errors.{Result, err, cancelled}
use hrx_rs.Jobs.{
  Phase, queued, working, notifying, over, Job, JobPool, new, cancel, submit, settle, begin_job,
  outcome_of, end_job, drop_permit,
}
use hrx_rs.Jobs.Steps.{Step, submits, cancels, begins, ends, notified, Reach, start, later}

-- A job is finished from its result on, and a job that is cancelled has no result but `Cancelled`.
abbrev pub SettledAs : Bool → Bool → Phase → Type 0
SettledAs is_cancelled is_finished queued = is_finished ≡ false
SettledAs is_cancelled is_finished working = is_finished ≡ false
SettledAs is_cancelled is_finished (notifying result) =
    (is_finished ≡ true) × (is_cancelled ≡ true → result ≡ err cancelled)
SettledAs is_cancelled is_finished (over result) =
    (is_finished ≡ true) × (is_cancelled ≡ true → result ≡ err cancelled)

abbrev pub Settled : Job → Type 0
Settled j = SettledAs j.is_cancelled j.is_finished j.phase

All-set :
    (P : Job → Type 0) (jobs : List Job) (i : ℕ) (j : Job) → All P jobs → P j → All P (set jobs i j)
All-set P [] i j a p = tt
All-set P (x ∷ jobs) zero j a p = (p, a.1)
All-set P (x ∷ jobs) (suc i) j a p = (a.0, All-set P jobs i j a.1 p)

All-get_elem? :
    (P : Job → Type 0) (jobs : List Job) (i : ℕ) (j : Job)
    → All P jobs
    → get_elem? jobs i ≡ some j
    → P j
All-get_elem? P [] i j a h = absurd (ground arith)
All-get_elem? P (x ∷ jobs) zero j a h = let same : x ≡ j = ground arith in subst P same a.0
All-get_elem? P (x ∷ jobs) (suc i) j a h = All-get_elem? P jobs i j a.1 h

settle-Settled : (j : Job) (result : Result ℕ) → Settled (settle j result)
unfolding settle
settle-Settled j result = (refl, λ c. rw c refl)

unfinished :
    (is_cancelled other : Bool) (phase : Phase)
    → SettledAs is_cancelled false phase
    → SettledAs other false phase
unfinished is_cancelled other queued s = s
unfinished is_cancelled other working s = s
unfinished is_cancelled other (notifying result) s = absurd (ground (arith, s.0))
unfinished is_cancelled other (over result) s = absurd (ground (arith, s.0))

cancelled_if : Bool → Job → Job
cancelled_if b j =
    let r : Job × Bool = if b then (j, false) else (record j { is_cancelled = true }, true) in r.0

cancel_finished : (j : Job) → j.is_finished ≡ true → (cancel j).0 ≡ j
unfolding cancel cancelled_if
cancel_finished j h = ap (λ b. cancelled_if b j) h

cancel_going : (j : Job) → j.is_finished ≡ false → (cancel j).0 ≡ record j { is_cancelled = true }
unfolding cancel cancelled_if
cancel_going j h = ap (λ b. cancelled_if b j) h

cancel-Settled : (j : Job) → Settled j → Settled (cancel j).0
cancel-Settled j s = elim (Bool-cases j.is_finished) [
  | inl finished ↦ subst Settled (sym (cancel_finished j finished)) s
  | inr going ↦ subst Settled (sym (cancel_going j going)) (
      subst (λ b. SettledAs true b j.phase) (sym going)
        (unfinished j.is_cancelled true j.phase
          (subst (λ b. SettledAs j.is_cancelled b j.phase) going s)))
]

begin_cancelled : (j : Job) → j.is_cancelled ≡ true → begin_job j ≡ settle j (err cancelled)
unfolding begin_job
begin_cancelled j h =
    ap (λ b. if b then settle j (err cancelled) else record j { phase = working }) h

begin_going : (j : Job) → j.is_cancelled ≡ false → begin_job j ≡ record j { phase = working }
unfolding begin_job
begin_going j h = ap (λ b. if b then settle j (err cancelled) else record j { phase = working }) h

begin_job-Settled : (j : Job) → j.phase ≡ queued → Settled j → Settled (begin_job j)
begin_job-Settled j is_queued s = elim (Bool-cases j.is_cancelled) [
  | inl given_up ↦
      subst Settled (sym (begin_cancelled j given_up)) (settle-Settled j (err cancelled))
  | inr going ↦
      subst Settled (sym (begin_going j going))
        (subst (SettledAs j.is_cancelled j.is_finished) is_queued s)
]

submit-Settled :
    (p : JobPool) (sent : Bool) → All Settled p.jobs → All Settled (submit p sent).0.jobs
unfolding submit
submit-Settled p true a = elim (Bool-cases (ltb p.live p.capacity)) [
  | inl room ↦ rw (room, submit) (All-append Settled p.jobs _ a (refl, tt))
  | inr full ↦ rw (full, submit) a
]
submit-Settled p false a = elim (Bool-cases (ltb p.live p.capacity)) [
  | inl room ↦ rw (room, submit) a
  | inr full ↦ rw (full, submit) a
]

Step-Settled : {p q : JobPool} → Step p q → All Settled p.jobs → All Settled q.jobs
unfolding end_job drop_permit
Step-Settled {p} (submits sent) a = submit-Settled p sent a
Step-Settled {p} (cancels i j at_i) a =
    All-set Settled p.jobs i (cancel j).0 a
      (cancel-Settled j (All-get_elem? Settled p.jobs i j a at_i))
Step-Settled {p} (begins i j at_i is_queued) a =
    All-set Settled p.jobs i (begin_job j) a
      (begin_job-Settled j is_queued (All-get_elem? Settled p.jobs i j a at_i))
Step-Settled {p} (ends i j result at_i is_working) a =
    All-set Settled p.jobs i (end_job j result) a (settle-Settled j (outcome_of result))
Step-Settled {p} (notified i j result at_i was) a =
    All-set Settled p.jobs i (record j { phase = over result }) a
      (subst (SettledAs j.is_cancelled j.is_finished) was (All-get_elem? Settled p.jobs i j a at_i))

-- In every reachable state of a pool, a job is finished exactly when its work has returned or was
-- skipped, and the result that its callback is given is `Cancelled` whenever the job is cancelled: a
-- cancellation that comes after the work returned is refused.
pub Reach-Settled :
    {workers capacity : ℕ} {p : JobPool} → Reach workers capacity p → All Settled p.jobs
unfolding new
Reach-Settled {workers} {capacity} (start p e) =
    elim (Bool-cases ((workers == 0) || ltb capacity workers)) [
      | inl bad ↦ absurd (ground arith)
      | inr good ↦
          let made : ◌≡◌ {A = JobPool} (record { live = 0; capacity = capacity; jobs = [] }) p =
            ground arith in
          subst (λ (p : JobPool). All Settled p.jobs) made tt
    ]
Reach-Settled (later r st) = Step-Settled st (Reach-Settled r)
