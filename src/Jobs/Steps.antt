-- ===== src/Jobs/Steps.antt =====
-- src/jobs.rs: the reachable states of a pool.
use hrx_rs.Common.{
  ℕ, zero, suc, ◌+◌, ◌≡◌, ◌≤◌, refl, sym, ◌∙◌, ap, Bool, true, false, Option, some, List, [], ◌∷◌,
  ◌++◌, ltb, ◌==◌, ◌||◌, get_elem?, set, arith, Bool-cases, inl, inr, subst,
}
use hrx_rs.Common.Errors.{Result, ok}
use hrx_rs.Jobs.{
  Phase, queued, working, notifying, over, Job, JobPool, new, cancel, submit, settle, begin_job,
  end_job, drop_permit,
}

abbrev pub put : JobPool → ℕ → Job → JobPool
put p i j = record p { jobs = set p.jobs i j }

pub data Step (p : JobPool) : JobPool → Type 0 where
  submits : (sent : Bool) → Step p (submit p sent).0
  cancels : (i : ℕ) (j : Job) → get_elem? p.jobs i ≡ some j → Step p (put p i (cancel j).0)
  begins :
      (i : ℕ) (j : Job)
      → get_elem? p.jobs i ≡ some j
      → j.phase ≡ queued
      → Step p (put p i (begin_job j))
  ends :
      (i : ℕ) (j : Job) (result : Option (Result ℕ))
      → get_elem? p.jobs i ≡ some j
      → j.phase ≡ working
      → Step p (put p i (end_job j result))
  notified :
      (i : ℕ) (j : Job) (result : Result ℕ)
      → get_elem? p.jobs i ≡ some j
      → j.phase ≡ notifying result
      → Step p (drop_permit (put p i (record j { phase = over result })))

pub data Reach (workers capacity : ℕ) : JobPool → Type 0 where
  start : (p : JobPool) → new workers capacity ≡ ok p → Reach workers capacity p
  later : {p q : JobPool} → Reach workers capacity p → Step p q → Reach workers capacity q

abbrev pub is_live : Phase → ℕ
is_live queued = 1
is_live working = 1
is_live (notifying result) = 1
is_live (over result) = 0

-- The jobs whose callback has not returned.
abbrev pub count_live : List Job → ℕ
count_live [] = 0
count_live (j ∷ jobs) = is_live j.phase + count_live jobs

pub record IsBounded (capacity : ℕ) (p : JobPool) : Type 0 where
  pub same_capacity : p.capacity ≡ capacity
  pub counted : p.live ≡ count_live p.jobs
  pub bound : p.live ≤ capacity

count_live-append :
    (jobs : List Job) (j : Job) → count_live (jobs ++ j ∷ []) ≡ count_live jobs + is_live j.phase
count_live-append [] j = omega arith
count_live-append (x ∷ jobs) j = omega (arith, count_live-append jobs j)

count_live-set :
    (jobs : List Job) (i : ℕ) (old next : Job)
    → get_elem? jobs i ≡ some old
    → count_live (set jobs i next) + is_live old.phase ≡ count_live jobs + is_live next.phase
count_live-set [] i old next h = absurd (ground arith)
count_live-set (x ∷ jobs) zero old next h =
    let same : x ≡ old = ground arith in rw same (omega arith)
count_live-set (x ∷ jobs) (suc i) old next h = omega (arith, count_live-set jobs i old next h)

put-IsBounded :
    (capacity : ℕ) (p : JobPool) (i : ℕ) (old next : Job)
    → IsBounded capacity p
    → get_elem? p.jobs i ≡ some old
    → is_live next.phase ≡ is_live old.phase
    → IsBounded capacity (put p i next)
put-IsBounded capacity p i old next v at_i same = record {
  same_capacity = v.same_capacity;
  counted = omega (arith, v.counted, count_live-set p.jobs i old next at_i);
  bound = v.bound;
}

submit-IsBounded :
    (capacity : ℕ) (p : JobPool) (sent : Bool)
    → IsBounded capacity p
    → IsBounded capacity (submit p sent).0
unfolding submit
submit-IsBounded capacity p true v = elim (Bool-cases (ltb p.live p.capacity)) [
  | inl room ↦
      rw (room, submit)
        (record {
          same_capacity = v.same_capacity;
          counted = omega (
            arith,
            v.counted,
            count_live-append p.jobs
                (record { is_cancelled = false; is_finished = false; phase = queued }),
          );
          bound = ground (arith, v.same_capacity);
        })
  | inr full ↦ rw (full, submit) v
]
submit-IsBounded capacity p false v = elim (Bool-cases (ltb p.live p.capacity)) [
  | inl room ↦
      rw (room, submit)
        (record {
          same_capacity = v.same_capacity;
          counted = omega (arith, v.counted);
          bound = omega (arith, v.bound);
        })
  | inr full ↦ rw (full, submit) v
]

cancel-live : (j : Job) → is_live (cancel j).0.phase ≡ is_live j.phase
unfolding cancel
cancel-live j = elim (Bool-cases j.is_finished) [
  | inl finished ↦ rw (finished, cancel) refl
  | inr going ↦ rw (going, cancel) refl
]

begin_job-live : (j : Job) → is_live (begin_job j).phase ≡ 1
unfolding begin_job settle
begin_job-live j = elim (Bool-cases j.is_cancelled) [
  | inl given_up ↦ rw (given_up, begin_job) refl
  | inr going ↦ rw (going, begin_job) refl
]

Step-IsBounded :
    (capacity : ℕ) {p q : JobPool} → Step p q → IsBounded capacity p → IsBounded capacity q
unfolding end_job settle drop_permit
Step-IsBounded capacity {p} (submits sent) v = submit-IsBounded capacity p sent v
Step-IsBounded capacity {p} (cancels i j at_i) v =
    put-IsBounded capacity p i j (cancel j).0 v at_i (cancel-live j)
Step-IsBounded capacity {p} (begins i j at_i is_queued) v =
    put-IsBounded capacity p i j (begin_job j) v at_i
      (begin_job-live j ∙ sym (ap is_live is_queued))
Step-IsBounded capacity {p} (ends i j result at_i is_working) v =
    put-IsBounded capacity p i j (end_job j result) v at_i (sym (ap is_live is_working))
Step-IsBounded capacity {p} (notified i j result at_i was) v = record {
  same_capacity = v.same_capacity;
  counted = omega (
    arith,
    v.counted,
    ap is_live was,
    count_live-set p.jobs i j (record j { phase = over result }) at_i,
  );
  bound = omega (arith, v.bound);
}

-- In every reachable state the outstanding jobs of a pool are those whose callback has not returned, and
-- there are at most `capacity` of them.
pub Reach-outstanding :
    {workers capacity : ℕ} {p : JobPool} → Reach workers capacity p → IsBounded capacity p
unfolding new
Reach-outstanding {workers} {capacity} (start p e) =
    elim (Bool-cases ((workers == 0) || ltb capacity workers)) [
      | inl bad ↦ absurd (ground arith)
      | inr good ↦
          let made : ◌≡◌ {A = JobPool} (record { live = 0; capacity = capacity; jobs = [] }) p =
            ground arith in
          subst (IsBounded capacity) made
            (record { same_capacity = refl; counted = refl; bound = omega arith })
    ]
Reach-outstanding {capacity = capacity} (later r st) =
    Step-IsBounded capacity st (Reach-outstanding r)
