-- ===== src/Scheduler/Steps.antt =====
-- src/execution/scheduler.rs: the reachable states of a scheduler, whose critical sections interleave in
-- any order.
use hrx_rs.Common.{
  ℕ, zero, suc, ◌+◌, ◌≡◌, refl, ◌∙◌, subst, true, inl, inr, Option, none, some, List, [], ◌∷◌, ◌++◌,
  if◌then◌else◌, arith, Bool-cases, Option-cases, all, ◌||◌, not, ◌==◌, ◌%◌,
}
use hrx_rs.Common.Errors.{Error, ok}
use hrx_rs.Frontier.{Use}
use hrx_rs.Scheduler.{
  Pending, Scheduler, core, count_blockers, enqueue, take_out, remove, start_node, settle_node,
  Results, refresh, Scan, finishes, offers, put_back, scan, Candidates, is_target, is_done,
  is_pending, poll, offer, act, choose, start, next_action, lanes, settle, publish, acquire,
  enter_native, yield_now, release, native_ready,
}
use hrx_rs.Scheduler.Blockers.{
  Counted, Counted-append, hit, SameUses, SameUses-refl, SameUses-Counted, start_node-SameUses,
  settle_node-SameUses, take_out-Counted,
}

-- A caller asks for one submission to be given up.
abbrev pub cancel : ℕ → List Pending → List Pending
cancel signal [] = []
cancel signal (job ∷ rest) =
    (if job.signal == signal then record job { cancelled = true } else job) ∷ cancel signal rest

pub data Step (s : Scheduler) : Scheduler → Type 0 where
  -- `submit_after` resets the nodes of the slot.
  enqueues : (job : Pending) → all is_pending job.nodes ≡ true → Step s (enqueue s job)
  acts : (results : Results) (target : Option ℕ) → Step s (next_action s results target).0
  settles :
      (sequence node lane : ℕ) (failure : Option Error)
      → Step s (settle s sequence node lane failure)
  publishes : (sequence : ℕ) → Step s (publish s sequence)
  cancels : (signal : ℕ) → Step s (record s { pending = cancel signal s.pending })
  acquires : (ticket : ℕ) (t : Scheduler) → acquire s ≡ ok (ticket, t) → Step s t
  enters : (ticket : ℕ) → native_ready s ticket ≡ true → Step s (enter_native s)
  yields : Step s (yield_now s).1
  releases : Step s (release s)

pub data Reach (capacity : ℕ) : Scheduler → Type 0 where
  initial : Reach capacity (core capacity)
  later : {s t : Scheduler} → Reach capacity s → Step s t → Reach capacity t

abbrev none_before : List Use → ℕ
none_before uses = 0

abbrev pub IsCounted : Scheduler → Type 0
IsCounted s = Counted none_before s.pending

refresh-uses :
    (results : Results) (job : Pending)
    → (job.uses ≡ (refresh results job).uses) × (job.blockers ≡ (refresh results job).blockers)
unfolding refresh
refresh-uses results job = (refl, refl)

-- The submissions as a scan leaves them.
abbrev pub scanned : Scan → List Pending
scanned (finishes place failure jobs) = jobs
scanned (offers candidates jobs) = jobs

put_back-SameUses :
    (old job : Pending) (jobs : List Pending) (r : Scan)
    → old.uses ≡ job.uses
    → old.blockers ≡ job.blockers
    → SameUses jobs (scanned r)
    → SameUses (old ∷ jobs) (scanned (put_back job r))
put_back-SameUses old job jobs (finishes place failure left) e f h = (e, f, h)
put_back-SameUses old job jobs (offers candidates left) e f h = (e, f, h)

scan-SameUses :
    (s : Scheduler) (results : Results) (target : Option ℕ) (place : ℕ) (jobs : List Pending)
    (candidates : Candidates)
    → SameUses jobs (scanned (scan s results target place jobs candidates))
unfolding scan refresh
scan-SameUses s results target place [] candidates = tt
scan-SameUses s results target place (before ∷ rest) candidates =
    let job = refresh results before in
    let skip =
      put_back-SameUses before job rest _ refl refl
        (scan-SameUses s results target (suc place) rest candidates) in
    let consider = put_back-SameUses before job rest _ refl refl (
      scan-SameUses s results target (suc place) rest
        (offer s place job 0 job.operations candidates)) in
    elim (Bool-cases (all is_done job.nodes)) [
      | inl over ↦ elim (Bool-cases (is_target target job)) [
        | inl mine ↦ rw (over, mine) (refl, refl, SameUses-refl rest)
        | inr other ↦ rw (over, other) skip
      ]
      | inr active ↦
          elim (Bool-cases (not (job.blockers == 0) || (poll results job.dependencies).0)) [
            | inl blocked ↦ rw (active, blocked) skip
            | inr free ↦ rw (active, free) consider
          ]
    ]

cancel-SameUses : (signal : ℕ) (jobs : List Pending) → SameUses jobs (cancel signal jobs)
cancel-SameUses signal [] = tt
cancel-SameUses signal (job ∷ jobs) = elim (Bool-cases (job.signal == signal)) [
  | inl mine ↦ rw mine (refl, refl, cancel-SameUses signal jobs)
  | inr other ↦ rw other (refl, refl, cancel-SameUses signal jobs)
]

choose-IsCounted :
    (left offset : ℕ) (s : Scheduler) (target : Option ℕ) (candidates : Candidates)
    → IsCounted s
    → IsCounted (choose left offset s target candidates).0
unfolding choose start
choose-IsCounted zero offset s target candidates c = c
choose-IsCounted (suc left) offset s target candidates c =
    go (candidates ((s.next_lane + offset) % lanes)) refl
      (choose-IsCounted left (suc offset) s target candidates c)
  where
    go :
        (o : Option (ℕ × ℕ × Pending))
        → candidates ((s.next_lane + offset) % lanes) ≡ o
        → IsCounted (choose left (suc offset) s target candidates).0
        → IsCounted (choose (suc left) offset s target candidates).0
    go none e others = rw (e, choose) others
    go (some (place, node, job)) e others = elim (Bool-cases (is_target target job)) [
      | inl mine ↦
          rw (e, mine, choose)
            (SameUses-Counted none_before none_before s.pending (start_node s.pending place node)
              (λ uses. refl) (start_node-SameUses s.pending place node) c)
      | inr other ↦ rw (e, other, choose) others
    ]

act-IsCounted :
    (s : Scheduler) (target : Option ℕ) (r : Scan)
    → Counted none_before (scanned r)
    → IsCounted (act s target r).0
unfolding act remove
act-IsCounted s target (finishes place failure jobs) c = elim (Option-cases (take_out place jobs)) [
  | inl nothing ↦ rw (nothing, remove, act) c
  | inr ((job, left), e) ↦
      rw (e, remove, act) (take_out-Counted none_before jobs place job left c e)
]
act-IsCounted s target (offers candidates jobs) c =
    choose-IsCounted lanes 0 (record s { pending = jobs }) target candidates c

Step-IsCounted : {s t : Scheduler} → Step s t → IsCounted s → IsCounted t
unfolding enqueue settle publish acquire enter_native yield_now release next_action
Step-IsCounted {s} (enqueues job fresh) c =
    Counted-append none_before s.pending
      (record job { sequence = s.sequence; blockers = count_blockers job.uses s.pending }) c
      (omega arith)
Step-IsCounted {s} (acts results target) c =
    act-IsCounted s target (scan s results target 0 s.pending (λ _. none)) (
      SameUses-Counted none_before none_before s.pending _ (λ uses. refl)
        (scan-SameUses s results target 0 s.pending (λ _. none)) c)
Step-IsCounted {s} (settles sequence node lane failure) c =
    SameUses-Counted none_before none_before s.pending (settle_node s.pending sequence node failure)
      (λ uses. refl) (settle_node-SameUses s.pending sequence node failure) c
Step-IsCounted (publishes sequence) c = c
Step-IsCounted {s} (cancels signal) c =
    SameUses-Counted none_before none_before s.pending (cancel signal s.pending) (λ uses. refl)
      (cancel-SameUses signal s.pending) c
Step-IsCounted {s} {t} (acquires ticket u e) c =
    let same : s.pending ≡ t.pending = ground arith in subst (Counted none_before) same c
Step-IsCounted (enters ticket ready) c = c
Step-IsCounted yields c = c
Step-IsCounted releases c = c

-- The count of the earlier submissions, spelled out for one of them.
Counted-split :
    (base : List Use → ℕ) (front : List Pending) (job : Pending) (rest : List Pending)
    → Counted base (front ++ job ∷ rest)
    → job.blockers ≡ base job.uses + count_blockers job.uses front
unfolding count_blockers
Counted-split base [] job rest c = omega (arith, c.0)
Counted-split base (x ∷ front) job rest c =
    ground (arith, Counted-split (λ uses. base uses + hit x uses) front job rest c.1)

Reach-IsCounted : {capacity : ℕ} {s : Scheduler} → Reach capacity s → IsCounted s
Reach-IsCounted initial = tt
Reach-IsCounted (later r st) = Step-IsCounted st (Reach-IsCounted r)

-- In every reachable state, the blockers of a pending submission are as many as the earlier pending
-- submissions whose uses conflict with its own, in whatever order submissions were finished or given up.
pub Reach-blockers :
    {capacity : ℕ} {s : Scheduler} (front : List Pending) (job : Pending) (rest : List Pending)
    → Reach capacity s
    → s.pending ≡ front ++ job ∷ rest
    → job.blockers ≡ count_blockers job.uses front
Reach-blockers front job rest r e =
    Counted-split none_before front job rest (subst (Counted none_before) e (Reach-IsCounted r))
    ∙ omega arith
