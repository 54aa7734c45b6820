-- ===== src/Scheduler/Exclusive.antt =====
-- src/execution/scheduler.rs: submissions that conflict do not run at the same time.
use hrx_rs.Common.{
  ℕ, zero, suc, ◌+◌, ◌%◌, ◌≡◌, refl, sym, ◌∙◌, subst, Bool, true, false, inl, inr, Option, none,
  some, List, [], ◌∷◌, ◌++◌, In, All, All-append, any, all, get_elem?, set, arith, Bool-cases,
  Option-cases, ◌||◌, not, ◌==◌,
}
use hrx_rs.Common.Errors.{Error}
use hrx_rs.Frontier.{Use}
use hrx_rs.Summary.{conflicts}
use hrx_rs.Summary.Sweep.{Canonical, conflicts-cross}
use hrx_rs.Summary.Conflicts.{conflict_at, conflict_at-cross}
use hrx_rs.Scheduler.{
  NodeState, pending, running, done, Pending, Scheduler, count_blockers, enqueue, unblock, take_out,
  remove, start_node, settle_node, Results, give_up, refresh, Scan, finishes, offers, put_back,
  scan, Candidates, is_target, is_done, is_pending, poll, offer, act, choose, start, next_action,
  lanes, settle, publish, acquire, enter_native, yield_now, release,
}
use hrx_rs.Scheduler.Steps.{
  Step, enqueues, acts, settles, publishes, cancels, acquires, enters, yields, releases, cancel,
  Reach, initial, later, Reach-blockers, scanned,
}
use hrx_rs.Scheduler.Starts.{scan-CanStart}

abbrev pub is_running : NodeState → Bool
is_running pending = false
is_running running = true
is_running done = false

abbrev pub runs : Pending → Bool
runs job = any is_running job.nodes

-- What runs is not blocked.
abbrev IsFree : Pending → Type 0
IsFree job = runs job ≡ true → job.blockers ≡ 0

running-give_up : (nodes : List NodeState) → any is_running (give_up nodes) ≡ any is_running nodes
unfolding give_up
running-give_up [] = refl
running-give_up (pending ∷ nodes) = running-give_up nodes
running-give_up (running ∷ nodes) = refl
running-give_up (done ∷ nodes) = running-give_up nodes

refresh-IsFree : (results : Results) (job : Pending) → IsFree job → IsFree (refresh results job)
unfolding refresh
refresh-IsFree results job free h = free (ground (arith, running-give_up job.nodes))

running-set_done :
    (nodes : List NodeState) (node : ℕ)
    → any is_running (set nodes node done) ≡ true
    → any is_running nodes ≡ true
running-set_done [] node h = h
running-set_done (x ∷ nodes) zero h = ground arith
running-set_done (x ∷ nodes) (suc node) h = ground (arith, running-set_done nodes node)

put_back-IsFree :
    (job : Pending) (r : Scan)
    → IsFree job
    → All IsFree (scanned r)
    → All IsFree (scanned (put_back job r))
put_back-IsFree job (finishes place failure jobs) free all_free = (free, all_free)
put_back-IsFree job (offers candidates jobs) free all_free = (free, all_free)

scan-IsFree :
    (s : Scheduler) (results : Results) (target : Option ℕ) (place : ℕ) (jobs : List Pending)
    (candidates : Candidates)
    → All IsFree jobs
    → All IsFree (scanned (scan s results target place jobs candidates))
unfolding scan
scan-IsFree s results target place [] candidates free = tt
scan-IsFree s results target place (before ∷ rest) candidates free =
    let job = refresh results before in
    let own = refresh-IsFree results before free.0 in
    let skip =
      put_back-IsFree job _ own (scan-IsFree s results target (suc place) rest candidates free.1) in
    let consider = put_back-IsFree job _ own (
      scan-IsFree s results target (suc place) rest (offer s place job 0 job.operations candidates)
        free.1) in
    elim (Bool-cases (all is_done job.nodes)) [
      | inl over ↦ elim (Bool-cases (is_target target job)) [
        | inl mine ↦ rw (over, mine) (own, free.1)
        | inr other ↦ rw (over, other) skip
      ]
      | inr active ↦
          elim (Bool-cases (not (job.blockers == 0) || (poll results job.dependencies).0)) [
            | inl blocked ↦ rw (active, blocked) skip
            | inr free_now ↦ rw (active, free_now) consider
          ]
    ]

unblock-IsFree :
    (uses : List Use) (jobs : List Pending) → All IsFree jobs → All IsFree (unblock uses jobs)
unfolding unblock
unblock-IsFree uses [] free = tt
unblock-IsFree uses (job ∷ rest) free = elim (Bool-cases (conflicts uses job.uses)) [
  | inl counted ↦ rw counted ((λ h. omega (arith, free.0 h)), unblock-IsFree uses rest free.1)
  | inr other ↦ rw other (free.0, unblock-IsFree uses rest free.1)
]

take_out-IsFree :
    (jobs : List Pending) (index : ℕ) (out : Pending) (left : List Pending)
    → All IsFree jobs
    → take_out index jobs ≡ some (out, left)
    → All IsFree left
unfolding take_out
take_out-IsFree [] index out left free h = absurd (ground arith)
take_out-IsFree (job ∷ rest) zero out left free h =
    let e : unblock job.uses rest ≡ left = ground arith in
    subst (All IsFree) e (unblock-IsFree job.uses rest free.1)
take_out-IsFree (job ∷ rest) (suc index) out left free h =
    elim (Option-cases (take_out index rest)) [
      | inl nothing ↦ absurd (ground arith)
      | inr ((o, jobs), e) ↦
          let same : job ∷ jobs ≡ left = ground arith in
          subst (All IsFree) same (free.0, take_out-IsFree rest index o jobs free.1 e)
    ]

start_node-IsFree :
    (jobs : List Pending) (place node : ℕ) (job : Pending)
    → All IsFree jobs
    → get_elem? jobs place ≡ some job
    → job.blockers ≡ 0
    → All IsFree (start_node jobs place node)
unfolding start_node
start_node-IsFree [] place node job free h b = absurd (ground arith)
start_node-IsFree (x ∷ jobs) zero node job free h b =
    let same : x ≡ job = ground arith in ((λ _. rw same b), free.1)
start_node-IsFree (x ∷ jobs) (suc place) node job free h b =
    (free.0, start_node-IsFree jobs place node job free.1 h b)

settle_node-IsFree :
    (jobs : List Pending) (sequence node : ℕ) (failure : Option Error)
    → All IsFree jobs
    → All IsFree (settle_node jobs sequence node failure)
unfolding settle_node
settle_node-IsFree [] sequence node failure free = tt
settle_node-IsFree (job ∷ jobs) sequence node failure free =
    elim (Bool-cases (job.sequence == sequence)) [
      | inl mine ↦ rw mine (
        (λ h. free.0 (running-set_done job.nodes node h)),
        settle_node-IsFree jobs sequence node failure free.1,
      )
      | inr other ↦ rw other (free.0, settle_node-IsFree jobs sequence node failure free.1)
    ]

cancel-IsFree :
    (signal : ℕ) (jobs : List Pending) → All IsFree jobs → All IsFree (cancel signal jobs)
cancel-IsFree signal [] free = tt
cancel-IsFree signal (job ∷ jobs) free = elim (Bool-cases (job.signal == signal)) [
  | inl mine ↦ rw mine (free.0, cancel-IsFree signal jobs free.1)
  | inr other ↦ rw other (free.0, cancel-IsFree signal jobs free.1)
]

pending-IsFree :
    (nodes : List NodeState) → all is_pending nodes ≡ true → any is_running nodes ≡ false
pending-IsFree [] h = refl
pending-IsFree (pending ∷ nodes) h = pending-IsFree nodes h
pending-IsFree (running ∷ nodes) h = absurd (ground arith)
pending-IsFree (done ∷ nodes) h = absurd (ground arith)

-- The candidates are submissions that are not blocked, at their places.
abbrev AreFree : List Pending → Candidates → Type 0
AreFree jobs candidates =
    (lane place node : ℕ) (job : Pending)
    → candidates lane ≡ some (place, node, job)
    → (get_elem? jobs place ≡ some job) × (job.blockers ≡ 0)

choose-IsFree :
    (left offset : ℕ) (s : Scheduler) (target : Option ℕ) (candidates : Candidates)
    → All IsFree s.pending
    → AreFree s.pending candidates
    → All IsFree (choose left offset s target candidates).0.pending
unfolding choose start
choose-IsFree zero offset s target candidates free able = free
choose-IsFree (suc left) offset s target candidates free able =
    elim (Option-cases (candidates ((s.next_lane + offset) % lanes))) [
      | inl e ↦ rw (e, choose) (choose-IsFree left (suc offset) s target candidates free able)
      | inr ((place, node, job), e) ↦ elim (Bool-cases (is_target target job)) [
        | inl mine ↦
            let (stands, unblocked) = able ((s.next_lane + offset) % lanes) place node job e in
            rw (e, mine, choose) (start_node-IsFree s.pending place node job free stands unblocked)
        | inr other ↦
            rw (e, other, choose) (choose-IsFree left (suc offset) s target candidates free able)
      ]
    ]

act-IsFree :
    (s : Scheduler) (target : Option ℕ) (r : Scan)
    → All IsFree (scanned r)
    → ((candidates : Candidates) (jobs : List Pending)
        → r ≡ offers candidates jobs
        → AreFree jobs candidates)
    → All IsFree (act s target r).0.pending
unfolding act remove
act-IsFree s target (finishes place failure jobs) free able =
    elim (Option-cases (take_out place jobs)) [
      | inl nothing ↦ rw (nothing, remove, act) free
      | inr ((job, left), e) ↦ rw (e, remove, act) (take_out-IsFree jobs place job left free e)
    ]
act-IsFree s target (offers candidates jobs) free able =
    choose-IsFree lanes 0 (record s { pending = jobs }) target candidates free
      (able candidates jobs refl)

scan-AreFree :
    (s : Scheduler) (results : Results) (target : Option ℕ) (candidates : Candidates)
    (jobs : List Pending)
    → scan s results target 0 s.pending (λ _. none) ≡ offers candidates jobs
    → AreFree jobs candidates
scan-AreFree s results target candidates jobs e lane place node job h =
    elim (scan-CanStart s results target 0 s.pending (λ _. none) candidates jobs lane place node job
      e h) [
        | inl before ↦ absurd (ground arith)
        | inr (k, at_place, stands, can) ↦
            let here : place ≡ k = omega arith in (rw here stands, can.unblocked)
      ]

Step-IsFree : {s t : Scheduler} → Step s t → All IsFree s.pending → All IsFree t.pending
unfolding enqueue settle publish acquire enter_native yield_now release next_action
Step-IsFree {s} (enqueues job fresh) free =
    All-append IsFree s.pending _ free
      ((λ h. absurd (ground (arith, pending-IsFree job.nodes fresh))), tt)
Step-IsFree {s} (acts results target) free =
    act-IsFree s target (scan s results target 0 s.pending (λ _. none))
      (scan-IsFree s results target 0 s.pending (λ _. none) free)
      (λ candidates jobs e. scan-AreFree s results target candidates jobs e)
Step-IsFree {s} (settles sequence node lane failure) free =
    settle_node-IsFree s.pending sequence node failure free
Step-IsFree (publishes sequence) free = free
Step-IsFree {s} (cancels signal) free = cancel-IsFree signal s.pending free
Step-IsFree {s} {t} (acquires ticket u e) free =
    let same : s.pending ≡ t.pending = ground arith in subst (All IsFree) same free
Step-IsFree (enters ticket ready) free = free
Step-IsFree yields free = free
Step-IsFree releases free = free

Reach-IsFree : {capacity : ℕ} {s : Scheduler} → Reach capacity s → All IsFree s.pending
Reach-IsFree initial = tt
Reach-IsFree (later r st) = Step-IsFree st (Reach-IsFree r)

All-middle :
    (front : List Pending) (job : Pending) (rest : List Pending)
    → All IsFree (front ++ job ∷ rest)
    → IsFree job
All-middle [] job rest free = free.0
All-middle (x ∷ front) job rest free = All-middle front job rest free.1

count_none :
    (uses : List Use) (jobs : List Pending) (earlier : Pending)
    → count_blockers uses jobs ≡ 0
    → In earlier jobs
    → conflicts earlier.uses uses ≡ false
unfolding count_blockers
count_none uses [] earlier h m = elim m [ ]
count_none uses (job ∷ jobs) earlier h m = elim (Bool-cases (conflicts job.uses uses)) [
  | inl hit ↦ absurd (ground arith)
  | inr clear ↦ elim m [
    | inl e ↦ rw e clear
    | inr rest ↦ count_none uses jobs earlier (ground arith) rest
  ]
]

-- In every reachable state, while a region of a submission runs, no byte is used by it and by a
-- submission that is pending before it, running or not, with one of the two writing the byte, when the
-- uses of both are summaries.
pub running_exclusive :
    {capacity : ℕ} {s : Scheduler} (front : List Pending) (job : Pending) (rest : List Pending)
    (earlier : Pending) (id p : ℕ)
    → Reach capacity s
    → s.pending ≡ front ++ job ∷ rest
    → runs job ≡ true
    → In earlier front
    → Canonical earlier.uses
    → Canonical job.uses
    → conflict_at id p earlier.uses job.uses ≡ false
running_exclusive front job rest earlier id p r e active m ce cj =
    let unblocked = All-middle front job rest (subst (All IsFree) e (Reach-IsFree r)) active in
    let none_conflicts = sym (Reach-blockers front job rest r e) ∙ unblocked in
    let apart = count_none job.uses front earlier none_conflicts m in
    elim (Bool-cases (conflict_at id p earlier.uses job.uses)) [
      | inr clear ↦ clear
      | inl clash ↦
          let crossed = conflict_at-cross id p earlier.uses job.uses clash in
          let pairs = conflicts-cross earlier.uses job.uses ce cj in
          absurd (ground (arith, sym apart ∙ pairs ∙ crossed))
    ]
