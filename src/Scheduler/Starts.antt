-- ===== src/Scheduler/Starts.antt =====
-- src/execution/scheduler.rs: what holds of a region when it is started.
use hrx_rs.Common.{
  ℕ, zero, suc, ◌+◌, ◌%◌, ◌≡◌, refl, sym, ap, ◌∙◌, subst, true, false, ◌⊎◌, inl, inr, Option, none,
  some, List, [], ◌∷◌, ◌++◌, get_elem?, set, arith, Bool-cases, Option-cases, all, ◌&&◌, ◌||◌, not,
  ◌==◌, ◌≢◌, All,
}
use hrx_rs.Common.Errors.{Error, ok, err}
use hrx_rs.Scheduler.{
  NodeState, pending, running, done, give_up, later_failure, is_some, Region, Pending, Scheduler,
  count_blockers, Results, refresh, Scan, finishes, offers, put_back, scan, Candidates, is_target,
  is_done, is_pending, node_is, poll, offer, may_start, improves, act, choose, start, start_node,
  next_action, Action, run, lanes, take_out, remove, native_precedes,
}
use hrx_rs.Scheduler.Steps.{acts, Reach, later, Reach-blockers}

-- A region of a submission that may be started.
pub record CanStart (s : Scheduler) (results : Results) (lane node : ℕ) (job : Pending)
    : Type 0 where
  pub region : Region
  pub stands : get_elem? job.operations node ≡ some region
  pub on_lane : region.lane ≡ lane
  pub may : may_start s job node region ≡ true
  pub unblocked : job.blockers ≡ 0
  pub completed : All (λ d. results d ≡ some (ok tt)) job.dependencies
  pub alive : (job.cancelled ≡ false) × (job.failure ≡ none)

-- A loop that waits for none and meets no failure has seen every dependency complete.
poll-completed :
    (results : Results) (dependencies : List ℕ)
    → (poll results dependencies).0 ≡ false
    → (poll results dependencies).1 ≡ none
    → All (λ d. results d ≡ some (ok tt)) dependencies
unfolding poll
poll-completed results [] waits fails = tt
poll-completed results (d ∷ rest) waits fails = elim (Option-cases (results d)) [
  | inl pending_still ↦ absurd (ground (arith, pending_still))
  | inr (ok u, e) ↦ (e, poll-completed results rest (rw (e, poll) at waits) (rw (e, poll) at fails))
  | inr (err failure, e) ↦ absurd (ground (arith, e))
]

give_up-none_pending :
    (nodes : List NodeState) (n : ℕ) → node_is is_pending (give_up nodes) n ≡ false
unfolding give_up
give_up-none_pending [] n = refl
give_up-none_pending (pending ∷ nodes) zero = refl
give_up-none_pending (running ∷ nodes) zero = refl
give_up-none_pending (done ∷ nodes) zero = refl
give_up-none_pending (node ∷ nodes) (suc n) = give_up-none_pending nodes n

later_failure-none :
    (old new : Option Error) → later_failure old new ≡ none → (old ≡ none) × (new ≡ none)
later_failure-none old none h = (h, refl)
later_failure-none old (some e) h = absurd (ground arith)

is_some-none : (failure : Option Error) → is_some failure ≡ false → failure ≡ none
is_some-none none h = refl
is_some-none (some e) h = absurd (ground arith)

-- A submission with a node that is still pending after a look at it was neither cancelled nor failed.
refresh-alive :
    (results : Results) (job : Pending) (n : ℕ)
    → node_is is_pending (refresh results job).nodes n ≡ true
    → (job.cancelled ≡ false) × ((refresh results job).failure ≡ none)
unfolding refresh
refresh-alive results job n h =
    let failure = later_failure job.failure (poll results job.dependencies).1 in
    elim (Bool-cases (job.cancelled || is_some failure)) [
      | inl over ↦
          let gone : node_is is_pending (give_up job.nodes) n ≡ true = rw over at h in
          absurd (ground (arith, give_up-none_pending job.nodes n))
      | inr going ↦ (ground arith, is_some-none failure (ground arith))
    ]

refresh-completed :
    (results : Results) (job : Pending)
    → (refresh results job).failure ≡ none
    → (poll results job.dependencies).0 ≡ false
    → All (λ d. results d ≡ some (ok tt)) job.dependencies
unfolding refresh
refresh-completed results job fine waits =
    poll-completed results job.dependencies waits
      (later_failure-none job.failure (poll results job.dependencies).1 fine).1

may_start-alive :
    (s : Scheduler) (results : Results) (job : Pending) (n : ℕ) (r : Region)
    → may_start s (refresh results job) n r ≡ true
    → (poll results job.dependencies).0 ≡ false
    → ((job.cancelled ≡ false) × ((refresh results job).failure ≡ none))
      × All (λ d. results d ≡ some (ok tt)) job.dependencies
unfolding may_start
may_start-alive s results job n r may waits =
    let alive = refresh-alive results job n (ground arith) in
    (alive, refresh-completed results job alive.1 waits)

-- A candidate that an offer brings.
offer-region :
    (s : Scheduler) (place : ℕ) (job : Pending) (index : ℕ) (regions : List Region) (c : Candidates)
    (lane p n : ℕ) (j : Pending)
    → offer s place job index regions c lane ≡ some (p, n, j)
    → (c lane ≡ some (p, n, j))
      ⊎ ((k : ℕ) × (r : Region) × (p ≡ place)
          × (j ≡ job)
          × (n ≡ index + k)
          × (get_elem? regions k ≡ some r)
          × (r.lane ≡ lane)
          × (may_start s job n r ≡ true))
unfolding offer
offer-region s place job index [] c lane p n j h = inl h
offer-region s place job index (region ∷ rest) c lane p n j h =
    elim (offer-region s place job (suc index) rest _ lane p n j h) [
      | inr (k, r, at_place, same, at_index, stands, on_lane, may) ↦
          inr (suc k, r, at_place, same, omega arith, stands, on_lane, may)
      | inl assigned ↦
          elim (Bool-cases
            (may_start s job index region && improves s region.lane job.sequence (c region.lane))) [
              | inr no_change ↦ inl (rw no_change at assigned)
              | inl better ↦ elim (Bool-cases (lane == region.lane)) [
                | inr other_lane ↦ inl (ground (arith, rw better at assigned))
                | inl this_lane ↦
                    let e : ◌≡◌ {A = Option (ℕ × ℕ × Pending)} (some (place, index, job))
                        (some (p, n, j)) =
                      ground (arith, rw better at assigned) in
                    let at_index : n ≡ index = ground (arith, e) in
                    inr (
                      0,
                      region,
                      ground (arith, e),
                      ground (arith, e),
                      omega (arith, at_index),
                      refl,
                      ground arith,
                      rw at_index (ground (arith, better)),
                    )
              ]
            ]
    ]

abbrev candidates_of : Scan → Candidates
candidates_of (finishes place failure jobs) = λ _. none
candidates_of (offers c jobs) = c

put_back-offers :
    (job : Pending) (r : Scan) (c : Candidates) (js : List Pending)
    → put_back job r ≡ offers c js
    → (js' : List Pending) × (r ≡ offers c js') × (js ≡ job ∷ js')
put_back-offers job (finishes place failure jobs) c js h = absurd (ground arith)
put_back-offers job (offers c' jobs) c js h =
    (jobs, ap (λ d. offers d jobs) (ap candidates_of h), ground arith)

pass :
    (s : Scheduler) (results : Results) (place lane p n : ℕ) (j : Pending)
    (old : Option (ℕ × ℕ × Pending)) (job : Pending) (js js' : List Pending)
    → js ≡ job ∷ js'
    → (old ≡ some (p, n, j))
      ⊎ ((k : ℕ) × (p ≡ suc place + k) × (get_elem? js' k ≡ some j) × CanStart s results lane n j)
    → (old ≡ some (p, n, j))
      ⊎ ((k : ℕ) × (p ≡ place + k) × (get_elem? js k ≡ some j) × CanStart s results lane n j)
pass s results place lane p n j old job js js' same (inl e) = inl e
pass s results place lane p n j old job js js' same (inr (k, at_place, stands, start)) =
    inr (suc k, omega arith, rw same stands, start)

offered-CanStart :
    (s : Scheduler) (results : Results) (place : ℕ) (before : Pending) (c : Candidates)
    (lane p n : ℕ) (j : Pending) (js js' : List Pending)
    → (not (before.blockers == 0) || (poll results before.dependencies).0) ≡ false
    → js ≡ refresh results before ∷ js'
    → offer s place (refresh results before) 0 (refresh results before).operations c lane
      ≡ some (p, n, j)
    → (c lane ≡ some (p, n, j))
      ⊎ ((k : ℕ) × (p ≡ place + k) × (get_elem? js k ≡ some j) × CanStart s results lane n j)
unfolding refresh
offered-CanStart s results place before c lane p n j js js' free same offered =
    elim (offer-region s place (refresh results before) 0 (refresh results before).operations c lane
      p n j offered) [
        | inl old ↦ inl old
        | inr (k, r, at_place, is_job, at_index, stands, on_lane, may) ↦
            let looked = may_start-alive s results before n r may (ground arith) in
            inr (
              0,
              omega arith,
              rw (same, is_job) refl,
              record {
                region = r;
                stands = let at_k : n ≡ k = omega arith in rw (is_job, at_k) stands;
                on_lane = on_lane;
                may = rw is_job may;
                unblocked = rw is_job (ground arith);
                completed = rw is_job looked.1;
                alive = rw is_job looked.0;
              },
            )
      ]

-- The candidates of a scan stand at their places and may be started.
pub scan-CanStart :
    (s : Scheduler) (results : Results) (target : Option ℕ) (place : ℕ) (jobs : List Pending)
    (c c' : Candidates) (js : List Pending) (lane p n : ℕ) (j : Pending)
    → scan s results target place jobs c ≡ offers c' js
    → c' lane ≡ some (p, n, j)
    → (c lane ≡ some (p, n, j))
      ⊎ ((k : ℕ) × (p ≡ place + k) × (get_elem? js k ≡ some j) × CanStart s results lane n j)
unfolding scan
scan-CanStart s results target place [] c c' js lane p n j h e =
    let same : c lane ≡ c' lane = ap (λ r. candidates_of r lane) h in inl (same ∙ e)
scan-CanStart s results target place (before ∷ rest) c c' js lane p n j h e =
    elim (Bool-cases (all is_done (refresh results before).nodes)) [
      | inl over ↦ elim (Bool-cases (is_target target (refresh results before))) [
        | inl mine ↦ absurd (ground arith)
        | inr other ↦
            let (js', r, same) =
              put_back-offers (refresh results before) (scan s results target (suc place) rest c) c'
                js (rw (over, other) at h) in
            pass s results place lane p n j (c lane) (refresh results before) js js' same
              (scan-CanStart s results target (suc place) rest c c' js' lane p n j r e)
      ]
      | inr active ↦
          elim (Bool-cases (not (before.blockers == 0) || (poll results before.dependencies).0)) [
            | inl blocked ↦
                let (js', r, same) =
                  put_back-offers (refresh results before)
                    (scan s results target (suc place) rest c) c' js (rw (active, blocked) at h) in
                pass s results place lane p n j (c lane) (refresh results before) js js' same
                  (scan-CanStart s results target (suc place) rest c c' js' lane p n j r e)
            | inr free ↦
                let d =
                  offer s place (refresh results before) 0 (refresh results before).operations c in
                let (js', r, same) =
                  put_back-offers (refresh results before)
                    (scan s results target (suc place) rest d) c' js (rw (active, free) at h) in
                elim (pass s results place lane p n j (d lane) (refresh results before) js js' same
                  (scan-CanStart s results target (suc place) rest d c' js' lane p n j r e)) [
                    | inr found ↦ inr found
                    | inl offered ↦
                        offered-CanStart s results place before c lane p n j js js' free same
                          offered
                  ]
          ]
    ]

start_node-split :
    (jobs : List Pending) (place node : ℕ) (job : Pending)
    → get_elem? jobs place ≡ some job
    → (front : List Pending) × (rest : List Pending) × (start_node jobs place node
        ≡ front ++ record job { nodes = set job.nodes node running } ∷ rest)
unfolding start_node
start_node-split [] place node job h = absurd (ground arith)
start_node-split (j ∷ jobs) zero node job h =
    let same : j ≡ job = ground arith in
    ([], jobs, ap (λ (x : Pending). record x { nodes = set x.nodes node running } ∷ jobs) same)
start_node-split (j ∷ jobs) (suc place) node job h =
    let (front, rest, e) = start_node-split jobs place node job h in
    (j ∷ front, rest, ap (λ xs. j ∷ xs) e)

choose-run :
    (left offset : ℕ) (s t : Scheduler) (target : Option ℕ) (c : Candidates) (sequence node : ℕ)
    → choose left offset s target c ≡ (t, some (run sequence node))
    → (lane : ℕ) × (place : ℕ) × (job : Pending) × (c lane ≡ some (place, node, job))
      × (job.sequence ≡ sequence)
      × ((start s lane place node job).0 ≡ t)
unfolding choose start
choose-run zero offset s t target c sequence node h = absurd (ground arith)
choose-run (suc left) offset s t target c sequence node h =
    elim (Option-cases (c ((s.next_lane + offset) % lanes))) [
      | inl e ↦ choose-run left (suc offset) s t target c sequence node (rw (e, choose) at h)
      | inr ((place, n, job), e) ↦ elim (Bool-cases (is_target target job)) [
        | inl mine ↦
            let started = rw (e, mine, choose) at h in
            let acted : ◌≡◌ {A = Option Action} (some (run job.sequence n))
                (some (run sequence node)) =
              ap (λ (x : Scheduler × Option Action). x.1) started in
            let same : n ≡ node = ground (arith, acted) in
            let left : (start s ((s.next_lane + offset) % lanes) place n job).0 ≡ t =
              ap (λ (x : Scheduler × Option Action). x.0) started in
            (
              (s.next_lane + offset) % lanes,
              place,
              job,
              rw same at e,
              ground (arith, acted),
              rw same at left,
            )
        | inr other ↦
            choose-run left (suc offset) s t target c sequence node (rw (e, other, choose) at h)
      ]
    ]

-- What `next_action` started, in the state it leaves.
pub record Started (s t : Scheduler) (results : Results) (sequence node : ℕ) : Type 0 where
  pub front : List Pending
  pub job : Pending
  pub rest : List Pending
  pub region : Region
  pub pending_now : t.pending ≡ front ++ record job { nodes = set job.nodes node running } ∷ rest
  pub sequence_is : job.sequence ≡ sequence
  pub stands : get_elem? job.operations node ≡ some region
  pub no_earlier : count_blockers job.uses front ≡ 0
  pub completed : All (λ d. results d ≡ some (ok tt)) job.dependencies
  pub alive : (job.cancelled ≡ false) × (job.failure ≡ none)
  pub lane_was_free : s.running region.lane ≡ false
  pub lane_taken : t.running region.lane ≡ true
  pub native_waits : native_precedes s job region.lane ≡ false
  pub node_pending : node_is is_pending job.nodes node ≡ true
  pub after_regions : all (node_is is_done job.nodes) region.dependencies ≡ true

Started-from :
    {capacity : ℕ} {s t : Scheduler} (results : Results) (target : Option ℕ) (c : Candidates)
    (js : List Pending) (sequence node lane place : ℕ) (job : Pending)
    → Reach capacity s
    → (next_action s results target).0 ≡ t
    → get_elem? js place ≡ some job
    → job.sequence ≡ sequence
    → CanStart s results lane node job
    → (start (record s { pending = js }) lane place node job).0 ≡ t
    → Started s t results sequence node
unfolding start may_start
Started-from {s = s} {t} results target c js sequence node lane place job r here stands is_sequence
      can left =
    let (front, rest, e) = start_node-split js place node job stands in
    let pending_now = sym (ap (λ (x : Scheduler). x.pending) left) ∙ e in
    let counted =
      Reach-blockers front (record job { nodes = set job.nodes node running }) rest
        (subst (Reach _) here (later r (acts results target))) pending_now in
    record {
      front = front;
      job = job;
      rest = rest;
      region = can.region;
      pending_now = pending_now;
      sequence_is = is_sequence;
      stands = can.stands;
      no_earlier = sym counted ∙ can.unblocked;
      completed = can.completed;
      alive = can.alive;
      lane_was_free = ground (arith, can.may);
      lane_taken =
          sym (ap (λ (x : Scheduler). x.running can.region.lane) left)
          ∙ ground (arith, can.on_lane);
      native_waits = ground (arith, can.may);
      node_pending = ground (arith, can.may);
      after_regions = ground (arith, can.may);
    }

finishes_none :
    (s t : Scheduler) (target : Option ℕ) (place : ℕ) (failure : Option Error) (jobs : List Pending)
    (sequence node : ℕ)
    → act s target (finishes place failure jobs) ≢ (t, some (run sequence node))
unfolding act remove
finishes_none s t target place failure jobs sequence node h =
    elim (Option-cases (take_out place jobs)) [
      | inl nothing ↦ absurd (ground arith)
      | inr (taken, e) ↦ absurd (ground arith)
    ]

-- When a region is started in a reachable state, no earlier pending submission conflicts with its
-- submission, every dependency of the submission has completed without an error, the submission is neither
-- cancelled nor failed, the region's lane was free and is now taken, on the compute lane no native stage
-- that came before is waiting, the region had not run and those it waits for are done.
pub next_action-Started :
    {capacity : ℕ} {s t : Scheduler} (results : Results) (target : Option ℕ) (sequence node : ℕ)
    → Reach capacity s
    → next_action s results target ≡ (t, some (run sequence node))
    → Started s t results sequence node
unfolding next_action act
next_action-Started {capacity} {s} {t} results target sequence node r h =
    go (scan s results target 0 s.pending (λ _. none)) refl
  where
    go :
        (found : Scan)
        → scan s results target 0 s.pending (λ _. none) ≡ found
        → Started s t results sequence node
    go (finishes place failure jobs) e =
        absurd (
          finishes_none s t target place failure jobs sequence node (sym (ap (act s target) e) ∙ h))
    go (offers c js) e =
        let (lane, place, job, chosen, is_sequence, left) =
          choose-run lanes 0 (record s { pending = js }) t target c sequence node
            (sym (ap (act s target) e) ∙ h) in
        elim (scan-CanStart s results target 0 s.pending (λ _. none) c js lane place node job e
          chosen) [
            | inl before ↦ absurd (ground arith)
            | inr (k, at_place, stands, can) ↦
                let here : place ≡ k = omega arith in
                Started-from results target c js sequence node lane place job r
                  (ap (λ (x : Scheduler × Option Action). x.0) h) (rw here stands) is_sequence can
                  left
          ]
