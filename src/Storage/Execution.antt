-- ===== src/Storage/Execution.antt =====
-- src/storage/mod.rs: `execute` ends, with a result for each of its jobs.
use hrx_rs.Common.{
  ℕ, zero, suc, ◌+◌, ◌≤◌, ◌<◌, ◌≡◌, ◌≢◌, refl, sym, ap, subst, ◌∙◌, inl, inr, Bool, true, false,
  ◌||◌, Option, none, some, List, [], ◌∷◌, map, All, All-append, leb, ◌==◌, get_elem?, get_elem?-lt,
  set, length, length-set, arith, Bool-cases,
}
use hrx_rs.Common.Int.{ℤ, pos, negsuc}
use hrx_rs.Common.Errors.{Result, ok, err, Result-cases}
use hrx_rs.Storage.{RegisteredFile, is_ragged}
use hrx_rs.Storage.Session.{Request}
use hrx_rs.Storage.Service.{required}
use hrx_rs.Storage.Retries.{
  Batch, Pass, nth, as_i32, alignment_of, verdict, visit_job, visit_all, attempts_of, run_pass,
  retry_loop, count_up, execute,
}

-- More of one request is done, and no less of the others.
nth-set_le : (values : List ℕ) (i n j : ℕ) → nth values j ≤ nth (set values i (nth values i + n)) j
nth-set_le [] i n j = omega arith
nth-set_le (v ∷ values) zero n zero = omega arith
nth-set_le (v ∷ values) zero n (suc j) = omega arith
nth-set_le (v ∷ values) (suc i) n zero = omega arith
nth-set_le (v ∷ values) (suc i) n (suc j) = nth-set_le values i n j

nth-set_self : (values : List ℕ) (i v : ℕ) → i < length values → nth (set values i v) i ≡ v
nth-set_self [] i v h = absurd (omega arith)
nth-set_self (x ∷ values) zero v h = refl
nth-set_self (x ∷ values) (suc i) v h = nth-set_self values i v (omega arith)

get_elem?-All :
    (P : Request → Type 0) (xs : List Request) (i : ℕ) (x : Request)
    → get_elem? xs i ≡ some x
    → All P xs
    → P x
get_elem?-All P [] i x h a = absurd (ground arith)
get_elem?-All P (y ∷ ys) zero x h a = let same : y ≡ x = ground arith in subst P same a.0
get_elem?-All P (y ∷ ys) (suc i) x h a = get_elem?-All P ys i x h a.1

module _ (files : List RegisteredFile) (jobs : List Request) (bound : ℕ) where
  -- Whatever is to be retried has `k` bytes, which are less than a slot holds.
  record IsPass (k : ℕ) (st : Pass) : Type 0 where
    one_each : length st.completed ≡ length jobs
    answers : length st.results ≡ length jobs
    moved : All (λ i. k ≤ nth st.completed i) st.retry
    short : st.retry ≢ [] → k < bound

  All-raise :
      (k : ℕ) (completed : List ℕ) (i n : ℕ) (xs : List ℕ)
      → All (λ j. k ≤ nth completed j) xs
      → All (λ j. k ≤ nth (set completed i (nth completed i + n)) j) xs
  All-raise k completed i n [] a = tt
  All-raise k completed i n (x ∷ xs) a =
      (omega (arith, a.0, nth-set_le completed i n x), All-raise k completed i n xs a.1)

  verdict-IsPass :
      (k : ℕ) (done stuck writing : Bool) (i : ℕ) (st : Pass)
      → (done ≡ false → stuck ≡ false → (k ≤ nth st.completed i) × (k < bound))
      → IsPass k st
      → IsPass k (verdict done stuck writing i st)
  verdict-IsPass k true stuck writing i st again h = h
  verdict-IsPass k false true true i st again h = record {
    one_each = h.one_each;
    answers = length-set st.results i (negsuc 4) ∙ h.answers;
    moved = h.moved;
    short = h.short;
  }
  verdict-IsPass k false true false i st again h = record {
    one_each = h.one_each;
    answers = h.answers;
    moved = h.moved;
    short = h.short;
  }
  verdict-IsPass k false false writing i st again h = record {
    one_each = h.one_each;
    answers = h.answers;
    moved =
        All-append (λ j. k ≤ nth st.completed j) st.retry (i ∷ []) h.moved
          ((again refl refl).0, tt);
    short = λ x. (again refl refl).1;
  }

  -- One result, for a job that has moved in every round before.
  visit_job-IsPass :
      (k : ℕ) (job : Option Request) (i : ℕ) (result : ℤ) (st : Pass)
      → get_elem? jobs i ≡ job
      → All (λ r. required r ≤ bound) jobs
      → k ≤ nth st.completed i
      → IsPass (suc k) st
      → IsPass (suc k) (visit_job files job i result st)
  visit_job-IsPass k none i result st found fits before h = h
  visit_job-IsPass k (some job) i (negsuc n) st found fits before h = record {
    one_each = h.one_each;
    answers = length-set st.results i (negsuc n) ∙ h.answers;
    moved = h.moved;
    short = h.short;
  }
  visit_job-IsPass k (some job) i (pos n) st found fits before h =
      let c = nth st.completed i + n in
      let read_back : nth (set st.completed i c) i ≡ c =
        nth-set_self st.completed i c (omega (arith, h.one_each, get_elem?-lt jobs i job found)) in
      verdict-IsPass (suc k) (leb (required job) c)
        ((n == 0) || is_ragged (alignment_of files job.extent.file) c) job.extent.writing i _
        (λ under again.
          let some_bytes : 0 < n = ground arith in
          let less : c < required job = ground arith in
          let within = get_elem?-All (λ r. required r ≤ bound) jobs i job found fits in
          (omega arith, omega arith))
        (record {
          one_each = length-set st.completed i c ∙ h.one_each;
          answers = length-set st.results i (as_i32 c) ∙ h.answers;
          moved = All-raise (suc k) st.completed i n st.retry h.moved;
          short = h.short;
        })

  verdict_completed :
      (done stuck writing : Bool) (i : ℕ) (st : Pass)
      → (verdict done stuck writing i st).completed ≡ st.completed
  verdict_completed true stuck writing i st = refl
  verdict_completed false true writing i st = refl
  verdict_completed false false writing i st = refl

  visit_job-le :
      (job : Option Request) (i : ℕ) (result : ℤ) (st : Pass) (j : ℕ)
      → nth st.completed j ≤ nth (visit_job files job i result st).completed j
  visit_job-le none i result st j = omega arith
  visit_job-le (some job) i (negsuc n) st j = omega arith
  visit_job-le (some job) i (pos n) st j =
      let c = nth st.completed i + n in
      omega (
        arith,
        nth-set_le st.completed i n j,
        ap (λ x. nth x j)
            (verdict_completed (leb (required job) c)
              ((n == 0) || is_ragged (alignment_of files job.extent.file) c) job.extent.writing i
              (record st {
                completed = set st.completed i c;
                results = set st.results i (as_i32 c);
              })),
      )

  All-le :
      (k : ℕ) (before after : List ℕ) (xs : List ℕ)
      → ((j : ℕ) → nth before j ≤ nth after j)
      → All (λ j. k ≤ nth before j) xs
      → All (λ j. k ≤ nth after j) xs
  All-le k before after [] le a = tt
  All-le k before after (x ∷ xs) le a = (omega (arith, le x, a.0), All-le k before after xs le a.1)

  visit_all-IsPass :
      (k : ℕ) (remaining : List ℕ) (results : List ℤ) (st : Pass)
      → All (λ r. required r ≤ bound) jobs
      → All (λ j. k ≤ nth st.completed j) remaining
      → IsPass (suc k) st
      → IsPass (suc k) (visit_all files jobs remaining results st)
  unfolding visit_all
  visit_all-IsPass k [] results st fits a h = h
  visit_all-IsPass k (i ∷ remaining) [] st fits a h = h
  visit_all-IsPass k (i ∷ remaining) (result ∷ results) st fits a h =
      let job = get_elem? jobs i in
      visit_all-IsPass k remaining results (visit_job files job i result st) fits
        (All-le k st.completed (visit_job files job i result st).completed remaining
          (visit_job-le job i result st) a.1)
        (visit_job-IsPass k job i result st refl fits a.0 h)

  -- The loop ends while fuel is left.
  retry_loop-ends :
      (batch : Batch) (fuel k : ℕ) (completed : List ℕ) (results : List ℤ) (remaining : List ℕ)
      → All (λ r. required r ≤ bound) jobs
      → length completed ≡ length jobs
      → length results ≡ length jobs
      → All (λ j. k ≤ nth completed j) remaining
      → (remaining ≢ [] → k ≤ bound)
      → 0 < fuel
      → bound + 2 ≤ fuel + k
      → (answer : Result (List ℤ)) × (retry_loop files batch jobs fuel k completed results remaining
          ≡ some answer)
        × ((given : List ℤ) → answer ≡ ok given → length given ≡ length jobs)
  unfolding retry_loop
  retry_loop-ends batch zero k completed results remaining fits lc lr a early positive enough =
      absurd (omega arith)
  retry_loop-ends batch (suc fuel) k completed results [] fits lc lr a early positive enough = (
    ok results,
    refl,
    λ given e. let same : results ≡ given = ground arith in ap length (sym same) ∙ lr,
  )
  retry_loop-ends batch (suc fuel) k completed results (i ∷ more) fits lc lr a early positive
        enough =
      elim (Result-cases (batch k (attempts_of jobs completed (i ∷ more)))) [
        | inr (e, refused) ↦
            (err e, rw (retry_loop, refused) refl, λ given x. absurd (ground arith))
        | inl (returned, answered) ↦
            let done = run_pass files jobs completed results (i ∷ more) returned in
            let within = early (λ x. absurd (ground arith)) in
            let h : IsPass (suc k) done =
              visit_all-IsPass k (i ∷ more) returned
                (record { completed = completed; results = results; retry = []; failed = false })
                fits a
                (record {
                  one_each = lc;
                  answers = lr;
                  moved = tt;
                  short = λ x. absurd (x refl);
                }) in
            elim (Bool-cases done.failed) [
              | inl failed ↦ (
                ok done.results,
                rw (retry_loop, answered) (rw failed refl),
                λ given e.
                    let same : done.results ≡ given = ground arith in
                    ap length (sym same) ∙ h.answers,
              )
              | inr fine ↦
                  let step : suc k ≡ k + 1 = omega arith in
                  let (answer, ends, counts) =
                    retry_loop-ends batch fuel (k + 1) done.completed done.results done.retry fits
                      h.one_each h.answers
                      (subst (λ n. All (λ j. n ≤ nth done.completed j) done.retry) step h.moved)
                      (λ x. omega (arith, h.short x)) (omega arith) (omega arith) in
                  (answer, rw (retry_loop, answered) (rw fine ends), counts)
            ]
      ]

length-map_const :
    {B : Type 0} (v : B) (jobs : List Request) → length (map (λ job. v) jobs) ≡ length jobs
length-map_const v [] = refl
length-map_const v (job ∷ jobs) = ap suc (length-map_const v jobs)

All-zero : (values xs : List ℕ) → All (λ j. 0 ≤ nth values j) xs
All-zero values [] = tt
All-zero values (x ∷ xs) = (omega arith, All-zero values xs)

-- If the bytes that each job needs fit a slot, then `execute` ends within its rounds whatever the batches
-- return, and unless a batch fails as a whole there is one result for each job.
pub execute-answers :
    (files : List RegisteredFile) (batch : Batch) (jobs : List Request) (slot_bytes : ℕ)
    → All (λ r. required r ≤ slot_bytes) jobs
    → (answer : Result (List ℤ)) × (execute files batch jobs slot_bytes ≡ some answer)
      × ((results : List ℤ) → answer ≡ ok results → length results ≡ length jobs)
unfolding execute
execute-answers files batch jobs slot_bytes fits =
    retry_loop-ends files jobs slot_bytes batch (slot_bytes + 2) 0 (map (λ job. 0) jobs)
      (map (λ job. pos 0) jobs) (count_up 0 jobs) fits (length-map_const 0 jobs)
      (length-map_const (pos 0) jobs) (All-zero _ (count_up 0 jobs)) (λ x. omega arith)
      (omega arith) (omega arith)
